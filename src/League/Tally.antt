-- ===== src/League/Tally.antt =====
-- The scores of a league (the action `Score` in crates/league/src/governance.rs): what an event adds,
-- and that it counts once.
use union_core.Prelude.{
  ◌≡◌, ◌⊎◌, inl, inr, sym, subst, arith, String, true, false, Option, none, some, ==_refl, text_key,
  ok, Error, protocol, List, [], ◌∷◌, try_fold, Option-cases, Result-cases,
}
use union_core.Prelude.Dict
use union_core.Prelude.Dict.{Dict}
use union_core.Prelude.Entries
use union_core.Prelude.Set
use union_core.Prelude.Int.{ℤ, ◌+ℤ◌, checked_add_i64, checked_add_i64-some, fits_i64}
use union_core.League.State.{League, Hashing, is_playing}
use union_core.League.Scores.{adjust, adjust_player, score, record_score, score_overflow}

-- What a change does to the score of an id, and what no change does.
abbrev pub Added : String → Dict String ℤ → Dict String ℤ → Option ℤ → Type 0
Added id before after none = Dict.lookup id after ≡ Dict.lookup id before
Added id before after (some delta) =
    (old : ℤ) × (Dict.lookup id before ≡ some old)
    × (Dict.lookup id after ≡ some (old +ℤ delta))
    × (fits_i64 (old +ℤ delta) ≡ true)

Added-from :
    (id : String) (a b after : Dict String ℤ) (o : Option ℤ)
    → Dict.lookup id b ≡ Dict.lookup id a
    → Added id b after o
    → Added id a after o
Added-from id a b after none e h = ground arith
Added-from id a b after (some delta) e (old, found, new, fits) = (old, ground arith, new, fits)

adjust_lem :
    (e : Error) (scores : Dict String ℤ) (id : String) (delta : ℤ) (after : Dict String ℤ)
    → adjust e scores (id, delta) ≡ ok after
    → (old : ℤ) × (Dict.lookup id scores ≡ some old)
      × (after ≡ Dict.insert id (old +ℤ delta) scores)
      × (fits_i64 (old +ℤ delta) ≡ true)
unfolding adjust
adjust_lem e scores id delta after h = elim (Option-cases (Dict.lookup id scores)) [
  | inl missing ↦ absurd (ground arith)
  | inr (old, found) ↦ elim (Option-cases (checked_add_i64 old delta)) [
    | inl full ↦ absurd (ground arith)
    | inr (sum, e) ↦
        let (same, fits) = checked_add_i64-some old delta sum e in
        (old, found, ground arith, ground arith)
  ]
]

-- An id that the changes do not name keeps its score.
unnamed :
    (e : Error) (ds : Dict String ℤ) (scores after : Dict String ℤ) (id : String)
    → try_fold (adjust e) scores ds ≡ ok after
    → Dict.contains id ds ≡ false
    → Dict.lookup id after ≡ Dict.lookup id scores
unfolding try_fold Dict.lookup
unnamed e [] scores after id h c = ground arith
unnamed e ((j, delta) ∷ ds) scores after id h c = elim (Result-cases (adjust e scores (j, delta))) [
  | inr (x, bad) ↦ absurd (ground arith)
  | inl (mid, first) ↦
      let (old, found, new, fits) = adjust_lem e scores j delta mid first in
      ground (arith, unnamed e ds mid after id, new, Dict.lookup-insert id j (old +ℤ delta) scores)
]

-- Every id that the changes name once gets its change, within the machine's integers.
pub adjust-adds :
    (e : Error) (ds : Dict String ℤ) (scores after : Dict String ℤ) (id : String)
    → Entries.IsDistinct ds
    → try_fold (adjust e) scores ds ≡ ok after
    → Added id scores after (Dict.lookup id ds)
unfolding try_fold Dict.lookup
adjust-adds e [] scores after id d h = ground arith
adjust-adds e ((j, delta) ∷ ds) scores after id d h =
    elim (Result-cases (adjust e scores (j, delta))) [
      | inr (x, bad) ↦ absurd (ground arith)
      | inl (mid, first) ↦
          let (old, found, new, fits) = adjust_lem e scores j delta mid first in
          elim (text_key.same id j) [
            | yes same ↦
                let rest : try_fold (adjust e) mid ds ≡ ok after = ground arith in
                let here : Dict.lookup id ((j, delta) ∷ ds) ≡ some delta = ground arith in
                subst (Added id scores after) (sym here) (
                  old,
                  ground arith,
                  ground (
                    arith,
                    d.0,
                    unnamed e ds mid after id rest,
                    Dict.lookup-insert id j (old +ℤ delta) scores,
                  ),
                  fits,
                )
            | no other ↦
                let rest : try_fold (adjust e) mid ds ≡ ok after = ground arith in
                let there : Dict.lookup id ((j, delta) ∷ ds) ≡ Dict.lookup id ds = ground arith in
                subst (Added id scores after) (sym there) (
                  Added-from id scores mid after (Dict.lookup id ds)
                    (ground (arith, Dict.lookup-insert id j (old +ℤ delta) scores))
                    (adjust-adds e ds mid after id d.1 rest))
          ]
    ]

-- The players' loop checks that each has played, and adds as the other does.
pub adjust_player-adjust :
    (absent e : Error) (played : List String) (ds scores after : Dict String ℤ)
    → try_fold (adjust_player absent e played) scores ds ≡ ok after
    → (try_fold (adjust e) scores ds ≡ ok after)
      × Entries.All (λ id _. Set.contains id played ≡ true) ds
unfolding try_fold adjust_player
adjust_player-adjust absent e played [] scores after h = (h, tt)
adjust_player-adjust absent e played ((j, delta) ∷ ds) scores after h =
    elim (Result-cases (adjust e scores (j, delta))) [
      | inr (x, bad) ↦ absurd (ground arith)
      | inl (mid, first) ↦
          let (rest, all) = adjust_player-adjust absent e played ds mid after (ground arith) in
          (ground arith, (ground arith, all))
    ]

abbrev absent : Error
absent = protocol "player has not participated"

-- What recording an event went through.
record_score_lem :
    (l : League) (event digest : String) (ps ts : Dict String ℤ) (k : League)
    → record_score l event digest ps ts ≡ ok k
    → (is_playing l.phase ≡ true)
      × (try_fold (adjust_player absent score_overflow l.played) l.player_scores ps
          ≡ ok k.player_scores)
      × (try_fold (adjust score_overflow) l.team_scores ts ≡ ok k.team_scores)
      × (k.score_events ≡ Dict.insert event digest l.score_events)
unfolding record_score
record_score_lem l event digest ps ts k h =
    elim (Result-cases
      (try_fold (adjust_player absent score_overflow l.played) l.player_scores ps)) [
        | inr (x, bad) ↦ absurd (ground arith)
        | inl (a, first) ↦ elim (Result-cases (try_fold (adjust score_overflow) l.team_scores ts)) [
          | inr (x, bad) ↦ absurd (ground arith)
          | inl (b, second) ↦ (ground arith, ground arith, ground arith, ground arith)
        ]
      ]

module _ (H : Hashing) where
  pub score-known :
      (l : League) (actor event : String) (ps ts : Dict String ℤ) (k : League)
      → score H l actor event ps ts ≡ ok k
      → Dict.lookup event k.score_events ≡ some (H.digest_scores ps ts)
  unfolding score
  score-known l actor event ps ts k h = elim (Option-cases (Dict.lookup event l.score_events)) [
    | inr (old, known) ↦ ground arith
    | inl new ↦
        let digest : String = H.digest_scores ps ts in
        ground (
          arith,
          record_score_lem l event digest ps ts k,
          Dict.lookup-insert event event digest l.score_events,
          ==_refl event,
        )
  ]

  -- An event that is accepted comes from the scorer. Known, it names the same payload and changes
  -- nothing; new, it finds the league playing, names only players who have played, adds its changes to
  -- exactly the scores that it names, each within 64 bits, and is known afterwards.
  pub score-adds :
      (l : League) (actor event : String) (ps ts : Dict String ℤ) (k : League) (p t : String)
      → Entries.IsDistinct ps
      → Entries.IsDistinct ts
      → score H l actor event ps ts ≡ ok k
      → (actor ≡ l.scorer)
        × (Dict.lookup event k.score_events ≡ some (H.digest_scores ps ts))
        × (((Dict.lookup event l.score_events ≡ some (H.digest_scores ps ts)) × (k ≡ l))
            ⊎ ((Dict.lookup event l.score_events ≡ none)
                × (is_playing l.phase ≡ true)
                × Entries.All (λ id _. Set.contains id l.played ≡ true) ps
                × Added p l.player_scores k.player_scores (Dict.lookup p ps)
                × Added t l.team_scores k.team_scores (Dict.lookup t ts)))
  unfolding score
  score-adds l actor event ps ts k p t dp dt h =
      elim (Option-cases (Dict.lookup event l.score_events)) [
        | inr (old, known) ↦ (ground arith, ground arith, inl (ground arith, ground arith))
        | inl new ↦
            let digest : String = H.digest_scores ps ts in
            let (playing, players, teams, events) =
              record_score_lem l event digest ps ts k (ground arith) in
            let (adds, all) =
              adjust_player-adjust absent score_overflow l.played ps l.player_scores k.player_scores
                players in
            (
              ground arith,
              ground (
                arith,
                events,
                Dict.lookup-insert event event digest l.score_events,
                ==_refl event,
              ),
              inr (
                new,
                playing,
                all,
                adjust-adds score_overflow ps l.player_scores k.player_scores p dp adds,
                adjust-adds score_overflow ts l.team_scores k.team_scores t dt teams,
              ),
            )
      ]
