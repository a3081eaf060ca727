-- ===== src/League/Entering.antt =====
-- The teams that enter at the start of a league (`Start` in crates/league/src/governance.rs).
use union_core.Prelude.{
  ◌≡◌, inl, inr, refl, subst, arith, String, true, ◌&&◌, some, ==_refl, text_key, List, [], ◌∷◌,
  any, Bool-cases, Option-cases,
}
use union_core.Prelude.Dict
use union_core.Prelude.Dict.{Dict}
use union_core.Prelude.Entries
use union_core.Prelude.Set
use union_core.Prelude.Set.{Set}
use union_core.League.State.{League, Team, admits}
use union_core.League.Scores.{enter_team, enter_teams}
use union_core.League.Seated.{IsSeated}
use union_core.League.Fair.{same_seating}

vacant-IsSeated :
    (l : League) (id : String) (team : Team) → Dict.lookup id l.teams ≡ some team → IsSeated l id []
unfolding Set.contains
vacant-IsSeated l id team h = record {
  team = team;
  listed = h;
  few = omega arith;
  distinct = tt;
  belongs = λ p c. absurd (ground arith);
  allowed = λ p c. absurd (ground arith);
  active = λ p c. absurd (ground arith);
}

-- A team enters with no seat taken.
enter_team-IsSeated :
    (l : League) (id : String) (t : Team)
    → Dict.contains id l.teams ≡ true
    → Entries.All (IsSeated l) l.seats
    → Entries.All (IsSeated (enter_team l (id, t))) (enter_team l (id, t)).seats
enter_team-IsSeated l id t h v = elim (Bool-cases (t.registered && any (admits l) t.members)) [
  | inr out ↦
      let e : l ≡ enter_team l (id, t) = unfold enter_team in ground arith in
      subst (λ (x : League). Entries.All (IsSeated x) x.seats) e v
  | inl enters ↦ elim (Option-cases (Dict.lookup id l.teams)) [
    | inl missing ↦ absurd (ground arith)
    | inr (team, listed) ↦
        let k : League = enter_team l (id, t) in
        let e1 : k.teams ≡ l.teams = unfold enter_team in ground arith in
        let e2 : k.rules ≡ l.rules = unfold enter_team in ground arith in
        let e3 : k.admitted ≡ l.admitted = unfold enter_team in ground arith in
        let e4 : k.played ≡ l.played = unfold enter_team in ground arith in
        let e : Dict.insert id [] l.seats ≡ k.seats = unfold enter_team in ground arith in
        subst (Entries.All (IsSeated k)) e (
          Entries.All-insert (IsSeated k) id [] l.seats (vacant-IsSeated k id team (ground arith))
            (Entries.All-map (IsSeated l) (IsSeated k) l.seats (same_seating l k e1 e2 e3 e4) v))
  ]
]

enter_team-keeps :
    (l : League) (t : String × Team)
    → ((enter_team l t).teams ≡ l.teams) × ((enter_team l t).phase ≡ l.phase)
unfolding enter_team
enter_team-keeps l (id, t) = ground arith

pub enter_teams-IsSeated :
    (l : League) (ts : List (String × Team))
    → Entries.All (λ id _. Dict.contains id l.teams ≡ true) ts
    → Entries.All (IsSeated l) l.seats
    → Entries.All (IsSeated (enter_teams l ts)) (enter_teams l ts).seats
      × ((enter_teams l ts).phase ≡ l.phase)
unfolding enter_teams
enter_teams-IsSeated l [] a v = (v, refl)
enter_teams-IsSeated l ((id, t) ∷ ts) a v =
    let (same, phase) = enter_team-keeps l (id, t) in
    let (seated, later) =
      enter_teams-IsSeated (enter_team l (id, t)) ts
        (Entries.All-map (λ i (_ : Team). Dict.contains i l.teams ≡ true)
          (λ i _. Dict.contains i (enter_team l (id, t)).teams ≡ true) ts (λ i _ c. ground arith)
          a.1)
        (enter_team-IsSeated l id t a.0 v) in
    (seated, ground arith)

-- Every entry of a map is found by its key.
pub contains-All : (m : Dict String Team) → Entries.All (λ id _. Dict.contains id m ≡ true) m
unfolding Dict.lookup
contains-All [] = tt
contains-All ((j, w) ∷ m) = (
  ground (arith, ==_refl j),
  Entries.All-map (λ i (_ : Team). Dict.contains i m ≡ true)
      (λ i _. Dict.contains i ((j, w) ∷ m) ≡ true) m (λ i _ c. ground arith) (contains-All m),
)
