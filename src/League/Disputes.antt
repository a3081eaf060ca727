-- ===== src/League/Disputes.antt =====
-- Disputes over results (crates/league/src/season.rs): what a resolution adds, and that it is the last
-- word.
use union_core.Prelude.{
  ℕ, ◌≡◌, inl, inr, refl, arith, String, Bool, true, false, Option, none, some, ==_refl, text_key,
  ok, denied, capacity, is_some, try_fold, Option-cases, Result-cases,
}
use union_core.Prelude.Dict
use union_core.Prelude.Dict.{Dict}
use union_core.Prelude.Entries
use union_core.Prelude.Set
use union_core.Prelude.Int.{ℤ}
use union_core.Governance.State.{Context}
use union_core.League.State.{League, LeagueState, LeagueAction, Dispute, Hashing, is_finished}
use union_core.League.Season.{
  create_season, schedule_league, pause_league, dispute_result, resolve_dispute, review,
}
use union_core.League.Scores.{adjust, adjust_player}
use union_core.League.Step.{is_admin, player_of, transition, create_league, on_league}
use union_core.League.Life.{Course, opening, played}
use union_core.League.Tally.{Added, adjust-adds, adjust_player-adjust}

-- What a review went through.
review_lem :
    (l : League) (ps ts : Dict String ℤ) (k : League)
    → review l ps ts ≡ ok k
    → (try_fold (adjust_player denied capacity l.played) l.player_scores ps ≡ ok k.player_scores)
      × (try_fold (adjust capacity) l.team_scores ts ≡ ok k.team_scores)
unfolding review
review_lem l ps ts k h =
    elim (Result-cases (try_fold (adjust_player denied capacity l.played) l.player_scores ps)) [
      | inr (x, bad) ↦ absurd (ground arith)
      | inl (a, first) ↦ elim (Result-cases (try_fold (adjust capacity) l.team_scores ts)) [
        | inr (x, bad) ↦ absurd (ground arith)
        | inl (b, second) ↦ (ground arith, ground arith)
      ]
    ]

-- A resolution that is accepted comes from an administrator, on a dispute that is open, over a league
-- that is finished; it adds its changes to exactly the scores that it names, each within 64 bits, of
-- players who have played, and closes the dispute.
pub resolve_dispute-adds :
    (st : LeagueState) (actor : String) (now_ms : ℕ) (admin : Bool) (id response : String)
    (ps ts : Dict String ℤ) (t : LeagueState) (p q : String)
    → Entries.IsDistinct ps
    → Entries.IsDistinct ts
    → resolve_dispute st actor now_ms admin id response ps ts ≡ ok t
    → (d e : Dispute) × (l k : League) × (admin ≡ true)
      × (Dict.lookup id st.disputes ≡ some d)
      × (d.resolution ≡ none)
      × (Dict.lookup id t.disputes ≡ some e)
      × (is_some e.resolution ≡ true)
      × (Dict.lookup d.league st.leagues ≡ some l)
      × (Dict.lookup d.league t.leagues ≡ some k)
      × (is_finished l.phase ≡ true)
      × Entries.All (λ id _. Set.contains id l.played ≡ true) ps
      × Added p l.player_scores k.player_scores (Dict.lookup p ps)
      × Added q l.team_scores k.team_scores (Dict.lookup q ts)
unfolding resolve_dispute
resolve_dispute-adds st actor now_ms admin id response ps ts t p q dp dt h =
    elim (Option-cases (Dict.lookup id st.disputes)) [
      | inl missing ↦ absurd (ground arith)
      | inr (d, listed) ↦ elim (Option-cases (Dict.lookup d.league st.leagues)) [
        | inl missing ↦ absurd (ground arith)
        | inr (l, found) ↦ elim (Result-cases (review l ps ts)) [
          | inr (e, bad) ↦ absurd (ground arith)
          | inl (k, reviewed) ↦
              let closed : Dispute = record d {
                resolution = some (record {
                  reviewer = actor;
                  time_ms = now_ms;
                  response = response;
                  players = ps;
                  teams = ts;
                });
              } in
              let (players, teams) = review_lem l ps ts k reviewed in
              let (adds, all) =
                adjust_player-adjust denied capacity l.played ps l.player_scores k.player_scores
                  players in
              (
                d,
                closed,
                l,
                k,
                ground arith,
                listed,
                ground arith,
                ground (arith, Dict.lookup-insert id id closed st.disputes, ==_refl id),
                refl,
                found,
                ground (arith, Dict.lookup-insert d.league d.league k st.leagues, ==_refl d.league),
                ground arith,
                all,
                adjust-adds capacity ps l.player_scores k.player_scores p dp adds,
                adjust-adds capacity ts l.team_scores k.team_scores q dt teams,
              )
        ]
      ]
    ]

-- A new dispute takes an id that is free.
dispute_result_lem :
    (st : LeagueState) (now_ms : ℕ) (player : Option String) (i league reason : String)
    (t : LeagueState)
    → dispute_result st now_ms player i league reason ≡ ok t
    → (e : Dispute) × (Dict.contains i st.disputes ≡ false)
      × (t.disputes ≡ Dict.insert i e st.disputes)
unfolding dispute_result
dispute_result_lem st now_ms none i league reason t h = absurd (ground arith)
dispute_result_lem st now_ms (some m) i league reason t h = (
  record { league = league; member = m; reason = reason; created_ms = now_ms; resolution = none },
  ground arith,
  ground arith,
)

-- A resolution replaces a dispute that is open.
resolve_dispute_lem :
    (st : LeagueState) (actor : String) (now_ms : ℕ) (admin : Bool) (i response : String)
    (ps ts : Dict String ℤ) (t : LeagueState)
    → resolve_dispute st actor now_ms admin i response ps ts ≡ ok t
    → (d e : Dispute) × (Dict.lookup i st.disputes ≡ some d)
      × (is_some d.resolution ≡ false)
      × (t.disputes ≡ Dict.insert i e st.disputes)
unfolding resolve_dispute
resolve_dispute_lem st actor now_ms admin i response ps ts t h =
    elim (Option-cases (Dict.lookup i st.disputes)) [
      | inl missing ↦ absurd (ground arith)
      | inr (d, listed) ↦ (
        d,
        record d {
          resolution = some (record {
            reviewer = actor;
            time_ms = now_ms;
            response = response;
            players = ps;
            teams = ts;
          });
        },
        listed,
        ground arith,
        ground arith,
      )
    ]

module _ (H : Hashing) where
  transition-resolved :
      (st : LeagueState) (ctx : Context) (a : LeagueAction) (t : LeagueState) (id : String)
      (d : Dispute)
      → transition H st ctx a ≡ ok t
      → Dict.lookup id st.disputes ≡ some d
      → is_some d.resolution ≡ true
      → Dict.lookup id t.disputes ≡ some d
  unfolding transition create_season schedule_league pause_league dispute_result resolve_dispute
      create_league on_league
  transition-resolved st ctx (LeagueAction.create_season i title) t id d h e r = ground arith
  transition-resolved st ctx (LeagueAction.schedule_league s l c) t id d h e r = ground arith
  transition-resolved st ctx (LeagueAction.pause_league l paused) t id d h e r = ground arith
  transition-resolved st ctx (LeagueAction.dispute_result i l reason) t id d h e r =
      let (new, free, put) =
        dispute_result_lem st ctx.now_ms (player_of ctx) i l reason t (ground arith) in
      ground (arith, put, free, Dict.lookup-insert id i new st.disputes)
  transition-resolved st ctx (LeagueAction.resolve_dispute i response ps ts) t id d h e r =
      let (old, new, listed, open_, put) =
        resolve_dispute_lem st ctx.actor ctx.now_ms (is_admin ctx) i response ps ts t
          (ground arith) in
      ground (arith, put, listed, open_, Dict.lookup-insert id i new st.disputes)
  transition-resolved st ctx (LeagueAction.create_league l rules host scorer) t id d h e r =
      ground arith
  transition-resolved st ctx (LeagueAction.on l c) t id d h e r = ground arith

  -- A dispute that is resolved stays as it is in every later state.
  pub resolved_for_good :
      (st t : LeagueState) (id : String) (d : Dispute)
      → Course H st t
      → Dict.lookup id st.disputes ≡ some d
      → is_some d.resolution ≡ true
      → Dict.lookup id t.disputes ≡ some d
  resolved_for_good st t id d opening h r = h
  resolved_for_good st u id d (played {t} ctx a c e) h r =
      transition-resolved t ctx a u id d e (resolved_for_good st t id d c h r) r
