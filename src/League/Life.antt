-- ===== src/League/Life.antt =====
-- Every action on a league keeps its seats in order, from its creation on.
use union_core.Prelude.{
  ℕ, ◌≡◌, inl, inr, refl, sym, subst, arith, String, Bool, Option, some, text_key, ok, List, [],
  Option-cases, Result-cases,
}
use union_core.Prelude.Dict
use union_core.Prelude.Dict.{Dict}
use union_core.Prelude.Entries
use union_core.Prelude.Int.{ℤ}
use union_core.Governance.State.{Context}
use union_core.League.State.{
  League, LeagueState, LeagueAction, LeagueCommand, Rules, Hashing, Phase,
}
use union_core.League.Teams.{
  set_attendance, create_team, invite, accept, register, check_registration,
}
use union_core.League.Seats.{update_pause}
use union_core.League.Scores.{start, score, record_score, finish, enter_teams}
use union_core.League.Season.{
  create_season, schedule_league, pause_league, dispute_result, resolve_dispute, review,
}
use union_core.League.Step.{
  is_admin, player_of, command, transition, create_league, on_league, new_league, league_domain,
}
use union_core.League.Seated.{IsSeated}
use union_core.League.Fair.{
  IsFair, IsFair-same, IsFair-idle, tick-IsFair, presence-IsFair, infrastructure-IsFair,
  update_pause-IsFair, fill_vacancies-IsFair, same_seating,
}
use union_core.League.Entering.{enter_teams-IsSeated, contains-All, contains-All}

module _ (H : Hashing) where
  start-IsFair :
      (l : League) (actor : String) (now_ms : ℕ) (seed : List ℕ) (k : League)
      → start H l actor now_ms seed ≡ ok k
      → IsFair l
      → IsFair k
  unfolding start check_registration
  start-IsFair l actor now_ms seed k h v =
      let m : League = record l { random_seed = seed; phase = Phase.playing } in
      let none : m.seats ≡ [] = ground (arith, v.idle) in
      let (seated, phase) =
        enter_teams-IsSeated m l.teams (contains-All l.teams)
          (subst (Entries.All (IsSeated m)) (sym none) tt) in
      (fill_vacancies-IsFair H (enter_teams m l.teams) k seated (ground arith) (ground arith)).0

  pub command-IsFair :
      (l : League) (ctx : Context) (player : Option String) (c : LeagueCommand) (k : League)
      → command H l ctx player c ≡ ok k
      → IsFair l
      → IsFair k
  unfolding command set_attendance create_team invite accept register score record_score finish
      check_registration
  command-IsFair l ctx player (LeagueCommand.set_attendance members automatic) k h v =
      IsFair-idle l k (ground arith) (ground arith) v
  command-IsFair l ctx player (LeagueCommand.create_team team) k h v =
      IsFair-idle l k (ground arith) (ground arith) v
  command-IsFair l ctx player (LeagueCommand.invite team member) k h v =
      IsFair-idle l k (ground arith) (ground arith) v
  command-IsFair l ctx player (LeagueCommand.accept team) k h v =
      IsFair-idle l k (ground arith) (ground arith) v
  command-IsFair l ctx player (LeagueCommand.register team) k h v =
      IsFair-idle l k (ground arith) (ground arith) v
  command-IsFair l ctx player (LeagueCommand.presence member online health) k h v =
      presence-IsFair H l ctx member online health k h v
  command-IsFair l ctx player (LeagueCommand.start seed) k h v =
      start-IsFair l ctx.actor ctx.now_ms seed k h v
  command-IsFair l ctx player LeagueCommand.tick k h v = tick-IsFair H l ctx.actor ctx.now_ms k h v
  command-IsFair l ctx player (LeagueCommand.infrastructure healthy) k h v =
      infrastructure-IsFair l ctx.actor ctx.now_ms healthy k h v
  command-IsFair l ctx player (LeagueCommand.score event players teams) k h v =
      IsFair-same l k (ground arith) (ground arith) (ground arith) (ground arith) (ground arith)
        (ground arith) v
  command-IsFair l ctx player LeagueCommand.finish k h v = record {
    seated = subst (Entries.All (IsSeated k)) (let e : l.seats ≡ k.seats = ground arith in e) (
        Entries.All-map (IsSeated l) (IsSeated k) l.seats
          (same_seating l k (ground arith) (ground arith) (ground arith) (ground arith)) v.seated);
    idle = λ r. absurd (ground arith);
  }

  review-IsFair :
      (l k : League) (ps ts : Dict String ℤ) → review l ps ts ≡ ok k → IsFair l → IsFair k
  unfolding review
  review-IsFair l k ps ts h v =
      IsFair-same l k (ground arith) (ground arith) (ground arith) (ground arith) (ground arith)
        (ground arith) v

  pub AllFair : LeagueState → Type 0
  AllFair st = (id : String) (l : League) → Dict.lookup id st.leagues ≡ some l → IsFair l

  put-AllFair :
      (st t : LeagueState) (id : String) (l : League)
      → t.leagues ≡ Dict.insert id l st.leagues
      → IsFair l
      → AllFair st
      → AllFair t
  unfolding AllFair
  put-AllFair st t id l e f v i k h = elim (Dict.found-insert i id l k st.leagues (ground arith)) [
    | inl (same, new) ↦ subst IsFair (sym new) f
    | inr old ↦ v i k old
  ]

  same-AllFair : (st t : LeagueState) → t.leagues ≡ st.leagues → AllFair st → AllFair t
  unfolding AllFair
  same-AllFair st t e v i k h = v i k (ground arith)

  new_league-IsFair :
      (rules : Rules) (organizer host scorer : String)
      → IsFair (new_league rules organizer host scorer)
  new_league-IsFair rules organizer host scorer = record { seated = tt; idle = λ _. refl }

  resolve_dispute-AllFair :
      (st : LeagueState) (actor : String) (now_ms : ℕ) (admin : Bool) (id response : String)
      (ps ts : Dict String ℤ) (t : LeagueState)
      → resolve_dispute st actor now_ms admin id response ps ts ≡ ok t
      → AllFair st
      → AllFair t
  unfolding resolve_dispute
  resolve_dispute-AllFair st actor now_ms admin id response ps ts t h v =
      elim (Option-cases (Dict.lookup id st.disputes)) [
        | inl missing ↦ absurd (ground arith)
        | inr (d, open_) ↦ elim (Option-cases (Dict.lookup d.league st.leagues)) [
          | inl missing ↦ absurd (ground arith)
          | inr (l, found) ↦ elim (Result-cases (review l ps ts)) [
            | inr (e, bad) ↦ absurd (ground arith)
            | inl (k, reviewed) ↦
                put-AllFair st t d.league k (ground arith)
                  (review-IsFair l k ps ts reviewed (unfold AllFair in v d.league l found)) v
          ]
        ]
      ]

  transition-AllFair :
      (st : LeagueState) (ctx : Context) (a : LeagueAction) (t : LeagueState)
      → transition H st ctx a ≡ ok t
      → AllFair st
      → AllFair t
  transition-AllFair st ctx (LeagueAction.create_season id title) t h v =
      same-AllFair st t (unfold transition create_season in ground arith) v
  transition-AllFair st ctx (LeagueAction.schedule_league season league schedule) t h v =
      elim (Option-cases (Dict.lookup league st.leagues)) [
        | inl missing ↦ absurd (unfold transition schedule_league in ground arith)
        | inr (l, found) ↦
            let k : League = record l { schedule = some schedule } in
            put-AllFair st t league k (unfold transition schedule_league in ground arith)
              (IsFair-same l k refl refl refl refl refl refl (unfold AllFair in v league l found)) v
      ]
  transition-AllFair st ctx (LeagueAction.pause_league league paused) t h v =
      elim (Option-cases (Dict.lookup league st.leagues)) [
        | inl missing ↦ absurd (unfold transition pause_league in ground arith)
        | inr (l, found) ↦
            let k : League = record l { manual_pause = paused } in
            put-AllFair st t league (update_pause k ctx.now_ms)
              (unfold transition pause_league in ground arith)
              (update_pause-IsFair k ctx.now_ms (
                IsFair-same l k refl refl refl refl refl refl (unfold AllFair in v league l found)))
              v
      ]
  transition-AllFair st ctx (LeagueAction.dispute_result id league reason) t h v =
      same-AllFair st t (unfold transition dispute_result in ground arith) v
  transition-AllFair st ctx (LeagueAction.resolve_dispute id response ps ts) t h v =
      resolve_dispute-AllFair st ctx.actor ctx.now_ms (is_admin ctx) id response ps ts t
        (unfold transition in h) v
  transition-AllFair st ctx (LeagueAction.create_league league rules host scorer) t h v =
      put-AllFair st t league (new_league rules ctx.actor host scorer)
        (unfold transition create_league in ground arith)
        (new_league-IsFair rules ctx.actor host scorer) v
  transition-AllFair st ctx (LeagueAction.on id c) t h v =
      elim (Option-cases (Dict.lookup id st.leagues)) [
        | inl missing ↦ absurd (unfold transition on_league in ground arith)
        | inr (l, found) ↦ elim (Result-cases (command H l ctx (player_of ctx) c)) [
          | inr (e, bad) ↦ absurd (unfold transition on_league in ground arith)
          | inl (k, changed) ↦
              put-AllFair st t id k (unfold transition on_league in ground arith)
                (command-IsFair l ctx (player_of ctx) c k changed (unfold AllFair in v id l found))
                v
        ]
      ]

  -- The states that accepted actions reach.
  pub data Course (st : LeagueState) : LeagueState → Type 0 where
    opening : Course st st
    played :
        {t u : LeagueState} (ctx : Context) (a : LeagueAction)
        → Course st t
        → transition H t ctx a ≡ ok u
        → Course st u

  season-AllFair : (st t : LeagueState) → AllFair st → Course st t → AllFair t
  season-AllFair st t v opening = v
  season-AllFair st u v (played {t} ctx a s h) =
      transition-AllFair t ctx a u h (season-AllFair st t v s)

  initial-AllFair : AllFair (league_domain H).initial
  unfolding AllFair Dict.lookup
  initial-AllFair id l h = absurd (ground arith)

  -- In every state that accepted actions reach from the empty one, each league's seats are in order:
  -- the team of every seat exists, has no more seats than the rules allow and nobody on two of them,
  -- and whoever sits is an admitted member of that team who counts as having played; before the
  -- start nobody sits.
  pub season-IsFair :
      (t : LeagueState) (id : String) (l : League)
      → Course (league_domain H).initial t
      → Dict.lookup id t.leagues ≡ some l
      → IsFair l
  unfolding AllFair
  season-IsFair t id l s h = season-AllFair (league_domain H).initial t initial-AllFair s id l h
