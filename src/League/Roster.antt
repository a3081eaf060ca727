-- ===== src/League/Roster.antt =====
-- Who belongs to the teams of a league: `Accept`, `CreateTeam` and the captain's leave.
use Prim.Native.String.{len}
use union_core.Prelude.{
  ℕ, ◌≡◌, ◌≢◌, ◌↔◌, inl, inr, refl, subst, arith, String, Bool, true, false, Option, some, text_key,
  ok, err, is_some, List, Option-cases,
}
use union_core.Prelude.Dict
use union_core.Prelude.Dict.{Dict}
use union_core.Prelude.Set
use union_core.Governance.State.{Context, Member}
use union_core.League.State.{
  League, Team, Phase, Hashing, LeagueCommand, is_registration, team_of, panicked,
}
use union_core.League.Seats.{tick, infrastructure, update_pause, resume}
use union_core.League.Scores.{start, score, record_score, finish, enter_teams}
use union_core.League.Step.{command}
use union_core.League.Ledger.{
  fill_vacancies-Follows, enter_teams-same, presence-teams, tick-Follows,
}
use union_core.League.Teams.{
  set_attendance, accept, check_registration, registration_window, check_club,
}
use union_core.League.Apart.{
  IsApart, create_team-IsApart, accept-IsApart, invite-IsApart, register-IsApart,
  same_teams-IsApart,
}

-- Teams that the attendance puts together.
abbrev pub is_automatic : LeagueCommand → Bool
is_automatic (LeagueCommand.set_attendance members automatic) = automatic
is_automatic (LeagueCommand.create_team team) = false
is_automatic (LeagueCommand.invite team member) = false
is_automatic (LeagueCommand.accept team) = false
is_automatic (LeagueCommand.register team) = false
is_automatic (LeagueCommand.presence member online health) = false
is_automatic (LeagueCommand.start seed) = false
is_automatic LeagueCommand.tick = false
is_automatic (LeagueCommand.infrastructure healthy) = false
is_automatic (LeagueCommand.score event ps ts) = false
is_automatic LeagueCommand.finish = false

module _ (H : Hashing) where
  start-teams :
      (l : League) (actor : String) (now_ms : ℕ) (seed : List ℕ) (k : League)
      → start H l actor now_ms seed ≡ ok k
      → k.teams ≡ l.teams
  unfolding start check_registration
  start-teams l actor now_ms seed k h =
      let m : League = record l { random_seed = seed; phase = Phase.playing } in
      let n : League = enter_teams m l.teams in
      let f = fill_vacancies-Follows H n k (ground arith) in
      ground
        (arith, enter_teams-same m l.teams, f.teams (ground (arith, enter_teams-same m l.teams)))

  -- No action on a league, the automatic attendance aside, puts a member in a second team.
  pub command-IsApart :
      (l : League) (ctx : Context) (player : Option String) (c : LeagueCommand) (k : League)
      → is_automatic c ≡ false
      → command H l ctx player c ≡ ok k
      → IsApart l
      → IsApart k
  command-IsApart l ctx player (LeagueCommand.set_attendance members automatic) k a h v =
      same_teams-IsApart l k (unfold command set_attendance in ground arith) v
  command-IsApart l ctx player (LeagueCommand.create_team team) k a h v =
      create_team-IsApart l ctx.now_ms player team k (unfold command in h) v
  command-IsApart l ctx player (LeagueCommand.invite team member) k a h v =
      invite-IsApart l ctx player team member k (unfold command in h) v
  command-IsApart l ctx player (LeagueCommand.accept team) k a h v =
      accept-IsApart l ctx player team k (unfold command in h) v
  command-IsApart l ctx player (LeagueCommand.register team) k a h v =
      register-IsApart l ctx.now_ms player team k (unfold command in h) v
  command-IsApart l ctx player (LeagueCommand.presence member online health) k a h v =
      same_teams-IsApart l k (presence-teams H l ctx member online health k (unfold command in h)) v
  command-IsApart l ctx player (LeagueCommand.start seed) k a h v =
      same_teams-IsApart l k (start-teams l ctx.actor ctx.now_ms seed k (unfold command in h)) v
  command-IsApart l ctx player LeagueCommand.tick k a h v =
      same_teams-IsApart l k
        ((tick-Follows H l ctx.actor ctx.now_ms k (unfold command in h)).teams
          (unfold command tick in ground arith))
        v
  command-IsApart l ctx player (LeagueCommand.infrastructure healthy) k a h v =
      same_teams-IsApart l k (unfold command infrastructure update_pause resume in ground arith) v
  command-IsApart l ctx player (LeagueCommand.score event ps ts) k a h v =
      same_teams-IsApart l k (unfold command score record_score in ground arith) v
  command-IsApart l ctx player LeagueCommand.finish k a h v =
      same_teams-IsApart l k (unfold command finish in ground arith) v

abbrev cross_club_text : String
cross_club_text = "cross-club teams disabled"

other_text : cross_club_text ≢ "no entry found for key"
other_text e =
    let lengths : len "no entry found for key" ≡ 25 = subst (λ s. len s ≡ 25) e refl in ground arith

-- For an invited player without a team, `Accept` indexes the members by a captain that is missing
-- exactly where clubs may not mix and the captain is a member no more; then it panics.
pub accept-panics :
    (l : League) (ctx : Context) (p team : String) (t : Team) (m : Member)
    → Dict.lookup p ctx.core.members ≡ some m
    → is_registration l.phase ≡ true
    → registration_window l ctx.now_ms ≡ ok tt
    → is_some (team_of l p) ≡ false
    → Dict.lookup team l.teams ≡ some t
    → Set.contains p t.invited ≡ true
    → (accept l ctx (some p) team ≡ err panicked)
      ↔ ((l.rules.cross_club ≡ false) × (Dict.contains t.captain ctx.core.members ≡ false))
unfolding accept check_registration check_club
accept-panics l ctx p team t m e1 e2 e3 e4 e5 e6 = (
  λ h. elim (Option-cases (Dict.lookup t.captain ctx.core.members)) [
    | inl gone ↦ ground arith
    | inr (c, there) ↦ absurd (ground (arith, other_text))
  ],
  λ h. ground (arith, h),
)
