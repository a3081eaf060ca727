-- ===== src/League/Orders.antt =====
-- What each action on one league keeps, in crates/league/src/governance.rs.
use union_core.Prelude.{
  ℕ, ◌≡◌, inl, inr, refl, subst, arith, String, Bool, true, not, Option, text_key, ok, List,
  Option-cases,
}
use union_core.Prelude.Dict
use union_core.Prelude.Dict.{Dict}
use union_core.Prelude.Int.{ℤ}
use union_core.Governance.State.{Context}
use union_core.League.State.{League, Phase, LeagueCommand, Hashing, is_registration}
use union_core.League.Teams.{
  set_attendance, create_team, invite, accept, register, check_registration,
}
use union_core.League.Seats.{infrastructure, update_pause}
use union_core.League.Scores.{score, finish, start, enter_teams}
use union_core.League.Step.{command}
use union_core.League.Ledger.{
  Follows, Follows-refl, Follows-trans, Follows-same, presence-Follows, tick-Follows,
  enter_teams-same, update_pause-Follows, record_score-Follows, fill_vacancies-Follows,
}

-- An action of the registration, which leaves the officers and the score events alone.
registering-Follows :
    (l k : League)
    → is_registration l.phase ≡ true
    → (k.organizer ≡ l.organizer) × (k.host ≡ l.host) × (k.scorer ≡ l.scorer)
    → k.rules ≡ l.rules
    → k.score_events ≡ l.score_events
    → Follows l k
registering-Follows l k r e1 e2 e3 = Follows-same l k e1 e2 (ground arith) e3 (inl (ground arith))

infrastructure-Follows :
    (l : League) (actor : String) (now_ms : ℕ) (healthy : Bool) (k : League)
    → infrastructure l actor now_ms healthy ≡ ok k
    → Follows l k
unfolding infrastructure
infrastructure-Follows l actor now_ms healthy k h =
    let m : League = record l { infrastructure_down = not healthy } in
    let e : update_pause m now_ms ≡ k = ground arith in
    subst (Follows l) e (
      Follows-trans l m (update_pause m now_ms)
        (Follows-same l m (refl, refl, refl) refl (omega arith) refl (inr (refl, refl, refl)))
        (update_pause-Follows m now_ms))

pub score-Follows :
    (H : Hashing) (l : League) (actor event : String) (ps ts : Dict String ℤ) (k : League)
    → score H l actor event ps ts ≡ ok k
    → Follows l k
unfolding score
score-Follows H l actor event ps ts k h = elim (Option-cases (Dict.lookup event l.score_events)) [
  | inr (old, known) ↦ subst (Follows l) (let e : l ≡ k = ground arith in e) (Follows-refl l)
  | inl new ↦ record_score-Follows l event (H.digest_scores ps ts) ps ts k new (ground arith)
]

module _ (H : Hashing) where
  start-Follows :
      (l : League) (actor : String) (now_ms : ℕ) (seed : List ℕ) (k : League)
      → start H l actor now_ms seed ≡ ok k
      → Follows l k
  unfolding start check_registration
  start-Follows l actor now_ms seed k h =
      let m : League = record l { random_seed = seed; phase = Phase.playing } in
      let n : League = enter_teams m l.teams in
      let same = enter_teams-same m l.teams in
      Follows-trans l n k
        (Follows-same l n (ground (arith, same)) (ground (arith, same)) (ground (arith, same))
          (ground (arith, same)) (inl (ground arith)))
        (fill_vacancies-Follows H n k (ground arith))

  pub command-Follows :
      (l : League) (ctx : Context) (player : Option String) (c : LeagueCommand) (k : League)
      → command H l ctx player c ≡ ok k
      → Follows l k
  unfolding command set_attendance create_team invite accept register finish check_registration
  command-Follows l ctx player (LeagueCommand.set_attendance members automatic) k h =
      registering-Follows l k (ground arith) (ground arith) (ground arith) (ground arith)
  command-Follows l ctx player (LeagueCommand.create_team team) k h =
      registering-Follows l k (ground arith) (ground arith) (ground arith) (ground arith)
  command-Follows l ctx player (LeagueCommand.invite team member) k h =
      registering-Follows l k (ground arith) (ground arith) (ground arith) (ground arith)
  command-Follows l ctx player (LeagueCommand.accept team) k h =
      registering-Follows l k (ground arith) (ground arith) (ground arith) (ground arith)
  command-Follows l ctx player (LeagueCommand.register team) k h =
      registering-Follows l k (ground arith) (ground arith) (ground arith) (ground arith)
  command-Follows l ctx player (LeagueCommand.presence member online health) k h =
      presence-Follows H l ctx member online health k h
  command-Follows l ctx player (LeagueCommand.start seed) k h =
      start-Follows l ctx.actor ctx.now_ms seed k h
  command-Follows l ctx player LeagueCommand.tick k h = tick-Follows H l ctx.actor ctx.now_ms k h
  command-Follows l ctx player (LeagueCommand.infrastructure healthy) k h =
      infrastructure-Follows l ctx.actor ctx.now_ms healthy k h
  command-Follows l ctx player (LeagueCommand.score event ps ts) k h =
      score-Follows H l ctx.actor event ps ts k h
  command-Follows l ctx player LeagueCommand.finish k h =
      Follows-same l k (ground arith) (ground arith) (ground arith) (ground arith)
        (inr (ground arith))
