-- ===== src/League/TestsSeason.antt =====
-- The cup of the tests, later: Ann's seat, a pause, and a dispute over the result.
use union_core.Prelude.{
  ℕ, ◌-◌, ℕ_discrete, String, String-discrete, pair-discrete, text_less, true, false, ◌≡◌, refl,
  arith, text_key, nat_key, List, [], ◌∷◌, some, none, ok, any, all, filter, try_fold, is_some,
}
use union_core.Prelude.Dict
use union_core.Prelude.Dict.{Dict}
use union_core.Prelude.Entries
use union_core.Prelude.Set
use union_core.Prelude.Int.{ℤ, pos, negsuc, checked_add_i64}
use union_core.Prelude.Words.{checked_add, saturating_add, saturating_sub}
use union_core.Protocol.Text.{is_control}
use union_core.League.State.{League, LeagueState, LeagueAction, Seat, Dispute, Phase, is_finished}
use union_core.League.Seats.{route, to_match, infrastructure, update_pause, resume, put_off}
use union_core.League.Scores.{adjust, adjust_player}
use union_core.League.Season.{create_season, resolve_dispute, review, text}
use union_core.League.Step.{transition}
use union_core.League.Fair.{IsFair}
use union_core.League.Life.{Course}
use union_core.League.Tally.{Added}
use union_core.League.Apart.{one_team-IsApart}
use union_core.League.Paths.{AllMoved, route-seat, pause-resume}
use union_core.League.Disputes.{resolve_dispute-adds, resolved_for_good}
use union_core.League.Tests.{toy, by, red, fresh, league_of, state_of}

-- What the runs below compute with.
evaluation : Unit {0}
unfolding transition infrastructure update_pause resume put_off resolve_dispute review text
    create_season is_control adjust adjust_player ℕ_discrete String-discrete pair-discrete text_less
    try_fold any all filter Dict.lookup Dict.insert Dict.map_values Set.contains Set.insert
    checked_add saturating_add saturating_sub checked_add_i64
evaluation = tt

abbrev ann_seats : List Seat
ann_seats = record { player = "ann"; epoch = 1; disconnected_until = some 40_000 } ∷ []

abbrev seated : League
seated = record fresh {
  teams = ("red", red) ∷ [];
  seats = ("red", ann_seats) ∷ [];
  played = "ann" ∷ [];
  player_scores = ("ann", pos 5) ∷ [];
  team_scores = ("red", pos 5) ∷ [];
  phase = Phase.playing;
}

seated-IsFair : IsFair seated
seated-IsFair = record {
  seated = (
    record {
      team = red;
      listed = unfold evaluation in refl;
      few = omega arith;
      distinct = (unfold evaluation in refl, tt);
      belongs = λ p c. unfold Set.contains in ground arith;
      allowed = λ p c. refl;
      active = λ p c. unfold Set.contains in ground arith;
    },
    tt,
  );
  idle = λ h. absurd (ground arith);
}

route-seat_example : (epoch : ℕ) × (route seated "ann" ≡ to_match "red" epoch)
route-seat_example =
    route-seat seated "ann" "red" ann_seats seated-IsFair (one_team-IsApart seated "red" red refl)
      refl (unfold evaluation in refl) (unfold evaluation in refl)

abbrev down : League
down = league_of (infrastructure seated "host" 100 false)

down-infrastructure : infrastructure seated "host" 100 false ≡ ok down
unfolding evaluation
down-infrastructure = refl

abbrev up : League
up = league_of (infrastructure down "host" 250 true)

up-infrastructure : infrastructure down "host" 250 true ≡ ok up
unfolding evaluation
up-infrastructure = refl

pause-resume_example :
    (down.paused_since ≡ some 100)
    × (down.seats ≡ seated.seats)
    × AllMoved (250 - 100) seated.seats up.seats
    × (up ≡ record seated { infrastructure_down = false; seats = up.seats })
pause-resume_example =
    pause-resume seated 100 250 down up refl refl down-infrastructure up-infrastructure

abbrev claim : Dispute
claim = record {
  league = "cup";
  member = "ann";
  reason = "a goal too many";
  created_ms = 5;
  resolution = none;
}

abbrev disputed : LeagueState
disputed = record {
  leagues = ("cup", record seated { phase = Phase.finished }) ∷ [];
  seasons = [];
  disputes = ("d1", claim) ∷ [];
}

abbrev less : Dict String ℤ
less = ("ann", negsuc 1) ∷ []

abbrev settle : LeagueAction
settle = LeagueAction.resolve_dispute "d1" "granted" less []

abbrev settled : LeagueState
settled = state_of (transition toy disputed (by "ann1") settle)

settled-transition : transition toy disputed (by "ann1") settle ≡ ok settled
unfolding evaluation
settled-transition = refl

settled-resolve_dispute :
    resolve_dispute disputed "ann1" 10 true "d1" "granted" less [] ≡ ok settled
unfolding evaluation
settled-resolve_dispute = refl

resolve_dispute-adds_example :
    (d e : Dispute) × (l k : League) × (true ≡ true)
    × (Dict.lookup "d1" disputed.disputes ≡ some d)
    × (d.resolution ≡ none)
    × (Dict.lookup "d1" settled.disputes ≡ some e)
    × (is_some e.resolution ≡ true)
    × (Dict.lookup d.league disputed.leagues ≡ some l)
    × (Dict.lookup d.league settled.leagues ≡ some k)
    × (is_finished l.phase ≡ true)
    × Entries.All (λ id _. Set.contains id l.played ≡ true) less
    × Added "ann" l.player_scores k.player_scores (Dict.lookup "ann" less)
    × Added "red" l.team_scores k.team_scores none
unfolding Dict.lookup
resolve_dispute-adds_example =
    resolve_dispute-adds disputed "ann1" 10 true "d1" "granted" less [] settled "ann" "red"
      (refl, tt) tt settled-resolve_dispute

abbrev verdict : Dispute
verdict = record claim {
  resolution = some (record {
    reviewer = "ann1";
    time_ms = 10;
    response = "granted";
    players = less;
    teams = [];
  });
}

settled-lookup : Dict.lookup "d1" settled.disputes ≡ some verdict
unfolding evaluation
settled-lookup = refl

abbrev spring : LeagueAction
spring = LeagueAction.create_season "spring" "Spring"

abbrev later : LeagueState
later = state_of (transition toy settled (by "ann1") spring)

later-transition : transition toy settled (by "ann1") spring ≡ ok later
unfolding evaluation
later-transition = refl

resolved_for_good_example : Dict.lookup "d1" later.disputes ≡ some verdict
resolved_for_good_example =
    resolved_for_good toy settled later "d1" verdict
      (Course.played (by "ann1") spring Course.opening later-transition) settled-lookup refl
