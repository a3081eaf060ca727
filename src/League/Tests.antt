-- ===== src/League/Tests.antt =====
-- A cup of one team: Ann creates it, plays and scores. The theorems on leagues, applied to it.
use Prim.Native.String.{len}
use union_core.Prelude.{
  ℕ_discrete, String, String-discrete, pair-discrete, text_less, true, false, ◌≡◌, ◌≢◌, ◌⊎◌, ◌↔◌,
  refl, subst, arith, text_key, nat_key, [], ◌∷◌, some, none, Result, ok, err, protocol, any, all,
  filter, for_each, try_fold,
}
use union_core.Prelude.Dict
use union_core.Prelude.Dict.{Dict}
use union_core.Prelude.Entries
use union_core.Prelude.Set
use union_core.Prelude.Int.{ℤ, pos, checked_add_i64}
use union_core.Prelude.Words.{checked_add, saturating_add, saturating_mul}
use union_core.Protocol.Text.{validate_identifier}
use union_core.Governance.State.{Context, Member, member_of, owns}
use union_core.League.State.{
  League, LeagueState, LeagueAction, LeagueCommand, Team, Rules, Hashing, Phase, team_of, panicked,
  is_playing, grace,
}
use union_core.League.Teams.{
  create_team, accept, register, check_registration, registration_window, check_club,
}
use union_core.League.Seats.{
  presence, resolve_expired, replace_expired, refill, mark_member, mark_seat, fill_vacancies,
  fill_teams, fill_team, take_seat, update_pause, drawn, candidates, sort_by_cached_key, place_by,
  bytes_less,
}
use union_core.League.Season.{pause_league}
use union_core.League.Scores.{
  score, record_score, adjust, adjust_player, start, enter_teams, enter_team, enter_players,
}
use union_core.League.Step.{
  command, transition, create_league, on_league, check_name, name_taken, new_league, league_domain,
}
use union_core.League.Fill.{IsFull, fill_vacancies-IsFull}
use union_core.League.Seated.{IsSeated, Grows}
use union_core.League.Fair.{IsFair}
use union_core.League.Life.{Course, season-IsFair}
use union_core.League.Tally.{Added, score-adds}
use union_core.League.Once.{Keeps, season-Keeps, score-once}
use union_core.League.Roster.{command-IsApart, accept-panics}
use union_core.League.Apart.{IsApart, empty-IsApart}

abbrev payload_digest : Dict String ℤ → Dict String ℤ → String
payload_digest [] ts = "nothing"
payload_digest (p ∷ ps) ts = "points"

abbrev pub toy : Hashing
toy = record {
  parses_peer = λ s. true;
  draw_hash = λ seed draw player. seed;
  digest_text = λ s. s;
  digest_scores = payload_digest;
}

abbrev ann : Member
ann = record { club = "chess"; device = "ann1"; additional_devices = []; roles = [] }

abbrev pub by : String → Context
by actor = record {
  actor = actor;
  now_ms = 10;
  revision = 0;
  core = record { admins = "ann1" ∷ []; members = ("ann", ann) ∷ [] };
  approved = false;
}

abbrev rules : Rules
rules = record {
  cross_club = false;
  seats = 2;
  reconnect_min_ms = 15_000;
  reconnect_max_ms = 90_000;
}

-- What the runs below compute with.
evaluation : Unit {0}
unfolding transition command on_league create_league check_name name_taken validate_identifier
    create_team accept register check_registration registration_window check_club team_of presence
    resolve_expired replace_expired refill mark_member mark_seat fill_vacancies fill_teams fill_team
    take_seat drawn candidates sort_by_cached_key place_by bytes_less score record_score adjust
    adjust_player start enter_teams enter_team enter_players member_of owns ℕ_discrete
    String-discrete pair-discrete text_less try_fold for_each any all filter Dict.lookup Dict.insert
    Dict.any Dict.find Dict.values Dict.map_values Set.contains Set.insert Set.remove Set.extend
    checked_add saturating_add saturating_mul grace checked_add_i64
evaluation = tt

abbrev pub state_of : Result LeagueState → LeagueState
state_of (ok st) = st
state_of (err e) = (league_domain toy).initial

abbrev pub league_of : Result League → League
league_of (ok l) = l
league_of (err e) = new_league rules "" "" ""

abbrev create : LeagueAction
create = LeagueAction.create_league "cup" rules "host" "scorer"

abbrev created : LeagueState
created = state_of (transition toy (league_domain toy).initial (by "ann1") create)

created-transition : transition toy (league_domain toy).initial (by "ann1") create ≡ ok created
unfolding evaluation
created-transition = refl

abbrev enrol : LeagueAction
enrol = LeagueAction.on "cup" (LeagueCommand.create_team "red")

abbrev enrolled : LeagueState
enrolled = state_of (transition toy created (by "ann1") enrol)

enrolled-transition : transition toy created (by "ann1") enrol ≡ ok enrolled
unfolding evaluation
enrolled-transition = refl

abbrev pub fresh : League
fresh = new_league rules "ann1" "host" "scorer"

abbrev team_step : LeagueCommand
team_step = LeagueCommand.create_team "red"

abbrev with_team : League
with_team = league_of (command toy fresh (by "ann1") (some "ann") team_step)

with_team-command : command toy fresh (by "ann1") (some "ann") team_step ≡ ok with_team
unfolding evaluation
with_team-command = refl

enrolled-lookup : Dict.lookup "cup" enrolled.leagues ≡ some with_team
unfolding evaluation
enrolled-lookup = refl

season-IsFair_example : IsFair with_team
season-IsFair_example =
    season-IsFair toy enrolled "cup" with_team
      (Course.played (by "ann1") enrol
        (Course.played (by "ann1") create Course.opening created-transition) enrolled-transition)
      enrolled-lookup

abbrev pub red : Team
red = record { captain = "ann"; members = "ann" ∷ []; invited = "bob" ∷ []; registered = true }

-- The team is registered and Ann is online; nobody sits yet.
abbrev vacant : League
vacant = record fresh {
  teams = ("red", red) ∷ [];
  online = "ann" ∷ [];
  seats = ("red", []) ∷ [];
  player_scores = ("ann", pos 0) ∷ [];
  team_scores = ("red", pos 0) ∷ [];
  phase = Phase.playing;
}

vacant-IsSeated : Entries.All (IsSeated vacant) vacant.seats
vacant-IsSeated = (
  record {
    team = red;
    listed = unfold evaluation in refl;
    few = omega arith;
    distinct = tt;
    belongs = λ p c. absurd (unfold Set.contains in ground arith);
    allowed = λ p c. absurd (unfold Set.contains in ground arith);
    active = λ p c. absurd (unfold Set.contains in ground arith);
  },
  tt,
)

abbrev pub filled : League
filled = league_of (fill_vacancies toy vacant)

filled-fill_vacancies : fill_vacancies toy vacant ≡ ok filled
unfolding evaluation
filled-fill_vacancies = refl

fill_vacancies-IsFull_example :
    Grows vacant filled
    × Entries.All (IsSeated filled) filled.seats
    × Entries.All (IsFull filled) filled.seats
fill_vacancies-IsFull_example =
    fill_vacancies-IsFull toy vacant filled vacant-IsSeated filled-fill_vacancies

abbrev pub points : Dict String ℤ
points = ("ann", pos 3) ∷ []

abbrev pub scored : League
scored = league_of (score toy filled "scorer" "goal" points [])

scored-score : score toy filled "scorer" "goal" points [] ≡ ok scored
unfolding evaluation
scored-score = refl

score-adds_example :
    ("scorer" ≡ filled.scorer)
    × (Dict.lookup "goal" scored.score_events ≡ some (payload_digest points []))
    × (((Dict.lookup "goal" filled.score_events ≡ some (payload_digest points []))
          × (scored ≡ filled))
        ⊎ ((Dict.lookup "goal" filled.score_events ≡ none)
            × (is_playing filled.phase ≡ true)
            × Entries.All (λ id _. Set.contains id filled.played ≡ true) points
            × Added "ann" filled.player_scores scored.player_scores (Dict.lookup "ann" points)
            × Added "red" filled.team_scores scored.team_scores none))
unfolding Dict.lookup
score-adds_example =
    score-adds toy filled "scorer" "goal" points [] scored "ann" "red"
      (unfold Dict.lookup in (refl, tt)) tt scored-score

texts-differ : payload_digest [] [] ≢ payload_digest points []
texts-differ e = let lengths : len "points" ≡ 7 = subst (λ s. len s ≡ 7) e refl in ground arith

-- The match in a season, and then a pause of its organizer.
abbrev held : LeagueState
held = record { leagues = ("cup", scored) ∷ []; seasons = []; disputes = [] }

abbrev pause : LeagueAction
pause = LeagueAction.pause_league "cup" true

abbrev held_up : LeagueState
held_up = state_of (transition toy held (by "ann1") pause)

held_up-transition : transition toy held (by "ann1") pause ≡ ok held_up
unfolding evaluation pause_league update_pause
held_up-transition = refl

score-once_example :
    (m : League) × (Dict.lookup "cup" held_up.leagues ≡ some m)
    × (score toy m "scorer" "goal" points [] ≡ ok m)
    × (score toy m "scorer" "goal" [] []
        ≡ err (protocol "score event id reused with different payload"))
score-once_example =
    score-once toy filled scored "scorer" "goal" points [] [] [] held held_up "cup" scored-score
      (unfold evaluation in refl)
      (Course.played (by "ann1") pause Course.opening held_up-transition) texts-differ

season-Keeps_example :
    (k : League) × (Dict.lookup "cup" held_up.leagues ≡ some k) × Keeps "cup" held held_up scored k
season-Keeps_example =
    season-Keeps toy held held_up "cup" scored
      (Course.played (by "ann1") pause Course.opening held_up-transition)
      (unfold evaluation in refl)

command-IsApart_example : IsApart with_team
command-IsApart_example =
    command-IsApart toy fresh (by "ann1") (some "ann") team_step with_team refl with_team-command
      (empty-IsApart fresh refl)

-- Ann has left, Bob is invited to her team.
abbrev left : Context
left = record (by "bob1") {
  core = record { admins = []; members = ("bob", record ann { device = "bob1" }) ∷ [] };
}

abbrev awaited : League
awaited = record fresh { teams = ("red", red) ∷ [] }

accept-panics_example :
    (accept awaited left (some "bob") "red" ≡ err panicked)
    ↔ ((awaited.rules.cross_club ≡ false) × (Dict.contains "ann" left.core.members ≡ false))
accept-panics_example =
    accept-panics awaited left "bob" "red" red (record ann { device = "bob1" })
      (unfold evaluation in refl) refl (unfold evaluation in refl) (unfold evaluation in refl)
      (unfold evaluation in refl) (unfold evaluation in refl)
