-- ===== src/League/Step.antt =====
-- `LeagueState::transition` of crates/league/src/governance.rs.
use union_core.Prelude.{
  ℕ, String, Bool, false, not, ◌&&◌, ◌||◌, Option, none, some, ◌==◌, text_key, nat_key, Result, ok,
  denied, not_found, protocol, refuse_if, ok_or, ◌>>=◌, ◌>>◌, is_some_and, ltb, List, [], ◌∷◌, any,
}
use union_core.Prelude.Dict
use union_core.Prelude.Dict.{Dict}
use union_core.Prelude.Set
use union_core.Prelude.Set.{Set}
use union_core.Protocol.Text.{validate_identifier}
use union_core.Governance.State.{Context, Domain, member_of}
use union_core.League.State.{
  League, LeagueState, LeagueAction, LeagueCommand, Team, Season, Rules, Hashing, Phase,
}
use union_core.League.Teams.{set_attendance, create_team, invite, accept, register}
use union_core.League.Seats.{presence, tick, infrastructure}
use union_core.League.Scores.{start, score, finish}
use union_core.League.Season.{
  create_season, schedule_league, pause_league, dispute_result, resolve_dispute,
}

-- The rules are out of bounds.
abbrev pub bad_rules : Rules → Bool
bad_rules rules =
    rules.seats == 0
    || ltb 256 rules.seats
    || rules.reconnect_min_ms == 0
    || ltb rules.reconnect_max_ms rules.reconnect_min_ms
    || ltb 600_000 rules.reconnect_max_ms

-- 32 zero bytes
abbrev pub no_seed : List ℕ
no_seed =
    0 ∷ 0 ∷ 0 ∷ 0 ∷ 0 ∷ 0 ∷ 0 ∷ 0 ∷ 0 ∷ 0 ∷ 0 ∷ 0 ∷ 0 ∷ 0 ∷ 0 ∷ 0 ∷ 0 ∷ 0 ∷ 0 ∷ 0 ∷ 0 ∷ 0 ∷ 0 ∷ 0
    ∷ 0 ∷ 0 ∷ 0 ∷ 0 ∷ 0 ∷ 0 ∷ 0 ∷ 0 ∷ []

abbrev pub new_league : Rules → String → String → String → League
new_league rules organizer host scorer = record {
  admitted = none;
  rules = rules;
  organizer = organizer;
  host = host;
  scorer = scorer;
  phase = Phase.registration;
  teams = [];
  online = [];
  seats = [];
  played = [];
  player_scores = [];
  team_scores = [];
  score_events = [];
  paused_since = none;
  schedule = none;
  manual_pause = false;
  infrastructure_down = false;
  random_seed = no_seed;
  draw = 0;
  epoch = 0;
  health = [];
}

-- The player is another than the captain of the team of this name in the league.
unfoldable pub captained_by_other : LeagueState → Option String → String → String → Bool
captained_by_other st player team other =
    is_some_and
      (λ (l : League).
        is_some_and (λ (t : Team). not (is_some_and (λ p. t.captain == p) player))
          (Dict.lookup team l.teams))
      (Dict.lookup other st.leagues)

-- In a season with this league, the team's name belongs to another captain.
unfoldable pub name_taken : LeagueState → Option String → String → String → Bool
unfolding captained_by_other
name_taken st player id team =
    any
      (λ (s : Season).
        Set.contains id s.leagues
        && any (λ other. not (other == id) && captained_by_other st player team other) s.leagues)
      (Dict.values st.seasons)

-- The check before the league is looked up.
unfoldable pub check_name : LeagueState → Option String → String → LeagueCommand → Result (Unit {0})
unfolding name_taken
check_name st player id (LeagueCommand.create_team team) =
    refuse_if (name_taken st player id team)
      (protocol "season team name belongs to another captain")
check_name st player id (LeagueCommand.set_attendance m a) = ok tt
check_name st player id (LeagueCommand.invite t m) = ok tt
check_name st player id (LeagueCommand.accept t) = ok tt
check_name st player id (LeagueCommand.register t) = ok tt
check_name st player id (LeagueCommand.presence m o h) = ok tt
check_name st player id (LeagueCommand.start s) = ok tt
check_name st player id LeagueCommand.tick = ok tt
check_name st player id (LeagueCommand.infrastructure h) = ok tt
check_name st player id (LeagueCommand.score e p t) = ok tt
check_name st player id LeagueCommand.finish = ok tt

abbrev pub is_admin : Context → Bool
is_admin ctx = ctx.approved || Set.contains ctx.actor ctx.core.admins

-- The id of the member that owns the actor's device.
abbrev pub player_of : Context → Option String
player_of ctx = elim (member_of ctx.core.members ctx.actor) [ none ↦ none | some (id, _) ↦ some id ]

module _ (H : Hashing) where
  unfoldable pub command : League → Context → Option String → LeagueCommand → Result League
  command l ctx player (LeagueCommand.set_attendance members automatic) =
      set_attendance H l ctx members automatic
  command l ctx player (LeagueCommand.create_team team) = create_team l ctx.now_ms player team
  command l ctx player (LeagueCommand.invite team member) = invite l ctx player team member
  command l ctx player (LeagueCommand.accept team) = accept l ctx player team
  command l ctx player (LeagueCommand.register team) = register l ctx.now_ms player team
  command l ctx player (LeagueCommand.presence member online health) =
      presence H l ctx member online health
  command l ctx player (LeagueCommand.start seed) = start H l ctx.actor ctx.now_ms seed
  command l ctx player LeagueCommand.tick = tick H l ctx.actor ctx.now_ms
  command l ctx player (LeagueCommand.infrastructure healthy) =
      infrastructure l ctx.actor ctx.now_ms healthy
  command l ctx player (LeagueCommand.score event players teams) =
      score H l ctx.actor event players teams
  command l ctx player LeagueCommand.finish = finish l ctx.actor

  unfoldable pub create_league :
      LeagueState → String → Bool → String → Rules → String → String → Result LeagueState
  create_league st actor admin league rules host scorer = do
    refuse_if (not admin) denied
    validate_identifier league
    refuse_if (not (H.parses_peer host) || not (H.parses_peer scorer))
        (protocol "invalid authority PeerId")
    refuse_if (bad_rules rules) (protocol "invalid league rules")
    refuse_if (Dict.contains league st.leagues) (protocol "league already exists")
    ok (record st { leagues = Dict.insert league (new_league rules actor host scorer) st.leagues })

  -- The last arm of the match: the league is changed in place.
  unfoldable pub on_league :
      LeagueState → Context → Option String → String → LeagueCommand → Result LeagueState
  unfolding check_name command
  on_league st ctx player id c = do
    check_name st player id c
    l ← ok_or (Dict.lookup id st.leagues) not_found
    changed ← command l ctx player c
    ok (record st { leagues = Dict.insert id changed st.leagues })

  unfoldable pub transition : LeagueState → Context → LeagueAction → Result LeagueState
  unfolding on_league create_league
  transition st ctx (LeagueAction.create_season id title) = create_season st (is_admin ctx) id title
  transition st ctx (LeagueAction.schedule_league season league schedule) =
      schedule_league st ctx.now_ms (is_admin ctx) season league schedule
  transition st ctx (LeagueAction.pause_league league paused) =
      pause_league st ctx.actor ctx.now_ms league paused
  transition st ctx (LeagueAction.dispute_result id league reason) =
      dispute_result st ctx.now_ms (player_of ctx) id league reason
  transition st ctx (LeagueAction.resolve_dispute id response players teams) =
      resolve_dispute st ctx.actor ctx.now_ms (is_admin ctx) id response players teams
  transition st ctx (LeagueAction.create_league league rules host scorer) =
      create_league st ctx.actor (is_admin ctx) league rules host scorer
  transition st ctx (LeagueAction.on id c) = on_league st ctx (player_of ctx) id c

  -- `impl Domain for LeagueDomain`
  abbrev pub league_domain : Domain
  league_domain = record {
    DomainState = LeagueState;
    DomainAction = LeagueAction;
    initial = record { leagues = []; seasons = []; disputes = [] };
    transition = transition;
  }
