-- ===== src/League/Season.antt =====
-- Seasons, schedules, disputes and rankings (crates/league/src/season.rs).
use Prim.Native.String.{len}
use union_core.Prelude.{
  ℕ, String, Bool, true, false, not, ◌&&◌, ◌||◌, Option, none, some, ◌==◌, text_key, nat_key,
  Result, ok, denied, not_found, capacity, refuse_if, ok_or, ◌>>=◌, ◌>>◌, is_some, is_some_and, ltb,
  leb, List, [], ◌∷◌, any, length, if◌then◌else◌, try_fold, unwrap_or,
}
use union_core.Prelude.Dict
use union_core.Prelude.Dict.{Dict}
use union_core.Prelude.Set
use union_core.Prelude.Set.{Set}
use union_core.Prelude.Int.{ℤ, pos, checked_add_i64, ltb_ℤ}
use union_core.Protocol.Text.{is_blank, is_control, codes}
use union_core.League.State.{
  League, LeagueState, Team, Schedule, Dispute, is_playing, is_registration, is_finished, team_of,
}
use union_core.League.Seats.{update_pause, is_registered}
use union_core.League.Scores.{adjust, adjust_player}

unfoldable pub text : String → ℕ → Result (Unit {0})
unfolding is_blank
text value bound =
    refuse_if
      (is_blank value
        || ltb bound (len value)
        || any (λ c. is_control c && not (c == b'\n')) (codes value))
      denied

unfoldable pub create_season : LeagueState → Bool → String → String → Result LeagueState
unfolding text
create_season st admin id title = do
  refuse_if (not admin || Dict.contains id st.seasons || leb 1024 (length st.seasons)) denied
  text id 128
  text title 256
  ok (record st { seasons = Dict.insert id (record { title = title; leagues = [] }) st.seasons })

unfoldable pub schedule_league :
    LeagueState → ℕ → Bool → String → String → Schedule → Result LeagueState
schedule_league st now_ms admin season league schedule = do
  refuse_if
      (not admin
        || leb schedule.closes_ms schedule.opens_ms
        || ltb schedule.starts_ms schedule.closes_ms
        || leb schedule.closes_ms now_ms)
      denied
  refuse_if (Dict.any (λ id s. not (id == season) && Set.contains league s.leagues) st.seasons)
      denied
  l ← ok_or (Dict.lookup league st.leagues) not_found
  refuse_if
      (not (is_registration l.phase) || any (λ (t : Team). t.registered) (Dict.values l.teams))
      denied
  s ← ok_or (Dict.lookup season st.seasons) not_found
  ok (record st {
    seasons = Dict.insert season (record s { leagues = Set.insert league s.leagues }) st.seasons;
    leagues = Dict.insert league (record l { schedule = some schedule }) st.leagues;
  })

unfoldable pub pause_league : LeagueState → String → ℕ → String → Bool → Result LeagueState
unfolding update_pause
pause_league st actor now_ms league paused = do
  l ← ok_or (Dict.lookup league st.leagues) not_found
  refuse_if (not (actor == l.organizer) || not (is_playing l.phase)) denied
  ok (record st {
    leagues =
        Dict.insert league (update_pause (record l { manual_pause = paused }) now_ms) st.leagues;
  })

abbrev pub max_disputes : ℕ
max_disputes = 10_000

abbrev pub plays_in : League → String → Bool
plays_in l member = is_some_and (is_registered l) (team_of l member)

unfoldable pub dispute_result :
    LeagueState → ℕ → Option String → String → String → String → Result LeagueState
unfolding text
dispute_result st now_ms player id league reason = do
  text id 128
  text reason 4096
  refuse_if (Dict.contains id st.disputes || leb max_disputes (length st.disputes)) denied
  member ← ok_or player denied
  l ← ok_or (Dict.lookup league st.leagues) not_found
  refuse_if (not (is_finished l.phase) || not (plays_in l member)) denied
  refuse_if
      (any (λ (d : Dispute). d.member == member && d.league == league && not (is_some d.resolution))
        (Dict.values st.disputes))
      denied
  ok (record st {
    disputes =
        Dict.insert id
          (record {
            league = league;
            member = member;
            reason = reason;
            created_ms = now_ms;
            resolution = none;
          })
          st.disputes;
  })

-- The changes of a resolution, added to the scores; a rejected claim has none.
unfoldable pub review : League → Dict String ℤ → Dict String ℤ → Result League
unfolding adjust_player
review l players teams = do
  player_scores ← try_fold (adjust_player denied capacity l.played) l.player_scores players
  team_scores ← try_fold (adjust capacity) l.team_scores teams
  ok (record l { player_scores = player_scores; team_scores = team_scores })

unfoldable pub resolve_dispute :
    LeagueState
    → String
    → ℕ
    → Bool
    → String
    → String
    → Dict String ℤ
    → Dict String ℤ
    → Result LeagueState
unfolding text review
resolve_dispute st actor now_ms admin id response players teams = do
  refuse_if (not admin) denied
  text response 4096
  d ← ok_or (Dict.lookup id st.disputes) not_found
  refuse_if (is_some d.resolution) denied
  l ← ok_or (Dict.lookup d.league st.leagues) not_found
  refuse_if (not (is_finished l.phase)) denied
  reviewed ← review l players teams
  ok (record st {
    leagues = Dict.insert d.league reviewed st.leagues;
    disputes =
        Dict.insert id
          (record d {
            resolution = some (record {
              reviewer = actor;
              time_ms = now_ms;
              response = response;
              players = players;
              teams = teams;
            });
          })
          st.disputes;
  })

pub record Rankings : Type 0 where
  pub teams : List (String × ℤ)
  pub players : List (String × ℤ)

-- `entry(id).or_default()` and the sum
unfoldable pub add_score : Dict String ℤ → String × ℤ → Result (Dict String ℤ)
add_score target (id, score) = do
  sum ← ok_or (checked_add_i64 (unwrap_or (pos 0) (Dict.lookup id target)) score) capacity
  ok (Dict.insert id sum target)

-- Higher scores first, equal ones by name.
abbrev pub ranks_before : String × ℤ → String × ℤ → Bool
ranks_before (i, a) (j, b) = ltb_ℤ b a || (not (ltb_ℤ a b) && text_key.less i j)

unfoldable pub place_ranked : String × ℤ → List (String × ℤ) → List (String × ℤ)
place_ranked x [] = x ∷ []
place_ranked x (y ∷ ys) = if ranks_before y x then y ∷ place_ranked x ys else x ∷ y ∷ ys

unfoldable pub sorted : List (String × ℤ) → List (String × ℤ)
unfolding place_ranked
sorted [] = []
sorted (x ∷ xs) = place_ranked x (sorted xs)

-- One league of the season; only a finished one counts.
unfoldable pub add_league :
    Dict String League
    → Dict String ℤ × Dict String ℤ
    → String
    → Result (Dict String ℤ × Dict String ℤ)
unfolding add_score
add_league leagues (teams, players) id = do
  l ← ok_or (Dict.lookup id leagues) not_found
  elim (is_finished l.phase) [
    | false ↦ ok (teams, players)
    | true ↦ do
      ts ← try_fold add_score teams l.team_scores
      ps ← try_fold add_score players l.player_scores
      ok (ts, ps)
  ]

unfoldable pub season_rankings : LeagueState → String → Result Rankings
unfolding add_league sorted
season_rankings st id = do
  season ← ok_or (Dict.lookup id st.seasons) not_found
  totals ← try_fold (add_league st.leagues) ([], []) season.leagues
  ok (record { teams = sorted totals.0; players = sorted totals.1 })
