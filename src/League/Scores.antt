-- ===== src/League/Scores.antt =====
-- The start, the scores and the end of a league in crates/league/src/governance.rs.
use union_core.Prelude.{
  ℕ, String, not, ◌&&◌, none, some, ◌==◌, text_key, Result, ok, denied, not_found, protocol, Error,
  refuse_if, ok_or, ◌>>=◌, ◌>>◌, is_some_and, ltb, List, [], ◌∷◌, any, filter, if◌then◌else◌,
  try_fold,
}
use union_core.Prelude.Dict
use union_core.Prelude.Dict.{Dict}
use union_core.Prelude.Set
use union_core.Prelude.Set.{Set}
use union_core.Prelude.Int.{ℤ, pos, checked_add_i64}
use union_core.Protocol.Text.{validate_identifier}
use union_core.League.State.{League, Team, Phase, Hashing, is_playing, is_registration, admits}
use union_core.League.Teams.{check_registration}
use union_core.League.Seats.{fill_vacancies}

unfoldable pub enter_players : List String → Dict String ℤ → Dict String ℤ
enter_players [] scores = scores
enter_players (p ∷ ps) scores = enter_players ps (Dict.insert p (pos 0) scores)

-- A registered team with an admitted member plays, and its admitted members score.
unfoldable pub enter_team : League → String × Team → League
unfolding enter_players
enter_team l (id, t) =
    if t.registered && any (admits l) t.members
    then record l {
      seats = Dict.insert id [] l.seats;
      team_scores = Dict.insert id (pos 0) l.team_scores;
      player_scores = enter_players (filter (admits l) t.members) l.player_scores;
    }
    else l

unfoldable pub enter_teams : League → List (String × Team) → League
unfolding enter_team
enter_teams l [] = l
enter_teams l (t ∷ ts) = enter_teams (enter_team l t) ts

module _ (H : Hashing) where
  unfoldable pub start : League → String → ℕ → List ℕ → Result League
  unfolding check_registration enter_teams
  start l actor now_ms seed = do
    refuse_if (not (actor == l.organizer)) denied
    check_registration l
    refuse_if (is_some_and (λ s. ltb now_ms s.starts_ms) l.schedule) denied
    fill_vacancies H (enter_teams (record l { random_seed = seed; phase = Phase.playing }) l.teams)

-- One entry of a map of changes, added to the score that it names.
unfoldable pub adjust : Error → Dict String ℤ → String × ℤ → Result (Dict String ℤ)
adjust overflow scores (id, delta) = do
  score ← ok_or (Dict.lookup id scores) not_found
  sum ← ok_or (checked_add_i64 score delta) overflow
  ok (Dict.insert id sum scores)

-- The same for a player, who has to have played.
unfoldable pub adjust_player :
    Error → Error → Set String → Dict String ℤ → String × ℤ → Result (Dict String ℤ)
unfolding adjust
adjust_player absent overflow played scores (id, delta) = do
  refuse_if (not (Set.contains id played)) absent
  adjust overflow scores (id, delta)

abbrev pub score_overflow : Error
score_overflow = Error.protocol "score overflow"

-- A new event: both maps of changes, and the event with the digest of its payload.
unfoldable pub record_score :
    League → String → String → Dict String ℤ → Dict String ℤ → Result League
unfolding adjust_player
record_score l event digest players teams = do
  refuse_if (not (is_playing l.phase)) (protocol "not playing")
  player_scores ←
      try_fold (adjust_player (protocol "player has not participated") score_overflow l.played)
        l.player_scores players
  team_scores ← try_fold (adjust score_overflow) l.team_scores teams
  ok (record l {
    player_scores = player_scores;
    team_scores = team_scores;
    score_events = Dict.insert event digest l.score_events;
  })

unfoldable pub score :
    Hashing → League → String → String → Dict String ℤ → Dict String ℤ → Result League
unfolding record_score
score H l actor event players teams = do
  refuse_if (not (actor == l.scorer)) denied
  validate_identifier event
  elim (Dict.lookup event l.score_events) [
    | some previous ↦ do
      refuse_if (not (previous == H.digest_scores players teams))
          (protocol "score event id reused with different payload")
      ok l
    | none ↦ record_score l event (H.digest_scores players teams) players teams
  ]

unfoldable pub finish : League → String → Result League
finish l actor = do
  refuse_if (not (actor == l.scorer)) denied
  refuse_if (is_registration l.phase) (protocol "not started")
  ok (record l { phase = Phase.finished })
