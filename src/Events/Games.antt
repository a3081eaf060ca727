-- ===== src/Events/Games.antt =====
-- The games of a plan and what they award (crates/events/src/workflows.rs): claims, receipts, `settle`.
use Prim.Native.String.{len, ◌++◌}
use union_core.Prelude.{
  ℕ, ◌+◌, String, Bool, true, false, not, ◌&&◌, ◌||◌, Option, none, some, ◌==◌, text_key, nat_key,
  Result, ok, denied, not_found, capacity, refuse_if, ok_or, try_fold, ◌>>=◌, ◌>>◌, is_some,
  is_some_and, is_none_or, unwrap_or, ltb, leb, [], ◌∷◌, length, filter, if◌then◌else◌,
}
use union_core.Prelude.Dict
use union_core.Prelude.Dict.{Dict}
use union_core.Prelude.Set
use union_core.Prelude.Set.{Set}
use union_core.Prelude.Int.{ℤ, pos, ltb_ℤ, checked_add_i64}
use union_core.Prelude.Words.{checked_add}
use union_core.Protocol.Ipld.{Cid}
use union_core.Governance.State.{Context, context_member}
use union_core.Events.Organization.{Award, GameRun, Plan, RewardRule}
use union_core.Events.State.{
  Event, Phase, is_phase, EventsState, Libraries, text, club_manager, manage, decimal, max_records,
}
use union_core.Events.Attest.{cell, set_cell}
use union_core.Events.Evidence.{file}
use union_core.Events.Plans.{is_online, set_plan, plan_of}

-- `==` on results
unfoldable pub same_scores : Dict String ℤ → Dict String ℤ → Bool
same_scores [] [] = true
same_scores [] (y ∷ ys) = false
same_scores (x ∷ xs) [] = false
same_scores ((m, a) ∷ xs) ((n, b) ∷ ys) =
    m == n && not (ltb_ℤ a b) && not (ltb_ℤ b a) && same_scores xs ys

abbrev pub same_results : Option (Dict String ℤ) → Option (Dict String ℤ) → Bool
same_results none none = true
same_results none (some y) = false
same_results (some x) none = false
same_results (some x) (some y) = same_scores x y

-- What a receipt says of a game.
pub record Receipt : Type 0 where
  pub started : Bool
  pub stopped : Bool
  pub results : Option (Dict String ℤ)
  pub evidence : Option Cid
  pub failure : Option String

-- Some member in the results is not checked in.
abbrev pub has_stranger : EventsState → String → Option (Dict String ℤ) → Bool
has_stranger st event results =
    is_some_and
      (λ r.
        Dict.any (λ m _. is_none_or (λ s. not (Set.contains m s)) (Dict.lookup event st.checkins))
          r)
      results

-- The receipt is not the worker's to give, or it does not hold together.
unfoldable pub bad_receipt : Event → Plan → String → String → Receipt → Bool
bad_receipt e p actor game r =
    not (actor == p.worker)
    || not (Set.contains game p.selected)
    || not (is_phase e.phase Phase.opened || is_phase e.phase Phase.cancelled)
    || not (is_online p.kind)
    || is_some_and
        (λ (scores : Dict String ℤ).
          ltb max_records (length scores)
          || not (is_some r.evidence)
          || not r.started
          || is_some r.failure)
        r.results

-- Results stay, and what has started or stopped stays so.
unfoldable pub next_run : GameRun → Receipt → Result GameRun
unfolding same_scores
next_run run r = do
  refuse_if
      ((is_some run.results && not (same_results r.results run.results))
        || (run.started && not r.started)
        || (run.stopped && not r.stopped))
      denied
  ok (record run {
    started = r.started;
    stopped = r.stopped;
    results = r.results;
    evidence = r.evidence;
    failure = r.failure;
  })

abbrev pub set_run : EventsState → String → Plan → String → GameRun → EventsState
set_run st event p game run = set_plan st event (record p { games = Dict.insert game run p.games })

-- One game's results, added to the scores.
unfoldable pub add_score : Dict String ℤ → String × ℤ → Result (Dict String ℤ)
add_score scores (member, score) = do
  sum ← ok_or (checked_add_i64 (unwrap_or (pos 0) (Dict.lookup member scores)) score) capacity
  ok (Dict.insert member sum scores)

unfoldable pub add_game : Plan → Dict String ℤ → String → Result (Dict String ℤ)
unfolding add_score
add_game p scores game = do
  run ← ok_or (Dict.lookup game p.games) denied
  results ← ok_or run.results denied
  try_fold add_score scores results

unfoldable pub zero_scores : Set String → Dict String ℤ → Dict String ℤ
zero_scores [] scores = scores
zero_scores (m ∷ ms) scores = zero_scores ms (Dict.insert m (pos 0) scores)

-- The scores of an event: the sums of its games, or nothing for each who was there.
unfoldable pub event_scores : EventsState → String → Plan → Result (Dict String ℤ)
unfolding add_game zero_scores
event_scores st id p =
    if is_online p.kind
    then try_fold (add_game p) [] p.selected
    else ok (zero_scores (unwrap_or [] (Dict.lookup id st.checkins)) [])

abbrev pub rank_of : Dict String ℤ → ℤ → ℕ
rank_of scores score = 1 + length (filter (λ s. ltb_ℤ score s) (Dict.values scores))

abbrev pub new_award : String → String → RewardRule → Award
new_award club member rule = record {
  club = club;
  member = member;
  points = rule.points;
  material = rule.material;
  delivered_by = none;
  received_ms = none;
}

-- The body of the loop over the scores.
unfoldable pub add_award :
    Dict String String
    → Plan
    → Dict String ℤ
    → Dict String Award
    → String × ℤ
    → Result (Dict String Award)
add_award enrolled p scores awards (member, score) = do
  club ← ok_or (Dict.lookup member enrolled) denied
  rule ← ok_or (Dict.lookup club p.rewards) denied
  ok (
      if is_some_and (λ n. ltb n (rank_of scores score)) rule.top_places
      then awards
      else Dict.insert member (new_award club member rule) awards)

unfoldable pub pay : Dict String (Dict String ℕ) → Award → Result (Dict String (Dict String ℕ))
pay points a = do
  sum ← ok_or (checked_add (cell points a.club a.member) a.points) capacity
  ok (set_cell points a.club a.member sum)

unfoldable pub settle : EventsState → Context → String → Result EventsState
unfolding manage event_scores add_award pay
settle st ctx id = do
  e ← ok_or (Dict.lookup id st.events) not_found
  p ← plan_of st id
  refuse_if (not (is_phase e.phase Phase.done) || p.settled) denied
  elim (manage e ctx) [
    | true ↦ ok tt
    | false ↦ do caller ← context_member ctx; refuse_if (not (caller.0 == p.worker)) denied
  ]
  scores ← event_scores st id p
  awards ←
      try_fold (add_award (unwrap_or [] (Dict.lookup id st.organization.enrollment)) p scores) []
        scores
  points ← try_fold pay st.organization.points (Dict.values awards)
  ok (record st {
    organization = record st.organization {
      points = points;
      plans = Dict.insert id (record p { awards = awards; settled = true }) st.organization.plans;
    };
  })

unfoldable pub deliver : EventsState → Context → String → String → String → Result EventsState
unfolding club_manager
deliver st ctx actor event target = do
  p ← plan_of st event
  award ← ok_or (Dict.lookup target p.awards) not_found
  refuse_if
      (not (club_manager ctx award.club)
        || not (is_some award.material)
        || is_some award.delivered_by)
      denied
  ok (
      set_plan st event (record p {
        awards = Dict.insert target (record award { delivered_by = some actor }) p.awards;
      }))

unfoldable pub receive : EventsState → Context → String → String → Result EventsState
receive st ctx actor event = do
  p ← plan_of st event
  award ← ok_or (Dict.lookup actor p.awards) not_found
  refuse_if (not (is_some award.delivered_by) || is_some award.received_ms) denied
  ok (
      set_plan st event (record p {
        awards = Dict.insert actor (record award { received_ms = some ctx.now_ms }) p.awards;
      }))

module _ (L : Libraries) where
  -- `league_id`
  unfoldable pub league_id : String → String → String
  unfolding decimal
  league_id event game =
      "office-" ++ L.hashing.digest_text (decimal (len event) ++ (":" ++ (event ++ game)))

  -- `GameRun::new`
  abbrev pub new_run : String → String → GameRun
  new_run event game = record {
    reserved = false;
    stopped = false;
    resource = game;
    league = league_id event game;
    started = false;
    results = none;
    evidence = none;
    failure = none;
  }

  -- `games.entry(game).or_insert(GameRun::new(event, game))`
  abbrev pub run_of : Plan → String → String → GameRun
  run_of p event game = unwrap_or (new_run event game) (Dict.lookup game p.games)

  unfoldable pub claim_game : EventsState → Context → String → String → String → Result EventsState
  unfolding league_id
  claim_game st ctx actor event game = do
    e ← ok_or (Dict.lookup event st.events) not_found
    p ← plan_of st event
    refuse_if
        (not (is_phase e.phase Phase.opened)
          || not (actor == p.worker)
          || not (Set.contains game p.selected)
          || ltb ctx.now_ms p.checkin_opens_ms
          || leb p.ends_ms ctx.now_ms)
        denied
    refuse_if (run_of p event game).stopped denied
    ok (set_run st event p game (record (run_of p event game) { reserved = true }))

  unfoldable pub receive_game :
      EventsState → String → String → String → Receipt → Result EventsState
  unfolding league_id file text bad_receipt next_run
  receive_game st actor event game r = do
    elim r.evidence [ none ↦ ok tt | some cid ↦ file L st cid ]
    elim r.failure [ none ↦ ok tt | some reason ↦ text reason 4096 ]
    refuse_if (has_stranger st event r.results) denied
    e ← ok_or (Dict.lookup event st.events) not_found
    p ← plan_of st event
    refuse_if (bad_receipt e p actor game r) denied
    run ← next_run (run_of p event game) r
    ok (set_run st event p game run)
