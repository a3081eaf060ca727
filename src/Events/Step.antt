-- ===== src/Events/Step.antt =====
-- `EventsDomain::transition` and the queries of its chain (crates/events/src/lib.rs).
use union_core.Prelude.{
  ℕ, String, Bool, true, false, not, ◌&&◌, ◌||◌, Option, none, some, ◌==◌, text_key, nat_key,
  list_key, Result, ok, err, denied, not_found, capacity, refuse_if, ok_or, ◌>>=◌, ◌>>◌, is_some,
  is_some_and, is_none_or, unwrap_or, ltb, leb, [], length, any, filter, if◌then◌else◌,
}
use union_core.Prelude.Dict
use union_core.Prelude.Dict.{Dict}
use union_core.Prelude.Set
use union_core.Prelude.Set.{Set}
use union_core.Prelude.Words.{checked_add}
use union_core.Protocol.Text.{validate_digest}
use union_core.Protocol.Ipld.{parse_cid}
use union_core.Files.Store.{read, put, advance}
use union_core.Governance.State.{Context, Domain, context_member}
use union_core.League.Step.{transition as league_transition}
use union_core.Events.Organization.{GameRun, Plan}
use union_core.Events.State.{
  Event, Window, Phase, is_phase, EventsState, EventAction, Libraries, text, active, manage,
  max_records, empty_events,
}
use union_core.Events.Plans.{is_online, set_plan, ready}
use union_core.Events.Office.{organization_transition}

abbrev pub set_event : EventsState → String → Event → EventsState
set_event st id e = record st { events = Dict.insert id e st.events }

-- The window is not in order, or closed by now.
abbrev pub bad_window : Context → Window → Bool
bad_window ctx w =
    leb w.closes_ms w.opens_ms || ltb w.starts_ms w.closes_ms || leb w.closes_ms ctx.now_ms

-- The schools of a plan without the organizer.
abbrev pub others_of : Plan → String → Set String
others_of p organizer = filter (λ c. not (c == organizer)) (Dict.keys p.schools)

-- After `ready` the event is there, so that `state.events[&id]` does not panic.
unfoldable pub approve : EventsState → Context → String → ℕ → Set String → Result EventsState
unfolding ready Dict.keys
approve st ctx id epoch co_organizers = do
  refuse_if
      (not ctx.approved
        || ltb 128 (length co_organizers)
        || any (λ club. not (Dict.any (λ _ m. m.club == club) ctx.core.members)) co_organizers)
      denied
  ready st id
  event ← ok_or (Dict.lookup id st.events) not_found
  refuse_if
      (is_some_and (λ p. not (others_of p event.organizer == co_organizers))
        (Dict.lookup id st.organization.plans))
      denied
  refuse_if (not (is_phase event.phase Phase.review) || not (event.epoch == epoch)) denied
  ok (set_event st id (record event { co_organizers = co_organizers; phase = Phase.approved }))

-- An online plan still misses the results of a selected game.
abbrev pub misses_results : Plan → Bool
misses_results p =
    is_online p.kind
    && any (λ g. is_none_or (λ (r : GameRun). not (is_some r.results)) (Dict.lookup g p.games))
        p.selected

-- The caller is the worker of the plan.
unfoldable pub is_worker : EventsState → Context → String → Bool
is_worker st ctx id =
    is_some_and
      (λ p. elim (context_member ctx) [ ok caller ↦ caller.0 == p.worker | err e ↦ false ])
      (Dict.lookup id st.organization.plans)

-- From where an event may go to a phase, and when.
unfoldable pub may_go : Event → ℕ → Phase → Bool
may_go e now Phase.review = is_phase e.phase Phase.draft
may_go e now Phase.opened = is_phase e.phase Phase.approved && ltb now e.window.closes_ms
may_go e now Phase.done = is_phase e.phase Phase.opened && leb e.window.starts_ms now
may_go e now Phase.cancelled = true
may_go e now Phase.draft = false
may_go e now Phase.approved = false

-- The arm of `Submit`, `Publish`, `Finish` and `CancelEvent`, by the target.
unfoldable pub go : EventsState → Context → String → Phase → Result EventsState
unfolding ready is_worker may_go manage
go st ctx id target = do
  if is_phase target Phase.review then ready st id else ok tt
  refuse_if
      (is_phase target Phase.done
        && is_some_and misses_results (Dict.lookup id st.organization.plans))
      denied
  event ← ok_or (Dict.lookup id st.events) not_found
  active event
  refuse_if
      (not (manage event ctx) && not (is_worker st ctx id && not (is_phase target Phase.cancelled)))
      denied
  refuse_if (not (may_go event ctx.now_ms target)) denied
  ok (set_event st id (record event { phase = target }))

abbrev pub same_window : Window → Window → Bool
same_window v w =
    v.opens_ms == w.opens_ms && v.closes_ms == w.closes_ms && v.starts_ms == w.starts_ms

-- The plan of an event that is changed: what was decided on is gone.
abbrev pub reset_plan : Plan → Plan
reset_plan p = record p {
  final_epoch = none;
  polished = none;
  review_input = none;
  summary = none;
  games = [];
}

unfoldable pub add_task :
    EventsState → Context → String → String → String → Option ℕ → Result EventsState
unfolding manage text
add_task st ctx event id title due_ms = do
  parent ← ok_or (Dict.lookup event st.events) not_found
  active parent
  text id 128
  text title 256
  refuse_if
      (not (manage parent ctx)
        || Dict.contains id st.tasks
        || leb max_records (length st.tasks)
        || is_some_and (λ due. leb due ctx.now_ms) due_ms)
      denied
  ok (record st {
    tasks =
        Dict.insert id
          (record {
            event = event;
            title = title;
            assignee = none;
            completed = false;
            due_ms = due_ms;
          })
          st.tasks;
  })

unfoldable pub assign : EventsState → Context → String → String → Result EventsState
unfolding manage
assign st ctx id member = do
  task ← ok_or (Dict.lookup id st.tasks) not_found
  event ← ok_or (Dict.lookup task.event st.events) not_found
  active event
  target ← ok_or (Dict.lookup member ctx.core.members) not_found
  refuse_if
      (not (manage event ctx)
        || task.completed
        || (not (target.club == event.organizer)
            && not (Set.contains target.club event.co_organizers)))
      denied
  ok (record st { tasks = Dict.insert id (record task { assignee = some member }) st.tasks })

unfoldable pub complete : EventsState → Context → String → Result EventsState
unfolding manage
complete st ctx id = do
  task ← ok_or (Dict.lookup id st.tasks) not_found
  event ← ok_or (Dict.lookup task.event st.events) not_found
  active event
  refuse_if
      (task.completed
        || not (
            manage event ctx || elim (context_member ctx) [
              | ok caller ↦ is_some_and (λ a. a == caller.0) task.assignee
              | err e ↦ false
            ]))
      denied
  ok (record st { tasks = Dict.insert id (record task { completed = true }) st.tasks })

-- What a plan asks of who signs up: a school of the plan, and for a meeting, a participant.
unfoldable pub check_signup : Plan → String → String → Result (Unit {0})
check_signup p member club = do
  school ← ok_or (Dict.lookup club p.schools) denied
  refuse_if (not (is_online p.kind) && not (Set.contains member school.participants)) denied

-- The member is enrolled for the club, where the event has a plan.
unfoldable pub enrol : EventsState → String → String → String → Result EventsState
unfolding check_signup
enrol st id member club = elim (Dict.lookup id st.organization.plans) [
  | none ↦ ok st
  | some p ↦ do
    check_signup p member club
    ok (record st {
      organization = record st.organization {
        enrollment =
            Dict.insert id
              (Dict.insert member club (unwrap_or [] (Dict.lookup id st.organization.enrollment)))
              st.organization.enrollment;
      };
    })
]

unfoldable pub signup : EventsState → Context → String → Result EventsState
unfolding enrol
signup st ctx id = do
  caller ← context_member ctx
  event ← ok_or (Dict.lookup id st.events) not_found
  refuse_if
      (not (is_phase event.phase Phase.opened)
        || ltb ctx.now_ms event.window.opens_ms
        || leb event.window.closes_ms ctx.now_ms)
      denied
  enrolled ← enrol st id caller.0 caller.1.club
  let members = unwrap_or [] (Dict.lookup id st.signups)
  refuse_if (leb max_records (length members) || Set.contains caller.0 members) denied
  ok (record enrolled { signups = Dict.insert id (Set.insert caller.0 members) st.signups })

-- Before the check-in opens, or after it closed.
abbrev pub outside_checkin : EventsState → Event → String → ℕ → Bool
outside_checkin st event id now = elim (Dict.lookup id st.organization.plans) [
  | none ↦ ltb now event.window.starts_ms
  | some p ↦ ltb now p.checkin_opens_ms || leb p.checkin_closes_ms now
]

unfoldable pub checkin : EventsState → Context → String → Result EventsState
checkin st ctx id = do
  caller ← context_member ctx
  event ← ok_or (Dict.lookup id st.events) not_found
  refuse_if
      (not (is_phase event.phase Phase.opened)
        || outside_checkin st event id ctx.now_ms
        || not (is_some_and (λ s. Set.contains caller.0 s) (Dict.lookup id st.signups)))
      denied
  let there = unwrap_or [] (Dict.lookup id st.checkins)
  refuse_if (Set.contains caller.0 there) denied
  ok (record st { checkins = Dict.insert id (Set.insert caller.0 there) st.checkins })

unfoldable pub cancel_signup : EventsState → Context → String → Result EventsState
cancel_signup st ctx id = do
  caller ← context_member ctx
  event ← ok_or (Dict.lookup id st.events) not_found
  active event
  refuse_if (is_some_and (λ s. Set.contains caller.0 s) (Dict.lookup id st.checkins)) denied
  members ← ok_or (Dict.lookup id st.signups) not_found
  refuse_if (not (Set.contains caller.0 members)) not_found
  ok (record st { signups = Dict.insert id (Set.remove caller.0 members) st.signups })

module _ (L : Libraries) where
  -- A brief is a file that can be read, or a digest.
  unfoldable pub check_brief : EventsState → String → Result (Unit {0})
  check_brief st brief = elim (parse_cid L.encoding brief) [
    | ok cid ↦ read L.encoding st.files cid >>= λ _. ok tt
    | err e ↦ validate_digest brief
  ]

  unfoldable pub create :
      EventsState → Context → String → String → String → Window → Result EventsState
  unfolding check_brief text
  create st ctx id title brief_hash window = do
    caller ← context_member ctx
    refuse_if (not (Set.contains "president" caller.1.roles)) denied
    text id 128
    text title 256
    check_brief st brief_hash
    refuse_if
        (leb max_records (length st.events) || Dict.contains id st.events || bad_window ctx window)
        denied
    ok (
        set_event st id (record {
          title = title;
          brief_hash = brief_hash;
          organizer = caller.1.club;
          creator = caller.0;
          co_organizers = [];
          window = window;
          phase = Phase.draft;
          epoch = 1;
        }))

  -- The plan of a changed event; a game that is reserved or started forbids the change.
  unfoldable pub change_plan : EventsState → String → Result EventsState
  change_plan st id = elim (Dict.lookup id st.organization.plans) [
    | none ↦ ok st
    | some p ↦ do
      refuse_if (Dict.any (λ _ (g : GameRun). g.reserved || g.started) p.games) denied
      ok (set_plan st id (reset_plan p))
  ]

  -- The arm of `Amend` and `Revise`, after the tests of a revision's details.
  unfoldable pub change :
      EventsState → Context → String → String → Option (String × Window) → Result EventsState
  unfolding check_brief change_plan manage
  change st ctx id brief_hash details = do
    check_brief st brief_hash
    event ← ok_or (Dict.lookup id st.events) not_found
    active event
    refuse_if
        (not (manage event ctx)
          || (event.brief_hash == brief_hash
              && is_none_or
                  (λ (d : String × Window). d.0 == event.title && same_window d.1 event.window)
                  details))
        denied
    epoch ← ok_or (checked_add event.epoch 1) capacity
    let changed : Event = elim details [
      | none ↦ record event { brief_hash = brief_hash }
      | some d ↦ record event { brief_hash = brief_hash; title = d.0; window = d.1 }
    ]
    change_plan (set_event st id (record changed { epoch = epoch; phase = Phase.draft })) id

  unfoldable pub transition : EventsState → Context → EventAction → Result EventsState
  unfolding organization_transition put advance create approve go change add_task assign complete
      signup checkin cancel_signup text
  transition st ctx (EventAction.of_organization action) = organization_transition L st ctx action
  transition st ctx (EventAction.of_competition action) = do
    leagues ← league_transition L.hashing st.competitions ctx action
    ok (record st { competitions = leagues })
  transition st ctx (EventAction.put_block block) = do
    caller ← context_member ctx
    files ← put L.encoding st.files block
    ok (record st { files = files })
  transition st ctx (EventAction.commit_files branch expected commit) = do
    caller ← context_member ctx
    files ← advance L.encoding st.files branch expected commit caller.1.club ctx.actor ctx.revision
    ok (record st { files = files })
  transition st ctx (EventAction.create id title brief_hash window) =
      create st ctx id title brief_hash window
  transition st ctx (EventAction.approve id epoch co_organizers) =
      approve st ctx id epoch co_organizers
  transition st ctx (EventAction.submit id) = go st ctx id Phase.review
  transition st ctx (EventAction.publish id) = go st ctx id Phase.opened
  transition st ctx (EventAction.finish id) = go st ctx id Phase.done
  transition st ctx (EventAction.cancel_event id) = go st ctx id Phase.cancelled
  transition st ctx (EventAction.amend id brief_hash) = change st ctx id brief_hash none
  transition st ctx (EventAction.revise id title brief_hash window) = do
    text title 256
    refuse_if (bad_window ctx window) denied
    change st ctx id brief_hash (some (title, window))
  transition st ctx (EventAction.add_task event id title due_ms) =
      add_task st ctx event id title due_ms
  transition st ctx (EventAction.assign task member) = assign st ctx task member
  transition st ctx (EventAction.complete task) = complete st ctx task
  transition st ctx (EventAction.signup id) = signup st ctx id
  transition st ctx (EventAction.checkin id) = checkin st ctx id
  transition st ctx (EventAction.cancel_signup id) = cancel_signup st ctx id

  -- `impl Domain for EventsDomain`
  abbrev pub events_domain : Domain
  events_domain = record {
    DomainState = EventsState;
    DomainAction = EventAction;
    initial = empty_events;
    transition = transition;
  }
