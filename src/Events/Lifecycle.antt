-- ===== src/Events/Lifecycle.antt =====
-- The life of an event: what each accepted action does to the events, by its kind.
use union_core.Prelude.{
  ℕ, [], ◌≡◌, inl, inr, subst, arith, String, Bool, true, false, ◌||◌, Option, none, some, text_key,
  nat_key, ok, Option-cases, Result-cases, Bool-cases,
}
use union_core.Prelude.Dict
use union_core.Prelude.Dict.{Dict}
use union_core.Prelude.Set.{Set}
use union_core.Prelude.Words.{checked_add}
use union_core.Governance.State.{Context, context_member}
use union_core.Events.State.{Event, Window, Phase, is_phase, EventsState, EventAction, Libraries}
use union_core.Events.Plans.{ready}
use union_core.Events.Frame.{organization_transition-Onward}
use union_core.Events.Step.{
  set_event, approve, go, may_go, change, change_plan, create, add_task, assign, complete, signup,
  enrol, checkin, cancel_signup, transition,
}

-- The event has its approval.
abbrev pub is_past : Phase → Bool
is_past p = is_phase p Phase.approved || (is_phase p Phase.opened || is_phase p Phase.done)

-- What an action did to the events.
pub data Move (st : EventsState) (ctx : Context) (u : EventsState) : Type 0 where
  still : u.events ≡ st.events → Move st ctx u
  -- one event is new or changed, and has no approval
  back :
      (id : String) (e : Event)
      → u.events ≡ Dict.insert id e st.events
      → is_past e.phase ≡ false
      → Move st ctx u
  -- one event is approved
  cleared :
      (id : String) (e : Event) (clubs : Set String)
      → Dict.lookup id st.events ≡ some e
      → approve st ctx id e.epoch clubs ≡ ok u
      → u.events
        ≡ Dict.insert id (record e { co_organizers = clubs; phase = Phase.approved }) st.events
      → Move st ctx u
  -- one event that has its approval goes on
  onward :
      (id : String) (e : Event) (p : Phase)
      → Dict.lookup id st.events ≡ some e
      → is_past e.phase ≡ true
      → u.events ≡ Dict.insert id (record e { phase = p }) st.events
      → Move st ctx u

module _ (st : EventsState) (ctx : Context) (u : EventsState) where
  approve-Move :
      (id : String) (epoch : ℕ) (clubs : Set String)
      → approve st ctx id epoch clubs ≡ ok u
      → Move st ctx u
  unfolding approve
  approve-Move id epoch clubs h = elim (Result-cases (ready st id)) [
    | inr (e, bad) ↦ absurd (ground arith)
    | inl (done, is_ready) ↦ elim (Option-cases (Dict.lookup id st.events)) [
      | inl missing ↦ absurd (ground arith)
      | inr (e, found) ↦
          let same : epoch ≡ e.epoch = ground arith in
          cleared id e clubs found (subst (λ n. approve st ctx id n clubs ≡ ok u) same h)
            (ground arith)
    ]
  ]

  go-Move : (id : String) (target : Phase) → go st ctx id target ≡ ok u → Move st ctx u
  unfolding go may_go
  go-Move id target h = elim (Option-cases (Dict.lookup id st.events)) [
    | inl missing ↦ absurd (ground arith)
    | inr (e, found) ↦ elim (Bool-cases (is_past target)) [
      | inr early ↦ back id (record e { phase = target }) (ground arith) early
      | inl late ↦ onward id e target found (ground arith) (ground arith)
    ]
  ]

  module _ (L : Libraries) where
    create-Move :
        (id title brief : String) (w : Window)
        → create L st ctx id title brief w ≡ ok u
        → Move st ctx u
    unfolding create
    create-Move id title brief w h = elim (Result-cases (context_member ctx)) [
      | inr (e, bad) ↦ absurd (ground arith)
      | inl (caller, is) ↦
          back id
            (record {
              title = title;
              brief_hash = brief;
              organizer = caller.1.club;
              creator = caller.0;
              co_organizers = [];
              window = w;
              phase = Phase.draft;
              epoch = 1;
            })
            (ground arith) (ground arith)
    ]

    change_plan-events :
        (s t : EventsState) (id : String) → change_plan L s id ≡ ok t → t.events ≡ s.events
    unfolding change_plan
    change_plan-events s t id h = ground arith

    change-Move :
        (id brief : String) (details : Option (String × Window))
        → change L st ctx id brief details ≡ ok u
        → Move st ctx u
    unfolding change
    change-Move id brief none h = elim (Option-cases (Dict.lookup id st.events)) [
      | inl missing ↦ absurd (ground arith)
      | inr (e, found) ↦ elim (Option-cases (checked_add e.epoch 1)) [
        | inl over ↦ absurd (ground arith)
        | inr (n, next) ↦
            let f : Event = record e { brief_hash = brief; epoch = n; phase = Phase.draft } in
            let kept = change_plan-events (set_event st id f) u id (ground arith) in
            back id f kept (ground arith)
      ]
    ]
    change-Move id brief (some (title, w)) h = elim (Option-cases (Dict.lookup id st.events)) [
      | inl missing ↦ absurd (ground arith)
      | inr (e, found) ↦ elim (Option-cases (checked_add e.epoch 1)) [
        | inl over ↦ absurd (ground arith)
        | inr (n, next) ↦
            let f : Event = record e {
              brief_hash = brief;
              title = title;
              window = w;
              epoch = n;
              phase = Phase.draft;
            } in
            let kept = change_plan-events (set_event st id f) u id (ground arith) in
            back id f kept (ground arith)
      ]
    ]

    pub transition-Move : (a : EventAction) → transition L st ctx a ≡ ok u → Move st ctx u
    unfolding transition add_task assign complete signup enrol checkin cancel_signup
    transition-Move (EventAction.of_organization a) h =
        still ((organization_transition-Onward st ctx u L a h).0)
    transition-Move (EventAction.of_competition a) h = still (ground arith)
    transition-Move (EventAction.put_block b) h = still (ground arith)
    transition-Move (EventAction.commit_files branch expected commit) h = still (ground arith)
    transition-Move (EventAction.create id title brief w) h = create-Move id title brief w h
    transition-Move (EventAction.approve id epoch clubs) h = approve-Move id epoch clubs h
    transition-Move (EventAction.submit id) h = go-Move id Phase.review h
    transition-Move (EventAction.publish id) h = go-Move id Phase.opened h
    transition-Move (EventAction.finish id) h = go-Move id Phase.done h
    transition-Move (EventAction.cancel_event id) h = go-Move id Phase.cancelled h
    transition-Move (EventAction.amend id brief) h = change-Move id brief none h
    transition-Move (EventAction.revise id title brief w) h =
        change-Move id brief (some (title, w)) (ground arith)
    transition-Move (EventAction.add_task event id title due) h = still (ground arith)
    transition-Move (EventAction.assign task member) h = still (ground arith)
    transition-Move (EventAction.complete task) h = still (ground arith)
    transition-Move (EventAction.signup id) h = still (ground arith)
    transition-Move (EventAction.checkin id) h = still (ground arith)
    transition-Move (EventAction.cancel_signup id) h = still (ground arith)
