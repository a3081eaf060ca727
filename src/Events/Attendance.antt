-- ===== src/Events/Attendance.antt =====
-- Attendance in the history of a chain: whoever is checked in is signed up.
use union_core.Prelude.{
  ◌≡◌, inl, inr, arith, String, Bool, true, [], text_key, ok, is_some_and, unwrap_or, Option-cases,
  Result-cases,
}
use union_core.Prelude.Dict
use union_core.Prelude.Dict.{Dict}
use union_core.Prelude.Set
use union_core.Prelude.Set.{Set}
use union_core.Governance.State.{Context, context_member}
use union_core.Events.State.{EventAction, EventsState, Libraries, empty_events}
use union_core.Events.Points.{debit, credit, debit_allowance, refund_allowance}
use union_core.Events.Frame.{generated-Kept, organization_transition-Onward}
use union_core.Events.Step.{
  approve, go, change, change_plan, create, add_task, assign, complete, signup, enrol, checkin,
  cancel_signup, transition,
}
use union_core.Events.Cleared.{
  Call, act, output, debit_points, credit_points, debit_ai, refund_ai, run, Later, now, after,
}

-- The member is in the list of an event.
unfoldable pub is_listed : Dict String (Set String) → String → String → Bool
is_listed lists event member = is_some_and (λ s. Set.contains member s) (Dict.lookup event lists)

IsAttended : EventsState → Type 0
IsAttended st =
    (event member : String)
    → is_listed st.checkins event member ≡ true
    → is_listed st.signups event member ≡ true

module _ (L : Libraries) (st u : EventsState) where
  abbrev SameLists : Type 0
  SameLists = (u.signups ≡ st.signups) × (u.checkins ≡ st.checkins)

  same-IsAttended : SameLists → IsAttended st → IsAttended u
  unfolding IsAttended
  same-IsAttended (signups, checkins) i event member h = let before = i event member in ground arith

  signup-IsAttended :
      (ctx : Context) (id : String) → IsAttended st → signup st ctx id ≡ ok u → IsAttended u
  unfolding IsAttended signup enrol is_listed
  signup-IsAttended ctx id i h event member there = elim (Result-cases (context_member ctx)) [
    | inr (e, bad) ↦ absurd (ground arith)
    | inl (caller, is) ↦
        let members : Set String = unwrap_or [] (Dict.lookup id st.signups) in
        let before = i event member in
        let a = Dict.lookup-insert event id (Set.insert (caller.0) members) st.signups in
        let b = Set.contains-insert member (caller.0) members in ground arith
  ]

  checkin-IsAttended :
      (ctx : Context) (id : String) → IsAttended st → checkin st ctx id ≡ ok u → IsAttended u
  unfolding IsAttended checkin is_listed Set.contains
  checkin-IsAttended ctx id i h event member there = elim (Result-cases (context_member ctx)) [
    | inr (e, bad) ↦ absurd (ground arith)
    | inl (caller, is) ↦
        let members : Set String = unwrap_or [] (Dict.lookup id st.checkins) in
        let before = i event member in
        let a = Dict.lookup-insert event id (Set.insert (caller.0) members) st.checkins in
        let b = Set.contains-insert member (caller.0) members in ground arith
  ]

  cancel-IsAttended :
      (ctx : Context) (id : String) → IsAttended st → cancel_signup st ctx id ≡ ok u → IsAttended u
  unfolding IsAttended cancel_signup is_listed
  cancel-IsAttended ctx id i h event member there = elim (Result-cases (context_member ctx)) [
    | inr (e, bad) ↦ absurd (ground arith)
    | inl (caller, is) ↦ elim (Option-cases (Dict.lookup id st.signups)) [
      | inl none_ ↦ absurd (ground arith)
      | inr (members, has) ↦
          let before = i event member in
          let a = Dict.lookup-insert event id (Set.remove (caller.0) members) st.signups in
          let b = Set.contains-remove member (caller.0) members in ground arith
    ]
  ]

  transition-IsAttended :
      (ctx : Context) (a : EventAction)
      → IsAttended st
      → transition L st ctx a ≡ ok u
      → IsAttended u
  unfolding transition approve go change change_plan create add_task assign complete
  transition-IsAttended ctx (EventAction.of_organization a) i h =
      let (events, windows, signups, checkins) = organization_transition-Onward st ctx u L a h in
      same-IsAttended (signups, checkins) i
  transition-IsAttended ctx (EventAction.signup id) i h = signup-IsAttended ctx id i h
  transition-IsAttended ctx (EventAction.checkin id) i h = checkin-IsAttended ctx id i h
  transition-IsAttended ctx (EventAction.cancel_signup id) i h = cancel-IsAttended ctx id i h
  transition-IsAttended ctx a i h = same-IsAttended (ground arith, ground arith) i

  run-IsAttended : (c : Call) → IsAttended st → run L st c ≡ ok u → IsAttended u
  unfolding run debit credit debit_allowance refund_allowance
  run-IsAttended (act ctx a) i h = transition-IsAttended ctx a i h
  run-IsAttended (output ctx a cid) i h =
      let (events, sources, signups, checkins) = generated-Kept st ctx u L a cid h in
      same-IsAttended (signups, checkins) i
  run-IsAttended (debit_points account n) i h = same-IsAttended (ground arith, ground arith) i
  run-IsAttended (credit_points account n) i h = same-IsAttended (ground arith, ground arith) i
  run-IsAttended (debit_ai account allowance n) i h = same-IsAttended (ground arith, ground arith) i
  run-IsAttended (refund_ai account allowance n) i h =
      same-IsAttended (ground arith, ground arith) i

-- In any history of a chain of events from its empty state, whoever is checked in for an event is
-- signed up for it: no action cancels the signup of a member who is there.
pub checked-signed :
    (L : Libraries) (st : EventsState)
    → Later L empty_events st
    → (event member : String) → is_listed st.checkins event member ≡ true
    → is_listed st.signups event member ≡ true
unfolding IsAttended is_listed Dict.lookup
checked-signed L st now event member there = absurd (ground arith)
checked-signed L st (after {t = t} l c h) event member there =
    run-IsAttended L t st c (checked-signed L t l) h event member there
