-- ===== src/Events/Cleared.antt =====
-- Histories of a chain of events: what is published, held or done was approved as it stands.
use union_core.Prelude.{
  ℕ, ◌≡◌, inl, inr, refl, ap, subst, arith, String, true, some, ◌==◌, text_key, nat_key, Result, ok,
  Bool-cases,
}
use union_core.Prelude.Dict
use union_core.Prelude.Dict.{Dict}
use union_core.Prelude.Set.{Set}
use union_core.Protocol.Ipld.{Cid}
use union_core.Governance.State.{Context}
use union_core.Events.Organization.{PointAccount, AiAllowance, OrganizationAction}
use union_core.Events.State.{Event, Phase, EventsState, EventAction, Libraries, empty_events}
use union_core.Events.Points.{debit, credit, debit_allowance, refund_allowance}
use union_core.Events.Frame.{generated-Kept}
use union_core.Events.Office.{generated}
use union_core.Events.Step.{approve, transition}
use union_core.Events.Lifecycle.{Move, still, back, cleared, onward, is_past, transition-Move}

-- What the chain calls of the domain, by the methods of `Domain` that change its state.
pub data Call : Type 0 where
  act : Context → EventAction → Call
  output : Context → OrganizationAction → Cid → Call
  debit_points credit_points : PointAccount → ℕ → Call
  debit_ai refund_ai : PointAccount → AiAllowance → ℕ → Call

module _ (L : Libraries) where
  unfoldable pub run : EventsState → Call → Result EventsState
  run st (act ctx a) = transition L st ctx a
  run st (output ctx a cid) = generated L st ctx a cid
  run st (debit_points account n) = debit st account n
  run st (credit_points account n) = credit st account n
  run st (debit_ai account allowance n) = debit_allowance st account allowance n
  run st (refund_ai account allowance n) = refund_allowance st account allowance n

  pub data Later (st : EventsState) : EventsState → Type 0 where
    now : Later st st
    after : {t u : EventsState} → Later st t → (c : Call) → run t c ≡ ok u → Later st u

  -- The approval of an event, in the history of a state: the chain approved the action, and the event
  -- differs from the approved one in its phase only.
  pub record Approval (st : EventsState) (id : String) (e : Event) : Type 0 where
    pub before : EventsState
    pub ctx : Context
    pub clubs : Set String
    pub after_ : EventsState
    pub approved : Event
    pub from : Later empty_events before
    pub step : approve before ctx id approved.epoch clubs ≡ ok after_
    pub agreed : ctx.approved ≡ true
    pub found : Dict.lookup id after_.events ≡ some approved
    pub to : Later after_ st
    pub same : e ≡ record approved { phase = e.phase }

  approve-agreed :
      (st : EventsState) (ctx : Context) (id : String) (n : ℕ) (clubs : Set String)
      (u : EventsState)
      → approve st ctx id n clubs ≡ ok u
      → ctx.approved ≡ true
  unfolding approve
  approve-agreed st ctx id n clubs u h = ground arith

  -- Every event that has its approval in the state has it in the history.
  AllCleared : EventsState → Type 0
  AllCleared st =
      (id : String) (e : Event)
      → Dict.lookup id st.events ≡ some e
      → is_past e.phase ≡ true
      → Approval st id e

  Approval-after :
      (t u : EventsState) (c : Call) (id : String) (e : Event)
      → run t c ≡ ok u
      → Approval t id e
      → Approval u id e
  Approval-after t u c id e h a = record {
    before = a.before;
    ctx = a.ctx;
    clubs = a.clubs;
    after_ = a.after_;
    approved = a.approved;
    from = a.from;
    step = a.step;
    agreed = a.agreed;
    found = a.found;
    to = after a.to c h;
    same = a.same;
  }

  -- An event goes on with the approval that it has.
  Approval-phase :
      (st : EventsState) (id : String) (e : Event) (p : Phase)
      → Approval st id e
      → Approval st id (record e { phase = p })
  Approval-phase st id e p a = record {
    before = a.before;
    ctx = a.ctx;
    clubs = a.clubs;
    after_ = a.after_;
    approved = a.approved;
    from = a.from;
    step = a.step;
    agreed = a.agreed;
    found = a.found;
    to = a.to;
    same = ap (λ (f : Event). record f { phase = p }) a.same;
  }

  Approval-at :
      (st : EventsState) (name id : String) (f e : Event)
      → name ≡ id
      → f ≡ e
      → Approval st name f
      → Approval st id e
  Approval-at st name id f e p q a = subst (Approval st id) q (subst (λ i. Approval st i f) p a)

  Move-AllCleared :
      (t u : EventsState) (c : Call) (ctx : Context)
      → Later empty_events t
      → AllCleared t
      → (h : run t c ≡ ok u)
      → ((id : String) (n : ℕ) (clubs : Set String)
          → approve t ctx id n clubs ≡ ok u
          → ctx.approved ≡ true)
      → Move t ctx u
      → AllCleared u
  unfolding AllCleared
  Move-AllCleared t u c ctx l all h agree (still same) id e found past =
      Approval-after t u c id e h (all id e (ground arith) past)
  Move-AllCleared t u c ctx l all h agree (back name f events early) id e found past =
      let looked = Dict.lookup-insert id name f t.events in
      Approval-after t u c id e h (all id e (ground arith) past)
  Move-AllCleared t u c ctx l all h agree (cleared name f clubs was step events) id e found past =
      let g : Event = record f { co_organizers = clubs; phase = Phase.approved } in
      let looked = Dict.lookup-insert id name g t.events in
      elim (Bool-cases (id == name)) [
        | inr other ↦ Approval-after t u c id e h (all id e (ground arith) past)
        | inl this ↦ Approval-at u name id g e (ground arith) (ground arith) (record {
          before = t;
          ctx = ctx;
          clubs = clubs;
          after_ = u;
          approved = g;
          from = l;
          step = step;
          agreed = agree name f.epoch clubs step;
          found = ground (arith, Dict.lookup-insert name name g t.events);
          to = now;
          same = refl;
        })
      ]
  Move-AllCleared t u c ctx l all h agree (onward name f p was past_ events) id e found past =
      let g : Event = record f { phase = p } in
      let looked = Dict.lookup-insert id name g t.events in
      elim (Bool-cases (id == name)) [
        | inr other ↦ Approval-after t u c id e h (all id e (ground arith) past)
        | inl this ↦
            Approval-at u name id g e (ground arith) (ground arith)
              (Approval-after t u c name g h (Approval-phase t name f p (all name f was past_)))
      ]

  still-AllCleared :
      (t u : EventsState) (c : Call)
      → AllCleared t
      → run t c ≡ ok u
      → u.events ≡ t.events
      → AllCleared u
  unfolding AllCleared
  still-AllCleared t u c all h same id e found past =
      Approval-after t u c id e h (all id e (ground arith) past)

  refund-still :
      (t : EventsState) (account : PointAccount) (a : AiAllowance) (n : ℕ) (u : EventsState)
      → refund_allowance t account a n ≡ ok u
      → u.events ≡ t.events
  unfolding refund_allowance
  refund-still t account a n u h = ground arith

  run-AllCleared :
      (t u : EventsState) (c : Call)
      → Later empty_events t
      → AllCleared t
      → run t c ≡ ok u
      → AllCleared u
  unfolding run debit credit debit_allowance
  run-AllCleared t u (act ctx a) l all h =
      Move-AllCleared t u (act ctx a) ctx l all h
        (λ id n clubs e. approve-agreed t ctx id n clubs u e) (transition-Move t ctx u L a h)
  run-AllCleared t u (output ctx a cid) l all h =
      still-AllCleared t u (output ctx a cid) all h (generated-Kept t ctx u L a cid h).0
  run-AllCleared t u (debit_points account n) l all h =
      still-AllCleared t u (debit_points account n) all h (ground arith)
  run-AllCleared t u (credit_points account n) l all h =
      still-AllCleared t u (credit_points account n) all h (ground arith)
  run-AllCleared t u (debit_ai account allowance n) l all h =
      still-AllCleared t u (debit_ai account allowance n) all h (ground arith)
  run-AllCleared t u (refund_ai account allowance n) l all h =
      still-AllCleared t u (refund_ai account allowance n) all h
        (refund-still t account allowance n u h)

  empty_events-AllCleared : AllCleared empty_events
  unfolding AllCleared Dict.lookup
  empty_events-AllCleared id e found past = absurd (ground arith)

  Later-AllCleared : (st : EventsState) → Later empty_events st → AllCleared st
  Later-AllCleared st now = empty_events-AllCleared
  Later-AllCleared st (after {t = t} l c h) = run-AllCleared t st c l (Later-AllCleared t l) h

  -- In any history of a chain of events from its empty state, an event that is approved, open or done was
  -- approved by the chain while it was in review, at the epoch, with the title, the brief, the window,
  -- the organizer and the co-organizers that it still has.
  pub opened-approved :
      (st : EventsState) (id : String) (e : Event)
      → Later empty_events st
      → Dict.lookup id st.events ≡ some e
      → is_past e.phase ≡ true
      → Approval st id e
  unfolding AllCleared
  opened-approved st id e l found past = Later-AllCleared st l id e found past
