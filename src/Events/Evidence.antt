-- ===== src/Events/Evidence.antt =====
-- The evidence of crates/events/src/workflows.rs: what a review or a report is given of the state.
use union_core.Prelude.{
  ℕ, String, Bool, not, ◌&&◌, ◌||◌, Option, none, some, ◌==◌, text_key, nat_key, list_key, Result,
  ok, err, denied, not_found, refuse_if, ok_or, try_fold, ◌>>=◌, ◌>>◌, ltb, leb, List, [], ◌∷◌,
  drop, if◌then◌else◌,
}
use union_core.Prelude.Dict
use union_core.Prelude.Dict.{Dict}
use union_core.Prelude.Set
use union_core.Protocol.Schema.{Bytes}
use union_core.Protocol.Ipld.{Cid, parse_cid, starts_with}
use union_core.Files.Store.{read, put}
use union_core.Files.Version.{version}
use union_core.Events.Organization.{Opinion, Consent, ReportKind, OrganizationAction}
use union_core.Events.State.{
  Event, Task, EventsState, Libraries, DocumentEvidence, ConsentEvidence, EventRecord,
}

-- `protocol::llm_document_mime`
unfoldable pub llm_document_mime : Bytes → Option String
unfolding starts_with
llm_document_mime bytes =
    if starts_with (0x25 ∷ 0x50 ∷ 0x44 ∷ 0x46 ∷ 0x2d ∷ []) bytes
    then some "application/pdf"
    else if starts_with (0x89 ∷ 0x50 ∷ 0x4e ∷ 0x47 ∷ 0x0d ∷ 0x0a ∷ 0x1a ∷ 0x0a ∷ []) bytes
    then some "image/png"
    else if starts_with (0xff ∷ 0xd8 ∷ 0xff ∷ []) bytes
    then some "image/jpeg"
    else if starts_with (0x52 ∷ 0x49 ∷ 0x46 ∷ 0x46 ∷ []) bytes
        && starts_with (0x57 ∷ 0x45 ∷ 0x42 ∷ 0x50 ∷ []) (drop 8 bytes)
    then some "image/webp"
    else none

-- `collect` of results over a map, in the order of its keys.
unfoldable pub try_map {ℓ κ} :
    {A : Type ℓ} {B : Type κ} → (A → Result B) → Dict String A → Result (Dict String B)
try_map f [] = ok []
try_map f ((k, a) ∷ m) = f a >>= λ b. try_map f m >>= λ rest. ok ((k, b) ∷ rest)

-- `map` and `transpose`
abbrev pub try_option {ℓ κ} :
    {A : Type ℓ} {B : Type κ} → (A → Result B) → Option A → Result (Option B)
try_option f none = ok none
try_option f (some a) = f a >>= λ b. ok (some b)

abbrev pub tasks_of : EventsState → String → Dict String Task
tasks_of st event = Dict.retain (λ _ t. t.event == event) st.tasks

-- The start of the event lies in the period, and the club takes part.
abbrev pub in_report : String → ℕ → ℕ → Event → Bool
in_report club start end e =
    leb start e.window.starts_ms
    && ltb e.window.starts_ms end
    && (e.organizer == club || Set.contains club e.co_organizers)

module _ (L : Libraries) where
  -- `file`: the document can be read.
  unfoldable pub file : EventsState → Cid → Result (Unit {0})
  file st cid = read L.encoding st.files cid >>= λ _. ok tt

  unfoldable pub document_evidence : EventsState → Cid → Result DocumentEvidence
  unfolding llm_document_mime
  document_evidence st cid = do
    bytes ← read L.encoding st.files cid
    elim (llm_document_mime bytes) [
      | some mime ↦ ok (DocumentEvidence.typed_document cid mime)
      | none ↦ elim (L.utf8 bytes) [
        | some text ↦ ok (DocumentEvidence.text_document cid text)
        | none ↦ ok (DocumentEvidence.unread_document cid)
      ]
    ]

  unfoldable pub consent_evidence : EventsState → Consent → Result ConsentEvidence
  unfolding document_evidence
  consent_evidence st c = do
    original ← document_evidence st c.document
    transcript ← try_option (document_evidence st) c.transcript
    ok (record { original = original; transcript = transcript })

  -- The first two arms of `evidence`.
  unfoldable pub plan_evidence : EventsState → String → ℕ → Result Bytes
  unfolding consent_evidence try_map
  plan_evidence st event epoch = do
    e ← ok_or (Dict.lookup event st.events) not_found
    refuse_if (not (e.epoch == epoch)) denied
    p ← ok_or (Dict.lookup event st.organization.plans) not_found
    brief ← parse_cid L.encoding e.brief_hash
    planning ← document_evidence st brief
    opinions ← try_map (λ (o : Opinion). document_evidence st o.document) p.opinions
    consents ← try_map (consent_evidence st) p.consents
    ok (
        L.plan_json (record {
          event = e;
          plan = p;
          planning_document = planning;
          opinions = opinions;
          consents = consents;
          signups = Dict.lookup event st.signups;
          checkins = Dict.lookup event st.checkins;
          tasks = tasks_of st event;
        }))

  unfoldable pub evidence : EventsState → OrganizationAction → Result Bytes
  unfolding plan_evidence
  evidence st (OrganizationAction.polish event epoch) = plan_evidence st event epoch
  evidence st (OrganizationAction.summary event epoch) = plan_evidence st event epoch
  evidence st (OrganizationAction.report_generated id version) = do
    r ← ok_or (Dict.lookup id st.organization.reports) not_found
    refuse_if (not (r.version == version)) denied
    read L.encoding st.files r.evidence
  evidence st _ = err denied

  -- `store`: the blocks of a new file, put one after the other.
  unfoldable pub store : EventsState → Bytes → Result (Cid × EventsState)
  store st bytes = do
    made ← version L.encoding st.files none bytes
    files ← try_fold (put L.encoding) st.files made.1
    ok (made.0, record st { files = files })

  unfoldable pub event_record : EventsState → String × Event → Result EventRecord
  unfolding document_evidence
  event_record st (id, e) = do
    let plan = Dict.lookup id st.organization.plans
    summary ← try_option (document_evidence st) (elim plan [ none ↦ none | some p ↦ p.summary ])
    brief ← parse_cid L.encoding e.brief_hash
    planning ← document_evidence st brief
    ok (record {
      id = id;
      event = e;
      plan = plan;
      planning_document = planning;
      summary = summary;
      attendance = Dict.lookup id st.checkins;
      tasks = tasks_of st id;
    })

  unfoldable pub event_records : EventsState → Dict String Event → Result (List EventRecord)
  unfolding event_record
  event_records st [] = ok []
  event_records st (e ∷ es) = do
    one ← event_record st e
    rest ← event_records st es
    ok (one ∷ rest)

  unfoldable pub report_evidence :
      EventsState → String → ℕ → ℕ → Cid → ReportKind → String → Result Bytes
  unfolding event_records
  report_evidence st club start end requirements kind recipient = do
    records ← event_records st (Dict.retain (λ _ e. in_report club start end e) st.events)
    asked ← document_evidence st requirements
    ok (
        L.report_json (record {
          club = club;
          period_start_ms = start;
          period_end_ms = end;
          requirements = asked;
          kind = kind;
          audience = recipient;
          activities = records;
        }))
