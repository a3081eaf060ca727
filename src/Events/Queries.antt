-- ===== src/Events/Queries.antt =====
-- What the chain asks of the events before it takes an action (crates/events/src/lib.rs).
use union_core.Prelude.{
  ℕ, String, Bool, true, false, not, ◌&&◌, ◌||◌, Option, none, some, ◌==◌, text_key, nat_key,
  list_key, Result, ok, err, denied, not_found, refuse_if, ok_or, ◌>>=◌, ◌>>◌, is_some, is_some_and,
  [], if◌then◌else◌,
}
use union_core.Prelude.Dict
use union_core.Prelude.Set
use union_core.Prelude.Set.{Set}
use union_core.Protocol.Schema.{Bytes}
use union_core.Protocol.Ipld.{Cid, parse_cid}
use union_core.Files.Store.{read}
use union_core.Governance.State.{Context}
use union_core.Events.Organization.{OrganizationAction, Plan, ReportStatus}
use union_core.Events.State.{EventAction, EventsState, Libraries, Phase, is_phase}
use union_core.Events.Evidence.{evidence}
use union_core.Events.Plans.{at_epoch}
use union_core.Events.Office.{generated, is_status}
use union_core.Events.Step.{transition}

-- `approval_clubs`
unfoldable pub approval_clubs : EventsState → EventAction → Result (Set String)
unfolding Set.insert
approval_clubs st (EventAction.approve id epoch co_organizers) = do
  event ← ok_or (Dict.lookup id st.events) not_found
  refuse_if (not (is_phase event.phase Phase.review) || not (event.epoch == epoch)) denied
  let clubs = Set.insert event.organizer co_organizers
  refuse_if
      (is_some_and (λ (p : Plan). not (Set.collect (Dict.keys p.schools) == clubs))
        (Dict.lookup id st.organization.plans))
      denied
  ok clubs
approval_clubs st _ = ok []

-- An event is in a phase at an epoch.
abbrev pub is_at : EventsState → String → Phase → ℕ → Bool
is_at st id phase epoch =
    is_some_and (λ e. is_phase e.phase phase && e.epoch == epoch) (Dict.lookup id st.events)

-- The guards of `workflow_worker`.
unfoldable pub has_workflow : EventsState → EventAction → Bool
has_workflow st (EventAction.approve id epoch clubs) =
    Dict.contains id st.organization.plans && is_at st id Phase.review epoch
has_workflow st (EventAction.of_organization (OrganizationAction.polish event epoch)) =
    is_at st event Phase.draft epoch
    && is_some_and (λ p. at_epoch p.final_epoch epoch && not (is_some p.polished))
        (Dict.lookup event st.organization.plans)
has_workflow st (EventAction.of_organization (OrganizationAction.summary event epoch)) =
    is_at st event Phase.done epoch
    && is_some_and (λ p. p.settled && not (is_some p.summary))
        (Dict.lookup event st.organization.plans)
has_workflow st (EventAction.of_organization (OrganizationAction.report_generated id version)) =
    is_some_and (λ r. is_status r.status ReportStatus.generating && r.version == version)
      (Dict.lookup id st.organization.reports)
has_workflow st _ = false

-- `workflow_worker`
unfoldable pub workflow_worker : EventsState → EventAction → Option String
unfolding has_workflow
workflow_worker st (EventAction.of_organization (OrganizationAction.ai_document id member worker)) =
    some worker
workflow_worker st action =
    if has_workflow st action
    then elim st.organization.automation [ none ↦ none | some a ↦ some a.worker ]
    else none

-- `requires_ai_review`
unfoldable pub requires_ai_review : EventsState → EventAction → Bool
requires_ai_review st (EventAction.approve id epoch clubs) = Dict.contains id st.organization.plans
requires_ai_review st _ = false

module _ (L : Libraries) where
  -- `artifact`
  unfoldable pub artifact : EventsState → String → Result Bytes
  artifact st id = do cid ← parse_cid L.encoding id; read L.encoding st.files cid

  -- `review_artifact`
  unfoldable pub review_artifact : EventsState → EventAction → Result Cid
  review_artifact st (EventAction.approve id epoch clubs) = do
    event ← ok_or (Dict.lookup id st.events) not_found
    refuse_if (not (event.epoch == epoch) || not (is_phase event.phase Phase.review)) denied
    cid ← elim (Dict.lookup id st.organization.plans) [
      | some p ↦ ok_or p.review_input denied
      | none ↦ parse_cid L.encoding event.brief_hash
    ]
    bytes ← read L.encoding st.files cid
    ok cid
  review_artifact st _ = err denied

  -- `workflow_input`
  unfoldable pub workflow_input : EventsState → EventAction → Result Bytes
  unfolding artifact review_artifact evidence
  workflow_input st (EventAction.approve id epoch clubs) = do
    cid ← review_artifact st (EventAction.approve id epoch clubs)
    artifact st cid
  workflow_input st (EventAction.of_organization action) = evidence L st action
  workflow_input st _ = err denied

  -- The action is one that a worker's output completes.
  abbrev pub is_generated : EventAction → Bool
  is_generated (EventAction.of_organization (OrganizationAction.polish event epoch)) = true
  is_generated (EventAction.of_organization (OrganizationAction.summary event epoch)) = true
  is_generated (EventAction.of_organization (OrganizationAction.report_generated id version)) = true
  is_generated (EventAction.of_organization (OrganizationAction.ai_document id member worker)) =
      true
  is_generated _ = false

  -- `transition_with_artifact`
  unfoldable pub transition_with_artifact :
      EventsState → Context → EventAction → Option String → Result EventsState
  unfolding generated transition
  transition_with_artifact st ctx (EventAction.of_organization action) output =
      elim (is_generated (EventAction.of_organization action)) [
        | true ↦ do
          id ← ok_or output denied
          cid ← parse_cid L.encoding id
          generated L st ctx action cid
        | false ↦ transition L st ctx (EventAction.of_organization action)
      ]
  transition_with_artifact st ctx action output = transition L st ctx action
