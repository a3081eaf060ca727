-- ===== src/Events/Office.antt =====
-- Notices, reports, checkpoints and generated documents, and the organization's transition
-- (crates/events/src/workflows.rs).
use Prim.Native.String.{len}
use union_core.Prelude.{
  ℕ, ◌*◌, String, Bool, true, false, not, ◌&&◌, ◌||◌, none, some, ◌==◌, text_key, nat_key, Result,
  ok, err, denied, not_found, capacity, refuse_if, ok_or, ◌>>=◌, ◌>>◌, is_some, ltb, leb, length,
}
use union_core.Prelude.Dict
use union_core.Prelude.Dict.{Dict}
use union_core.Prelude.Words.{checked_add}
use union_core.Protocol.Text.{validate_identifier}
use union_core.Protocol.Ipld.{Cid}
use union_core.Files.Store.{read}
use union_core.Governance.State.{Context, Member, context_member}
use union_core.Events.Organization.{
  SchoolProfile, Report, ReportKind, ReportStatus, PublicReport, OrganizationAction,
}
use union_core.Events.State.{
  Phase, is_phase, EventsState, Libraries, text, active, club_manager, manage, has_club,
  max_records,
}
use union_core.Events.Attest.{points_transition}
use union_core.Events.Evidence.{file, store, report_evidence}
use union_core.Events.Plans.{
  is_official, set_plan, plan_of, at_epoch, set_automation, set_resource, draft_plan, new_plan,
  set_rewards, other_worker,
}
use union_core.Events.Final.{give_opinion, give_consent, finalize}
use union_core.Events.Games.{claim_game, receive_game, settle, deliver, receive}

abbrev status_index : ReportStatus → ℕ
status_index ReportStatus.generating = 0
status_index ReportStatus.draft = 1
status_index ReportStatus.published = 2

-- `==` on statuses
abbrev pub is_status : ReportStatus → ReportStatus → Bool
is_status a b = status_index a == status_index b

abbrev is_review : ReportKind → Bool
is_review ReportKind.mua_annual = false
is_review ReportKind.club_annual_review = true

abbrev pub set_report : EventsState → String → Report → EventsState
set_report st id r = record st {
  organization = record st.organization { reports = Dict.insert id r st.organization.reports };
}

unfoldable pub notify : EventsState → Context → String → ℕ → Result EventsState
unfolding manage
notify st ctx task due_ms = do
  t ← ok_or (Dict.lookup task st.tasks) not_found
  e ← ok_or (Dict.lookup t.event st.events) not_found
  active e
  refuse_if
      (not (manage e ctx)
        || t.completed
        || ltb due_ms ctx.now_ms
        || leb max_records (length st.organization.notices))
      denied
  member ← ok_or t.assignee denied
  ok (record st {
    organization = record st.organization {
      notices =
          Dict.insert task
            (record {
              event = t.event;
              task = task;
              member = member;
              due_ms = due_ms;
              acknowledged_ms = none;
            })
            st.organization.notices;
    };
  })

unfoldable pub acknowledge : EventsState → Context → String → String → Result EventsState
acknowledge st ctx actor id = do
  n ← ok_or (Dict.lookup id st.organization.notices) not_found
  refuse_if (not (n.member == actor) || is_some n.acknowledged_ms || ltb ctx.now_ms n.due_ms) denied
  ok (record st {
    organization = record st.organization {
      notices =
          Dict.insert id (record n { acknowledged_ms = some ctx.now_ms }) st.organization.notices;
    };
  })

unfoldable pub push_checkpoint : EventsState → String → String → ℕ → String → Result EventsState
unfolding text
push_checkpoint st actor group expected ciphertext = do
  refuse_if (other_worker st actor || ltb (2 * 1024 * 1024) (len ciphertext)) denied
  text group 128
  let old = Dict.lookup group st.organization.push_checkpoints
  refuse_if (not (is_some old) && leb max_records (length st.organization.push_checkpoints))
      capacity
  let revision : ℕ = elim old [ none ↦ 0 | some p ↦ p.revision ]
  refuse_if (not (revision == expected)) denied
  next ← ok_or (checked_add revision 1) capacity
  ok (record st {
    organization = record st.organization {
      push_checkpoints =
          Dict.insert group (record { revision = next; ciphertext = ciphertext })
            st.organization.push_checkpoints;
    };
  })

module _ (L : Libraries) where
  unfoldable pub set_profile : EventsState → Context → String → SchoolProfile → Result EventsState
  unfolding club_manager file text
  set_profile st ctx club profile = do
    refuse_if (not (club_manager ctx club) || not (has_club ctx club)) denied
    file L st profile.mua_requirements
    text profile.mua_recipient 256
    elim profile.annual_requirements [ none ↦ ok tt | some cid ↦ file L st cid ]
    elim profile.annual_recipient [ none ↦ ok tt | some recipient ↦ text recipient 256 ]
    refuse_if
        (is_official profile.kind
          && (not (is_some profile.annual_requirements) || not (is_some profile.annual_recipient)))
        denied
    ok (record st {
      organization = record st.organization {
        schools = Dict.insert club profile st.organization.schools;
      };
    })

  -- The tests of the arm of `Report`, before its evidence.
  unfoldable pub check_report :
      EventsState
      → Context
      → Member
      → String
      → ReportKind
      → ℕ
      → ℕ
      → String
      → Cid
      → String
      → Result (Unit {0})
  unfolding text file club_manager
  check_report st ctx member id kind start end recipient requirements worker = do
    text id 128
    text recipient 256
    file L st requirements
    refuse_if
        (other_worker st worker
          || not (club_manager ctx member.club)
          || leb end start
          || ltb ctx.now_ms end
          || Dict.contains id st.organization.reports
          || leb max_records (length st.organization.reports)
          || not (Dict.contains worker ctx.core.members))
        denied
    profile ← ok_or (Dict.lookup member.club st.organization.schools) denied
    refuse_if (is_review kind && not (is_official profile.kind)) denied

  unfoldable pub ask_report :
      EventsState
      → Context
      → String
      → Member
      → String
      → ReportKind
      → ℕ
      → ℕ
      → String
      → Cid
      → String
      → Result EventsState
  unfolding check_report report_evidence store
  ask_report st ctx actor member id kind start end recipient requirements worker = do
    check_report st ctx member id kind start end recipient requirements worker
    bytes ← report_evidence L st member.club start end requirements kind recipient
    (cid, stored) ← store L st bytes
    ok (
        set_report stored id (record {
          club = member.club;
          creator = actor;
          kind = kind;
          period_start_ms = start;
          period_end_ms = end;
          recipient = recipient;
          requirements = requirements;
          evidence = cid;
          output = none;
          status = ReportStatus.generating;
          version = 1;
          worker = worker;
        }))

  -- `from_utf8` of a file
  unfoldable pub readable : EventsState → Cid → Result (Unit {0})
  readable st cid = do
    bytes ← read L.encoding st.files cid
    refuse_if (not (is_some (L.utf8 bytes))) denied

  unfoldable pub revise_report : EventsState → Context → String → Cid → Result EventsState
  unfolding readable club_manager
  revise_report st ctx id document = do
    readable st document
    r ← ok_or (Dict.lookup id st.organization.reports) not_found
    refuse_if
        (not (club_manager ctx r.club)
          || not
              (is_status r.status ReportStatus.draft || is_status r.status ReportStatus.published))
        denied
    version ← ok_or (checked_add r.version 1) capacity
    ok (
        set_report st id
          (record r { output = some document; version = version; status = ReportStatus.draft }))

  unfoldable pub publish_report : EventsState → Context → String → Result EventsState
  unfolding readable club_manager
  publish_report st ctx id = do
    r ← ok_or (Dict.lookup id st.organization.reports) not_found
    output ← ok_or r.output not_found
    readable st output
    refuse_if (not (club_manager ctx r.club) || not (is_status r.status ReportStatus.draft)) denied
    let published : PublicReport = record {
      club = r.club;
      kind = r.kind;
      period_start_ms = r.period_start_ms;
      period_end_ms = r.period_end_ms;
      version = r.version;
      output = output;
      published_ms = ctx.now_ms;
    }
    ok (record st {
      organization = record st.organization {
        reports =
            Dict.insert id (record r { status = ReportStatus.published }) st.organization.reports;
        publications = Dict.insert id published st.organization.publications;
      };
    })

  -- The caller is the worker.
  unfoldable pub check_worker : Context → String → Result (Unit {0})
  check_worker ctx worker = do
    caller ← context_member ctx
    refuse_if (not (caller.0 == worker)) denied

  -- The arms of `generated`, after its first two tests.
  unfoldable pub take_output : EventsState → Context → OrganizationAction → Cid → Result EventsState
  unfolding check_worker
  take_output st ctx (OrganizationAction.ai_document id member worker) output = do
    check_worker ctx member
    refuse_if (Dict.contains id st.organization.ai_documents) denied
    validate_identifier id
    refuse_if (leb max_records (length st.organization.ai_documents)) capacity
    ok (record st {
      organization = record st.organization {
        ai_documents =
            Dict.insert id
              (record {
                member = member;
                worker = worker;
                output = output;
                created_ms = ctx.now_ms;
              })
              st.organization.ai_documents;
      };
    })
  take_output st ctx (OrganizationAction.polish event epoch) output = do
    e ← ok_or (Dict.lookup event st.events) not_found
    p ← plan_of st event
    refuse_if (not (e.epoch == epoch) || not (at_epoch p.final_epoch epoch) || is_some p.polished)
        denied
    check_worker ctx p.worker
    ok (set_plan st event (record p { polished = some output }))
  take_output st ctx (OrganizationAction.summary event epoch) output = do
    e ← ok_or (Dict.lookup event st.events) not_found
    p ← plan_of st event
    refuse_if
        (not (e.epoch == epoch)
          || not (is_phase e.phase Phase.done)
          || not p.settled
          || is_some p.summary)
        denied
    check_worker ctx p.worker
    ok (set_plan st event (record p { summary = some output }))
  take_output st ctx (OrganizationAction.report_generated id version) output = do
    r ← ok_or (Dict.lookup id st.organization.reports) not_found
    refuse_if (not (r.version == version) || not (is_status r.status ReportStatus.generating))
        denied
    check_worker ctx r.worker
    ok (set_report st id (record r { output = some output; status = ReportStatus.draft }))
  take_output st ctx _ output = err denied

  unfoldable pub generated : EventsState → Context → OrganizationAction → Cid → Result EventsState
  unfolding file take_output
  generated st ctx action output = do
    refuse_if (not ctx.approved) denied
    file L st output
    take_output st ctx action output

  -- The match of `workflows::transition`.
  unfoldable pub by_member :
      EventsState → Context → String → Member → OrganizationAction → Result EventsState
  unfolding set_automation set_resource set_profile draft_plan give_opinion give_consent set_rewards
      finalize claim_game receive_game settle deliver receive notify acknowledge ask_report
      revise_report publish_report push_checkpoint points_transition
  by_member st ctx actor member (OrganizationAction.automation config) =
      set_automation st ctx member config
  by_member st ctx actor member (OrganizationAction.resource id resource) =
      set_resource st ctx member id resource
  by_member st ctx actor member (OrganizationAction.school_profile club profile) =
      set_profile st ctx club profile
  by_member st ctx actor member
        (OrganizationAction.plan event kind schools candidates opens closes ends worker) =
      draft_plan st ctx event (new_plan kind schools candidates opens closes ends worker)
  by_member st ctx actor member (OrganizationAction.opinion event document games) =
      give_opinion L st ctx actor member event document games
  by_member st ctx actor member (OrganizationAction.consent event document transcript) =
      give_consent L st ctx actor member event document transcript
  by_member st ctx actor member (OrganizationAction.rewards event rule) =
      set_rewards st ctx member event rule
  by_member st ctx actor member (OrganizationAction.finalize event selected) =
      finalize L st ctx event selected
  by_member st ctx actor member (OrganizationAction.game_claim event game) =
      claim_game L st ctx actor event game
  by_member st ctx actor member
        (OrganizationAction.game_receipt event game started stopped results evidence failure) =
      receive_game L st actor event game (record {
        started = started;
        stopped = stopped;
        results = results;
        evidence = evidence;
        failure = failure;
      })
  by_member st ctx actor member (OrganizationAction.settle event) = settle st ctx event
  by_member st ctx actor member (OrganizationAction.deliver event target) =
      deliver st ctx actor event target
  by_member st ctx actor member (OrganizationAction.receive event) = receive st ctx actor event
  by_member st ctx actor member (OrganizationAction.notify task due_ms) = notify st ctx task due_ms
  by_member st ctx actor member (OrganizationAction.acknowledge notice) =
      acknowledge st ctx actor notice
  by_member st ctx actor member
        (OrganizationAction.report id kind start end recipient requirements worker) =
      ask_report st ctx actor member id kind start end recipient requirements worker
  by_member st ctx actor member (OrganizationAction.report_revise id document) =
      revise_report st ctx id document
  by_member st ctx actor member (OrganizationAction.report_publish id) = publish_report st ctx id
  by_member st ctx actor member (OrganizationAction.push_checkpoint group expected ciphertext) =
      push_checkpoint st actor group expected ciphertext
  by_member st ctx actor member (OrganizationAction.ai_document id m worker) = err denied
  by_member st ctx actor member (OrganizationAction.polish event epoch) = err denied
  by_member st ctx actor member (OrganizationAction.summary event epoch) = err denied
  by_member st ctx actor member (OrganizationAction.report_generated id version) = err denied
  by_member st ctx actor member action = points_transition L st ctx action

  -- `workflows::transition`
  unfoldable pub organization_transition :
      EventsState → Context → OrganizationAction → Result EventsState
  unfolding by_member
  organization_transition st ctx action = do
    caller ← context_member ctx
    by_member st ctx caller.0 caller.1 action
