-- ===== src/Events/Frame.antt =====
-- The actions of an organization leave the events, the signups and the check-ins
-- as they are, and take no source of points back.
use union_core.Prelude.{ℕ, ◌≡◌, inl, inr, ap, arith, String, Option, ok, Result-cases}
use union_core.Protocol.Ipld.{Cid, IpldBlock}
use union_core.Governance.State.{Context, Member, context_member}
use union_core.Events.Organization.{
  ActivityPolicy, OracleSourcePolicy, Attestation, Automation, GameResource, SchoolProfile, Plan,
  RewardRule, ReportKind, OrganizationAction,
}
use union_core.Events.State.{EventsState, Libraries}
use union_core.Prelude.Set.{Set}
use union_core.Protocol.Schema.{Bytes}
use union_core.Events.Evidence.{store, report_evidence}
use union_core.Events.Points.{set_policy, set_source, authorize_ai}
use union_core.Events.Attest.{attest}
use union_core.Events.Attested.{attest_lem}
use union_core.Events.Plans.{set_automation, set_resource, draft_plan, set_rewards}
use union_core.Events.Final.{give_opinion, give_consent, finalize}
use union_core.Events.Games.{claim_game, receive_game, settle, deliver, receive, Receipt}
use union_core.Events.Attest.{points_transition}
use union_core.Events.Office.{
  generated, take_output, check_report, by_member, organization_transition, notify, acknowledge,
  push_checkpoint, set_profile, ask_report, revise_report, publish_report,
}
use union_core.Events.Windows.{
  NotBefore, same_sources-NotBefore, set_source-NotBefore, attest-NotBefore,
}

-- The events, the sources of points, the signups and the check-ins stay.
abbrev pub Kept : EventsState → EventsState → Type 0
Kept st u =
    (u.events ≡ st.events)
    × (u.organization.oracle_sources ≡ st.organization.oracle_sources)
    × (u.signups ≡ st.signups)
    × (u.checkins ≡ st.checkins)

-- The events, the signups and the check-ins stay, and no source goes back.
abbrev pub Onward : EventsState → EventsState → Type 0
Onward st u =
    (u.events ≡ st.events) × NotBefore st u × (u.signups ≡ st.signups) × (u.checkins ≡ st.checkins)

module _ (st : EventsState) (ctx : Context) (u : EventsState) where
  set_policy-Kept : (p : ActivityPolicy) → set_policy st ctx p ≡ ok u → Kept st u
  unfolding set_policy
  set_policy-Kept p h = (ground arith, ground arith, ground arith, ground arith)

  Kept-Onward : Kept st u → Onward st u
  Kept-Onward (events, sources, signups, checkins) =
      (events, same_sources-NotBefore st u sources, signups, checkins)

  set_source-Onward :
      (id : String) (s : OracleSourcePolicy) → set_source st ctx id s ≡ ok u → Onward st u
  unfolding set_source
  set_source-Onward id s h =
      (ground arith, set_source-NotBefore st ctx id s u h, ground arith, ground arith)

  authorize_ai-Kept : (scope : String) (n : ℕ) → authorize_ai st ctx scope n ≡ ok u → Kept st u
  unfolding authorize_ai
  authorize_ai-Kept scope n h = (ground arith, ground arith, ground arith, ground arith)

  set_automation-Kept : (m : Member) (c : Automation) → set_automation st ctx m c ≡ ok u → Kept st u
  unfolding set_automation
  set_automation-Kept m c h = (ground arith, ground arith, ground arith, ground arith)

  set_resource-Kept :
      (m : Member) (id : String) (r : GameResource) → set_resource st ctx m id r ≡ ok u → Kept st u
  unfolding set_resource
  set_resource-Kept m id r h = (ground arith, ground arith, ground arith, ground arith)

  draft_plan-Kept : (event : String) (p : Plan) → draft_plan st ctx event p ≡ ok u → Kept st u
  unfolding draft_plan
  draft_plan-Kept event p h = (ground arith, ground arith, ground arith, ground arith)

  settle-Kept : (id : String) → settle st ctx id ≡ ok u → Kept st u
  unfolding settle
  settle-Kept id h = (ground arith, ground arith, ground arith, ground arith)

  set_rewards-Kept :
      (m : Member) (event : String) (r : RewardRule)
      → set_rewards st ctx m event r ≡ ok u
      → Kept st u
  unfolding set_rewards
  set_rewards-Kept m event r h = (ground arith, ground arith, ground arith, ground arith)

  deliver-Kept :
      (actor event target : String) → deliver st ctx actor event target ≡ ok u → Kept st u
  unfolding deliver
  deliver-Kept actor event target h = (ground arith, ground arith, ground arith, ground arith)

  receive-Kept : (actor event : String) → receive st ctx actor event ≡ ok u → Kept st u
  unfolding receive
  receive-Kept actor event h = (ground arith, ground arith, ground arith, ground arith)

  notify-Kept : (task : String) (due : ℕ) → notify st ctx task due ≡ ok u → Kept st u
  unfolding notify
  notify-Kept task due h = (ground arith, ground arith, ground arith, ground arith)

  acknowledge-Kept : (actor id : String) → acknowledge st ctx actor id ≡ ok u → Kept st u
  unfolding acknowledge
  acknowledge-Kept actor id h = (ground arith, ground arith, ground arith, ground arith)

  push_checkpoint-Kept :
      (actor group : String) (n : ℕ) (text : String)
      → push_checkpoint st actor group n text ≡ ok u
      → Kept st u
  unfolding push_checkpoint
  push_checkpoint-Kept actor group n text h =
      (ground arith, ground arith, ground arith, ground arith)

  module _ (L : Libraries) where
    attest-Onward : (a : Attestation) (b : IpldBlock) → attest L st ctx a b ≡ ok u → Onward st u
    attest-Onward a b h =
        let x = attest_lem L st ctx a b u h in
        (
          ap (λ (v : EventsState). v.events) x.result,
          attest-NotBefore L st ctx a b u h,
          ap (λ (v : EventsState). v.signups) x.result,
          ap (λ (v : EventsState). v.checkins) x.result,
        )

    give_opinion-Kept :
        (actor : String) (m : Member) (event : String) (c : Cid) (games : Set String)
        → give_opinion L st ctx actor m event c games ≡ ok u
        → Kept st u
    unfolding give_opinion
    give_opinion-Kept actor m event c games h =
        (ground arith, ground arith, ground arith, ground arith)

    give_consent-Kept :
        (actor : String) (m : Member) (event : String) (c : Cid) (t : Option Cid)
        → give_consent L st ctx actor m event c t ≡ ok u
        → Kept st u
    unfolding give_consent
    give_consent-Kept actor m event c t h = (ground arith, ground arith, ground arith, ground arith)

    -- Storing a file changes the files only.
    store-Kept :
        (s : EventsState) (bytes : Bytes) (c : Cid) (t : EventsState)
        → store L s bytes ≡ ok (c, t)
        → Kept s t
    unfolding store
    store-Kept s bytes c t h = (ground arith, ground arith, ground arith, ground arith)

    finalize-Kept :
        (event : String) (games : Set String) → finalize L st ctx event games ≡ ok u → Kept st u
    unfolding finalize store
    finalize-Kept event games h = (ground arith, ground arith, ground arith, ground arith)

    claim_game-Kept :
        (actor event game : String) → claim_game L st ctx actor event game ≡ ok u → Kept st u
    unfolding claim_game
    claim_game-Kept actor event game h = (ground arith, ground arith, ground arith, ground arith)

    receive_game-Kept :
        (actor event game : String) (r : Receipt)
        → receive_game L st actor event game r ≡ ok u
        → Kept st u
    unfolding receive_game
    receive_game-Kept actor event game r h =
        (ground arith, ground arith, ground arith, ground arith)

    set_profile-Kept :
        (club : String) (p : SchoolProfile) → set_profile L st ctx club p ≡ ok u → Kept st u
    unfolding set_profile
    set_profile-Kept club p h = (ground arith, ground arith, ground arith, ground arith)

    ask_report-Kept :
        (actor : String) (m : Member) (id : String) (k : ReportKind) (start end : ℕ) (to : String)
        (c : Cid) (worker : String)
        → ask_report L st ctx actor m id k start end to c worker ≡ ok u
        → Kept st u
    unfolding ask_report
    ask_report-Kept actor m id k start end to c worker h =
        elim (Result-cases (check_report L st ctx m id k start end to c worker)) [
          | inr (e, bad) ↦ absurd (ground arith)
          | inl (done, checked) ↦
              elim (Result-cases (report_evidence L st m.club start end c k to)) [
                | inr (e, bad) ↦ absurd (ground arith)
                | inl (bytes, made) ↦ elim (Result-cases (store L st bytes)) [
                  | inr (e, bad) ↦ absurd (ground arith)
                  | inl ((cid, kept), stored) ↦
                      let same = store-Kept st bytes cid kept stored in
                      (ground arith, ground arith, ground arith, ground arith)
                ]
              ]
        ]

    revise_report-Kept : (id : String) (c : Cid) → revise_report L st ctx id c ≡ ok u → Kept st u
    unfolding revise_report
    revise_report-Kept id c h = (ground arith, ground arith, ground arith, ground arith)

    publish_report-Kept : (id : String) → publish_report L st ctx id ≡ ok u → Kept st u
    unfolding publish_report
    publish_report-Kept id h = (ground arith, ground arith, ground arith, ground arith)

    -- What holds after any action of an organization.
    by_member-Onward :
        (actor : String) (m : Member) (action : OrganizationAction)
        → by_member L st ctx actor m action ≡ ok u
        → Onward st u
    unfolding by_member points_transition
    by_member-Onward actor m (OrganizationAction.activity_policy p) h =
        Kept-Onward (set_policy-Kept p h)
    by_member-Onward actor m (OrganizationAction.oracle_source id s) h = set_source-Onward id s h
    by_member-Onward actor m (OrganizationAction.activity_attest s a b ps e) h = attest-Onward _ e h
    by_member-Onward actor m (OrganizationAction.authorize_ai scope n) h =
        Kept-Onward (authorize_ai-Kept scope n h)
    by_member-Onward actor m (OrganizationAction.ai_document id n w) h = absurd (ground arith)
    by_member-Onward actor m (OrganizationAction.automation c) h =
        Kept-Onward (set_automation-Kept m c h)
    by_member-Onward actor m (OrganizationAction.resource id r) h =
        Kept-Onward (set_resource-Kept m id r h)
    by_member-Onward actor m (OrganizationAction.school_profile club p) h =
        Kept-Onward (set_profile-Kept club p h)
    by_member-Onward actor m (OrganizationAction.plan e k ss cs o c n w) h =
        Kept-Onward (draft_plan-Kept e _ h)
    by_member-Onward actor m (OrganizationAction.opinion e c gs) h =
        Kept-Onward (give_opinion-Kept actor m e c gs h)
    by_member-Onward actor m (OrganizationAction.consent e c t) h =
        Kept-Onward (give_consent-Kept actor m e c t h)
    by_member-Onward actor m (OrganizationAction.rewards e r) h =
        Kept-Onward (set_rewards-Kept m e r h)
    by_member-Onward actor m (OrganizationAction.finalize e gs) h =
        Kept-Onward (finalize-Kept e gs h)
    by_member-Onward actor m (OrganizationAction.polish e n) h = absurd (ground arith)
    by_member-Onward actor m (OrganizationAction.summary e n) h = absurd (ground arith)
    by_member-Onward actor m (OrganizationAction.game_claim e g) h =
        Kept-Onward (claim_game-Kept actor e g h)
    by_member-Onward actor m (OrganizationAction.game_receipt e g a b r c f) h = Kept-Onward (
        receive_game-Kept actor e g
          (record { started = a; stopped = b; results = r; evidence = c; failure = f }) h)
    by_member-Onward actor m (OrganizationAction.settle e) h = Kept-Onward (settle-Kept e h)
    by_member-Onward actor m (OrganizationAction.deliver e n) h =
        Kept-Onward (deliver-Kept actor e n h)
    by_member-Onward actor m (OrganizationAction.receive e) h = Kept-Onward (receive-Kept actor e h)
    by_member-Onward actor m (OrganizationAction.notify t n) h = Kept-Onward (notify-Kept t n h)
    by_member-Onward actor m (OrganizationAction.acknowledge n) h =
        Kept-Onward (acknowledge-Kept actor n h)
    by_member-Onward actor m (OrganizationAction.report id k a b to c w) h =
        Kept-Onward (ask_report-Kept actor m id k a b to c w h)
    by_member-Onward actor m (OrganizationAction.report_generated id n) h = absurd (ground arith)
    by_member-Onward actor m (OrganizationAction.report_revise id c) h =
        Kept-Onward (revise_report-Kept id c h)
    by_member-Onward actor m (OrganizationAction.report_publish id) h =
        Kept-Onward (publish_report-Kept id h)
    by_member-Onward actor m (OrganizationAction.push_checkpoint g n t) h =
        Kept-Onward (push_checkpoint-Kept actor g n t h)

    pub organization_transition-Onward :
        (action : OrganizationAction) → organization_transition L st ctx action ≡ ok u → Onward st u
    unfolding organization_transition
    organization_transition-Onward action h = elim (Result-cases (context_member ctx)) [
      | inr (e, bad) ↦ absurd (ground arith)
      | inl (caller, is) ↦ by_member-Onward caller.0 caller.1 action (ground arith)
    ]

    -- Nor does an output change them.
    pub generated-Kept :
        (a : OrganizationAction) (cid : Cid) → generated L st ctx a cid ≡ ok u → Kept st u
    unfolding generated take_output
    generated-Kept (OrganizationAction.ai_document id m w) cid h =
        (ground arith, ground arith, ground arith, ground arith)
    generated-Kept (OrganizationAction.polish id n) cid h =
        (ground arith, ground arith, ground arith, ground arith)
    generated-Kept (OrganizationAction.summary id n) cid h =
        (ground arith, ground arith, ground arith, ground arith)
    generated-Kept (OrganizationAction.report_generated id n) cid h =
        (ground arith, ground arith, ground arith, ground arith)
    generated-Kept _ cid h = absurd (ground arith)
