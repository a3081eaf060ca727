-- ===== src/Events/Apart.antt =====
-- The windows of a source in the history of a chain: an oracle's time is never credited twice.
use union_core.Prelude.{ℕ, ◌≤◌, ◌≡◌, refl, arith, String, some, text_key, ok}
use union_core.Prelude.Dict
use union_core.Prelude.Dict.{Dict}
use union_core.Protocol.Ipld.{IpldBlock}
use union_core.Governance.State.{Context}
use union_core.Events.Organization.{Attestation, OracleSource}
use union_core.Events.State.{EventAction, EventsState, Libraries}
use union_core.Events.Points.{debit, credit, debit_allowance, refund_allowance}
use union_core.Events.Attest.{attest}
use union_core.Events.Attested.{attest_lem, attest-source}
use union_core.Events.Windows.{window_end, NotBefore, same_sources-NotBefore}
use union_core.Events.Frame.{generated-Kept, organization_transition-Onward}
use union_core.Events.Step.{
  approve, go, change, change_plan, create, add_task, assign, complete, signup, enrol, checkin,
  cancel_signup, transition,
}
use union_core.Events.Cleared.{
  Call, act, output, debit_points, credit_points, debit_ai, refund_ai, run, Later, now, after,
}

module _ (L : Libraries) (st u : EventsState) where
  transition-NotBefore :
      (ctx : Context) (a : EventAction) → transition L st ctx a ≡ ok u → NotBefore st u
  unfolding transition approve go change change_plan create add_task assign complete signup enrol
      checkin cancel_signup
  transition-NotBefore ctx (EventAction.of_organization a) h =
      (organization_transition-Onward st ctx u L a h).1
  transition-NotBefore ctx a h = same_sources-NotBefore st u (ground arith)

  run-NotBefore : (c : Call) → run L st c ≡ ok u → NotBefore st u
  unfolding run debit credit debit_allowance refund_allowance
  run-NotBefore (act ctx a) h = transition-NotBefore ctx a h
  run-NotBefore (output ctx a cid) h =
      same_sources-NotBefore st u ((generated-Kept st ctx u L a cid h).1)
  run-NotBefore (debit_points account n) h = same_sources-NotBefore st u (ground arith)
  run-NotBefore (credit_points account n) h = same_sources-NotBefore st u (ground arith)
  run-NotBefore (debit_ai account allowance n) h = same_sources-NotBefore st u (ground arith)
  run-NotBefore (refund_ai account allowance n) h = same_sources-NotBefore st u (ground arith)

Later-NotBefore : (L : Libraries) (st u : EventsState) → Later L st u → NotBefore st u
unfolding NotBefore
Later-NotBefore L st u now id = omega arith
Later-NotBefore L st u (after {t = t} l c h) id =
    let a = Later-NotBefore L st t l id in let b = run-NotBefore L t u c h id in omega arith

-- Two attestations of one source that are both accepted, whatever the chain does between, have
-- windows apart: the later one starts where the earlier ends, or after.
pub attest-apart :
    (L : Libraries) (st t u v : EventsState) (early late : Context) (a b : Attestation)
    (first second : IpldBlock)
    → attest L st early a first ≡ ok t
    → Later L t u
    → attest L u late b second ≡ ok v
    → a.source ≡ b.source
    → a.window_end_ms ≤ b.window_start_ms
unfolding window_end NotBefore
attest-apart L st t u v early late a b first second h l k same =
    let x = attest_lem L st early a first t h in
    let (has, later, lasts, past) = attest-source L st early a first t x in
    let y = attest_lem L u late b second v k in
    let (has_, later_, lasts_, past_) = attest-source L u late b second v y in
    let on = Later-NotBefore L t u l a.source in
    ordered t u a.source b.source _ y.source a.window_end_ms b.window_start_ms has y.has_source same
      refl on later_
  where
    ordered :
        (t u : EventsState) (s s_ : String) (x y : OracleSource) (end start : ℕ)
        → Dict.lookup s t.organization.oracle_sources ≡ some x
        → Dict.lookup s_ u.organization.oracle_sources ≡ some y
        → s ≡ s_
        → x.last_window_end_ms ≡ end
        → window_end t s ≤ window_end u s
        → y.last_window_end_ms ≤ start
        → end ≤ start
    ordered t u s s_ x y end start has has_ same at_ on later = ground arith
