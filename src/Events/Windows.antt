-- ===== src/Events/Windows.antt =====
-- The windows of a source: an oracle's time is never credited twice.
use union_core.Prelude.{
  ℕ, ◌≤◌, ◌≡◌, inl, inr, sym, subst, arith, String, none, some, text_key, nat_key, ok, Option-cases,
}
use union_core.Prelude.Dict
use union_core.Prelude.Dict.{Dict}
use union_core.Protocol.Ipld.{IpldBlock}
use union_core.Governance.State.{Context}
use union_core.Events.Organization.{OracleSource, OracleSourcePolicy, Attestation}
use union_core.Events.State.{EventsState, Libraries}
use union_core.Events.Points.{with_policy, set_source}
use union_core.Events.Attest.{attest, close_window}
use union_core.Events.Attested.{attest_lem, attest-source}

-- The end of the last window of a source.
abbrev pub end_in : Dict String OracleSource → String → ℕ
end_in sources id = elim (Dict.lookup id sources) [
  | none ↦ 0
  | some source ↦ source.last_window_end_ms
]

unfoldable pub window_end : EventsState → String → ℕ
window_end st id = end_in st.organization.oracle_sources id

-- No source goes back.
unfoldable pub NotBefore : EventsState → EventsState → Type 0
NotBefore st u = (id : String) → window_end st id ≤ window_end u id

-- A state with the sources of another has its windows.
pub same_sources-NotBefore :
    (st u : EventsState)
    → u.organization.oracle_sources ≡ st.organization.oracle_sources
    → NotBefore st u
unfolding NotBefore window_end
same_sources-NotBefore st u h id = ground arith

pub set_source-NotBefore :
    (st : EventsState) (ctx : Context) (id : String) (source : OracleSourcePolicy) (u : EventsState)
    → set_source st ctx id source ≡ ok u
    → NotBefore st u
unfolding set_source NotBefore window_end
set_source-NotBefore st ctx id source u h other = kept st u id source other (ground arith)
  where
    kept :
        (st u : EventsState) (id : String) (source : OracleSourcePolicy) (other : String)
        → u.organization.oracle_sources
          ≡ Dict.insert id
              (with_policy (Dict.lookup id st.organization.oracle_sources) source)
              st.organization.oracle_sources
        → window_end st other ≤ window_end u other
    kept st u id source other h =
        let new = with_policy (Dict.lookup id st.organization.oracle_sources) source in
        let c = Dict.lookup-insert other id new st.organization.oracle_sources in
        elim (Option-cases (Dict.lookup id st.organization.oracle_sources)) [
          | inl none_ ↦ ground arith
          | inr (old, is) ↦ ground arith
        ]

insert_later :
    (m : Dict String OracleSource) (id other : String) (old new : OracleSource)
    → Dict.lookup id m ≡ some old
    → old.last_window_end_ms ≤ new.last_window_end_ms
    → end_in m other ≤ end_in (Dict.insert id new m) other
insert_later m id other old new is later = ground (arith, Dict.lookup-insert other id new m)

pub attest-NotBefore :
    (L : Libraries) (st : EventsState) (ctx : Context) (a : Attestation) (evidence : IpldBlock)
    (u : EventsState)
    → attest L st ctx a evidence ≡ ok u
    → NotBefore st u
unfolding NotBefore window_end close_window
attest-NotBefore L st ctx a evidence u h other =
    let x = attest_lem L st ctx a evidence u h in
    let (same, later, lasts, past) = attest-source L st ctx a evidence u x in
    subst (λ (v : EventsState). window_end st other ≤ window_end v other) (sym x.result)
      (insert_later st.organization.oracle_sources a.source other x.source
        (record x.source { last_window_end_ms = a.window_end_ms; daily = x.tally.daily })
        x.has_source (omega arith))
