-- ===== src/Governance/Accepted.antt =====
-- `State::apply` of crates/state/src/governance.rs: what an accepted action went through.
use union_core.Prelude.{
  ℕ, String, true, ◌≡◌, ◌≤◌, ◌+◌, ◌⊎◌, inl, inr, refl, arith, text_key, nat_key, ok, Result-cases,
}
use union_core.Prelude.Set
use union_core.Prelude.Set.{Set}
use union_core.Prelude.Words.{checked_add}
use union_core.Trust.State.{TrustState, permits}
use union_core.Governance.State.{Domain, State, Action, CoreState}
use union_core.Governance.Consensus.{Network, set_consensus_members}
use union_core.Governance.Core.{identity_core, can_write}
use union_core.Governance.Admins.{admins_sound}
use union_core.Governance.Apply.{act, apply, set_member_roles, anchor_digest}

module _ (net : Network) (D : Domain) where
  open D use {DomainAction}

  -- What an accepted action went through.
  pub record Acted (st : State D) (actor : String) (revision now_ms : ℕ) (action : Action D)
      (trust : TrustState) (t : State D) : Type 0 where
    pub derived : CoreState
    pub moved : State D
    pub writer : can_write st.core actor trust ≡ true
    pub on_time : st.core.clock_ms ≤ now_ms
    pub expected : revision ≡ st.core.revision
    pub bound : trust.checkpoint.genesis ≡ st.core.identity.genesis
    pub derives : identity_core st.core trust ≡ ok derived
    pub acted : act net D st derived actor revision now_ms action ≡ ok moved
    pub result :
        t
        ≡ record moved { core = record (moved.core) { revision = revision + 1; clock_ms = now_ms } }

  pub apply-Acted :
      (st : State D) (actor : String) (revision now_ms : ℕ) (action : Action D) (trust : TrustState)
      (t : State D)
      → apply net D st actor revision now_ms action trust ≡ ok t
      → Acted st actor revision now_ms action trust t
  unfolding apply checked_add
  apply-Acted st actor revision now_ms action trust t h =
      elim (Result-cases (identity_core st.core trust)) [
        | inr (e, bad) ↦ absurd (ground arith)
        | inl (core, derives) ↦
            elim (Result-cases (act net D st core actor revision now_ms action)) [
              | inr (e, bad) ↦ absurd (ground arith)
              | inl (u, acts) ↦ record {
                derived = core;
                moved = u;
                writer = ground arith;
                on_time = ground arith;
                expected = ground arith;
                bound = genesis core derives;
                derives = derives;
                acted = acts;
                result = ground arith;
              }
            ]
      ]
    where
      genesis :
          (core : CoreState)
          → identity_core st.core trust ≡ ok core
          → trust.checkpoint.genesis ≡ st.core.identity.genesis
      genesis core e = unfold identity_core in ground arith

  -- What an action leaves alone in the governance.
  pub act-keeps :
      (st : State D) (core : CoreState) (actor : String) (revision now_ms : ℕ) (a : Action D)
      (t : State D)
      → act net D st core actor revision now_ms a ≡ ok t
      → (t.core.identity ≡ st.core.identity)
        × (t.core.revision ≡ st.core.revision)
        × (t.core.clock_ms ≡ st.core.clock_ms)
  unfolding act set_consensus_members set_member_roles anchor_digest
  act-keeps st core actor revision now_ms (Action.domain_action a) t h = ground arith
  act-keeps st core actor revision now_ms (Action.set_consensus_members m) t h = ground arith
  act-keeps st core actor revision now_ms (Action.set_member_roles m r) t h = ground arith
  act-keeps st core actor revision now_ms (Action.anchor_digest i d) t h = ground arith

  -- An accepted action comes from a writer, at the present revision and not before the clock, under the
  -- genesis that the chain is bound to; it moves the revision on by one and the clock to its own time,
  -- and never the binding.
  pub apply-advances :
      (st : State D) (actor : String) (revision now_ms : ℕ) (action : Action D) (trust : TrustState)
      (t : State D)
      → apply net D st actor revision now_ms action trust ≡ ok t
      → (can_write st.core actor trust ≡ true)
        × (revision ≡ st.core.revision)
        × (st.core.clock_ms ≤ now_ms)
        × (trust.checkpoint.genesis ≡ st.core.identity.genesis)
        × (t.core.revision ≡ st.core.revision + 1)
        × (t.core.clock_ms ≡ now_ms)
        × (t.core.identity ≡ st.core.identity)
  apply-advances st actor revision now_ms action trust t h =
      let a = apply-Acted st actor revision now_ms action trust t h in
      ground (
        arith,
        a.writer,
        a.expected,
        a.on_time,
        a.bound,
        a.result,
        act-keeps st a.derived actor revision now_ms action a.moved a.acted,
      )

  act-governs :
      (st : State D) (core : CoreState) (actor : String) (revision now_ms : ℕ) (a : Action D)
      (t : State D)
      → act net D st core actor revision now_ms a ≡ ok t
      → (((d : DomainAction) × (a ≡ Action.domain_action d)) × (t.core ≡ st.core))
        ⊎ ((Set.contains actor core.admins ≡ true) × (t.domain ≡ st.domain))
  unfolding act
  act-governs st core actor revision now_ms (Action.domain_action a) t h =
      inl ((a, refl), ground arith)
  act-governs st core actor revision now_ms (Action.set_consensus_members m) t h =
      inr (ground arith, ground arith)
  act-governs st core actor revision now_ms (Action.set_member_roles m r) t h =
      inr (ground arith, ground arith)
  act-governs st core actor revision now_ms (Action.anchor_digest i d) t h =
      inr (ground arith, ground arith)

  -- An accepted action is one of the domain, and of the governance changes only revision and clock; or
  -- the identity log grants the actor administration of this service, and the domain stays as it is.
  pub apply-governs :
      (st : State D) (actor : String) (revision now_ms : ℕ) (action : Action D) (trust : TrustState)
      (t : State D)
      → apply net D st actor revision now_ms action trust ≡ ok t
      → (((d : DomainAction) × (action ≡ Action.domain_action d))
          × (t.core ≡ record (st.core) { revision = revision + 1; clock_ms = now_ms }))
        ⊎ ((permits trust actor st.core.identity.audience st.core.identity.service "admin" ≡ true)
            × (t.domain ≡ st.domain))
  apply-governs st actor revision now_ms action trust t h =
      let a = apply-Acted st actor revision now_ms action trust t h in
      elim (act-governs st a.derived actor revision now_ms action a.moved a.acted) [
        | inl (d, same) ↦ inl (d, ground (arith, a.result))
        | inr (admin, same) ↦
            inr
              (admins_sound st.core a.derived trust actor a.derives admin, ground (arith, a.result))
      ]
