-- ===== src/Governance/History.antt =====
-- The governance over a history of accepted actions: consensus ids and digest anchors.
use union_core.Prelude.{
  ℕ, String, Bool, true, false, not, ◌&&◌, ◌||◌, ◌≡◌, ◌≤◌, ◌⊎◌, inl, inr, refl, ◌∙◌, arith,
  text_key, nat_key, some, List, [], ◌∷◌, ok, Option-cases, length, filter,
}
use union_core.Prelude.Dict
use union_core.Prelude.Set
use union_core.Protocol.Schema.{TrustBusinessBinding}
use union_core.Trust.State.{TrustState}
use union_core.Governance.State.{Domain, State, Action, CoreState, ConsensusPeer, DigestAnchor}
use union_core.Governance.Consensus.{Network, set_consensus_members, conflicts}
use union_core.Governance.Accepted.{apply-Acted}
use union_core.Governance.Apply.{act, apply, set_member_roles, anchor_digest, new}

-- No id is at once retired and in use, and the anchors stay within their bound.
pub record IsSound (core : CoreState) : Type 0 where
  pub unretired :
      (id : ℕ)
      → Dict.contains id core.consensus_members ≡ true
      → Set.contains id core.retired_consensus_ids ≡ false
  pub bounded : length core.digest_anchors ≤ 10_000

-- What one accepted action does to the ids and the anchors that a state has.
pub record Continues (before after : CoreState) : Type 0 where
  pub retired :
      (id : ℕ)
      → Set.contains id before.retired_consensus_ids ≡ true
      → Set.contains id after.retired_consensus_ids ≡ true
  pub member :
      (id : ℕ) (p : ConsensusPeer)
      → Dict.lookup id before.consensus_members ≡ some p
      → ((q : ConsensusPeer) × (Dict.lookup id after.consensus_members ≡ some q)
          × (q.peer ≡ p.peer))
        ⊎ (Set.contains id after.retired_consensus_ids ≡ true)
  pub anchored :
      (i : String) (a : DigestAnchor)
      → Dict.lookup i before.digest_anchors ≡ some a
      → Dict.lookup i after.digest_anchors ≡ some a

Continues-same :
    (before after : CoreState)
    → after.consensus_members ≡ before.consensus_members
    → after.retired_consensus_ids ≡ before.retired_consensus_ids
    → after.digest_anchors ≡ before.digest_anchors
    → Continues before after
Continues-same before after e1 e2 e3 = record {
  retired = λ id h. ground arith;
  member = λ id p h. inl (p, ground arith, refl);
  anchored = λ i a h. ground arith;
}

Continues-trans : (a b c : CoreState) → Continues a b → Continues b c → Continues a c
Continues-trans a b c h k = record {
  retired = λ id r. k.retired id (h.retired id r);
  member = λ id p l. elim (h.member id p l) [
    | inr gone ↦ inr (k.retired id gone)
    | inl (q, found, peer) ↦ elim (k.member id q found) [
      | inr gone ↦ inr gone
      | inl (r, later, again) ↦ inl (r, later, again ∙ peer)
    ]
  ];
  anchored = λ i x l. k.anchored i x (h.anchored i x l);
}

IsSound-same :
    (before after : CoreState)
    → after.consensus_members ≡ before.consensus_members
    → after.retired_consensus_ids ≡ before.retired_consensus_ids
    → after.digest_anchors ≡ before.digest_anchors
    → IsSound before
    → IsSound after
IsSound-same before after e1 e2 e3 v = record {
  unretired = λ id h. ground (arith, v.unretired id);
  bounded = ground (arith, v.bounded);
}

-- A key is among the keys of a dictionary where it is found.
contains-keys :
    {V : Type 0} (k : ℕ) (m : List (ℕ × V)) → Set.contains k (Dict.keys m) ≡ Dict.contains k m
unfolding Set.contains Dict.keys Dict.lookup
contains-keys k [] = refl
contains-keys k ((j, v) ∷ m) = ground (arith, contains-keys k m)

module _ (net : Network) where
  -- What the replacement of the members does to the retired ids.
  retired-set_consensus_members :
      (core : CoreState) (members : List (ℕ × ConsensusPeer)) (t : CoreState) (id : ℕ)
      → set_consensus_members net core members ≡ ok t
      → Set.contains id t.retired_consensus_ids ≡ (
          (not (Dict.contains id members) && Dict.contains id core.consensus_members)
          || Set.contains id core.retired_consensus_ids)
  unfolding set_consensus_members
  retired-set_consensus_members core members t id h =
      let gone : ℕ → Bool = λ i. not (Dict.contains i members) in
      ground (
        arith,
        Set.contains-extend id (filter gone (Dict.keys core.consensus_members))
            core.retired_consensus_ids,
        Set.contains-filter id gone (Dict.keys core.consensus_members),
        contains-keys id core.consensus_members,
      )

  set_consensus_members-IsSound :
      (core : CoreState) (members : List (ℕ × ConsensusPeer)) (t : CoreState)
      → set_consensus_members net core members ≡ ok t
      → IsSound core
      → IsSound t
  unfolding set_consensus_members conflicts
  set_consensus_members-IsSound core members t h v = record {
    unretired = λ id k. elim (Option-cases (Dict.lookup id members)) [
      | inl missing ↦ absurd (ground arith)
      | inr (p, found) ↦ ground (
        arith,
        retired-set_consensus_members core members t id h,
        Dict.any-false (conflicts core) members id p,
      )
    ];
    bounded = ground (arith, v.bounded);
  }

  set_consensus_members-Continues :
      (core : CoreState) (members : List (ℕ × ConsensusPeer)) (t : CoreState)
      → set_consensus_members net core members ≡ ok t
      → Continues core t
  unfolding set_consensus_members conflicts
  set_consensus_members-Continues core members t h = record {
    retired = λ id k. ground (arith, retired-set_consensus_members core members t id h);
    member = λ id p k. elim (Option-cases (Dict.lookup id members)) [
      | inl missing ↦ inr (ground (arith, retired-set_consensus_members core members t id h))
      | inr (q, found) ↦
          inl (q, ground arith, ground (arith, Dict.any-false (conflicts core) members id q))
    ];
    anchored = λ i a k. ground arith;
  }

anchor_digest-IsSound :
    (core : CoreState) (actor : String) (now_ms : ℕ) (id digest : String) (t : CoreState)
    → anchor_digest core actor now_ms id digest ≡ ok t
    → IsSound core
    → IsSound t
unfolding anchor_digest
anchor_digest-IsSound core actor now_ms id digest t h v = record {
  unretired = λ i k. ground (arith, v.unretired i);
  bounded = ground (
    arith,
    v.bounded,
    Dict.length-insert id (record { digest = digest; actor = actor; time_ms = now_ms })
        core.digest_anchors,
  );
}

anchor_digest-Continues :
    (core : CoreState) (actor : String) (now_ms : ℕ) (id digest : String) (t : CoreState)
    → anchor_digest core actor now_ms id digest ≡ ok t
    → Continues core t
unfolding anchor_digest
anchor_digest-Continues core actor now_ms id digest t h = record {
  retired = λ i k. ground arith;
  member = λ i p k. inl (p, ground arith, refl);
  anchored = λ i a k. ground (
    arith,
    Dict.lookup-insert i id (record { digest = digest; actor = actor; time_ms = now_ms })
        core.digest_anchors,
  );
}

module _ (net : Network) (D : Domain) where
  act-IsSound :
      (st : State D) (core : CoreState) (actor : String) (revision now_ms : ℕ) (a : Action D)
      (t : State D)
      → act net D st core actor revision now_ms a ≡ ok t
      → IsSound st.core
      → IsSound t.core
  unfolding act set_member_roles
  act-IsSound st core actor revision now_ms (Action.domain_action a) t h v =
      IsSound-same st.core t.core (ground arith) (ground arith) (ground arith) v
  act-IsSound st core actor revision now_ms (Action.set_consensus_members m) t h v =
      set_consensus_members-IsSound net st.core m t.core (ground arith) v
  act-IsSound st core actor revision now_ms (Action.set_member_roles m r) t h v =
      IsSound-same st.core t.core (ground arith) (ground arith) (ground arith) v
  act-IsSound st core actor revision now_ms (Action.anchor_digest i d) t h v =
      anchor_digest-IsSound st.core actor now_ms i d t.core (ground arith) v

  act-Continues :
      (st : State D) (core : CoreState) (actor : String) (revision now_ms : ℕ) (a : Action D)
      (t : State D)
      → act net D st core actor revision now_ms a ≡ ok t
      → Continues st.core t.core
  unfolding act set_member_roles
  act-Continues st core actor revision now_ms (Action.domain_action a) t h =
      Continues-same st.core t.core (ground arith) (ground arith) (ground arith)
  act-Continues st core actor revision now_ms (Action.set_consensus_members m) t h =
      set_consensus_members-Continues net st.core m t.core (ground arith)
  act-Continues st core actor revision now_ms (Action.set_member_roles m r) t h =
      Continues-same st.core t.core (ground arith) (ground arith) (ground arith)
  act-Continues st core actor revision now_ms (Action.anchor_digest i d) t h =
      anchor_digest-Continues st.core actor now_ms i d t.core (ground arith)

  -- The states that accepted actions reach, whatever the identity log shows at each.
  pub data History (st : State D) : State D → Type 0 where
    here : History st st
    action :
        {t u : State D} (actor : String) (revision now_ms : ℕ) (a : Action D) (trust : TrustState)
        → History st t
        → apply net D t actor revision now_ms a trust ≡ ok u
        → History st u

  step-IsSound :
      (t u : State D) (actor : String) (revision now_ms : ℕ) (a : Action D) (trust : TrustState)
      → apply net D t actor revision now_ms a trust ≡ ok u
      → IsSound t.core
      → IsSound u.core
  step-IsSound t u actor revision now_ms a trust h v =
      let p = apply-Acted net D t actor revision now_ms a trust u h in
      IsSound-same p.moved.core u.core (ground (arith, p.result)) (ground (arith, p.result))
        (ground (arith, p.result))
        (act-IsSound t p.derived actor revision now_ms a p.moved p.acted v)

  step-Continues :
      (t u : State D) (actor : String) (revision now_ms : ℕ) (a : Action D) (trust : TrustState)
      → apply net D t actor revision now_ms a trust ≡ ok u
      → Continues t.core u.core
  step-Continues t u actor revision now_ms a trust h =
      let p = apply-Acted net D t actor revision now_ms a trust u h in
      Continues-trans t.core p.moved.core u.core
        (act-Continues t p.derived actor revision now_ms a p.moved p.acted)
        (Continues-same p.moved.core u.core (ground (arith, p.result)) (ground (arith, p.result))
          (ground (arith, p.result)))

  -- From a sound state every reached state is sound and continues it: an id that is retired stays so
  -- and is in use never again; an id in use keeps its peer until it is retired for good; an anchor
  -- stays as it was made, and the anchors stay within 10,000.
  pub History-Continues :
      (st t : State D) → IsSound st.core → History st t → IsSound t.core × Continues st.core t.core
  History-Continues st t v here = (v, Continues-same st.core st.core refl refl refl)
  History-Continues st u v (action {t} actor revision now_ms a trust e h) =
      let (sound, before) = History-Continues st t v e in
      (
        step-IsSound t u actor revision now_ms a trust h sound,
        Continues-trans st.core t.core u.core before
            (step-Continues t u actor revision now_ms a trust h),
      )

  -- A chain starts in a sound state.
  pub new-IsSound :
      (b : TrustBusinessBinding) (st : State D) → new net D b ≡ ok st → IsSound st.core
  unfolding new Dict.lookup
  new-IsSound b st h = record { unretired = λ id k. absurd (ground arith); bounded = ground arith }
