-- ===== src/Trust/Replay.antt =====
-- The log as a whole: `apply` on one record, and every state that a replay from a genesis reaches.
use union_core.Prelude.{
  ℕ, String, Bool, true, false, ◌≡◌, ◌≤◌, ◌+◌, inl, inr, sym, subst, text_key, pair_key, nat_key,
  arith, ok, err, denied, any, Result-cases, Bool-cases,
}
use union_core.Prelude.Set
use union_core.Prelude.Set.{Set}
use union_core.Prelude.Words.{checked_add}
use union_core.Protocol.Schema.{TrustAction, TrustRecord}
use union_core.Trust.State.{TrustState, member_for_device, permits}
use union_core.Trust.Log.{Crypto, apply, transition, extends, verify_signatures}
use union_core.Trust.Invariant.Devices.{HasOwners, Step-HasOwners}
use union_core.Trust.Invariant.Quorum.{HasQuorum, Step-HasQuorum}
use union_core.Trust.Invariant.Facts.{HasFacts, Step-HasFacts}
use union_core.Trust.Invariant.Approvals.{HasBacking, Step-HasBacking}
use union_core.Trust.Step.{Step, known, binding, confirmed, device_revoked}
use union_core.Trust.Step.Next.{next_lem}
use union_core.Trust.Step.Sound.{transition-Step}

-- All that holds of a state of the log.
pub record IsValid (st : TrustState) : Type 0 where
  pub owners : HasOwners st
  pub quorum : HasQuorum st
  pub facts : HasFacts st
  pub backing : HasBacking st

Step-IsValid :
    {parses : String → Bool} {st : TrustState} {s : Set String} {a : TrustAction} {t : TrustState}
    → Step parses st s a t
    → IsValid st
    → IsValid t
Step-IsValid step v = record {
  owners = Step-HasOwners step v.owners;
  quorum = Step-HasQuorum step v.quorum;
  facts = Step-HasFacts step v.facts;
  backing = Step-HasBacking step v.backing;
}

-- An accepted action keeps the federation and the head of the log, which `apply` moves itself.
Step-checkpoint :
    {parses : String → Bool} {st : TrustState} {s : Set String} {a : TrustAction} {t : TrustState}
    → Step parses st s a t
    → (t.checkpoint ≡ st.checkpoint) × (t.federation ≡ st.federation)
Step-checkpoint (confirmed m c d e v u h1 h2 h3 h4 (known h q) h6 h7) = ground arith
Step-checkpoint (confirmed m c d e v u h1 h2 h3 h4 (binding x h k b q) h6 h7) = ground arith
Step-checkpoint step = ground (arith, next_lem step)

-- Revocation is final: no step takes a device back.
Step-revoked :
    {parses : String → Bool} {st : TrustState} {s : Set String} {a : TrustAction} {t : TrustState}
    (d : String)
    → Step parses st s a t
    → Set.contains d st.revoked_devices ≡ true
    → Set.contains d t.revoked_devices ≡ true
Step-revoked x (confirmed m c d e v u h1 h2 h3 h4 (known h q) h6 h7) r = ground arith
Step-revoked x (confirmed m c d e v u h1 h2 h3 h4 (binding y h k b q) h6 h7) r = ground arith
Step-revoked {st = st} x (device_revoked m d ds h1 h2 h3 e) r =
    ground (arith, Set.contains-insert x d st.revoked_devices)
Step-revoked x step r = ground (arith, next_lem step)

module _ (x : Crypto) where
  open x use {parses_peer, digest, record_json, peer_id}

  -- What an accepted record went through.
  pub record Applied (st : TrustState) (r : TrustRecord) (t : TrustState) : Type 0 where
    pub signers : Set String
    pub moved : TrustState
    pub verified : verify_signatures x r ≡ ok signers
    pub chained : extends x st r ≡ true
    pub accepted : transition parses_peer st r.action signers ≡ ok moved
    pub result : t ≡ record moved {
      checkpoint = record (moved.checkpoint) {
        sequence = r.sequence;
        head = digest (record_json r);
      };
    }

  apply-Applied :
      (st : TrustState) (r : TrustRecord) (t : TrustState) → apply x st r ≡ ok t → Applied st r t
  unfolding apply
  apply-Applied st r t h = elim (Result-cases (verify_signatures x r)) [
    | inr (e, bad) ↦ absurd (ground arith)
    | inl (s, good) ↦ elim (Result-cases (transition parses_peer st r.action s)) [
      | inr (e, bad) ↦ absurd (ground arith)
      | inl (u, done) ↦ record {
        signers = s;
        moved = u;
        verified = good;
        chained = ground arith;
        accepted = done;
        result = ground arith;
      }
    ]
  ]

  Applied-Step :
      {st : TrustState} {r : TrustRecord} {t : TrustState} (a : Applied st r t)
      → Step parses_peer st a.signers r.action a.moved
  Applied-Step {st = st} {r = r} a =
      (transition-Step parses_peer st a.signers r.action a.moved a.accepted).0

  same-IsValid :
      (u t : TrustState)
      → (c : String) × (n : ℕ) × (h : String) × (t
          ≡ record u { checkpoint = record { genesis = c; sequence = n; head = h } })
      → IsValid u
      → IsValid t
  same-IsValid u t (c, n, h, e) v = subst IsValid (sym e) (record {
    owners = record {
      owner = v.owners.owner;
      listed = v.owners.listed;
      one_entry = v.owners.one_entry;
      few = v.owners.few;
    };
    quorum = record { seated = v.quorum.seated; planned = v.quorum.planned };
    facts = record {
      exclusive = v.facts.exclusive;
      registered = v.facts.registered;
      profile_owner = v.facts.profile_owner;
      served = v.facts.served;
    };
    backing = record {
      past = v.backing.past;
      counted_once = v.backing.counted_once;
      backed = v.backing.backed;
    };
  })

  -- An accepted record keeps every invariant of the state.
  pub apply-IsValid :
      (st : TrustState) (r : TrustRecord) (t : TrustState)
      → IsValid st
      → apply x st r ≡ ok t
      → IsValid t
  apply-IsValid st r t v h =
      let a = apply-Applied st r t h in
      same-IsValid a.moved t (_, _, _, a.result) (Step-IsValid (Applied-Step a) v)

  -- An accepted record moves the log on by one: it names the federation, the genesis and the head that it
  -- extends, its number is the next, and the new head is its own digest.
  pub apply-checkpoint :
      (st : TrustState) (r : TrustRecord) (t : TrustState)
      → apply x st r ≡ ok t
      → (r.federation ≡ st.federation)
        × (r.genesis ≡ st.checkpoint.genesis)
        × (r.previous ≡ st.checkpoint.head)
        × (r.sequence ≡ st.checkpoint.sequence + 1)
        × (t.federation ≡ st.federation)
        × (t.checkpoint.genesis ≡ st.checkpoint.genesis)
        × (t.checkpoint.sequence ≡ st.checkpoint.sequence + 1)
        × (t.checkpoint.head ≡ digest (record_json r))
  unfolding extends checked_add
  apply-checkpoint st r t h =
      let a = apply-Applied st r t h in
      ground (arith, a.chained, a.result, Step-checkpoint (Applied-Step a))

  -- The states that later records reach.
  pub data Extends (st : TrustState) : TrustState → Type 0 where
    here : Extends st st
    next_record :
        {t u : TrustState} (r : TrustRecord) → Extends st t → apply x t r ≡ ok u → Extends st u

  sequence_grows :
      {st t : TrustState} → Extends st t → st.checkpoint.sequence ≤ t.checkpoint.sequence
  sequence_grows here = omega arith
  sequence_grows (next_record {t} {u} r e h) =
      ground (arith, sequence_grows e, apply-checkpoint t r u h)

  -- A record is accepted once: in every later state of the log it is refused.
  pub apply-once :
      (st t u : TrustState) (r : TrustRecord)
      → apply x st r ≡ ok t
      → Extends t u
      → apply x u r ≡ err denied
  unfolding apply extends checked_add
  apply-once st t u r h e = ground (arith, apply-checkpoint st r t h, sequence_grows e)

  -- Every state that extends a valid one is valid.
  pub Extends-IsValid : {st t : TrustState} → IsValid st → Extends st t → IsValid t
  Extends-IsValid v here = v
  Extends-IsValid v (next_record {t} {u} r e h) = apply-IsValid t r u (Extends-IsValid v e) h

  revoked_for_good :
      {st t : TrustState} (d : String)
      → Extends st t
      → Set.contains d st.revoked_devices ≡ true
      → Set.contains d t.revoked_devices ≡ true
  revoked_for_good d here r = r
  revoked_for_good d (next_record {t} {u} r e h) c =
      let a = apply-Applied t r u h in
      ground (arith, a.result, Step-revoked d (Applied-Step a) (revoked_for_good d e c))

  -- A device that is revoked once has no permission in any later state of the log, and no later record
  -- that it signs is accepted.
  pub revoked_device_powerless :
      (st t : TrustState) (d audience service permission : String) (r : TrustRecord)
      (signers : Set String)
      → Set.contains d st.revoked_devices ≡ true
      → Extends st t
      → verify_signatures x r ≡ ok signers
      → Set.contains d signers ≡ true
      → (permits t d audience service permission ≡ false) × (apply x t r ≡ err denied)
  unfolding permits member_for_device apply transition
  revoked_device_powerless st t d audience service permission r signers c e v s =
      let gone = revoked_for_good d e c in (ground arith, refused gone)
    where
      refused : Set.contains d t.revoked_devices ≡ true → apply x t r ≡ err denied
      refused gone = elim (Bool-cases (any (λ d. Set.contains d t.revoked_devices) signers)) [
        | inl found ↦ ground arith
        | inr none_found ↦ absurd (
            ground
              (arith, Set.any-false (λ d. Set.contains d t.revoked_devices) signers d none_found s))
      ]
