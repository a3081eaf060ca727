-- ===== src/Trust/Signatures.antt =====
-- `verify_signatures`: what the signers of a record that passes have done.
use union_core.Prelude.{
  String, true, false, ◌≡◌, ◌≤◌, ◌+◌, ◌<◌, ◌⊎◌, ◌↔◌, inl, inr, sym, subst, ap, ◌∙◌, refl, text_key,
  nat_key, arith, length, List, [], ◌∷◌, Option, some, none, ok, Result-cases, try_fold,
}
use union_core.Prelude.Set
use union_core.Prelude.Set.{Set}
use union_core.Protocol.Schema.{Bytes, TrustRecord, TrustSignature}
use union_core.Trust.Log.{
  Crypto, key, verify_signature, verify_signatures, signing_bytes, bytes_less,
}

-- The keys ascend strictly, from the last one seen.
abbrev pub Ascends : Option Bytes → List TrustSignature → Type 0
Ascends p [] = Unit
Ascends none (s ∷ r) = Ascends (some s.public_key) r
Ascends (some p) (s ∷ r) = (bytes_less p s.public_key ≡ true) × Ascends (some s.public_key) r

module _ (x : Crypto) (message : Bytes) where
  open x use {PublicKey, peer_id, verify}

  -- The signature is one of this peer over the message.
  abbrev pub Signs : String → TrustSignature → Type 0
  Signs d s =
      (k : PublicKey) × (key x s.public_key ≡ ok k)
      × (peer_id k ≡ d)
      × (verify k message s.signature ≡ true)

  abbrev pub SomeSigns : String → List TrustSignature → Type 0
  SomeSigns d [] = ⊥
  SomeSigns d (s ∷ r) = Signs d s ⊎ SomeSigns d r

  abbrev pub AllSign : List TrustSignature → Type 0
  AllSign [] = Unit
  AllSign (s ∷ r) = ((d : String) × Signs d s) × AllSign r

  -- What a run of the loop from these keys and signers to those has checked.
  pub record Checked (p : Option Bytes) (before after : Set String) (ss : List TrustSignature)
      : Type 0 where
    pub ascending : Ascends p ss
    pub genuine : AllSign ss
    pub counted : length after ≡ length before + length ss
    pub only :
        (d : String) → Set.contains d after ≡ true → (Set.contains d before ≡ true) ⊎ SomeSigns d ss
    pub each :
        (d : String) → (Set.contains d before ≡ true) ⊎ SomeSigns d ss → Set.contains d after ≡ true

  Ascends-from :
      (p : Option Bytes) (s : TrustSignature) (r : List TrustSignature)
      → ((q : Bytes) → p ≡ some q → bytes_less q s.public_key ≡ true)
      → Ascends (some s.public_key) r
      → Ascends p (s ∷ r)
  Ascends-from none s r h a = a
  Ascends-from (some q) s r h a = (h q refl, a)

  -- Who was known or signs this entry is a signer after it.
  joins :
      (d : String) (before : Set String) (s : TrustSignature) (k : PublicKey)
      → key x s.public_key ≡ ok k
      → (Set.contains d before ≡ true) ⊎ Signs d s
      → Set.contains d (Set.insert (peer_id k) before) ≡ true
  joins d before s k good (inl old) = ground (arith, Set.contains-insert d (peer_id k) before)
  joins d before s k good (inr (l, also, named, valid)) =
      let same : peer_id k ≡ d = ap peer_id (cc) ∙ named in
      ground (arith, Set.contains-insert d (peer_id k) before)

  split :
      (d : String) (before : Set String) (s : TrustSignature) (r : List TrustSignature)
      → (Set.contains d before ≡ true) ⊎ SomeSigns d (s ∷ r)
      → ((Set.contains d before ≡ true) ⊎ Signs d s) ⊎ SomeSigns d r
  split d before s r (inl old) = inl (inl old)
  split d before s r (inr (inl now)) = inl (inr now)
  split d before s r (inr (inr later)) = inr later

  Checked-cons :
      (p : Option Bytes) (before after : Set String) (s : TrustSignature) (r : List TrustSignature)
      (k : PublicKey)
      → ((q : Bytes) → p ≡ some q → bytes_less q s.public_key ≡ true)
      → key x s.public_key ≡ ok k
      → verify k message s.signature ≡ true
      → Set.contains (peer_id k) before ≡ false
      → Checked (some s.public_key) (Set.insert (peer_id k) before) after r
      → Checked p before after (s ∷ r)
  Checked-cons p before after s r k up good valid fresh c = record {
    ascending = Ascends-from p s r up c.ascending;
    genuine = ((peer_id k, (k, good, refl, valid)), c.genuine);
    counted = ground (arith, c.counted, Set.length-insert (peer_id k) before);
    only = λ d h. elim (c.only d h) [
      | inl old ↦ elim (text_key.same d (peer_id k)) [
        | yes e ↦ inr (inl (k, good, sym e, valid))
        | no n ↦ inl (ground (arith, Set.contains-insert d (peer_id k) before))
      ]
      | inr later ↦ inr (inr later)
    ];
    each = λ d h. elim (split d before s r h) [
      | inl sooner ↦ c.each d (inl (joins d before s k good sooner))
      | inr later ↦ c.each d (inr later)
    ];
  }

  loop-Checked :
      (p : Option Bytes) (before : Set String) (ss : List TrustSignature) (q : Option Bytes)
      (after : Set String)
      → try_fold (verify_signature x message) (p, before) ss ≡ ok (q, after)
      → Checked p before after ss
  unfolding try_fold verify_signature
  loop-Checked p before [] q after h =
      let same : before ≡ after = ground arith in
      subst (λ a. Checked p before a []) same
        (record {
          ascending = tt;
          genuine = tt;
          counted = omega arith;
          only = λ d k. inl k;
          each = λ d k. elim k [ inl old ↦ old | inr never ↦ absurd never ];
        })
  loop-Checked p before (s ∷ r) q after h = elim (Result-cases (key x s.public_key)) [
    | inr (e, bad) ↦ absurd (ground arith)
    | inl (k, good) ↦
        Checked-cons p before after s r k (λ b e. ground arith) good (ground arith) (ground arith)
          (loop-Checked (some s.public_key) (Set.insert (peer_id k) before) r q after
            (ground arith))
  ]

-- The signers of a record that passes are exactly the peers whose keys sign it, one for each of its
-- signatures, which are at least one and at most 136, all genuine, and in strict order of their keys.
pub verify_signatures_lem :
    (x : Crypto) (r : TrustRecord) (signers : Set String)
    → verify_signatures x r ≡ ok signers
    → (0 < length r.signatures)
      × (length r.signatures ≤ 136)
      × (length signers ≡ length r.signatures)
      × Ascends none r.signatures
      × AllSign x (signing_bytes x r) r.signatures
      × ((d : String)
          → (Set.contains d signers ≡ true) ↔ SomeSigns x (signing_bytes x r) d r.signatures)
unfolding verify_signatures Set.contains
verify_signatures_lem x r signers h =
    elim (Result-cases
      (try_fold (verify_signature x (signing_bytes x r)) (none, []) r.signatures)) [
        | inr (e, bad) ↦ absurd (ground arith)
        | inl ((q, after), done) ↦
            let c = loop-Checked x (signing_bytes x r) none [] r.signatures q after done in
            let same : after ≡ signers = ground arith in
            subst
              (λ (a : Set String).
                (0 < length r.signatures)
                × (length r.signatures ≤ 136)
                × (length a ≡ length r.signatures)
                × Ascends none r.signatures
                × AllSign x (signing_bytes x r) r.signatures
                × ((d : String)
                    → (Set.contains d a ≡ true) ↔ SomeSigns x (signing_bytes x r) d r.signatures))
              same
              (
                ground arith,
                ground arith,
                ground (arith, c.counted),
                c.ascending,
                c.genuine,
                λ d. (
                  λ k. elim (c.only d k) [ inl old ↦ absurd (cc) | inr s ↦ s ],
                  λ k. c.each d (inr k),
                ),
              )
      ]
