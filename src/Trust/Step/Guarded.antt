-- ===== src/Trust/Step/Guarded.antt =====
-- What every step of crates/identity/src/trust.rs has met: the signatures and the state of `Allowed`.
use union_core.Prelude.{
  String, Bool, true, false, ◌≡◌, text_key, pair_key, Option, inl, inr, arith, ◌⊎◌, not, ◌&&◌, ◌==◌,
  ◌≤◌, is_empty, length, [], ◌∷◌,
}
use union_core.Prelude.Dict
use union_core.Prelude.Set.{Set}
use union_core.Prelude.Words.{checked_add-some}
use union_core.Protocol.Schema.{TrustAction}
use union_core.Trust.State.{TrustState, chair, is_member, member_for_device}
use union_core.Trust.Members.{attests}
use union_core.Trust.Chairs.{may_take_chair}
use union_core.Trust.Step.Allowed.{
  Allowed, MayIntroduce, IsVerified, IsSignedByChair, IsSignedBy, IsSignedByQuorum, IsAttestedBy,
  MayTake, Some,
}
use union_core.Trust.Step.Meaning.{
  signed_member-IsSignedBy, chair-IsSignedByChair, some_chair-IsSignedByHolder,
  signing_chairs-IsSignedByHolder, majority-IsSignedByQuorum, attests-IsAttestedBy, candidates-All,
  may_take_chair-MayTake, validate_chairs-IsChairs, names-each,
}
use union_core.Trust.Step.{
  Step, Acts, Introduces, known, binding, Confirms, by_chair, by_verifier, confirmed, expelled,
  device_added, device_revoked, profile_bound, succession_proposed, succession_approved,
  succession_executed, succession_cancelled, verifier_authorized, verifier_revoked,
  service_registered, permission_granted, permission_revoked,
}
use union_core.Trust.Step.Lists.{any-Some, any-All}

module _ (parses : String → Bool) (st : TrustState) (s : Set String) where
  Confirms-signed :
      {m c e : String} {v : Option String}
      → Confirms st m c e v s
      → IsSignedByChair st s c ⊎ IsVerified st s m c e v
  Confirms-signed {c = c} (by_chair h) = inl (chair-IsSignedByChair st s c h)
  Confirms-signed {c = c} {e = e} (by_verifier id v named found a fresh) =
      inr (id, v, named, found, attests-IsAttestedBy st s c e v a, fresh)

  Introduces-MayIntroduce :
      {m : String} {d : Option String} {t : TrustState}
      → Introduces parses st m s d t
      → MayIntroduce st s parses m d × (t.memberships ≡ st.memberships)
  Introduces-MayIntroduce (known h e) = (h, ground arith)
  Introduces-MayIntroduce {m = m} (binding d h (inl new) b e) = ((h, inl new, b), ground arith)
  Introduces-MayIntroduce {m = m} (binding d h (inr signed) b e) =
      ((h, inr (signed_member-IsSignedBy st s m signed), b), ground arith)

  Acts-signed : (m : String) → Acts st m s → IsSignedBy st s m ⊎ IsSignedByQuorum st s
  Acts-signed m (inl h) = inl (signed_member-IsSignedBy st s m h)
  Acts-signed m (inr h) = inr (majority-IsSignedByQuorum st s h)

  pub Step-Allowed :
      {a : TrustAction} {t : TrustState} → Step parses st s a t → Allowed st s parses a
  Step-Allowed (confirmed m c d e v u h1 h2 h3 h4 h5 h6 h7) =
      let (may, same) = Introduces-MayIntroduce h5 in
      (h1, h2, h3, Confirms-signed h4, may, ground arith)
  Step-Allowed (expelled m c h1 h2 e) = (chair-IsSignedByChair st s c h1, h2)
  Step-Allowed (device_added m d h1 h2 h3 b e) = (h1, h2, Acts-signed m h3, b)
  Step-Allowed (device_revoked m d ds h1 h2 h3 e) = (
    unfold member_for_device in ground arith,
    unfold member_for_device in ground arith,
    Acts-signed m h2,
    ground arith,
  )
  Step-Allowed (profile_bound m c p h1 h2 h3 h4 h5 e) = (
    by h1,
    signed_member-IsSignedBy st s m h2,
    unfold is_member in h3,
    h4,
    any-All (λ n q. not (n == m) && q == p) (λ n q. (n ≡ m) ⊎ (¬ (q ≡ p))) st.profiles
        (λ n q h. other n q h) h5,
  )
    where
      by :
          (chair st c s ≡ true)
            ⊎ (Dict.any (λ _ v. attests st c "game_profile" s v) st.verifiers ≡ true)
          → IsSignedByChair st s c ⊎ Some (λ _ v. IsAttestedBy st s c "game_profile" v) st.verifiers
      by (inl h) = inl (chair-IsSignedByChair st s c h)
      by (inr h) = inr (
          any-Some (λ _ v. attests st c "game_profile" s v)
            (λ _ v. IsAttestedBy st s c "game_profile" v) st.verifiers
            (λ _ v a. attests-IsAttestedBy st s c "game_profile" v a) h)

      other : (n q : String) → (not (n == m) && q == p) ≡ false → (n ≡ m) ⊎ (¬ (q ≡ p))
      other n q h = elim (text_key.same n m) [
        | yes here ↦ inl here
        | no there ↦ inr (λ e. ground arith)
      ]
  Step-Allowed (succession_proposed i c q h1 h2 h3 h4 h5 h6 e) = (
    h1,
    validate_chairs-IsChairs c q h2,
    some_chair-IsSignedByHolder st s h3,
    h4,
    h5,
    candidates-All st s c h6,
  )
  Step-Allowed (succession_approved i p o (inl h) e) =
      (p, o, inl (signing_chairs-IsSignedByHolder st s st.chairs h))
  Step-Allowed (succession_approved i p o (inr h) e) =
      (p, o, inr (signing_chairs-IsSignedByHolder st s p.chairs h))
  Step-Allowed (succession_executed i p n o h1 h2 h3 h4 e) = (
    p,
    o,
    h1,
    some_chair-IsSignedByHolder st s h2,
    any-All (λ c m. not (may_take_chair st p c m)) (MayTake st p) p.chairs
        (λ c m h. may_take_chair-MayTake st s p c m h) h3,
    ground (arith, checked_add-some st.chair_epoch 1 n h4),
  )
  Step-Allowed (succession_cancelled i p h1 o e) = (p, o, majority-IsSignedByQuorum st s h1)
  Step-Allowed (verifier_authorized i c d v h1 h2 h3 h4 h5 h6 h7 h8 h9 e) =
      (h1, h2, chair-IsSignedByChair st s c h3, filled v h4, h5, h6, h7, h8, names-each v h9)
    where
      filled : (xs : Set String) → is_empty xs ≡ false → 1 ≤ length xs
      filled [] h = absurd (ground arith)
      filled (x ∷ xs) h = ground arith
  Step-Allowed (verifier_revoked i v h1 h2 e) = (v, h1, chair-IsSignedByChair st s v.club h2)
  Step-Allowed (service_registered v a c h1 h2 h3 h4 h5 h6 e) =
      (h1, h2, chair-IsSignedByChair st s c h3, h4, h5, h6)
  Step-Allowed (permission_granted i m v p w h1 h2 h3 h4 h5 h6 h7 e) =
      (w, h1, h2, h3, chair-IsSignedByChair st s w.club h4, h5, h6, h7)
  Step-Allowed (permission_revoked i p w h1 h2 h3 e) =
      (p, w, h1, h2, chair-IsSignedByChair st s w.club h3)
