-- ===== src/Trust/Step/Complete.antt =====
-- Exactly when crates/identity/src/trust.rs accepts an action: both directions, by the steps.
use union_core.Prelude.{
  String, Bool, true, false, ◌≡◌, text_key, pair_key, Option, none, some, inl, inr, arith, ok, ◌⊎◌,
  ◌↔◌, Option-cases, not, ◌&&◌, ◌==◌, ◌≤◌, is_empty, length, refl, ◌+◌, [], ◌∷◌,
}
use union_core.Prelude.Dict
use union_core.Prelude.Set
use union_core.Prelude.Set.{Set}
use union_core.Prelude.Words.{checked_add}
use union_core.Protocol.Schema.{TrustAction}
use union_core.Trust.State.{TrustState, chair, is_member, member_for_device}
use union_core.Trust.Members.{attests}
use union_core.Trust.Chairs.{may_take_chair}
use union_core.Trust.Log.{transition}
use union_core.Trust.Step.Sound.{transition-Step}
use union_core.Trust.Step.Allowed.{
  Allowed, NoneRevoked, MayIntroduce, IsVerified, IsSignedByChair, IsSignedBy, IsSignedByQuorum,
  IsAttestedBy, MayTake, Some,
}
use union_core.Trust.Step.Taken.{transition_of_Step}
use union_core.Trust.Step.Meaning.{
  signed_member_of, chair_of, some_chair_of, signing_chairs_of, majority_of, attests_of,
  candidates_of, may_take_chair_of, validate_chairs_of, names_of,
}
use union_core.Trust.Step.{
  Step, Acts, bound, Introduces, known, binding, Confirms, by_chair, by_verifier, confirmed,
  expelled, device_added, device_revoked, profile_bound, succession_proposed, succession_approved,
  succession_executed, succession_cancelled, verifier_authorized, verifier_revoked,
  service_registered, permission_granted, permission_revoked, enrolled,
}
use union_core.Trust.Step.Lists.{any-none, Some-any, All-any}
use union_core.Trust.Step.Guarded.{Step-Allowed}

module _ (parses : String → Bool) (st : TrustState) (s : Set String) where
  signed-Confirms :
      (m c e : String) (v : Option String)
      → IsSignedByChair st s c ⊎ IsVerified st s m c e v
      → Confirms st m c e v s
  signed-Confirms m c e v (inl h) = by_chair (chair_of st s c h)
  signed-Confirms m c e v (inr (id, w, named, found, a, fresh)) =
      by_verifier id w named found (attests_of st s c e w a) fresh

  MayIntroduce-Introduces :
      (m : String) (d : Option String)
      → MayIntroduce st s parses m d
      → (u : TrustState) × Introduces parses st m s d u × (u.memberships ≡ st.memberships)
  MayIntroduce-Introduces m none h = (st, known h refl, refl)
  MayIntroduce-Introduces m (some d) (h, inl new, b) =
      (bound st m d, binding d h (inl new) b refl, refl)
  MayIntroduce-Introduces m (some d) (h, inr signed, b) =
      (bound st m d, binding d h (inr (signed_member_of st s m signed)) b refl, refl)

  signed-Acts : (m : String) → IsSignedBy st s m ⊎ IsSignedByQuorum st s → Acts st m s
  signed-Acts m (inl h) = inl (signed_member_of st s m h)
  signed-Acts m (inr h) = inr (majority_of st s h)

  profile_signed :
      (c : String)
      → IsSignedByChair st s c ⊎ Some (λ _ v. IsAttestedBy st s c "game_profile" v) st.verifiers
      → (chair st c s ≡ true)
        ⊎ (Dict.any (λ _ v. attests st c "game_profile" s v) st.verifiers ≡ true)
  profile_signed c (inl h) = inl (chair_of st s c h)
  profile_signed c (inr h) = inr (
      Some-any (λ _ v. attests st c "game_profile" s v)
        (λ _ v. IsAttestedBy st s c "game_profile" v) st.verifiers
        (λ _ v a. attests_of st s c "game_profile" v a) h)

  unshared : (m p n q : String) → (n ≡ m) ⊎ (¬ (q ≡ p)) → (not (n == m) && q == p) ≡ false
  unshared m p n q (inl same) = ground arith
  unshared m p n q (inr differ) = elim (text_key.same q p) [
    | yes e ↦ absurd (differ e)
    | no _ ↦ ground arith
  ]

  Allowed-Step : (a : TrustAction) → Allowed st s parses a → (t : TrustState) × Step parses st s a t
  Allowed-Step (TrustAction.confirm_member m c d e v) (h1, h2, h3, h4, h5, h6) =
      let (u, step, same) = MayIntroduce-Introduces m d h5 in
      (
        enrolled u m c,
        confirmed m c d e v u h1 h2 h3 (signed-Confirms m c e v h4) step (ground arith) refl,
      )
  Allowed-Step (TrustAction.revoke_membership m c) (h1, h2) =
      (_, expelled m c (chair_of st s c h1) h2 refl)
  Allowed-Step (TrustAction.bind_device m d) (h1, h2, h3, b) =
      (bound st m d, device_added m d h1 h2 (signed-Acts m h3) b refl)
  Allowed-Step (TrustAction.bind_game_profile m c p) (h1, h2, h3, h4, h5) = (
    _,
    profile_bound m c p (profile_signed c h1) (signed_member_of st s m h2) (unfold is_member in h3)
        h4
        (All-any (λ n q. not (n == m) && q == p) (λ n q. (n ≡ m) ⊎ (¬ (q ≡ p))) st.profiles
          (unshared m p) h5)
        refl,
  )
  Allowed-Step (TrustAction.revoke_device m d) (h1, h2, h3, h4) =
      elim (Option-cases (Dict.lookup m st.members)) [
        | inl missing ↦ absurd (ground arith)
        | inr (ds, found) ↦ (
          _,
          device_revoked m d ds (unfold member_for_device in ground arith) (signed-Acts m h3) found
              refl,
        )
      ]
  Allowed-Step (TrustAction.propose_succession i c q) (h1, h2, h3, h4, h5, h6) = (
    _,
    succession_proposed i c q h1 (validate_chairs_of c q h2) (some_chair_of st s h3) h4 h5
        (candidates_of st s c h6) refl,
  )
  Allowed-Step (TrustAction.approve_succession i) (p, o, inl h) =
      (_, succession_approved i p o (inl (signing_chairs_of st s st.chairs h)) refl)
  Allowed-Step (TrustAction.approve_succession i) (p, o, inr h) =
      (_, succession_approved i p o (inr (signing_chairs_of st s p.chairs h)) refl)
  Allowed-Step (TrustAction.execute_succession i) (p, o, h1, h2, h3, h4) = (
    _,
    succession_executed i p (st.chair_epoch + 1) o h1 (some_chair_of st s h2)
        (All-any (λ c m. not (may_take_chair st p c m)) (MayTake st p) p.chairs
          (may_take_chair_of st s p) h3)
        (unfold checked_add in ground arith) refl,
  )
  Allowed-Step (TrustAction.cancel_succession i) (p, o, h) =
      (_, succession_cancelled i p (majority_of st s h) o refl)
  Allowed-Step (TrustAction.authorize_verifier i c d v) (h1, h2, h3, h4, h5, h6, h7, h8, h9) = (
    _,
    verifier_authorized i c d v h1 h2 (chair_of st s c h3) (unempty v h4) h5 h6 h7 h8
        (names_of v h9) refl,
  )
    where
      unempty : (xs : Set String) → 1 ≤ length xs → is_empty xs ≡ false
      unempty [] h = absurd (omega arith)
      unempty (x ∷ xs) h = refl
  Allowed-Step (TrustAction.revoke_verifier i) (v, h1, h2) =
      (_, verifier_revoked i v h1 (chair_of st s v.club h2) refl)
  Allowed-Step (TrustAction.register_service v a c) (h1, h2, h3, h4, h5, h6) =
      (_, service_registered v a c h1 h2 (chair_of st s c h3) h4 h5 h6 refl)
  Allowed-Step (TrustAction.grant_permission i m v p) (w, h1, h2, h3, h4, h5, h6, h7) =
      (_, permission_granted i m v p w h1 h2 h3 (chair_of st s w.club h4) h5 h6 h7 refl)
  Allowed-Step (TrustAction.revoke_permission i) (p, w, h1, h2, h3) =
      (_, permission_revoked i p w h1 h2 (chair_of st s w.club h3) refl)

-- An action is accepted exactly where no signer is a revoked key and the signatures and the state
-- allow it, as `Allowed` says for each of the fourteen actions without the tests of the code: whose
-- keys have signed (of the member, of the chair of the club, of a chair holder, of as many distinct
-- holders as the quorum, of a verifier of that club for that evidence), what the state lists already,
-- and that there is room.
pub transition-Allowed :
    (parses : String → Bool) (st : TrustState) (a : TrustAction) (s : Set String)
    → ((t : TrustState) × (transition parses st a s ≡ ok t))
      ↔ (Allowed st s parses a × NoneRevoked st s)
transition-Allowed parses st a s = (
  λ (t, h).
      let (step, fresh) = transition-Step parses st s a t h in
      (
        Step-Allowed parses st s step,
        λ d c. Set.any-false (λ d. Set.contains d st.revoked_devices) s d fresh c,
      ),
  λ (allowed, fresh).
      let (t, step) = Allowed-Step parses st s a allowed in
      (
        t,
        transition_of_Step parses st s step
            (any-none (λ d. Set.contains d st.revoked_devices) s fresh),
      ),
)
