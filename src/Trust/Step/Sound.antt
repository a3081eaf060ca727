-- ===== src/Trust/Step/Sound.antt =====
-- Every accepted action of crates/identity/src/trust.rs is a step of the relation.
use union_core.Prelude.{
  ℕ, String, Bool, true, false, ◌≡◌, any, refl, text_key, pair_key, Option, none, some, inl, inr,
  arith, ok, Result-cases, is_some_and, ◌⊎◌, Option-cases,
}
use union_core.Prelude.Dict
use union_core.Prelude.Dict.{Dict}
use union_core.Prelude.Set
use union_core.Prelude.Set.{Set}
use union_core.Protocol.Schema.{TrustAction}
use union_core.Trust.State.{TrustState, recovery, chair}
use union_core.Trust.Members.{
  attests, bind, confirm_device, record_membership, confirm_member, revoke_membership,
  bind_game_profile, bind_device, revoke_device,
}
use union_core.Trust.Chairs.{
  propose_succession, approve_succession, execute_succession, cancel_succession,
}
use union_core.Trust.Grants.{
  authorize_verifier, revoke_verifier, register_service, grant_permission, revoke_permission,
}
use union_core.Trust.Log.{dispatch, transition}
use union_core.Trust.Step.{
  Step, Binds, bound, owned, Introduces, known, binding, Confirms, by_chair, by_verifier, confirmed,
  expelled, device_added, device_revoked, profile_bound, succession_proposed, succession_approved,
  succession_executed, succession_cancelled, verifier_authorized, verifier_revoked,
  service_registered, permission_granted, permission_revoked,
}

-- Binding a device succeeds under these conditions, with this state.
pub bind-Binds :
    (parses : String → Bool) (st : TrustState) (m d : String) (t : TrustState)
    → bind parses st m d ≡ ok t
    → Binds parses st m d × (t ≡ bound st m d)
unfolding bind
bind-Binds parses st m d t h = ground arith

module _ (parses : String → Bool) (st : TrustState) (s : Set String) where
  bind_device-Step :
      (m d : String) (t : TrustState)
      → bind_device parses st m d s ≡ ok t
      → Step parses st s (TrustAction.bind_device m d) t
  unfolding bind_device recovery
  bind_device-Step m d t h =
      let guards = bind-Binds parses st m d t (ground arith) in
      device_added m d (ground arith) (ground arith) (ground arith) guards.0 guards.1

  revoke_membership-Step :
      (m c : String) (t : TrustState)
      → revoke_membership st m c s ≡ ok t
      → Step parses st s (TrustAction.revoke_membership m c) t
  unfolding revoke_membership
  revoke_membership-Step m c t h = expelled m c (ground arith) (ground arith) (ground arith)

  revoke_device-Step :
      (m d : String) (t : TrustState)
      → revoke_device st m d s ≡ ok t
      → Step parses st s (TrustAction.revoke_device m d) t
  unfolding revoke_device recovery
  revoke_device-Step m d t h =
      device_revoked m d (owned st m) (ground arith) (ground arith) (ground arith) (ground arith)

  bind_game_profile-Step :
      (m c p : String) (t : TrustState)
      → bind_game_profile st m c p s ≡ ok t
      → Step parses st s (TrustAction.bind_game_profile m c p) t
  unfolding bind_game_profile
  bind_game_profile-Step m c p t h =
      profile_bound m c p (ground arith) (ground arith) (ground arith) (ground arith) (ground arith)
        (ground arith)

  confirm_device-Introduces :
      (m : String) (d : Option String) (t : TrustState)
      → confirm_device parses st m d s ≡ ok t
      → Introduces parses st m s d t
  unfolding confirm_device
  confirm_device-Introduces m none t h = known (ground arith) (ground arith)
  confirm_device-Introduces m (some d) t h =
      let guards = bind-Binds parses st m d t (ground arith) in
      binding d (ground arith) (ground arith) guards.0 guards.1

  confirms :
      (m c e : String) (v : Option String)
      → (chair st c s ≡ true)
        ⊎ ((is_some_and (λ id. is_some_and (attests st c e s) (Dict.lookup id st.verifiers)) v
              ≡ true)
            × (Set.contains (m, c) st.revoked_memberships ≡ false))
      → Confirms st m c e v s
  confirms m c e v (inl h) = by_chair h
  confirms m c e none (inr h) = absurd (ground arith)
  confirms m c e (some id) (inr (a, fresh)) = elim (Option-cases (Dict.lookup id st.verifiers)) [
    | inl missing ↦ absurd (ground arith)
    | inr (v, found) ↦ by_verifier id v refl found (ground arith) fresh
  ]

  confirm_member-Step :
      (m c : String) (d : Option String) (e : String) (v : Option String) (t : TrustState)
      → confirm_member parses st m c d e v s ≡ ok t
      → Step parses st s (TrustAction.confirm_member m c d e v) t
  unfolding confirm_member record_membership
  confirm_member-Step m c d e v t h = elim (Result-cases (confirm_device parses st m d s)) [
    | inl (u, hu) ↦
        confirmed m c d e v u (ground arith) (ground arith) (ground arith)
          (confirms m c e v (ground arith)) (confirm_device-Introduces m d u hu) (ground arith)
          (ground arith)
    | inr (x, hx) ↦ absurd (ground arith)
  ]

  propose_succession-Step :
      (i : String) (c : Dict String String) (q : ℕ) (t : TrustState)
      → propose_succession st i c q s ≡ ok t
      → Step parses st s (TrustAction.propose_succession i c q) t
  unfolding propose_succession
  propose_succession-Step i c q t h =
      succession_proposed i c q (ground arith) (ground arith) (ground arith) (ground arith)
        (ground arith) (ground arith) (ground arith)

  approve_succession-Step :
      (i : String) (t : TrustState)
      → approve_succession st i s ≡ ok t
      → Step parses st s (TrustAction.approve_succession i) t
  unfolding approve_succession
  approve_succession-Step i t h = elim (Option-cases (Dict.lookup i st.successions)) [
    | inl missing ↦ absurd (ground arith)
    | inr (p, found) ↦
        succession_approved i p
          (record { proposed = found; undecided = ground arith; current = ground arith })
          (ground arith) (ground arith)
  ]

  execute_succession-Step :
      (i : String) (t : TrustState)
      → execute_succession st i s ≡ ok t
      → Step parses st s (TrustAction.execute_succession i) t
  unfolding execute_succession
  execute_succession-Step i t h = elim (Option-cases (Dict.lookup i st.successions)) [
    | inl missing ↦ absurd (ground arith)
    | inr (p, found) ↦
        succession_executed i p t.chair_epoch
          (record { proposed = found; undecided = ground arith; current = ground arith })
          (ground arith) (ground arith) (ground arith) (ground arith) (ground arith)
  ]

  cancel_succession-Step :
      (i : String) (t : TrustState)
      → cancel_succession st i s ≡ ok t
      → Step parses st s (TrustAction.cancel_succession i) t
  unfolding cancel_succession
  cancel_succession-Step i t h = elim (Option-cases (Dict.lookup i st.successions)) [
    | inl missing ↦ absurd (ground arith)
    | inr (p, found) ↦
        succession_cancelled i p (ground arith)
          (record { proposed = found; undecided = ground arith; current = ground arith })
          (ground arith)
  ]

  authorize_verifier-Step :
      (i c d : String) (e : Set String) (t : TrustState)
      → authorize_verifier parses st i c d e s ≡ ok t
      → Step parses st s (TrustAction.authorize_verifier i c d e) t
  unfolding authorize_verifier
  authorize_verifier-Step i c d e t h =
      verifier_authorized i c d e (ground arith) (ground arith) (ground arith) (ground arith)
        (ground arith) (ground arith) (ground arith) (ground arith) (ground arith) (ground arith)

  revoke_verifier-Step :
      (i : String) (t : TrustState)
      → revoke_verifier st i s ≡ ok t
      → Step parses st s (TrustAction.revoke_verifier i) t
  unfolding revoke_verifier
  revoke_verifier-Step i t h = elim (Option-cases (Dict.lookup i st.verifiers)) [
    | inl missing ↦ absurd (ground arith)
    | inr (v, found) ↦ verifier_revoked i v found (ground arith) (ground arith)
  ]

  register_service-Step :
      (v a c : String) (t : TrustState)
      → register_service parses st v a c s ≡ ok t
      → Step parses st s (TrustAction.register_service v a c) t
  unfolding register_service
  register_service-Step v a c t h =
      service_registered v a c (ground arith) (ground arith) (ground arith) (ground arith)
        (ground arith) (ground arith) (ground arith)

  grant_permission-Step :
      (i m v p : String) (t : TrustState)
      → grant_permission st i m v p s ≡ ok t
      → Step parses st s (TrustAction.grant_permission i m v p) t
  unfolding grant_permission
  grant_permission-Step i m v p t h = elim (Option-cases (Dict.lookup v st.services)) [
    | inl missing ↦ absurd (ground arith)
    | inr (w, found) ↦
        permission_granted i m v p w (ground arith) (ground arith) found (ground arith)
          (ground arith) (ground arith) (ground arith) (ground arith)
  ]

  revoke_permission-Step :
      (i : String) (t : TrustState)
      → revoke_permission st i s ≡ ok t
      → Step parses st s (TrustAction.revoke_permission i) t
  unfolding revoke_permission
  revoke_permission-Step i t h = elim (Option-cases (Dict.lookup i st.permissions)) [
    | inl missing ↦ absurd (ground arith)
    | inr (p, found) ↦ elim (Option-cases (Dict.lookup p.service st.services)) [
      | inl missing ↦ absurd (ground arith)
      | inr (w, known_service) ↦
          permission_revoked i p w found known_service (ground arith) (ground arith)
    ]
  ]

  dispatch-Step :
      (a : TrustAction) (t : TrustState) → dispatch parses st a s ≡ ok t → Step parses st s a t
  unfolding dispatch
  dispatch-Step (TrustAction.confirm_member m c d e v) t h = confirm_member-Step m c d e v t h
  dispatch-Step (TrustAction.revoke_membership m c) t h = revoke_membership-Step m c t h
  dispatch-Step (TrustAction.bind_device m d) t h = bind_device-Step m d t h
  dispatch-Step (TrustAction.bind_game_profile m c p) t h = bind_game_profile-Step m c p t h
  dispatch-Step (TrustAction.revoke_device m d) t h = revoke_device-Step m d t h
  dispatch-Step (TrustAction.propose_succession i c q) t h = propose_succession-Step i c q t h
  dispatch-Step (TrustAction.approve_succession i) t h = approve_succession-Step i t h
  dispatch-Step (TrustAction.execute_succession i) t h = execute_succession-Step i t h
  dispatch-Step (TrustAction.cancel_succession i) t h = cancel_succession-Step i t h
  dispatch-Step (TrustAction.authorize_verifier i c d e) t h = authorize_verifier-Step i c d e t h
  dispatch-Step (TrustAction.revoke_verifier i) t h = revoke_verifier-Step i t h
  dispatch-Step (TrustAction.register_service v a c) t h = register_service-Step v a c t h
  dispatch-Step (TrustAction.grant_permission i m v p) t h = grant_permission-Step i m v p t h
  dispatch-Step (TrustAction.revoke_permission i) t h = revoke_permission-Step i t h

  -- An accepted action is a step, and no revoked key is among its signers.
  pub transition-Step :
      (a : TrustAction) (t : TrustState)
      → transition parses st a s ≡ ok t
      → Step parses st s a t × (any (λ d. Set.contains d st.revoked_devices) s ≡ false)
  unfolding transition
  transition-Step a t h = (dispatch-Step a t (ground arith), ground arith)
