-- ===== src/Trust/Step/Taken.antt =====
-- Every step of the relation is taken by the code of crates/identity/src/trust.rs.
use union_core.Prelude.{
  String, Bool, true, false, ◌≡◌, any, text_key, pair_key, Option, inl, inr, arith, ok, is_some_and,
  ◌⊎◌,
}
use union_core.Prelude.Dict
use union_core.Prelude.Set
use union_core.Prelude.Set.{Set}
use union_core.Protocol.Schema.{TrustAction}
use union_core.Trust.State.{TrustState, recovery, chair}
use union_core.Trust.Members.{
  attests, bind, confirm_device, record_membership, confirm_member, revoke_membership,
  bind_game_profile, bind_device, revoke_device,
}
use union_core.Trust.Chairs.{
  propose_succession, approve_succession, execute_succession, cancel_succession,
}
use union_core.Trust.Grants.{
  authorize_verifier, revoke_verifier, register_service, grant_permission, revoke_permission,
}
use union_core.Trust.Log.{dispatch, transition}
use union_core.Trust.Step.{
  Step, Binds, bound, Introduces, known, binding, Confirms, by_chair, by_verifier, confirmed,
  expelled, device_added, device_revoked, profile_bound, succession_proposed, succession_approved,
  succession_executed, succession_cancelled, verifier_authorized, verifier_revoked,
  service_registered, permission_granted, permission_revoked,
}

module _ (parses : String → Bool) (st : TrustState) (s : Set String) where
  bind_of_Binds : (m d : String) → Binds parses st m d → bind parses st m d ≡ ok (bound st m d)
  unfolding bind
  bind_of_Binds m d b = ground arith

  confirm_device_of_Introduces :
      {m : String} {d : Option String} {t : TrustState}
      → Introduces parses st m s d t
      → confirm_device parses st m d s ≡ ok t
  unfolding confirm_device
  confirm_device_of_Introduces (known h e) = ground arith
  confirm_device_of_Introduces {m} (binding d h k b e) = ground (arith, bind_of_Binds m d b)

  may_confirm :
      {m c e : String} {v : Option String}
      → Confirms st m c e v s
      → (chair st c s ≡ true)
        ⊎ ((is_some_and (λ id. is_some_and (attests st c e s) (Dict.lookup id st.verifiers)) v
              ≡ true)
            × (Set.contains (m, c) st.revoked_memberships ≡ false))
  may_confirm (by_chair h) = inl h
  may_confirm (by_verifier id v e found a fresh) = inr (ground arith, fresh)

  dispatch_of_Step :
      {a : TrustAction} {t : TrustState} → Step parses st s a t → dispatch parses st a s ≡ ok t
  unfolding dispatch confirm_member record_membership revoke_membership bind_game_profile
      bind_device revoke_device recovery propose_succession approve_succession execute_succession
      cancel_succession authorize_verifier revoke_verifier register_service grant_permission
      revoke_permission
  dispatch_of_Step (confirmed m c d e v u h1 h2 h3 h4 h5 h6 h7) =
      ground (arith, confirm_device_of_Introduces h5, may_confirm h4)
  dispatch_of_Step (expelled m c h1 h2 e) = ground arith
  dispatch_of_Step (device_added m d h1 h2 h3 b e) = ground (arith, bind_of_Binds m d b)
  dispatch_of_Step (device_revoked m d ds h1 h2 h3 e) = ground arith
  dispatch_of_Step (profile_bound m c p h1 h2 h3 h4 h5 e) = ground arith
  dispatch_of_Step (succession_proposed i c q h1 h2 h3 h4 h5 h6 e) = ground arith
  dispatch_of_Step (succession_approved i p o h1 e) = ground arith
  dispatch_of_Step (succession_executed i p n o h1 h2 h3 h4 e) = ground arith
  dispatch_of_Step (succession_cancelled i p h1 o e) = ground arith
  dispatch_of_Step (verifier_authorized i c d v h1 h2 h3 h4 h5 h6 h7 h8 h9 e) = ground arith
  dispatch_of_Step (verifier_revoked i v h1 h2 e) = ground arith
  dispatch_of_Step (service_registered v a c h1 h2 h3 h4 h5 h6 e) = ground arith
  dispatch_of_Step (permission_granted i m v p w h1 h2 h3 h4 h5 h6 h7 e) = ground arith
  dispatch_of_Step (permission_revoked i p w h1 h2 h3 e) = ground arith

  -- A step signed by no revoked key is accepted, with exactly the state that the relation names.
  pub transition_of_Step :
      {a : TrustAction} {t : TrustState}
      → Step parses st s a t
      → any (λ d. Set.contains d st.revoked_devices) s ≡ false
      → transition parses st a s ≡ ok t
  unfolding transition
  transition_of_Step {a} {t} step h = ground (arith, dispatch_of_Step step)
