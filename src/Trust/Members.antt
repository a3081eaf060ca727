-- ===== src/Trust/Members.antt =====
-- The actions on members and devices in `TrustState::transition`. A handler returns the new state;
-- an error leaves the caller's, since `apply` works on a copy.
use union_core.Prelude.{
  String, Bool, true, false, not, ◌&&◌, ◌||◌, Option, none, some, ◌==◌, text_key, pair_key, length,
  leb, is_some_and, unwrap_or, Result, ok, err, denied, capacity, refuse_if, ◌>>◌, ◌>>=◌, [],
}
use union_core.Prelude.Dict
use union_core.Prelude.Set
use union_core.Prelude.Set.{Set}
use union_core.Protocol.Text.{validate_identifier, validate_game_profile}
use union_core.Trust.State.{
  TrustState, Verifier, max_devices, max_facts, member_for_device, is_member, signed_member, chair,
  recovery,
}

-- `if check.is_err()`
abbrev pub is_err {ℓ} : {A : Type ℓ} → Result A → Bool
is_err (ok a) = false
is_err (err e) = true

-- The verifier speaks for the club, on this evidence, with a device that signed.
unfoldable pub attests : TrustState → String → String → Set String → Verifier → Bool
attests st club evidence signers v =
    not v.revoked
    && v.club == club
    && Set.contains evidence v.evidence
    && Set.contains v.device signers
    && not (Set.contains v.device st.revoked_devices)

-- Confirm the membership, whose member is known by now.
unfoldable pub record_membership : TrustState → String → String → Result TrustState
record_membership st member club = do
  refuse_if (leb max_facts (length st.memberships)) capacity
  ok (record st {
    memberships = Set.insert (member, club) st.memberships;
    revoked_memberships = Set.remove (member, club) st.revoked_memberships;
  })

unfoldable pub revoke_membership : TrustState → String → String → Set String → Result TrustState
revoke_membership st member club signers = do
  refuse_if (not (chair st club signers) || not (Set.contains (member, club) st.memberships)) denied
  ok (record st {
    memberships = Set.remove (member, club) st.memberships;
    revoked_memberships = Set.insert (member, club) st.revoked_memberships;
  })

unfoldable pub bind_game_profile :
    TrustState → String → String → String → Set String → Result TrustState
unfolding attests
bind_game_profile st member club profile signers = do
  refuse_if
      (not (
          chair st club signers
          || Dict.any (λ _ v. attests st club "game_profile" signers v) st.verifiers)
        || not (signed_member st member signers)
        || not (is_member st member club)
        || is_err (validate_game_profile profile)
        || Dict.any (λ m p. not (m == member) && p == profile) st.profiles)
      denied
  ok (record st { profiles = Dict.insert member profile st.profiles })

unfoldable pub revoke_device : TrustState → String → String → Set String → Result TrustState
revoke_device st member device signers = do
  refuse_if
      (not (is_some_and (λ m. m == member) (member_for_device st device))
        || not (signed_member st member signers || recovery st member signers))
      denied
  owned ← elim (Dict.lookup member st.members) [ none ↦ err denied | some ds ↦ ok ds ]
  ok (record st {
    members = Dict.insert member (Set.remove device owned) st.members;
    revoked_devices = Set.insert device st.revoked_devices;
  })

-- `device.parse::<PeerId>()` succeeds
module _ (parses_peer : String → Bool) where
  unfoldable pub bind : TrustState → String → String → Result TrustState
  bind st member device = do
    validate_identifier member
    refuse_if (not (parses_peer device)) denied
    refuse_if
        (Set.contains device st.revoked_devices
          || is_some_and (λ m. not (m == member)) (Dict.lookup device st.devices))
        denied
    refuse_if (leb max_facts (length st.members) && not (Dict.contains member st.members)) capacity
    let devices = unwrap_or [] (Dict.lookup member st.members)
    refuse_if (leb max_devices (length devices) && not (Set.contains device devices)) capacity
    ok (record st {
      members = Dict.insert member (Set.insert device devices) st.members;
      devices = Dict.insert device member st.devices;
    })

  -- The device that a confirmation names, if any, is bound to the member.
  unfoldable pub confirm_device :
      TrustState → String → Option String → Set String → Result TrustState
  confirm_device st member none signers = do
    refuse_if (not (Dict.contains member st.members)) denied
    ok st
  confirm_device st member (some device) signers = do
    refuse_if (not (Set.contains device signers)) denied
    refuse_if (Dict.contains member st.members && not (signed_member st member signers)) denied
    bind st member device

  unfoldable pub confirm_member :
      TrustState
      → String
      → String
      → Option String
      → String
      → Option String
      → Set String
      → Result TrustState
  unfolding attests
  confirm_member st member club device evidence verifier signers = do
    validate_identifier member
    validate_identifier club
    validate_identifier evidence
    let manual = chair st club signers
    let automated =
        is_some_and
          (λ id. is_some_and (attests st club evidence signers) (Dict.lookup id st.verifiers))
          verifier
    refuse_if (not manual && (not automated || Set.contains (member, club) st.revoked_memberships))
        denied
    bound ← confirm_device st member device signers
    record_membership bound member club

  unfoldable pub bind_device : TrustState → String → String → Set String → Result TrustState
  bind_device st member device signers = do
    refuse_if
        (not (Dict.contains member st.members)
          || not (Set.contains device signers)
          || not (signed_member st member signers || recovery st member signers))
        denied
    bind st member device
