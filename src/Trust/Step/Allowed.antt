-- ===== src/Trust/Step/Allowed.antt =====
-- When the log of crates/identity/src/trust.rs must accept an action, said without its code: who has
-- signed with which keys, and what the state lists.
use union_core.Prelude.{
  ℕ, String, Bool, true, false, Option, none, some, ◌≡◌, ◌⊎◌, ◌<◌, ◌≤◌, ◌+◌, ◌*◌, text_key,
  pair_key, length, ok, [], ◌∷◌,
}
use union_core.Prelude.Dict
use union_core.Prelude.Dict.{Dict, values}
use union_core.Prelude.Entries
use union_core.Prelude.Set
use union_core.Prelude.Set.{Set, IsDistinct}
use union_core.Prelude.Words.{u64_end}
use union_core.Protocol.Text.{validate_identifier, validate_game_profile}
use union_core.Protocol.Schema.{TrustAction}
use union_core.Trust.State.{
  TrustState, Verifier, Service, Permission, Succession, max_facts, max_evidence_types, max_chairs,
}
use union_core.Trust.Step.{Binds, IsOpen}

abbrev pub IsName : String → Type 0
IsName s = validate_identifier s ≡ ok tt

-- Some entry has the property.
abbrev pub Some {ℓ κ} : {K : Type ℓ} {V : Type κ} → (K → V → Type 0) → Dict K V → Type 0
Some P [] = true ≡ false
Some P ((k, v) ∷ m) = P k v ⊎ Some P m

-- The quorum is more than half of the distinct holders, and no more than all of them.
abbrev pub IsChairs : Dict String String → ℕ → Type 0
IsChairs chairs quorum =
    (1 ≤ length chairs)
    × (length chairs ≤ max_chairs)
    × (length (Set.collect (values chairs)) < 2 * quorum)
    × (quorum ≤ length (Set.collect (values chairs)))

module _ (st : TrustState) where
  abbrev pub HasDevice : String → Type 0
  HasDevice member =
      (devices : Set String) × (Dict.lookup member st.members ≡ some devices) × (1 ≤ length devices)

  -- A new holder has a device, and holds that chair now or has accepted it.
  abbrev pub MayTake : Succession → String → String → Type 0
  MayTake p club member =
      HasDevice member
      × ((Dict.lookup club st.chairs ≡ some member) ⊎ (Set.contains member p.accepted ≡ true))

module _ (st : TrustState) (signers : Set String) where
  -- A key of the member that is not revoked is among the signers.
  abbrev pub IsSignedBy : String → Type 0
  IsSignedBy member =
      (key : String) × (Set.contains key signers ≡ true)
      × (Set.contains key st.revoked_devices ≡ false)
      × (Dict.lookup key st.devices ≡ some member)

  abbrev pub IsSignedByChair : String → Type 0
  IsSignedByChair club =
      (holder : String) × (Dict.lookup club st.chairs ≡ some holder) × IsSignedBy holder

  -- A holder of one of these chairs has signed.
  abbrev pub IsSignedByHolder : Dict String String → Type 0
  IsSignedByHolder chairs =
      (holder : String) × (Set.contains holder (values chairs) ≡ true) × IsSignedBy holder

  -- Distinct holders, as many as the quorum, have signed.
  abbrev pub IsSignedByQuorum : Type 0
  IsSignedByQuorum =
      (holders : Set String) × IsDistinct holders
      × (st.quorum ≤ length holders)
      × ((holder : String)
          → Set.contains holder holders ≡ true
          → (Set.contains holder (values st.chairs) ≡ true) × IsSignedBy holder)

  -- The verifier of the club is not revoked, may judge this evidence, and has signed with its key.
  pub record IsAttestedBy (club evidence : String) (v : Verifier) : Type 0 where
    pub club_ : v.club ≡ club
    pub active : v.revoked ≡ false
    pub judges : Set.contains evidence v.evidence ≡ true
    pub signed : Set.contains v.device signers ≡ true
    pub trusted : Set.contains v.device st.revoked_devices ≡ false

  -- The verifier that the confirmation names attests; it cannot undo a revocation.
  abbrev pub IsVerified : String → String → String → Option String → Type 0
  IsVerified member club evidence verifier =
      (id : String) × (v : Verifier) × (verifier ≡ some id)
      × (Dict.lookup id st.verifiers ≡ some v)
      × IsAttestedBy club evidence v
      × (Set.contains (member, club) st.revoked_memberships ≡ false)

  -- A member that is confirmed is known already, or comes with a key that has signed, beside another
  -- key of the member where the member is known.
  abbrev pub MayIntroduce : (String → Bool) → String → Option String → Type 0
  MayIntroduce parses member none = Dict.contains member st.members ≡ true
  MayIntroduce parses member (some device) =
      (Set.contains device signers ≡ true)
      × ((Dict.contains member st.members ≡ false) ⊎ IsSignedBy member)
      × Binds parses st member device

  abbrev pub Allowed : (String → Bool) → TrustAction → Type 0
  Allowed parses (TrustAction.confirm_member member club device evidence verifier) =
      IsName member
      × IsName club
      × IsName evidence
      × (IsSignedByChair club ⊎ IsVerified member club evidence verifier)
      × MayIntroduce parses member device
      × (length st.memberships < max_facts)
  Allowed parses (TrustAction.revoke_membership member club) =
      IsSignedByChair club × (Set.contains (member, club) st.memberships ≡ true)
  Allowed parses (TrustAction.bind_device member device) =
      (Dict.contains member st.members ≡ true)
      × (Set.contains device signers ≡ true)
      × (IsSignedBy member ⊎ IsSignedByQuorum)
      × Binds parses st member device
  Allowed parses (TrustAction.bind_game_profile member club profile) =
      (IsSignedByChair club ⊎ Some (λ _ v. IsAttestedBy club "game_profile" v) st.verifiers)
      × IsSignedBy member
      × (Set.contains (member, club) st.memberships ≡ true)
      × (validate_game_profile profile ≡ ok tt)
      × Entries.All (λ m p. (m ≡ member) ⊎ (¬ (p ≡ profile))) st.profiles
  Allowed parses (TrustAction.revoke_device member device) =
      (Dict.lookup device st.devices ≡ some member)
      × (Set.contains device st.revoked_devices ≡ false)
      × (IsSignedBy member ⊎ IsSignedByQuorum)
      × (Dict.contains member st.members ≡ true)
  Allowed parses (TrustAction.propose_succession id chairs quorum) =
      IsName id
      × IsChairs chairs quorum
      × IsSignedByHolder st.chairs
      × (Dict.contains id st.successions ≡ false)
      × (length st.successions < max_facts)
      × Entries.All (λ club member. IsName club × HasDevice st member) chairs
  Allowed parses (TrustAction.approve_succession id) =
      (p : Succession) × IsOpen st id p × (IsSignedByHolder st.chairs ⊎ IsSignedByHolder p.chairs)
  Allowed parses (TrustAction.execute_succession id) =
      (p : Succession) × IsOpen st id p
      × (st.quorum ≤ length p.approvals)
      × IsSignedByHolder st.chairs
      × Entries.All (MayTake st p) p.chairs
      × (st.chair_epoch + 1 < u64_end)
  Allowed parses (TrustAction.cancel_succession id) =
      (p : Succession) × IsOpen st id p × IsSignedByQuorum
  Allowed parses (TrustAction.authorize_verifier id club device evidence) =
      IsName id
      × (parses device ≡ true)
      × IsSignedByChair club
      × (1 ≤ length evidence)
      × (length evidence ≤ max_evidence_types)
      × (Dict.contains id st.verifiers ≡ false)
      × (length st.verifiers < max_facts)
      × (Set.contains device st.revoked_devices ≡ false)
      × ((kind : String) → Set.contains kind evidence ≡ true → IsName kind)
  Allowed parses (TrustAction.revoke_verifier id) =
      (v : Verifier) × (Dict.lookup id st.verifiers ≡ some v) × IsSignedByChair v.club
  Allowed parses (TrustAction.register_service service audience club) =
      IsName service
      × (parses audience ≡ true)
      × IsSignedByChair club
      × (Set.contains audience signers ≡ true)
      × (Dict.contains service st.services ≡ false)
      × (length st.services < max_facts)
  Allowed parses (TrustAction.grant_permission id member service permission) =
      (s : Service) × IsName id
      × IsName permission
      × (Dict.lookup service st.services ≡ some s)
      × IsSignedByChair s.club
      × (Dict.contains member st.members ≡ true)
      × (Dict.contains id st.permissions ≡ false)
      × (length st.permissions < max_facts)
  Allowed parses (TrustAction.revoke_permission id) =
      (p : Permission) × (s : Service) × (Dict.lookup id st.permissions ≡ some p)
      × (Dict.lookup p.service st.services ≡ some s)
      × IsSignedByChair s.club

  -- No key among the signers is revoked.
  abbrev pub NoneRevoked : Type 0
  NoneRevoked =
      (key : String) → Set.contains key signers ≡ true → Set.contains key st.revoked_devices ≡ false
