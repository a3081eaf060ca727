-- ===== src/Trust/Step.antt =====
-- What a record of the identity log may do, as a step relation: for each action, who must have
-- signed, what must hold before, and the state after. The modules below relate it to the code.
pub mod Sound
pub mod Taken
pub mod Allowed
pub mod Lists
pub mod Meaning
pub mod Guarded
pub mod Complete
pub mod Next
use union_core.Prelude.{
  ℕ, String, Bool, true, false, not, ◌&&◌, ◌==◌, Option, none, some, ◌≡◌, ◌≢◌, ◌⊎◌, ◌<◌, ◌≤◌, ◌/◌,
  text_key, pair_key, length, unwrap_or, is_empty, any, Result, ok, [], ◌∷◌, for_each,
}
use union_core.Prelude.Dict
use union_core.Prelude.Dict.{Dict, values}
use union_core.Prelude.Set
use union_core.Prelude.Set.{Set}
use union_core.Prelude.Words.{checked_add}
use union_core.Protocol.Text.{validate_identifier, validate_game_profile}
use union_core.Protocol.Schema.{TrustAction}
use union_core.Trust.State.{
  TrustState, Verifier, Service, Permission, Succession, max_facts, max_devices, max_evidence_types,
  member_for_device, is_member, signed_member, chair, majority,
}
use union_core.Trust.Members.{attests}
use union_core.Trust.Chairs.{
  validate_chairs, some_chair_signed, lacks_device, check_candidate, signing_chairs, may_take_chair,
}

-- The chair of the club confirms by hand; a verifier may, but not after a revocation.
pub data Confirms (st : TrustState) (member club evidence : String) (verifier : Option String)
    (signers : Set String) : Type 0 where
  by_chair : chair st club signers ≡ true → Confirms st member club evidence verifier signers
  by_verifier :
      (id : String) (v : Verifier)
      → verifier ≡ some id
      → Dict.lookup id st.verifiers ≡ some v
      → attests st club evidence signers v ≡ true
      → Set.contains (member, club) st.revoked_memberships ≡ false
      → Confirms st member club evidence verifier signers

-- Someone who may act for the member signed: a device of the member, or the majority of chairs.
abbrev pub Acts : TrustState → String → Set String → Type 0
Acts st member signers = (signed_member st member signers ≡ true) ⊎ (majority st signers ≡ true)

abbrev pub owned : TrustState → String → Set String
owned st member = unwrap_or [] (Dict.lookup member st.members)

-- The device is new, or already the member's, and there is room for it.
pub record Binds (parses : String → Bool) (st : TrustState) (member device : String) : Type 0 where
  pub named : validate_identifier member ≡ ok tt
  pub parsed : parses device ≡ true
  pub trusted : Set.contains device st.revoked_devices ≡ false
  pub unowned :
      (Dict.lookup device st.devices ≡ none) ⊎ (Dict.lookup device st.devices ≡ some member)
  pub room : (Dict.contains member st.members ≡ true) ⊎ (length st.members < max_facts)
  pub few :
      (Set.contains device (owned st member) ≡ true) ⊎ (length (owned st member) < max_devices)

abbrev pub bound : TrustState → String → String → TrustState
bound st member device = record st {
  members = Dict.insert member (Set.insert device (owned st member)) st.members;
  devices = Dict.insert device member st.devices;
}

-- The state in which a membership is recorded: with the named device bound, if one is named.
pub data Introduces (parses : String → Bool) (st : TrustState) (member : String)
    (signers : Set String) : Option String → TrustState → Type 0 where
  known :
      {t : TrustState}
      → Dict.contains member st.members ≡ true
      → t ≡ st
      → Introduces parses st member signers none t
  binding :
      {t : TrustState} (device : String)
      → Set.contains device signers ≡ true
      → (Dict.contains member st.members ≡ false) ⊎ (signed_member st member signers ≡ true)
      → Binds parses st member device
      → t ≡ bound st member device
      → Introduces parses st member signers (some device) t

abbrev pub enrolled : TrustState → String → String → TrustState
enrolled st member club = record st {
  memberships = Set.insert (member, club) st.memberships;
  revoked_memberships = Set.remove (member, club) st.revoked_memberships;
}

abbrev pub with_succession : TrustState → String → Succession → TrustState
with_succession st id p = record st { successions = Dict.insert id p st.successions }

-- The proposal is open, and no change of chairs has overtaken it.
pub record IsOpen (st : TrustState) (id : String) (p : Succession) : Type 0 where
  pub proposed : Dict.lookup id st.successions ≡ some p
  pub undecided : p.closed ≡ false
  pub current : p.epoch ≡ st.chair_epoch

module _ (parses : String → Bool) (st : TrustState) (signers : Set String) where
  pub data Step : TrustAction → TrustState → Type 0 where
    confirmed :
        {t : TrustState} (member club : String) (device : Option String) (evidence : String)
        (verifier : Option String) (introduced : TrustState)
        → validate_identifier member ≡ ok tt
        → validate_identifier club ≡ ok tt
        → validate_identifier evidence ≡ ok tt
        → Confirms st member club evidence verifier signers
        → Introduces parses st member signers device introduced
        → length introduced.memberships < max_facts
        → t ≡ enrolled introduced member club
        → Step (TrustAction.confirm_member member club device evidence verifier) t
    expelled :
        {t : TrustState} (member club : String)
        → chair st club signers ≡ true
        → Set.contains (member, club) st.memberships ≡ true
        → t ≡ record st {
          memberships = Set.remove (member, club) st.memberships;
          revoked_memberships = Set.insert (member, club) st.revoked_memberships;
        }
        → Step (TrustAction.revoke_membership member club) t
    device_added :
        {t : TrustState} (member device : String)
        → Dict.contains member st.members ≡ true
        → Set.contains device signers ≡ true
        → Acts st member signers
        → Binds parses st member device
        → t ≡ bound st member device
        → Step (TrustAction.bind_device member device) t
    device_revoked :
        {t : TrustState} (member device : String) (devices : Set String)
        → member_for_device st device ≡ some member
        → Acts st member signers
        → Dict.lookup member st.members ≡ some devices
        → t ≡ record st {
          members = Dict.insert member (Set.remove device devices) st.members;
          revoked_devices = Set.insert device st.revoked_devices;
        }
        → Step (TrustAction.revoke_device member device) t
    profile_bound :
        {t : TrustState} (member club profile : String)
        → (chair st club signers ≡ true)
          ⊎ (Dict.any (λ _ v. attests st club "game_profile" signers v) st.verifiers ≡ true)
        → signed_member st member signers ≡ true
        → is_member st member club ≡ true
        → validate_game_profile profile ≡ ok tt
        → Dict.any (λ m p. not (m == member) && p == profile) st.profiles ≡ false
        → t ≡ record st { profiles = Dict.insert member profile st.profiles }
        → Step (TrustAction.bind_game_profile member club profile) t
    succession_proposed :
        {t : TrustState} (id : String) (chairs : Dict String String) (quorum : ℕ)
        → validate_identifier id ≡ ok tt
        → validate_chairs chairs quorum ≡ ok tt
        → some_chair_signed st signers ≡ true
        → Dict.contains id st.successions ≡ false
        → length st.successions < max_facts
        → for_each (check_candidate st) chairs ≡ ok tt
        → t
          ≡ with_succession st id (record {
            chairs = chairs;
            quorum = quorum;
            epoch = st.chair_epoch;
            approvals = [];
            accepted = [];
            closed = false;
          })
        → Step (TrustAction.propose_succession id chairs quorum) t
    succession_approved :
        {t : TrustState} (id : String) (p : Succession)
        → IsOpen st id p
        → (is_empty (signing_chairs st st.chairs signers) ≡ false)
          ⊎ (is_empty (signing_chairs st p.chairs signers) ≡ false)
        → t
          ≡ with_succession st id (record p {
            approvals = Set.extend (signing_chairs st st.chairs signers) p.approvals;
            accepted = Set.extend (signing_chairs st p.chairs signers) p.accepted;
          })
        → Step (TrustAction.approve_succession id) t
    succession_executed :
        {t : TrustState} (id : String) (p : Succession) (epoch : ℕ)
        → IsOpen st id p
        → st.quorum ≤ length p.approvals
        → some_chair_signed st signers ≡ true
        → Dict.any (λ club member. not (may_take_chair st p club member)) p.chairs ≡ false
        → checked_add st.chair_epoch 1 ≡ some epoch
        → t ≡ record st {
          chairs = p.chairs;
          quorum = p.quorum;
          chair_epoch = epoch;
          successions = Dict.insert id (record p { closed = true }) st.successions;
        }
        → Step (TrustAction.execute_succession id) t
    succession_cancelled :
        {t : TrustState} (id : String) (p : Succession)
        → majority st signers ≡ true
        → IsOpen st id p
        → t ≡ with_succession st id (record p { closed = true })
        → Step (TrustAction.cancel_succession id) t
    verifier_authorized :
        {t : TrustState} (id club device : String) (evidence : Set String)
        → validate_identifier id ≡ ok tt
        → parses device ≡ true
        → chair st club signers ≡ true
        → is_empty evidence ≡ false
        → length evidence ≤ max_evidence_types
        → Dict.contains id st.verifiers ≡ false
        → length st.verifiers < max_facts
        → Set.contains device st.revoked_devices ≡ false
        → for_each validate_identifier evidence ≡ ok tt
        → t ≡ record st {
          verifiers =
              Dict.insert id
                (record { club = club; device = device; evidence = evidence; revoked = false })
                st.verifiers;
        }
        → Step (TrustAction.authorize_verifier id club device evidence) t
    verifier_revoked :
        {t : TrustState} (id : String) (v : Verifier)
        → Dict.lookup id st.verifiers ≡ some v
        → chair st v.club signers ≡ true
        → t ≡ record st { verifiers = Dict.insert id (record v { revoked = true }) st.verifiers }
        → Step (TrustAction.revoke_verifier id) t
    service_registered :
        {t : TrustState} (service audience club : String)
        → validate_identifier service ≡ ok tt
        → parses audience ≡ true
        → chair st club signers ≡ true
        → Set.contains audience signers ≡ true
        → Dict.contains service st.services ≡ false
        → length st.services < max_facts
        → t ≡ record st {
          services = Dict.insert service (record { audience = audience; club = club }) st.services;
        }
        → Step (TrustAction.register_service service audience club) t
    permission_granted :
        {t : TrustState} (id member service permission : String) (s : Service)
        → validate_identifier id ≡ ok tt
        → validate_identifier permission ≡ ok tt
        → Dict.lookup service st.services ≡ some s
        → chair st s.club signers ≡ true
        → Dict.contains member st.members ≡ true
        → Dict.contains id st.permissions ≡ false
        → length st.permissions < max_facts
        → t ≡ record st {
          permissions =
              Dict.insert id
                (record {
                  member = member;
                  service = service;
                  permission = permission;
                  revoked = false;
                })
                st.permissions;
        }
        → Step (TrustAction.grant_permission id member service permission) t
    permission_revoked :
        {t : TrustState} (id : String) (p : Permission) (s : Service)
        → Dict.lookup id st.permissions ≡ some p
        → Dict.lookup p.service st.services ≡ some s
        → chair st s.club signers ≡ true
        → t
          ≡ record st { permissions = Dict.insert id (record p { revoked = true }) st.permissions }
        → Step (TrustAction.revoke_permission id) t
