-- ===== src/Trust/State.antt =====
-- `TrustState` of crates/identity/src/trust.rs, and what is read from it.
use union_core.Prelude.{
  ℕ, String, Bool, not, ◌&&◌, map, Option, none, ◌==◌, text_key, nat_key, pair_key, any, filter,
  length, leb, is_some_and, if◌then◌else◌,
}
use union_core.Prelude.Dict.{Dict, values}
use union_core.Prelude.Set.{Set, contains, collect}
use union_core.Prelude.Dict
use union_core.Protocol.Schema.{TrustCheckpoint}

abbrev pub max_chairs : ℕ
max_chairs = 128

abbrev pub max_devices : ℕ
max_devices = 8

abbrev pub max_evidence_types : ℕ
max_evidence_types = 128

abbrev pub max_facts : ℕ
max_facts = 100_000

pub record Verifier : Type 0 where
  pub club : String
  pub device : String
  pub evidence : Set String
  pub revoked : Bool

pub record Service : Type 0 where
  pub audience : String
  pub club : String

pub record Permission : Type 0 where
  pub member : String
  pub service : String
  pub permission : String
  pub revoked : Bool

pub record Succession : Type 0 where
  pub chairs : Dict String String
  pub quorum : ℕ
  pub epoch : ℕ
  pub approvals : Set String
  pub accepted : Set String
  pub closed : Bool

pub record TrustState : Type 0 where
  pub federation : String
  pub checkpoint : TrustCheckpoint
  pub members : Dict String (Set String)
  pub devices : Dict String String
  pub revoked_devices : Set String
  pub memberships : Set (String × String)
  pub revoked_memberships : Set (String × String)
  pub profiles : Dict String String
  pub chair_epoch : ℕ
  pub successions : Dict String Succession
  pub chairs : Dict String String
  pub quorum : ℕ
  pub verifiers : Dict String Verifier
  pub services : Dict String Service
  pub permissions : Dict String Permission

-- A revoked device speaks for nobody.
unfoldable pub member_for_device : TrustState → String → Option String
member_for_device st device =
    if contains device st.revoked_devices then none else Dict.lookup device st.devices

unfoldable pub is_member : TrustState → String → String → Bool
is_member st member club = contains (member, club) st.memberships

unfoldable pub clubs : TrustState → String → Set String
clubs st member = collect (map (λ p. p.1) (filter (λ p. p.0 == member) st.memberships))

unfoldable pub profile : TrustState → String → Option String
profile st member = Dict.lookup member st.profiles

unfoldable pub grants : String → String → String → Permission → Bool
grants member service permission p =
    not p.revoked && p.member == member && p.service == service && p.permission == permission

unfoldable pub permits_member : TrustState → String → String → String → String → Bool
unfolding grants
permits_member st member audience service permission =
    is_some_and (λ s. s.audience == audience) (Dict.lookup service st.services)
    && Dict.any (λ _ p. grants member service permission p) st.permissions

unfoldable pub permits : TrustState → String → String → String → String → Bool
unfolding permits_member
permits st device audience service permission =
    is_some_and (λ member. permits_member st member audience service permission)
      (member_for_device st device)

-- Some signer is a device of the member.
unfoldable pub speaks_for : TrustState → String → String → Bool
speaks_for st member device = is_some_and (λ m. m == member) (member_for_device st device)

unfoldable pub signed_member : TrustState → String → Set String → Bool
signed_member st member signers = any (speaks_for st member) signers

-- `self.chair`: the chair of the club signed.
unfoldable pub chair : TrustState → String → Set String → Bool
chair st club signers = is_some_and (λ m. signed_member st m signers) (Dict.lookup club st.chairs)

-- The distinct members who hold a chair.
unfoldable pub voters : Dict String String → Set String
voters chairs = collect (values chairs)

unfoldable pub majority : TrustState → Set String → Bool
majority st signers =
    leb st.quorum (length (filter (λ m. signed_member st m signers) (voters st.chairs)))

-- A chair alone must not seize an identity: recovery takes the majority.
unfoldable pub recovery : TrustState → String → Set String → Bool
recovery st _ signers = majority st signers
