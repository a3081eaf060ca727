-- ===== src/Governance/Admins.antt =====
-- The administrators of a chain: what the derived state grants, and which actions need it.
use union_core.Prelude.{
  String, true, ◌≡◌, ◌⊎◌, inl, refl, arith, text_key, nat_key, List, [], ◌∷◌, ok, if◌then◌else◌,
}
use union_core.Prelude.Set
use union_core.Prelude.Set.{Set}
use union_core.Protocol.Schema.{TrustBusinessBinding}
use union_core.Trust.State.{TrustState}
use union_core.Governance.State.{CoreState}
use union_core.Governance.Core.{identity_core, add_members, add_member, add_admins, is_admin_device}

add_admins_sound :
    (trust : TrustState) (b : TrustBusinessBinding) (ds : List String) (acc : Set String)
    (d : String)
    → Set.contains d (add_admins trust b ds acc) ≡ true
    → (Set.contains d acc ≡ true) ⊎ (is_admin_device trust b d ≡ true)
unfolding add_admins
add_admins_sound trust b [] acc d h = inl h
add_admins_sound trust b (x ∷ ds) acc d h = ground (
  arith,
  add_admins_sound trust b ds (if is_admin_device trust b x then Set.insert x acc else acc) d h,
  Set.contains-insert d x acc,
)

pub add_members-identity :
    (trust : TrustState) (before core : CoreState) (ms : List (String × Set String))
    → (add_members trust before core ms).identity ≡ core.identity
unfolding add_members add_member
add_members-identity trust before core [] = refl
add_members-identity trust before core ((id, ds) ∷ ms) =
    ground (arith, add_members-identity trust before (add_member trust before core (id, ds)) ms)

add_members_sound :
    (trust : TrustState) (before core : CoreState) (ms : List (String × Set String)) (d : String)
    → Set.contains d (add_members trust before core ms).admins ≡ true
    → (Set.contains d core.admins ≡ true) ⊎ (is_admin_device trust core.identity d ≡ true)
unfolding add_members add_member
add_members_sound trust before core [] d h = inl h
add_members_sound trust before core ((id, ds) ∷ ms) d h = ground (
  arith,
  add_members_sound trust before (add_member trust before core (id, ds)) ms d h,
  add_admins_sound trust core.identity ds core.admins d,
)

-- Whoever the derived state lists as an administrator has the permission in the log.
pub admins_sound :
    (st core : CoreState) (trust : TrustState) (d : String)
    → identity_core st trust ≡ ok core
    → Set.contains d core.admins ≡ true
    → is_admin_device trust st.identity d ≡ true
unfolding identity_core Set.contains
admins_sound st core trust d h c = ground (
  arith,
  add_members_sound trust st (record st { admins = []; members = [] }) trust.members d
      (ground arith),
)
