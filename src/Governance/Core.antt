-- ===== src/Governance/Core.antt =====
-- What a business chain derives from the identity log: `identity_core`, `can_read`, `can_write`.
use union_core.Prelude.{
  String, Bool, not, ◌&&◌, Option, none, some, ◌==◌, text_key, any, is_some_and, is_empty,
  unwrap_or, if◌then◌else◌, Result, ok, denied, refuse_if, ◌>>◌, List, [], ◌∷◌,
}
use union_core.Prelude.Dict
use union_core.Prelude.Dict.{Dict}
use union_core.Prelude.Set
use union_core.Prelude.Set.{Set}
use union_core.Protocol.Schema.{TrustBusinessBinding}
use union_core.Trust.State.{TrustState, clubs, permits, member_for_device}
use union_core.Governance.State.{Member, CoreState}

-- `first()` and `iter().skip(1)` of a set
abbrev pub first : Set String → Option String
first [] = none
first (x ∷ s) = some x

abbrev pub rest : Set String → Set String
rest [] = []
rest (x ∷ s) = s

abbrev pub roles_of : CoreState → String → Set String
roles_of core id = elim (Dict.lookup id core.members) [ none ↦ [] | some m ↦ m.roles ]

-- The member as the log shows it; the business roles stay.
unfoldable pub derived_member : TrustState → CoreState → String → Set String → String → Member
derived_member trust core id devices club = record {
  club = club;
  device = unwrap_or "" (first devices);
  additional_devices = rest devices;
  roles =
      if is_some_and (λ m. m == id) (Dict.lookup club trust.chairs)
      then Set.insert "president" (roles_of core id)
      else roles_of core id;
}

abbrev pub is_admin_device : TrustState → TrustBusinessBinding → String → Bool
is_admin_device trust binding device = permits trust device binding.audience binding.service "admin"

unfoldable pub add_admins :
    TrustState → TrustBusinessBinding → List String → Set String → Set String
add_admins trust binding [] admins = admins
add_admins trust binding (d ∷ ds) admins =
    add_admins trust binding ds
      (if is_admin_device trust binding d then Set.insert d admins else admins)

-- One round of the loop over the members of the log, with the roles of the state before.
unfoldable pub add_member : TrustState → CoreState → CoreState → String × Set String → CoreState
unfolding derived_member add_admins
add_member trust before core (id, devices) = elim (first (clubs trust id)) [
  | none ↦ core
  | some club ↦ record core {
    members = Dict.insert id (derived_member trust before id devices club) core.members;
    admins = add_admins trust core.identity devices core.admins;
  }
]

unfoldable pub add_members :
    TrustState → CoreState → CoreState → List (String × Set String) → CoreState
unfolding add_member
add_members trust before core [] = core
add_members trust before core (m ∷ ms) =
    add_members trust before (add_member trust before core m) ms

unfoldable pub identity_core : CoreState → TrustState → Result CoreState
unfolding add_members
identity_core core trust = do
  refuse_if (not (trust.checkpoint.genesis == core.identity.genesis)) denied
  ok (add_members trust core (record core { admins = []; members = [] }) trust.members)

unfoldable pub permits_some : TrustState → TrustBusinessBinding → String → List String → Bool
permits_some trust binding actor permissions =
    any (λ p. permits trust actor binding.audience binding.service p) permissions

unfoldable pub can_read : CoreState → String → TrustState → Bool
unfolding permits_some
can_read core actor trust =
    is_some_and (λ member. not (is_empty (clubs trust member))) (member_for_device trust actor)
    && permits_some trust core.identity actor ("read" ∷ "write" ∷ "admin" ∷ [])

unfoldable pub can_write : CoreState → String → TrustState → Bool
unfolding can_read
can_write core actor trust =
    can_read core actor trust && permits_some trust core.identity actor ("write" ∷ "admin" ∷ [])
