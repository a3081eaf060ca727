-- ===== src/Governance/Tests.antt =====
-- A chess chain: Ann administers it from her device, and the theorems on its governance apply.
use union_core.Prelude.{
  String, String-discrete, pair-discrete, text_less, ℕ_discrete, true, false, ◌≡◌, ◌≢◌, ◌≤◌, ◌+◌,
  ◌⊎◌, refl, arith, subst, text_key, nat_key, pair_key, [], ◌∷◌, some, ok, any, all, filter,
  for_each, try_fold,
}
use Prim.Native.String.{len}
use union_core.Prelude.Dict
use union_core.Prelude.Set
use union_core.Prelude.Words.{checked_add}
use union_core.Protocol.Schema.{TrustBusinessBinding}
use union_core.Protocol.Text.{validate_identifier, validate_digest, validate_lower_hex}
use union_core.Trust.State.{TrustState, permits, permits_member, grants, clubs, member_for_device}
use union_core.Trust.Invariant.Devices.{HasOwners}
use union_core.Governance.State.{
  State, Action, CoreState, Member, member_of, owns, empty_domain, EmptyAction, EmptyState,
}
use union_core.Governance.Consensus.{
  Network, set_consensus_members, validate_consensus_members, check_peer, check_address, conflicts,
}
use union_core.Governance.Core.{
  identity_core, add_members, add_member, add_admins, derived_member, can_write, can_read,
  permits_some,
}
use union_core.Governance.Apply.{
  apply, act, govern, new, validate_binding, set_member_roles, validate_member_roles, anchor_digest,
}
use union_core.Governance.Accepted.{apply-advances, apply-governs}
use union_core.Governance.History.{IsSound, Continues, History, History-Continues, new-IsSound}
use union_core.Governance.Actors.{IsDerived, apply-actor}

abbrev net : Network
net = record { parse_peer = λ s. some s; parse_address = λ s. some (some "peer") }

abbrev digits : String
digits = "0123456789abcdef0123456789abcdef0123456789abcdef0123456789abcdef"

abbrev binding : TrustBusinessBinding
binding = record {
  namespace = "chess";
  audience = "peer";
  service = "league";
  club = "chess";
  genesis = digits;
}

abbrev log : TrustState
log = record {
  federation = "union";
  checkpoint = record { genesis = digits; sequence = 2; head = digits };
  members = ("ann", "ann1" ∷ []) ∷ [];
  devices = ("ann1", "ann") ∷ [];
  revoked_devices = [];
  memberships = ("ann", "chess") ∷ [];
  revoked_memberships = [];
  profiles = [];
  chair_epoch = 0;
  successions = [];
  chairs = ("chess", "ann") ∷ [];
  quorum = 1;
  verifiers = [];
  services = ("league", record { audience = "peer"; club = "chess" }) ∷ [];
  permissions =
      ("p1", record { member = "ann"; service = "league"; permission = "admin"; revoked = false })
      ∷ [];
}

abbrev start : State empty_domain
start = record {
  core = record {
    identity = binding;
    digest_anchors = [];
    revision = 0;
    admins = [];
    members = [];
    clock_ms = 0;
    consensus_members = [];
    retired_consensus_ids = [];
  };
  domain = EmptyState.empty_state;
}

-- What the runs below compute with.
evaluation : Unit {0}
unfolding apply act govern new validate_binding validate_identifier validate_digest
    validate_lower_hex set_member_roles validate_member_roles anchor_digest ℕ_discrete
    String-discrete pair-discrete text_less try_fold for_each any all filter identity_core
    add_members add_member add_admins derived_member can_write can_read permits_some permits
    permits_member grants clubs member_for_device member_of owns set_consensus_members
    validate_consensus_members check_peer check_address conflicts Dict.lookup Dict.insert Dict.any
    Dict.keys Dict.find Set.contains Set.insert Set.extend checked_add
evaluation = tt

start-new : new net empty_domain binding ≡ ok start
unfolding evaluation
start-new = refl

abbrev anchor : Action empty_domain
anchor = Action.anchor_digest "match" digits

abbrev anchored : State empty_domain
anchored = record start {
  core = record (start.core) {
    digest_anchors = ("match", record { digest = digits; actor = "ann1"; time_ms = 5 }) ∷ [];
    revision = 1;
    clock_ms = 5;
  };
}

anchored-apply : apply net empty_domain start "ann1" 0 5 anchor log ≡ ok anchored
unfolding evaluation
anchored-apply = refl

abbrev elect : Action empty_domain
elect =
    Action.set_consensus_members ((7, record { peer = "peer"; addresses = "/p2p/peer" ∷ [] }) ∷ [])

abbrev elected : State empty_domain
elected = record anchored {
  core = record (anchored.core) {
    consensus_members = (7, record { peer = "peer"; addresses = "/p2p/peer" ∷ [] }) ∷ [];
    revision = 2;
    clock_ms = 9;
  };
}

elected-apply : apply net empty_domain anchored "ann1" 1 9 elect log ≡ ok elected
unfolding evaluation
elected-apply = refl

abbrev ann1 : String
ann1 = "ann1"

ann1-named : ann1 ≢ String.[]
ann1-named e = let lengths : len "" ≡ 4 = subst (λ s. len s ≡ 4) e refl in ground arith

log-HasOwners : HasOwners log
log-HasOwners = record {
  owner = λ m d h. unfold Dict.lookup Set.contains in ground arith;
  listed = λ m d h k. unfold Dict.lookup Set.contains in ground arith;
  one_entry = unfold Dict.lookup in (refl, tt);
  few = λ m. unfold Dict.lookup in ground arith;
}

apply-advances_example :
    (can_write start.core "ann1" log ≡ true)
    × (0 ≡ start.core.revision)
    × (start.core.clock_ms ≤ 5)
    × (digits ≡ binding.genesis)
    × (anchored.core.revision ≡ 0 + 1)
    × (anchored.core.clock_ms ≡ 5)
    × (anchored.core.identity ≡ binding)
apply-advances_example =
    apply-advances net empty_domain start "ann1" 0 5 anchor log anchored anchored-apply

apply-governs_example :
    (((d : EmptyAction) × (anchor ≡ Action.domain_action d))
      × (anchored.core ≡ record (start.core) { revision = 0 + 1; clock_ms = 5 }))
    ⊎ ((permits log "ann1" "peer" "league" "admin" ≡ true) × (anchored.domain ≡ start.domain))
apply-governs_example =
    apply-governs net empty_domain start "ann1" 0 5 anchor log anchored anchored-apply

start-History : History net empty_domain start elected
start-History =
    History.action "ann1" 1 9 elect log
      (History.action "ann1" 0 5 anchor log History.here anchored-apply) elected-apply

History-Continues_example : IsSound elected.core × Continues start.core elected.core
History-Continues_example =
    History-Continues net empty_domain start elected
      (new-IsSound net empty_domain binding start start-new) start-History

apply-actor_example :
    (core : CoreState) × (m : String) × (found : Member) × (identity_core start.core log ≡ ok core)
    × (member_for_device log "ann1" ≡ some m)
    × (member_of core.members "ann1" ≡ some (m, found))
    × IsDerived log start.core m found
apply-actor_example =
    apply-actor net empty_domain start "ann1" 0 5 anchor log anchored ann1-named log-HasOwners
      anchored-apply
