-- ===== src/Trust/Tests.antt =====
-- A small federation: Ann chairs the chess club, Bob joins it, and Ann's first device is revoked. The
-- theorems on the identity log, applied to it.
use union_core.Prelude.{
  ℕ, String, String-discrete, pair-discrete, text_less, ℕ_discrete, true, false, ◌≡◌, ◌≤◌, ◌<◌, ◌+◌,
  ◌⊎◌, ◌↔◌, refl, text_key, nat_key, pair_key, if◌then◌else◌, length, List, [], ◌∷◌, some, none, ok,
  err, denied, ◌==◌, any, all, filter, for_each, try_fold,
}
use union_core.Prelude.Dict
use union_core.Prelude.Set
use union_core.Prelude.Set.{Set}
use union_core.Protocol.Schema.{TrustAction, TrustRecord, TrustGenesis, TrustSignature, Bytes}
use union_core.Protocol.Text.{validate_identifier}
use union_core.Trust.Step.{Acts, owned}
use union_core.Trust.Step.Allowed.{Allowed, NoneRevoked}
use union_core.Trust.Step.Complete.{transition-Allowed}
use union_core.Trust.Authority.{
  ConfirmedBy, Succeeds, transition-membership, transition-devices, transition-chairs,
  transition-permissions,
}
use union_core.Trust.Invariant.Quorum.{majority_overlap}
use union_core.Trust.Replay.{
  IsValid, Extends, here, next_record, apply-checkpoint, apply-once, revoked_device_powerless,
}
use union_core.Trust.Genesis.{new-IsValid}
use union_core.Trust.Signatures.{Ascends, AllSign, SomeSigns, verify_signatures_lem}
use union_core.Trust.State.{
  TrustState, Succession, Service, permits_member, permits, voters, signed_member, speaks_for,
  member_for_device, chair, recovery, grants, majority,
}
use union_core.Trust.Log.{
  Crypto, apply, transition, new, verify_signatures, verify_signature, dispatch, extends,
  signing_bytes, key, add_founder,
}
use union_core.Trust.Members.{
  bind, confirm_member, confirm_device, record_membership, revoke_device,
}
use union_core.Trust.Chairs.{
  validate_chairs, some_chair_signed, check_candidate, propose_succession, approve_succession,
  execute_succession, signing_chairs, may_take_chair, lacks_device,
}
use union_core.Trust.Grants.{register_service, grant_permission}
use union_core.Prelude.Words.{checked_add}

abbrev peer : Bytes → String
peer [] = "nobody"
peer (k ∷ _) = if k == 1 then "ann1" else if k == 2 then "ann2" else "bob1"

-- A key signs by writing itself.
abbrev toy : Crypto
toy = record {
  PublicKey = Bytes;
  try_decode_protobuf = λ b. some b;
  is_ed25519 = λ k. true;
  peer_id = peer;
  verify = λ k m s. length k == length s;
  parses_peer = λ d. true;
  digest = λ b. "digest";
  record_json = λ r. r.sequence ∷ [];
  genesis_json = λ g. g.quorum ∷ [];
}

abbrev genesis : TrustGenesis
genesis = record {
  federation = "union";
  founders = record { member = "ann"; club = "chess"; public_key = 1 ∷ [] } ∷ [];
  quorum = 1;
}

abbrev start : TrustState
start = record {
  federation = "union";
  checkpoint = record { genesis = "digest"; sequence = 0; head = "digest" };
  members = ("ann", "ann1" ∷ []) ∷ [];
  devices = ("ann1", "ann") ∷ [];
  revoked_devices = [];
  memberships = ("ann", "chess") ∷ [];
  revoked_memberships = [];
  profiles = [];
  chair_epoch = 0;
  successions = [];
  chairs = ("chess", "ann") ∷ [];
  quorum = 1;
  verifiers = [];
  services = [];
  permissions = [];
}

-- What the runs below compute with.
evaluation : Unit {0}
unfolding new apply transition dispatch extends verify_signatures verify_signature key
    validate_identifier ℕ_discrete String-discrete pair-discrete text_less try_fold for_each any all
    filter add_founder bind confirm_member confirm_device record_membership revoke_device
    validate_chairs signed_member speaks_for member_for_device chair some_chair_signed
    check_candidate propose_succession approve_succession execute_succession signing_chairs
    may_take_chair lacks_device recovery register_service grant_permission permits permits_member
    grants majority voters Dict.lookup Dict.insert Dict.any Dict.values Set.contains Set.insert
    Set.remove Set.extend checked_add
evaluation = tt

start-new : new toy genesis "digest" ≡ ok start
unfolding evaluation
start-new = refl

abbrev entry : ℕ → TrustAction → List TrustSignature → TrustRecord
entry n a s = record {
  federation = "union";
  genesis = "digest";
  sequence = n;
  previous = "digest";
  action = a;
  signatures = s;
}

abbrev signature : ℕ → TrustSignature
signature k = record { public_key = k ∷ []; signature = 0 ∷ [] }

abbrev join : TrustAction
join = TrustAction.confirm_member "bob" "chess" (some "bob1") "card" none

abbrev join_record : TrustRecord
join_record = entry 1 join (signature 1 ∷ signature 3 ∷ [])

abbrev joined : TrustState
joined = record start {
  checkpoint = record { genesis = "digest"; sequence = 1; head = "digest" };
  members = ("ann", "ann1" ∷ []) ∷ ("bob", "bob1" ∷ []) ∷ [];
  devices = ("ann1", "ann") ∷ ("bob1", "bob") ∷ [];
  memberships = ("ann", "chess") ∷ ("bob", "chess") ∷ [];
}

joined-apply : apply toy start join_record ≡ ok joined
unfolding evaluation
joined-apply = refl

abbrev revoke_record : TrustRecord
revoke_record = entry 2 (TrustAction.revoke_device "ann" "ann1") (signature 1 ∷ [])

abbrev bereft : TrustState
bereft = record joined {
  checkpoint = record { genesis = "digest"; sequence = 2; head = "digest" };
  members = ("ann", []) ∷ ("bob", "bob1" ∷ []) ∷ [];
  revoked_devices = "ann1" ∷ [];
}

bereft-apply : apply toy joined revoke_record ≡ ok bereft
unfolding evaluation
bereft-apply = refl

abbrev handover : Succession
handover = record {
  chairs = ("chess", "bob") ∷ [];
  quorum = 1;
  epoch = 0;
  approvals = [];
  accepted = [];
  closed = false;
}

abbrev proposed : TrustState
proposed = record joined {
  checkpoint = record { genesis = "digest"; sequence = 2; head = "digest" };
  successions = ("s", handover) ∷ [];
}

abbrev propose_record : TrustRecord
propose_record =
    entry 2 (TrustAction.propose_succession "s" (("chess", "bob") ∷ []) 1) (signature 1 ∷ [])

proposed-apply : apply toy joined propose_record ≡ ok proposed
unfolding evaluation
proposed-apply = refl

abbrev ready : TrustState
ready = record proposed {
  checkpoint = record { genesis = "digest"; sequence = 3; head = "digest" };
  successions = ("s", record handover { approvals = "ann" ∷ []; accepted = "bob" ∷ [] }) ∷ [];
}

abbrev approve_record : TrustRecord
approve_record = entry 3 (TrustAction.approve_succession "s") (signature 1 ∷ signature 3 ∷ [])

ready-apply : apply toy proposed approve_record ≡ ok ready
unfolding evaluation
ready-apply = refl

abbrev succeeded : TrustState
succeeded = record ready {
  chairs = ("chess", "bob") ∷ [];
  chair_epoch = 1;
  successions =
      ("s", record handover { approvals = "ann" ∷ []; accepted = "bob" ∷ []; closed = true }) ∷ [];
}

succeeded-transition :
    transition (λ _. true) ready (TrustAction.execute_succession "s") ("ann1" ∷ []) ≡ ok succeeded
unfolding evaluation
succeeded-transition = refl

history : Extends toy start ready
history =
    next_record approve_record
      (next_record propose_record (next_record join_record here joined-apply) proposed-apply)
      ready-apply

new-IsValid_example : (◌≡◌ {A = String} "digest" "digest") × IsValid start × IsValid ready
new-IsValid_example = new-IsValid toy genesis "digest" start ready start-new history

transition-chairs_example :
    ((succeeded.chairs ≡ ready.chairs) × (succeeded.quorum ≡ ready.quorum))
    ⊎ Succeeds ready succeeded
transition-chairs_example =
    transition-chairs (λ _. true) ready (TrustAction.execute_succession "s") ("ann1" ∷ []) succeeded
      (new-IsValid_example.2).backing succeeded-transition

transition-Allowed_example :
    ((t : TrustState) × (transition
          (λ _. true)
          ready
          (TrustAction.execute_succession "s")
          ("ann1" ∷ [])
        ≡ ok t))
    ↔ (Allowed ready ("ann1" ∷ []) (λ _. true) (TrustAction.execute_succession "s")
        × NoneRevoked ready ("ann1" ∷ []))
transition-Allowed_example =
    transition-Allowed (λ _. true) ready (TrustAction.execute_succession "s") ("ann1" ∷ [])

abbrev both : Set String
both = "ann1" ∷ "bob1" ∷ []

abbrev joining : TrustState
joining = record joined { checkpoint = start.checkpoint }

joining-transition : transition (λ _. true) start join both ≡ ok joining
unfolding evaluation
joining-transition = refl

transition-membership_example :
    (Set.contains ("bob", "chess") joining.memberships
      ≡ Set.contains ("bob", "chess") start.memberships)
    ⊎ ((Set.contains ("bob", "chess") joining.memberships ≡ true)
        × ConfirmedBy start join both "bob" "chess")
    ⊎ ((Set.contains ("bob", "chess") joining.memberships ≡ false)
        × (chair start "chess" both ≡ true))
transition-membership_example =
    transition-membership (λ _. true) start join both joining "bob" "chess" joining-transition

transition-devices_example :
    (Set.contains "bob1" (owned start "bob") ≡ true)
    ⊎ ((Set.contains "bob1" both ≡ true)
        × ((Dict.contains "bob" start.members ≡ false) ⊎ Acts start "bob" both))
transition-devices_example =
    transition-devices (λ _. true) start join both joining "bob" "bob1" joining-transition listed
  where
    listed : Set.contains "bob1" (owned joining "bob") ≡ true
    listed = unfold evaluation in refl

abbrev served : TrustState
served = record start { services = ("rooms", record { audience = "ann1"; club = "chess" }) ∷ [] }

abbrev trusted : TrustState
trusted = record served {
  permissions =
      ("g", record { member = "ann"; service = "rooms"; permission = "read"; revoked = false })
      ∷ [];
}

abbrev grant : TrustAction
grant = TrustAction.grant_permission "g" "ann" "rooms" "read"

trusted-transition : transition (λ _. true) served grant ("ann1" ∷ []) ≡ ok trusted
unfolding evaluation
trusted-transition = refl

trusted-permits : permits_member trusted "ann" "ann1" "rooms" "read" ≡ true
unfolding evaluation
trusted-permits = refl

transition-permissions_example :
    (permits_member served "ann" "ann1" "rooms" "read" ≡ true)
    ⊎ ((w : Service) × (Dict.lookup "rooms" trusted.services ≡ some w)
        × (chair served w.club ("ann1" ∷ []) ≡ true))
transition-permissions_example =
    transition-permissions (λ _. true) served grant ("ann1" ∷ []) trusted "ann" "ann1" "rooms"
      "read" trusted-transition trusted-permits

start-majority : majority start ("ann1" ∷ []) ≡ true
unfolding evaluation
start-majority = refl

majority_overlap_example :
    (m : String) × (Set.contains m (voters start.chairs) ≡ true)
    × (signed_member start m ("ann1" ∷ []) ≡ true)
    × (signed_member start m ("ann1" ∷ []) ≡ true)
majority_overlap_example =
    majority_overlap start ("ann1" ∷ []) ("ann1" ∷ []) (new-IsValid_example.1).quorum start-majority
      start-majority

apply-checkpoint_example :
    (join_record.federation ≡ start.federation)
    × (join_record.genesis ≡ start.checkpoint.genesis)
    × (join_record.previous ≡ start.checkpoint.head)
    × (join_record.sequence ≡ start.checkpoint.sequence + 1)
    × (joined.federation ≡ start.federation)
    × (joined.checkpoint.genesis ≡ start.checkpoint.genesis)
    × (joined.checkpoint.sequence ≡ start.checkpoint.sequence + 1)
    × (joined.checkpoint.head ≡ toy.digest (toy.record_json join_record))
apply-checkpoint_example = apply-checkpoint toy start join_record joined joined-apply

apply-once_example : apply toy bereft join_record ≡ err denied
apply-once_example =
    apply-once toy start joined bereft join_record joined-apply
      (next_record revoke_record here bereft-apply)

abbrev late_record : TrustRecord
late_record = entry 3 (TrustAction.revoke_membership "bob" "chess") (signature 1 ∷ [])

late-signers : verify_signatures toy late_record ≡ ok ("ann1" ∷ [])
unfolding evaluation
late-signers = refl

revoked_device_powerless_example :
    (permits bereft "ann1" "ann1" "rooms" "read" ≡ false)
    × (apply toy bereft late_record ≡ err denied)
revoked_device_powerless_example =
    revoked_device_powerless toy bereft bereft "ann1" "ann1" "rooms" "read" late_record
      ("ann1" ∷ []) listed here late-signers signing
  where
    listed : Set.contains "ann1" bereft.revoked_devices ≡ true
    listed = unfold evaluation in refl

    signing : Set.contains {K = String} "ann1" ("ann1" ∷ []) ≡ true
    signing = unfold evaluation in refl

join-signers : verify_signatures toy join_record ≡ ok both
unfolding evaluation
join-signers = refl

verify_signatures_lem_example :
    (0 < length join_record.signatures)
    × (length join_record.signatures ≤ 136)
    × (length both ≡ length join_record.signatures)
    × Ascends none join_record.signatures
    × AllSign toy (signing_bytes toy join_record) join_record.signatures
    × ((d : String)
        → (Set.contains d both ≡ true)
          ↔ SomeSigns toy (signing_bytes toy join_record) d join_record.signatures)
verify_signatures_lem_example = verify_signatures_lem toy join_record both join-signers
