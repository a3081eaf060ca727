-- ===== src/Trust/Log.antt =====
-- The log: the genesis, the signatures of a record, the dispatch of its action, and `apply`.
use union_core.Prelude.{
  ◌%◌, ℕ, String, Bool, true, false, not, ◌&&◌, ◌||◌, ◌+◌, ◌*◌, Option, none, some, ◌==◌, text_key,
  nat_key, pair_key, any, length, ltb, is_some_and, is_empty, Result, ok, denied, capacity,
  refuse_if, ok_or, try_fold, ◌>>◌, ◌>>=◌, [], ◌∷◌, ◌++◌,
}
use union_core.Prelude.Dict
use union_core.Prelude.Set
use union_core.Prelude.Set.{Set}
use union_core.Prelude.Words.{checked_add, u64_end}
use union_core.Protocol.Text.{validate_identifier, codes}
use union_core.Protocol.Schema.{
  Bytes, TrustAction, TrustRecord, TrustGenesis, TrustFounder, TrustSignature,
}
use union_core.Trust.State.{TrustState, max_chairs, max_devices}
use union_core.Trust.Members.{
  bind, confirm_member, revoke_membership, bind_game_profile, bind_device, revoke_device,
}
use union_core.Trust.Chairs.{
  validate_chairs, propose_succession, approve_succession, execute_succession, cancel_succession,
}
use union_core.Trust.Grants.{
  authorize_verifier, revoke_verifier, register_service, grant_permission, revoke_permission,
}

-- The libraries of keys, hashes and JSON that the log uses.
pub record Crypto : Type 1 where
  pub PublicKey : Type 0
  -- `PublicKey::try_decode_protobuf`
  pub try_decode_protobuf : Bytes → Option PublicKey
  -- `try_into_ed25519` succeeds
  pub is_ed25519 : PublicKey → Bool
  -- `to_peer_id().to_string()`
  pub peer_id : PublicKey → String
  pub verify : PublicKey → Bytes → Bytes → Bool
  -- `parse::<PeerId>()` succeeds
  pub parses_peer : String → Bool
  -- SHA-256 in lowercase hexadecimal
  pub digest : Bytes → String
  -- `serde_json::to_vec`
  pub record_json : TrustRecord → Bytes
  pub genesis_json : TrustGenesis → Bytes

abbrev pub max_trust_record : ℕ
max_trust_record = 48 * 1024

abbrev pub trust_signing_domain : Bytes
trust_signing_domain = codes "jlucraft/union/trust/1" ++ (0 ∷ [])

unfoldable pub dispatch :
    (String → Bool) → TrustState → TrustAction → Set String → Result TrustState
dispatch parses st (TrustAction.confirm_member m c d e v) s = confirm_member parses st m c d e v s
dispatch parses st (TrustAction.revoke_membership m c) s = revoke_membership st m c s
dispatch parses st (TrustAction.bind_device m d) s = bind_device parses st m d s
dispatch parses st (TrustAction.bind_game_profile m c p) s = bind_game_profile st m c p s
dispatch parses st (TrustAction.revoke_device m d) s = revoke_device st m d s
dispatch parses st (TrustAction.propose_succession i c q) s = propose_succession st i c q s
dispatch parses st (TrustAction.approve_succession i) s = approve_succession st i s
dispatch parses st (TrustAction.execute_succession i) s = execute_succession st i s
dispatch parses st (TrustAction.cancel_succession i) s = cancel_succession st i s
dispatch parses st (TrustAction.authorize_verifier i c d e) s =
    authorize_verifier parses st i c d e s
dispatch parses st (TrustAction.revoke_verifier i) s = revoke_verifier st i s
dispatch parses st (TrustAction.register_service v a c) s = register_service parses st v a c s
dispatch parses st (TrustAction.grant_permission i m v p) s = grant_permission st i m v p s
dispatch parses st (TrustAction.revoke_permission i) s = revoke_permission st i s

-- Revoked keys cannot take part even as an extra signature.
unfoldable pub transition :
    (String → Bool) → TrustState → TrustAction → Set String → Result TrustState
transition parses st action signers = do
  refuse_if (any (λ d. Set.contains d st.revoked_devices) signers) denied
  dispatch parses st action signers

-- `Vec<u8>` compares bytewise.
unfoldable pub bytes_less : Bytes → Bytes → Bool
bytes_less [] [] = false
bytes_less [] (y ∷ ys) = true
bytes_less (x ∷ xs) [] = false
bytes_less (x ∷ xs) (y ∷ ys) = ltb x y || (x == y && bytes_less xs ys)

-- What the loop of `verify_signatures` carries: the last key, and the signers so far.
abbrev pub Verified : Type 0
Verified = Option Bytes × Set String

module _ (x : Crypto) where
  open x use {
    PublicKey, try_decode_protobuf, is_ed25519, peer_id, verify, parses_peer, digest, record_json,
    genesis_json,
  }

  unfoldable pub key : Bytes → Result PublicKey
  key bytes = do
    refuse_if (ltb 128 (length bytes)) denied
    k ← ok_or (try_decode_protobuf bytes) denied
    refuse_if (not (is_ed25519 k)) denied
    ok k

  unfoldable pub signing_bytes : TrustRecord → Bytes
  signing_bytes r = trust_signing_domain ++ record_json (record r { signatures = [] })

  unfoldable pub verify_signature : Bytes → Verified → TrustSignature → Result Verified
  unfolding bytes_less key
  verify_signature message (previous, signers) s = do
    refuse_if (is_some_and (λ p. not (bytes_less p s.public_key)) previous) denied
    k ← key s.public_key
    refuse_if (not (verify k message s.signature) || Set.contains (peer_id k) signers) denied
    ok (some s.public_key, Set.insert (peer_id k) signers)

  unfoldable pub verify_signatures : TrustRecord → Result (Set String)
  unfolding verify_signature signing_bytes
  verify_signatures r = do
    refuse_if
        (is_empty r.signatures
          || ltb (max_chairs + max_devices) (length r.signatures)
          || ltb max_trust_record (length (record_json r)))
        denied
    (previous, signers) ← try_fold (verify_signature (signing_bytes r)) (none, []) r.signatures
    ok signers

  -- The record extends the log of this federation by one.
  unfoldable pub extends : TrustState → TrustRecord → Bool
  extends st r =
      r.federation == st.federation
      && r.genesis == st.checkpoint.genesis
      && r.previous == st.checkpoint.head
      && is_some_and (λ n. r.sequence == n) (checked_add st.checkpoint.sequence 1)

  unfoldable pub apply : TrustState → TrustRecord → Result TrustState
  unfolding extends
  apply st r = do
    refuse_if (ltb max_trust_record (length (record_json r)) || not (extends st r)) denied
    signers ← verify_signatures r
    next ← transition parses_peer st r.action signers
    ok (record next {
      checkpoint = record (next.checkpoint) {
        sequence = r.sequence;
        head = digest (record_json r);
      };
    })

  -- The number is added in `u64`, which wraps around in a release build.
  unfoldable pub draft : TrustState → TrustAction → TrustRecord
  draft st action = record {
    federation = st.federation;
    genesis = st.checkpoint.genesis;
    sequence = (st.checkpoint.sequence + 1) % u64_end;
    previous = st.checkpoint.head;
    action = action;
    signatures = [];
  }

  unfoldable pub empty_state : TrustGenesis → TrustState
  empty_state genesis = record {
    federation = genesis.federation;
    checkpoint = record {
      genesis = digest (genesis_json genesis);
      sequence = 0;
      head = digest (genesis_json genesis);
    };
    members = [];
    devices = [];
    revoked_devices = [];
    memberships = [];
    revoked_memberships = [];
    profiles = [];
    chair_epoch = 0;
    successions = [];
    chairs = [];
    quorum = genesis.quorum;
    verifiers = [];
    services = [];
    permissions = [];
  }

  unfoldable pub add_founder : TrustState → TrustFounder → Result TrustState
  unfolding key
  add_founder st f = do
    validate_identifier f.member
    validate_identifier f.club
    k ← key f.public_key
    refuse_if (Dict.contains f.club st.chairs) denied
    let seated = record st { chairs = Dict.insert f.club f.member st.chairs }
    bound ← bind parses_peer seated f.member (peer_id k)
    ok (record bound { memberships = Set.insert (f.member, f.club) bound.memberships })

  -- `TrustState::new`, against the pinned digest of the genesis
  unfoldable pub new : TrustGenesis → String → Result TrustState
  unfolding empty_state
  new genesis pinned = do
    validate_identifier genesis.federation
    refuse_if (is_empty genesis.founders || ltb max_chairs (length genesis.founders)) capacity
    refuse_if (not (digest (genesis_json genesis) == pinned)) denied
    st ← try_fold add_founder (empty_state genesis) genesis.founders
    validate_chairs st.chairs st.quorum
    ok st
