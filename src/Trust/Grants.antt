-- ===== src/Trust/Grants.antt =====
-- Verifiers, services and permissions in `TrustState::transition`.
use union_core.Prelude.{
  String, Bool, true, false, not, ◌||◌, text_key, length, ltb, leb, is_empty, Result, ok, denied,
  not_found, refuse_if, ok_or, for_each, ◌>>◌, ◌>>=◌,
}
use union_core.Prelude.Dict
use union_core.Prelude.Set
use union_core.Prelude.Set.{Set}
use union_core.Protocol.Text.{validate_identifier}
use union_core.Trust.State.{TrustState, max_evidence_types, max_facts, chair}

unfoldable pub revoke_verifier : TrustState → String → Set String → Result TrustState
revoke_verifier st id signers = do
  v ← ok_or (Dict.lookup id st.verifiers) not_found
  refuse_if (not (chair st v.club signers)) denied
  ok (record st { verifiers = Dict.insert id (record v { revoked = true }) st.verifiers })

unfoldable pub grant_permission :
    TrustState → String → String → String → String → Set String → Result TrustState
grant_permission st id member service permission signers = do
  validate_identifier id
  validate_identifier permission
  s ← ok_or (Dict.lookup service st.services) not_found
  refuse_if
      (not (chair st s.club signers)
        || not (Dict.contains member st.members)
        || Dict.contains id st.permissions
        || leb max_facts (length st.permissions))
      denied
  ok (record st {
    permissions =
        Dict.insert id
          (record { member = member; service = service; permission = permission; revoked = false })
          st.permissions;
  })

unfoldable pub revoke_permission : TrustState → String → Set String → Result TrustState
revoke_permission st id signers = do
  p ← ok_or (Dict.lookup id st.permissions) not_found
  s ← ok_or (Dict.lookup p.service st.services) not_found
  refuse_if (not (chair st s.club signers)) denied
  ok (record st { permissions = Dict.insert id (record p { revoked = true }) st.permissions })

-- `parse::<PeerId>()` succeeds
module _ (parses_peer : String → Bool) where
  unfoldable pub authorize_verifier :
      TrustState → String → String → String → Set String → Set String → Result TrustState
  authorize_verifier st id club device evidence signers = do
    validate_identifier id
    refuse_if (not (parses_peer device)) denied
    refuse_if
        (not (chair st club signers)
          || is_empty evidence
          || ltb max_evidence_types (length evidence)
          || Dict.contains id st.verifiers
          || leb max_facts (length st.verifiers)
          || Set.contains device st.revoked_devices)
        denied
    for_each validate_identifier evidence
    ok (record st {
      verifiers =
          Dict.insert id
            (record { club = club; device = device; evidence = evidence; revoked = false })
            st.verifiers;
    })

  unfoldable pub register_service :
      TrustState → String → String → String → Set String → Result TrustState
  register_service st service audience club signers = do
    validate_identifier service
    refuse_if (not (parses_peer audience)) denied
    refuse_if
        (not (chair st club signers)
          || not (Set.contains audience signers)
          || Dict.contains service st.services
          || leb max_facts (length st.services))
        denied
    ok (record st {
      services = Dict.insert service (record { audience = audience; club = club }) st.services;
    })
