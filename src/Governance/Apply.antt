-- ===== src/Governance/Apply.antt =====
-- `State::new` and `State::apply` of crates/state/src/governance.rs.
use union_core.Prelude.{
  ℕ, String, Bool, true, false, not, ◌||◌, ◌==◌, text_key, nat_key, length, ltb, leb, is_some,
  Result, ok, err, denied, not_found, capacity, protocol, refuse_if, ok_or, for_each, ◌>>◌, ◌>>=◌,
  [],
}
use union_core.Prelude.Dict
use union_core.Prelude.Dict.{Dict}
use union_core.Prelude.Set
use union_core.Prelude.Set.{Set}
use union_core.Prelude.Words.{checked_add}
use union_core.Protocol.Text.{validate_identifier, validate_digest}
use union_core.Protocol.Schema.{TrustBusinessBinding}
use union_core.Trust.State.{TrustState}
use union_core.Governance.State.{Domain, State, Action, CoreState, max_digest_anchors, view}
use union_core.Governance.Consensus.{Network, set_consensus_members}
use union_core.Governance.Core.{identity_core, can_write}

abbrev pub max_member_roles : ℕ
max_member_roles = 16

unfoldable pub validate_member_roles : Set String → Result (Unit {0})
validate_member_roles roles = do
  refuse_if (ltb max_member_roles (length roles)) capacity
  for_each validate_identifier roles

-- The last arm of the match.
abbrev pub identity_log_only : String
identity_log_only = "identity, device and governance changes belong in the unified identity log"

-- `core` is the derived state, of which the action reads the members.
unfoldable pub set_member_roles : CoreState → CoreState → String → Set String → Result CoreState
unfolding validate_member_roles
set_member_roles next core member roles = do
  validate_member_roles roles
  m ← ok_or (Dict.lookup member core.members) not_found
  ok (record next { members = Dict.insert member (record m { roles = roles }) next.members })

unfoldable pub anchor_digest : CoreState → String → ℕ → String → String → Result CoreState
anchor_digest next actor now_ms id digest = do
  validate_identifier id
  validate_digest digest
  refuse_if
      (Dict.contains id next.digest_anchors || leb max_digest_anchors (length next.digest_anchors))
      denied
  ok (record next {
    digest_anchors =
        Dict.insert id (record { digest = digest; actor = actor; time_ms = now_ms })
          next.digest_anchors;
  })

module _ (net : Network) (D : Domain) where
  open D use {DomainAction, transition}

  -- An action of the governance itself, which only an administrator may take.
  unfoldable pub govern : State D → Bool → Result CoreState → Result (State D)
  govern st admin change = elim admin [
    | true ↦ change >>= λ core. ok (record st { core = core })
    | false ↦ err (protocol identity_log_only)
  ]

  -- The match of `apply`, on the copy of the state; `core` is the derived one.
  unfoldable pub act : State D → CoreState → String → ℕ → ℕ → Action D → Result (State D)
  unfolding govern
  act st core actor revision now_ms (Action.domain_action a) = do
    domain ←
        transition st.domain
          (record {
            actor = actor;
            now_ms = now_ms;
            revision = revision;
            core = view core;
            approved = false;
          })
          a
    ok (record st { domain = domain })
  act st core actor revision now_ms (Action.set_consensus_members members) =
      govern st (Set.contains actor core.admins) (set_consensus_members net st.core members)
  act st core actor revision now_ms (Action.set_member_roles member roles) =
      govern st (Set.contains actor core.admins) (set_member_roles st.core core member roles)
  act st core actor revision now_ms (Action.anchor_digest id digest) =
      govern st (Set.contains actor core.admins) (anchor_digest st.core actor now_ms id digest)

  unfoldable pub apply : State D → String → ℕ → ℕ → Action D → TrustState → Result (State D)
  apply st actor revision now_ms action trust = do
    refuse_if
        (not (can_write st.core actor trust)
          || not (revision == st.core.revision)
          || ltb now_ms st.core.clock_ms)
        denied
    core ← identity_core st.core trust
    next ← act st core actor revision now_ms action
    advanced ← ok_or (checked_add revision 1) capacity
    ok (record next { core = record (next.core) { revision = advanced; clock_ms = now_ms } })

  unfoldable pub validate_binding : TrustBusinessBinding → Result (Unit {0})
  validate_binding b = do
    validate_identifier b.namespace
    validate_identifier b.service
    validate_identifier b.club
    refuse_if (not (is_some (net.parse_peer b.audience))) denied
    validate_digest b.genesis

  unfoldable pub new : TrustBusinessBinding → Result (State D)
  unfolding validate_binding
  new binding = do
    validate_binding binding
    ok (record {
      core = record {
        identity = binding;
        digest_anchors = [];
        revision = 0;
        admins = [];
        members = [];
        clock_ms = 0;
        consensus_members = [];
        retired_consensus_ids = [];
      };
      domain = D.initial;
    })
