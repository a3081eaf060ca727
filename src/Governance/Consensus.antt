-- ===== src/Governance/Consensus.antt =====
-- The members of the consensus in crates/state/src/governance.rs: `validate_consensus_members`, and
-- the action that replaces them.
use union_core.Prelude.{
  ℕ, String, Bool, not, ◌||◌, Option, ◌==◌, text_key, nat_key, filter, length, ltb, is_some_and,
  is_empty, Result, ok, denied, capacity, refuse_if, ok_or, for_each, try_fold, ◌>>◌, ◌>>=◌, [],
}
use Prim.Native.String.{len}
use union_core.Prelude.Dict
use union_core.Prelude.Dict.{Dict}
use union_core.Prelude.Set
use union_core.Prelude.Set.{Set}
use union_core.Governance.State.{ConsensusPeer, CoreState}

-- The parsers of the network library.
pub record Network : Type 0 where
  -- `parse::<PeerId>()`, with the peer in its canonical form
  pub parse_peer : String → Option String
  -- `parse::<Multiaddr>()`, with the peer that the last component names, if it is a `P2p`
  pub parse_address : String → Option (Option String)

-- The id was retired, or belongs to another peer.
unfoldable pub conflicts : CoreState → ℕ → ConsensusPeer → Bool
conflicts core id peer =
    Set.contains id core.retired_consensus_ids
    || is_some_and (λ old. not (old.peer == peer.peer)) (Dict.lookup id core.consensus_members)

module _ (net : Network) where
  unfoldable pub check_address : String → String → Result (Unit {0})
  check_address parsed address = do
    refuse_if (ltb 2048 (len address)) capacity
    last ← ok_or (net.parse_address address) denied
    refuse_if (not (is_some_and (λ p. p == parsed) last)) denied

  -- One round of the loop; `unique` holds the peers so far.
  unfoldable pub check_peer : Set String → ℕ × ConsensusPeer → Result (Set String)
  unfolding check_address
  check_peer unique (id, peer) = do
    parsed ← ok_or (net.parse_peer peer.peer) denied
    refuse_if
        (id == 0
          || Set.contains parsed unique
          || is_empty peer.addresses
          || ltb 8 (length peer.addresses))
        denied
    for_each (check_address parsed) peer.addresses
    ok (Set.insert parsed unique)

  -- One, three, five or seven members.
  unfoldable pub validate_consensus_members : Dict ℕ ConsensusPeer → Result (Unit {0})
  unfolding check_peer
  validate_consensus_members peers = do
    let n = length peers
    refuse_if (not (n == 1 || n == 3 || n == 5 || n == 7)) denied
    unique ← try_fold check_peer [] peers
    ok tt

  unfoldable pub set_consensus_members : CoreState → Dict ℕ ConsensusPeer → Result CoreState
  unfolding conflicts
  set_consensus_members core members = do
    validate_consensus_members members
    refuse_if (Dict.any (conflicts core) members) denied
    ok (record core {
      consensus_members = members;
      retired_consensus_ids =
          Set.extend
            (filter (λ id. not (Dict.contains id members)) (Dict.keys core.consensus_members))
            core.retired_consensus_ids;
    })
