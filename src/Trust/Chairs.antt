-- ===== src/Trust/Chairs.antt =====
-- The chairs and their succession in `TrustState::transition`, and `validate_chairs`.
use union_core.Prelude.{
  ℕ, String, Bool, true, false, not, ◌&&◌, ◌||◌, ◌/◌, ◌==◌, text_key, nat_key, any, filter, length,
  ltb, leb, is_some_and, is_none_or, is_empty, Result, ok, denied, not_found, capacity, refuse_if,
  ok_or, for_each, ◌>>◌, ◌>>=◌, [],
}
use union_core.Prelude.Dict
use union_core.Prelude.Dict.{Dict, values}
use union_core.Prelude.Set
use union_core.Prelude.Set.{Set}
use union_core.Prelude.Words.{checked_add}
use union_core.Protocol.Text.{validate_identifier}
use union_core.Trust.State.{
  TrustState, Succession, max_chairs, max_facts, signed_member, majority, voters,
}

unfoldable pub validate_chairs : Dict String String → ℕ → Result (Unit {0})
unfolding voters
validate_chairs chairs quorum =
    refuse_if
      (is_empty chairs
        || ltb max_chairs (length chairs)
        || leb quorum (length (voters chairs) / 2)
        || ltb (length (voters chairs)) quorum)
      denied

-- `self.chairs.values().any(|m| self.signed_member(m, signers))`
unfoldable pub some_chair_signed : TrustState → Set String → Bool
some_chair_signed st signers = any (λ m. signed_member st m signers) (values st.chairs)

-- `self.members.get(member).is_none_or(BTreeSet::is_empty)`
unfoldable pub lacks_device : TrustState → String → Bool
lacks_device st member = is_none_or is_empty (Dict.lookup member st.members)

unfoldable pub check_candidate : TrustState → String × String → Result (Unit {0})
unfolding lacks_device
check_candidate st (club, member) = do
  validate_identifier club
  refuse_if (lacks_device st member) denied

unfoldable pub propose_succession :
    TrustState → String → Dict String String → ℕ → Set String → Result TrustState
propose_succession st id chairs quorum signers = do
  validate_identifier id
  validate_chairs chairs quorum
  refuse_if
      (not (some_chair_signed st signers)
        || Dict.contains id st.successions
        || leb max_facts (length st.successions))
      denied
  for_each (check_candidate st) chairs
  ok (record st {
    successions =
        Dict.insert id
          (record {
            chairs = chairs;
            quorum = quorum;
            epoch = st.chair_epoch;
            approvals = [];
            accepted = [];
            closed = false;
          })
          st.successions;
  })

-- The signers among the holders of the listed chairs.
unfoldable pub signing_chairs : TrustState → Dict String String → Set String → Set String
signing_chairs st chairs signers =
    Set.collect (filter (λ m. signed_member st m signers) (values chairs))

-- A proposal that is decided, or that an earlier change of chairs has overtaken.
unfoldable pub stale : TrustState → Succession → Bool
stale st p = p.closed || not (p.epoch == st.chair_epoch)

unfoldable pub approve_succession : TrustState → String → Set String → Result TrustState
unfolding stale
approve_succession st id signers = do
  proposal ← ok_or (Dict.lookup id st.successions) not_found
  refuse_if (stale st proposal) denied
  let approvals = signing_chairs st st.chairs signers
  let accepted = signing_chairs st proposal.chairs signers
  refuse_if (is_empty approvals && is_empty accepted) denied
  ok (record st {
    successions =
        Dict.insert id
          (record proposal {
            approvals = Set.extend approvals proposal.approvals;
            accepted = Set.extend accepted proposal.accepted;
          })
          st.successions;
  })

-- The candidate can act, and keeps the chair or has accepted it.
unfoldable pub may_take_chair : TrustState → Succession → String → String → Bool
unfolding lacks_device
may_take_chair st proposal club member =
    not (lacks_device st member)
    && (is_some_and (λ m. m == member) (Dict.lookup club st.chairs)
        || Set.contains member proposal.accepted)

unfoldable pub execute_succession : TrustState → String → Set String → Result TrustState
unfolding stale
execute_succession st id signers = do
  proposal ← ok_or (Dict.lookup id st.successions) not_found
  refuse_if
      (stale st proposal
        || ltb (length proposal.approvals) st.quorum
        || not (some_chair_signed st signers))
      denied
  refuse_if (Dict.any (λ club member. not (may_take_chair st proposal club member)) proposal.chairs)
      denied
  epoch ← ok_or (checked_add st.chair_epoch 1) capacity
  ok (record st {
    chairs = proposal.chairs;
    quorum = proposal.quorum;
    chair_epoch = epoch;
    successions = Dict.insert id (record proposal { closed = true }) st.successions;
  })

unfoldable pub cancel_succession : TrustState → String → Set String → Result TrustState
unfolding stale
cancel_succession st id signers = do
  refuse_if (not (majority st signers)) denied
  proposal ← ok_or (Dict.lookup id st.successions) not_found
  refuse_if (stale st proposal) denied
  ok (record st { successions = Dict.insert id (record proposal { closed = true }) st.successions })
