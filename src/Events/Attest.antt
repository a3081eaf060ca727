-- ===== src/Events/Attest.antt =====
-- `attest` of crates/events/src/points.rs: the points of the players in a window of an oracle.
use Prim.Native.String.{◌++◌}
use union_core.Prelude.{
  ℕ, ◌+◌, ◌-◌, ◌*◌, ◌/◌, ◌%◌, ◌^◌, min, String, Bool, not, ◌||◌, Option, none, some, ◌==◌, text_key,
  nat_key, Result, ok, err, denied, not_found, capacity, refuse_if, ok_or, for_each, try_fold,
  ◌>>=◌, ◌>>◌, is_none_or, unwrap_or, ltb, leb, [], length, if◌then◌else◌,
}
use union_core.Prelude.Dict
use union_core.Prelude.Dict.{Dict}
use union_core.Prelude.Words.{checked_add, checked_mul, checked_sub, saturating_add, saturating_sub}
use union_core.Protocol.Ipld.{Cid, IpldBlock, block_content, is_raw, raw_block}
use union_core.Governance.State.{Context}
use union_core.Events.Organization.{
  OracleSource, OracleSourcePolicy, DayUsage, no_usage, ActivityTotals, Attestation,
  ActivityEvidence, ActivityReceipt, OrganizationState, OrganizationAction,
}
use union_core.Events.State.{EventsState, Libraries, max_records, decimal}
use union_core.Events.Points.{
  usage_at, set_policy, set_source, authorize_ai, slice_ms, day_ms, weight_denominator,
}

-- A value that fits a width, as `try_from` and the checked operations of a `u128`.
abbrev pub fitting : ℕ → ℕ → Option ℕ
fitting width n = if ltb n (2 ^ width) then some n else none

-- The window and the batch are not the source's to attest.
unfoldable pub bad_window : OracleSource → Context → Attestation → ℕ → Bool
bad_window source ctx a duration =
    not source.config.enabled
    || not (source.config.oracle_device == ctx.actor)
    || duration == 0
    || ltb (slice_ms * 12) duration
    || not (a.window_start_ms % slice_ms == 0)
    || not (a.window_end_ms % slice_ms == 0)
    || ltb a.window_start_ms source.last_window_end_ms
    || ltb ctx.now_ms a.window_end_ms
    || ltb 256 (length a.players)

-- The totals of a player, against the slices of the window and the bonus of the source.
unfoldable pub check_player :
    Context → OracleSourcePolicy → ℕ → String × ActivityTotals → Result (Unit {0})
check_player ctx config slices (member, total) =
    refuse_if
      (not (Dict.contains member ctx.core.members)
        || is_none_or (λ v. ltb slices v) (checked_add total.active_slices total.afk_slices)
        || is_none_or (λ limit. ltb limit total.bonus_points)
            (checked_mul total.active_slices config.max_bonus_per_slice))
      denied

-- What the loop over the players changes.
pub record Tally : Type 0 where
  pub remaining : ℕ
  pub daily : DayUsage
  pub members : Dict String DayUsage
  pub points : Dict String (Dict String ℕ)
  pub awarded : Dict String ℕ
  pub accounts : Dict String String

-- The weighted points of a player, before the caps.
unfoldable pub raw_points : OracleSourcePolicy → ActivityTotals → Result ℕ
raw_points config total = do
  active ← ok_or (fitting 128 (total.active_slices * config.points_per_slice)) capacity
  sum ← ok_or (fitting 128 (active + total.bonus_points)) capacity
  weighted ← ok_or (fitting 128 (sum * config.weight_bps)) capacity
  ok_or (fitting 64 (weighted / weight_denominator)) capacity

-- The usage of a day with the points and the slices of a window.
unfoldable pub add_usage : DayUsage → ℕ → ActivityTotals → Result DayUsage
add_usage usage points total = do
  sum ← ok_or (checked_add usage.points points) capacity
  active ← ok_or (checked_add usage.active_slices total.active_slices) capacity
  afk ← ok_or (checked_add usage.afk_slices total.afk_slices) capacity
  ok (record usage { points = sum; active_slices = active; afk_slices = afk })

abbrev pub cell : Dict String (Dict String ℕ) → String → String → ℕ
cell points club member = unwrap_or 0 (Dict.lookup member (unwrap_or [] (Dict.lookup club points)))

abbrev pub set_cell :
    Dict String (Dict String ℕ) → String → String → ℕ → Dict String (Dict String ℕ)
set_cell points club member value =
    Dict.insert club (Dict.insert member value (unwrap_or [] (Dict.lookup club points))) points

-- The body of the loop.
unfoldable pub award :
    Context → OracleSourcePolicy → ℕ → ℕ → Tally → String × ActivityTotals → Result Tally
unfolding usage_at raw_points add_usage
award ctx config daily_cap day t (member, total) = do
  m ← ok_or (Dict.lookup member ctx.core.members) denied
  let usage = usage_at (unwrap_or no_usage (Dict.lookup member t.members)) day
  raw ← raw_points config total
  let points = min (min raw (saturating_sub daily_cap usage.points)) t.remaining
  used ← add_usage usage points total
  daily ← add_usage t.daily points total
  balance ← ok_or (checked_add (cell t.points m.club member) points) capacity
  ok (record {
    remaining = t.remaining - points;
    daily = daily;
    members = Dict.insert member used t.members;
    points = set_cell t.points m.club member balance;
    awarded = Dict.insert member points t.awarded;
    accounts = Dict.insert member m.club t.accounts;
  })

unfoldable pub receipt_id : Attestation → String
unfolding decimal
receipt_id a = a.source ++ (":" ++ (decimal a.window_start_ms ++ (":" ++ decimal a.window_end_ms)))

-- The receipts that are still within a day.
unfoldable pub recent : ℕ → Dict String ActivityReceipt → Dict String ActivityReceipt
recent now receipts = Dict.retain (λ _ r. leb now (saturating_add r.credited_ms day_ms)) receipts

abbrev pub first_tally : OrganizationState → OracleSource → ℕ → Tally
first_tally org source day =
    let daily = usage_at source.daily day in
    record {
      remaining = saturating_sub source.config.daily_source_cap daily.points;
      daily = daily;
      members = org.activity_members;
      points = org.points;
      awarded = [];
      accounts = [];
    }

-- The organization after the loop.
unfoldable pub close_window :
    OrganizationState → Context → OracleSource → Attestation → Cid → Tally → OrganizationState
unfolding recent receipt_id
close_window org ctx source a evidence t = record org {
  oracle_sources =
      Dict.insert a.source (record source { last_window_end_ms = a.window_end_ms; daily = t.daily })
        org.oracle_sources;
  activity_members = t.members;
  points = t.points;
  activity_receipts =
      Dict.insert (receipt_id a)
        (record {
          accounts = t.accounts;
          credited_ms = ctx.now_ms;
          attestation = a;
          evidence = evidence;
          credited_day = ctx.now_ms / day_ms;
          awarded = t.awarded;
        })
        (recent ctx.now_ms org.activity_receipts);
}

module _ (L : Libraries) where
  -- `ActivityEvidence::block`
  unfoldable pub evidence_block : Attestation → Cid → Result IpldBlock
  evidence_block a telemetry = raw_block L.encoding (
      L.evidence_json (record {
        attestation_hash = L.encoding.digest (L.attestation_json a);
        telemetry = telemetry;
      }))

  -- `ActivityEvidence::verify`
  unfoldable pub verify : IpldBlock → Attestation → Result ActivityEvidence
  verify block a = do
    refuse_if (not (is_raw L.encoding block.cid)) denied
    bytes ← block_content L.encoding block
    header ← ok_or (L.parse_evidence bytes) denied
    refuse_if (not (header.attestation_hash == L.encoding.digest (L.attestation_json a))) denied
    ok header

  unfoldable pub attest : EventsState → Context → Attestation → IpldBlock → Result EventsState
  unfolding bad_window recent check_player verify award close_window
  attest st ctx a evidence = do
    source ← ok_or (Dict.lookup a.source st.organization.oracle_sources) not_found
    policy ← ok_or st.organization.activity_policy denied
    duration ← ok_or (checked_sub a.window_end_ms a.window_start_ms) denied
    refuse_if (bad_window source ctx a duration) denied
    refuse_if (leb max_records (length (recent ctx.now_ms st.organization.activity_receipts)))
        capacity
    for_each (check_player ctx source.config (duration / slice_ms)) a.players
    header ← verify evidence a
    t ←
        try_fold (award ctx source.config policy.daily_member_cap (ctx.now_ms / day_ms))
          (first_tally st.organization source (ctx.now_ms / day_ms)) a.players
    ok (record st { organization = close_window st.organization ctx source a evidence.cid t })

  -- `points::transition`
  unfoldable pub points_transition : EventsState → Context → OrganizationAction → Result EventsState
  unfolding set_policy set_source attest authorize_ai
  points_transition st ctx (OrganizationAction.activity_policy policy) = set_policy st ctx policy
  points_transition st ctx (OrganizationAction.oracle_source id source) =
      set_source st ctx id source
  points_transition st ctx (OrganizationAction.activity_attest source start end players evidence) =
      attest st ctx
        (record {
          source = source;
          window_start_ms = start;
          window_end_ms = end;
          players = players;
        })
        evidence
  points_transition st ctx (OrganizationAction.authorize_ai scope budget) =
      authorize_ai st ctx scope budget
  points_transition st ctx _ = err denied
