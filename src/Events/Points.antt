-- ===== src/Events/Points.antt =====
-- crates/events/src/points.rs: balances, allowances for AI work, and the points of an oracle.
use Prim.Native.String.{◌++◌}
use union_core.Prelude.{
  ℕ, String, Bool, true, false, not, ◌&&◌, ◌||◌, Option, none, some, ◌==◌, text_key, nat_key,
  Result, ok, err, denied, not_found, capacity, refuse_if, ok_or, for_each, ◌>>=◌, ◌>>◌, is_some,
  unwrap_or, ltb, leb, [], ◌∷◌, length, if◌then◌else◌,
}
use union_core.Prelude.Dict
use union_core.Prelude.Dict.{Dict}
use union_core.Prelude.Words.{checked_add, checked_sub}
use union_core.Protocol.Text.{validate_identifier}
use union_core.Governance.State.{Context, context_member, owns}
use union_core.Events.Organization.{
  PointAccount, AiAllowance, OracleSource, OracleSourcePolicy, DayUsage, no_usage, ActivityPolicy,
  BudgetAuthorization, OrganizationAction,
}
use union_core.Events.State.{
  EventsState, EventAction, max_records, strip_prefix, is_admin, club_manager, manage, has_club,
}

abbrev pub slice_ms : ℕ
slice_ms = 300_000

abbrev pub day_ms : ℕ
day_ms = 86_400_000

abbrev pub weight_denominator : ℕ
weight_denominator = 10_000

abbrev pub max_items : ℕ
max_items = 128

-- `DayUsage::at`
unfoldable pub usage_at : DayUsage → ℕ → DayUsage
usage_at usage day = if usage.day_epoch == day then usage else record no_usage { day_epoch = day }

abbrev pub points_of : EventsState → String → String → ℕ
points_of st club member =
    unwrap_or 0 (Dict.lookup member (unwrap_or [] (Dict.lookup club st.organization.points)))

unfoldable pub balance : EventsState → PointAccount → ℕ
balance st account = points_of st account.club account.member

-- `points.entry(club).or_default().insert(member, value)`
unfoldable pub set_points : EventsState → String → String → ℕ → EventsState
set_points st club member value = record st {
  organization = record st.organization {
    points =
        Dict.insert club
          (Dict.insert member value (unwrap_or [] (Dict.lookup club st.organization.points)))
          st.organization.points;
  };
}

unfoldable pub debit : EventsState → PointAccount → ℕ → Result EventsState
unfolding balance set_points
debit st account amount = do
  value ← ok_or (checked_sub (balance st account) amount) denied
  ok (set_points st account.club account.member value)

unfoldable pub credit : EventsState → PointAccount → ℕ → Result EventsState
unfolding balance set_points
credit st account amount = do
  value ← ok_or (checked_add (balance st account) amount) capacity
  ok (set_points st account.club account.member value)

-- The budget that pays for the workflow of an action.
abbrev pub workflow_scope : EventAction → Result String
workflow_scope (EventAction.approve id epoch co) = ok ("event:" ++ id)
workflow_scope (EventAction.of_organization (OrganizationAction.polish id epoch)) =
    ok ("event:" ++ id)
workflow_scope (EventAction.of_organization (OrganizationAction.summary id epoch)) =
    ok ("event:" ++ id)
workflow_scope (EventAction.of_organization (OrganizationAction.report_generated id version)) =
    ok ("report:" ++ id)
workflow_scope _ = err denied

unfoldable pub workflow_payer : EventsState → EventAction → Result (PointAccount × AiAllowance)
workflow_payer st action = do
  scope ← workflow_scope action
  budget ← ok_or (Dict.lookup scope st.organization.ai_allowances) denied
  refuse_if (budget.remaining_points == 0) denied
  ok (budget.account, record { scope = scope; epoch = budget.epoch })

-- `&budget.account == account`
abbrev pub same_account : PointAccount → PointAccount → Bool
same_account a b = a.club == b.club && a.member == b.member

abbrev pub set_allowance : EventsState → String → BudgetAuthorization → EventsState
set_allowance st scope budget = record st {
  organization = record st.organization {
    ai_allowances = Dict.insert scope budget st.organization.ai_allowances;
  };
}

unfoldable pub debit_allowance : EventsState → PointAccount → AiAllowance → ℕ → Result EventsState
debit_allowance st account allowance amount = do
  budget ← ok_or (Dict.lookup allowance.scope st.organization.ai_allowances) denied
  refuse_if (not (budget.epoch == allowance.epoch) || not (same_account budget.account account))
      denied
  left ← ok_or (checked_sub budget.remaining_points amount) denied
  ok (set_allowance st allowance.scope (record budget { remaining_points = left }))

-- A budget of another epoch or account stays as it is.
unfoldable pub refund_budget :
    BudgetAuthorization → PointAccount → ℕ → ℕ → Result BudgetAuthorization
refund_budget budget account epoch amount =
    elim (budget.epoch == epoch && same_account budget.account account) [
      | true ↦ do
        left ← ok_or (checked_add budget.remaining_points amount) capacity
        ok (record budget { remaining_points = left })
      | false ↦ ok budget
    ]

unfoldable pub refund_allowance : EventsState → PointAccount → AiAllowance → ℕ → Result EventsState
unfolding refund_budget
refund_allowance st account allowance amount =
    elim (Dict.lookup allowance.scope st.organization.ai_allowances) [
      | none ↦ ok st
      | some budget ↦ do
        refunded ← refund_budget budget account allowance.epoch amount
        ok (set_allowance st allowance.scope refunded)
    ]

unfoldable pub set_policy : EventsState → Context → ActivityPolicy → Result EventsState
set_policy st ctx policy = do
  refuse_if (not (is_admin ctx)) denied
  refuse_if (policy.daily_member_cap == 0) denied
  ok (record st { organization = record st.organization { activity_policy = some policy } })

-- The policy of a source that is there changes; its window and its day stay.
abbrev pub with_policy : Option OracleSource → OracleSourcePolicy → OracleSource
with_policy none policy = record { config = policy; last_window_end_ms = 0; daily = no_usage }
with_policy (some source) policy = record source { config = policy }

unfoldable pub set_source : EventsState → Context → String → OracleSourcePolicy → Result EventsState
unfolding owns
set_source st ctx id source = do
  refuse_if (not (is_admin ctx)) denied
  validate_identifier id
  for_each validate_identifier
      (source.title ∷ source.club ∷ source.oracle_device ∷ source.service ∷ [])
  refuse_if
      (source.weight_bps == 0
        || ltb 20_000 source.weight_bps
        || source.points_per_slice == 0
        || source.daily_source_cap == 0
        || not (Dict.any (λ _ m. owns m source.oracle_device) ctx.core.members)
        || not (has_club ctx source.club))
      denied
  let old = Dict.lookup id st.organization.oracle_sources
  refuse_if (not (is_some old) && leb max_items (length st.organization.oracle_sources)) capacity
  ok (record st {
    organization = record st.organization {
      oracle_sources = Dict.insert id (with_policy old source) st.organization.oracle_sources;
    };
  })

-- The one who may speak for the scope of a budget.
unfoldable pub check_scope : EventsState → Context → String → Result (Unit {0})
unfolding strip_prefix manage
check_scope st ctx scope = elim (strip_prefix "event:" scope) [
  | some id ↦ do
    event ← ok_or (Dict.lookup id st.events) not_found
    refuse_if (not (manage event ctx)) denied
  | none ↦ elim (strip_prefix "report:" scope) [
    | some id ↦ do
      report ← ok_or (Dict.lookup id st.organization.reports) not_found
      refuse_if (not (club_manager ctx report.club)) denied
    | none ↦ err denied
  ]
]

unfoldable pub authorize_ai : EventsState → Context → String → ℕ → Result EventsState
unfolding check_scope balance
authorize_ai st ctx scope budget = do
  caller ← context_member ctx
  check_scope st ctx scope
  let account : PointAccount = record { club = caller.1.club; member = caller.0 }
  refuse_if (ltb (balance st account) budget) denied
  refuse_if
      (not (Dict.contains scope st.organization.ai_allowances)
        && leb max_records (length st.organization.ai_allowances))
      capacity
  epoch ← ok_or (checked_add ctx.revision 1) capacity
  ok (
      set_allowance st scope
        (record { account = account; epoch = epoch; remaining_points = budget }))
