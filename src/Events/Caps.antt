-- ===== src/Events/Caps.antt =====
-- The caps of a day: what an attestation adds to a source and to its players.
use union_core.Prelude.{
  ℕ, ◌+◌, ◌-◌, ◌≤◌, ◌≡◌, inl, inr, refl, subst, arith, min, max, String, some, ◌==◌, text_key, ok,
  try_fold, unwrap_or, [], ◌∷◌, if◌then◌else◌, Option-cases, Result-cases,
}
use union_core.Prelude.Dict
use union_core.Prelude.Dict.{Dict}
use union_core.Prelude.Words.{checked_add, saturating_sub}
use union_core.Governance.State.{Context, Member}
use union_core.Events.Organization.{OracleSourcePolicy, DayUsage, no_usage, ActivityTotals}
use union_core.Events.Points.{usage_at}
use union_core.Events.Attest.{Tally, award, add_usage, raw_points, cell, set_cell}

-- The points that a member has on a day.
unfoldable pub day_points : Dict String DayUsage → String → ℕ → ℕ
unfolding usage_at
day_points members member day =
    (usage_at (unwrap_or no_usage (Dict.lookup member members)) day).points

add_usage-points :
    (u : DayUsage) (points : ℕ) (total : ActivityTotals) (v : DayUsage)
    → add_usage u points total ≡ ok v
    → (v.points ≡ u.points + points) × (v.day_epoch ≡ u.day_epoch)
unfolding add_usage checked_add
add_usage-points u points total v h = (ground arith, ground arith)

-- What one round of the loop does.
pub award_lem :
    (ctx : Context) (config : OracleSourcePolicy) (cap day : ℕ) (t : Tally) (member : String)
    (total : ActivityTotals) (s : Tally)
    → award ctx config cap day t (member, total) ≡ ok s
    → (m : Member) × (points : ℕ) × (used : DayUsage) × (Dict.lookup member ctx.core.members
        ≡ some m)
      × (points ≤ cap - day_points t.members member day)
      × (points ≤ t.remaining)
      × (s.remaining ≡ t.remaining - points)
      × (s.daily.points ≡ t.daily.points + points)
      × (s.members ≡ Dict.insert member used t.members)
      × (used.points ≡ day_points t.members member day + points)
      × (used.day_epoch ≡ day)
      × (s.points ≡ set_cell t.points m.club member (cell t.points m.club member + points))
      × (s.awarded ≡ Dict.insert member points t.awarded)
      × (s.accounts ≡ Dict.insert member m.club t.accounts)
unfolding award day_points usage_at checked_add saturating_sub
award_lem ctx config cap day t member total s h =
    elim (Option-cases (Dict.lookup member ctx.core.members)) [
      | inl none_ ↦ absurd (ground arith)
      | inr (m, is) ↦ elim (Result-cases (raw_points config total)) [
        | inr (e, bad) ↦ absurd (ground arith)
        | inl (raw, weighed) ↦
            let usage = usage_at (unwrap_or no_usage (Dict.lookup member t.members)) day in
            let points = min (min raw (cap - usage.points)) t.remaining in
            elim (Result-cases (add_usage usage points total)) [
              | inr (e, bad) ↦ absurd (ground arith)
              | inl (used, by_member) ↦ elim (Result-cases (add_usage t.daily points total)) [
                | inr (e, bad) ↦ absurd (ground arith)
                | inl (daily, by_source) ↦
                    let a = add_usage-points usage points total used by_member in
                    let b = add_usage-points t.daily points total daily by_source in
                    (
                      m,
                      points,
                      used,
                      is,
                      ground arith,
                      ground arith,
                      ground arith,
                      ground arith,
                      ground arith,
                      ground arith,
                      ground arith,
                      ground arith,
                      ground arith,
                      ground arith,
                    )
              ]
            ]
      ]
    ]

-- What the loop keeps: nobody's points of the day pass the cap, or what they were before.
pub record IsCapped (cap day : ℕ) (before : Tally) (t : Tally) : Type 0 where
  pub members_capped :
      (member : String)
      → day_points t.members member day ≤ max cap (day_points before.members member day)
  pub grown :
      (member : String) → day_points before.members member day ≤ day_points t.members member day
  pub source_capped : t.daily.points + t.remaining ≡ before.daily.points + before.remaining

day_points-insert :
    (members : Dict String DayUsage) (name member : String) (used : DayUsage) (day : ℕ)
    → used.day_epoch ≡ day
    → day_points (Dict.insert name used members) member day
      ≡ (if member == name then used.points else day_points members member day)
unfolding day_points usage_at
day_points-insert members name member used day h =
    ground (arith, Dict.lookup-insert member name used members)

award-IsCapped :
    (ctx : Context) (config : OracleSourcePolicy) (cap day : ℕ) (before t : Tally)
    (p : String × ActivityTotals) (s : Tally)
    → IsCapped cap day before t
    → award ctx config cap day t p ≡ ok s
    → IsCapped cap day before s
award-IsCapped ctx config cap day before t (name, total) s c e =
    let (m, points, used, is, low, room, left, daily, members, by, on, table, awarded, accounts) =
      award_lem ctx config cap day t name total s e in
    record {
      members_capped = λ member.
          let was = c.members_capped member in
          let is_ = day_points-insert t.members name member used day on in ground arith;
      grown = λ member.
          let was = c.grown member in
          let is_ = day_points-insert t.members name member used day on in ground arith;
      source_capped = ground (arith, c.source_capped);
    }

-- The loop keeps what each of its rounds keeps.
pub try_fold-IsCapped :
    (ctx : Context) (config : OracleSourcePolicy) (cap day : ℕ) (before t : Tally)
    (ps : Dict String ActivityTotals) (s : Tally)
    → IsCapped cap day before t
    → try_fold (award ctx config cap day) t ps ≡ ok s
    → IsCapped cap day before s
unfolding try_fold
try_fold-IsCapped ctx config cap day before t [] s c e =
    subst (IsCapped cap day before) (ground arith) c
try_fold-IsCapped ctx config cap day before t (p ∷ ps) s c e =
    elim (Result-cases (award ctx config cap day t p)) [
      | inr (x, bad) ↦ absurd (ground arith)
      | inl (mid, one) ↦
          try_fold-IsCapped ctx config cap day before mid ps s
            (award-IsCapped ctx config cap day before t p mid c one) (ground arith)
    ]

pub IsCapped-refl : (cap day : ℕ) (t : Tally) → IsCapped cap day t t
IsCapped-refl cap day t = record {
  members_capped = λ member. ground arith;
  grown = λ member. ground arith;
  source_capped = refl;
}
