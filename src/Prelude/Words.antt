-- ===== src/Prelude/Words.antt =====
-- Machine integers. A `u64` is a natural number below `u64_end`, an `i64` an integer in its range;
-- the checked and the saturating operations of the language's library are written out.
use union_core.Prelude.{
  ℕ, ◌+◌, ◌-◌, ◌*◌, ◌<◌, ◌^◌, ◌≡◌, Option, none, some, arith, ltb, leb, if◌then◌else◌,
}

abbrev pub u64_end : ℕ
u64_end = 2 ^ 64

abbrev pub u64_max : ℕ
u64_max = 2 ^ 64 - 1

unfoldable pub checked_add : ℕ → ℕ → Option ℕ
checked_add a b = if ltb (a + b) u64_end then some (a + b) else none

unfoldable pub checked_mul : ℕ → ℕ → Option ℕ
checked_mul a b = if ltb (a * b) u64_end then some (a * b) else none

unfoldable pub checked_sub : ℕ → ℕ → Option ℕ
checked_sub a b = if leb b a then some (a - b) else none

unfoldable pub saturating_add : ℕ → ℕ → ℕ
saturating_add a b = if ltb (a + b) u64_end then a + b else u64_max

unfoldable pub saturating_mul : ℕ → ℕ → ℕ
saturating_mul a b = if ltb (a * b) u64_end then a * b else u64_max

pub checked_add-some : (a b c : ℕ) → checked_add a b ≡ some c → (c ≡ a + b) × (c < u64_end)
unfolding checked_add
checked_add-some a b c h = ground arith

pub checked_mul-some : (a b c : ℕ) → checked_mul a b ≡ some c → (c ≡ a * b) × (c < u64_end)
unfolding checked_mul
checked_mul-some a b c h = ground arith

pub checked_sub-some : (a b c : ℕ) → checked_sub a b ≡ some c → (c + b ≡ a)
unfolding checked_sub
checked_sub-some a b c h = ground arith

unfoldable pub saturating_sub : ℕ → ℕ → ℕ
saturating_sub a b = a - b
