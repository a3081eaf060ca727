-- ===== src/Prelude/Int.antt =====
-- Signed machine integers: an `i64` is an integer from -2^63 to 2^63 - 1.
use union_core.Prelude.{
  ℕ, suc, ◌+◌, ◌-◌, ◌^◌, ◌≡◌, Option, none, some, Bool, true, ◌&&◌, arith, ltb, leb, if◌then◌else◌,
}

-- `negsuc n` is -(n + 1).
pub data ℤ : Type 0 where
  pos : ℕ → ℤ
  negsuc : ℕ → ℤ

abbrev pub pos_part : ℤ → ℕ
pos_part (pos n) = n
pos_part (negsuc n) = 0

abbrev pub neg_part : ℤ → ℕ
neg_part (pos n) = 0
neg_part (negsuc n) = suc n

-- a - b, as an integer.
abbrev pub sub_ℕ : ℕ → ℕ → ℤ
sub_ℕ a b = if leb b a then pos (a - b) else negsuc (b - a - 1)

infixl 65 ◌+ℤ◌
unfoldable pub ◌+ℤ◌ : ℤ → ℤ → ℤ
a +ℤ b = sub_ℕ (pos_part a + pos_part b) (neg_part a + neg_part b)

abbrev pub ltb_ℤ : ℤ → ℤ → Bool
ltb_ℤ a b = ltb (pos_part a + neg_part b) (pos_part b + neg_part a)

abbrev pub i64_end : ℕ
i64_end = 2 ^ 63

-- The integer fits the machine's word.
abbrev pub fits_i64 : ℤ → Bool
fits_i64 a = ltb (pos_part a) i64_end && leb (neg_part a) i64_end

-- `checked_add` on `i64`
unfoldable pub checked_add_i64 : ℤ → ℤ → Option ℤ
unfolding ◌+ℤ◌
checked_add_i64 a b = if fits_i64 (a +ℤ b) then some (a +ℤ b) else none

pub +ℤ_comm : (a b : ℤ) → a +ℤ b ≡ b +ℤ a
unfolding ◌+ℤ◌
+ℤ_comm a b = ground arith

pub +ℤ_assoc : (a b c : ℤ) → a +ℤ b +ℤ c ≡ a +ℤ (b +ℤ c)
unfolding ◌+ℤ◌
+ℤ_assoc a b c = ground arith

pub +ℤ_zero : (a : ℤ) → a +ℤ pos 0 ≡ a
unfolding ◌+ℤ◌
+ℤ_zero a = ground arith

pub checked_add_i64-some :
    (a b c : ℤ) → checked_add_i64 a b ≡ some c → (c ≡ a +ℤ b) × (fits_i64 c ≡ true)
unfolding checked_add_i64
checked_add_i64-some a b c h = ground arith
