-- ===== src/Prelude/Lists.antt =====
-- Lists measured and indexed by native numbers, under the library's names.
use Prim.Native.Nat.{ℕ, zero, suc, ◌+◌, ◌-◌, ◌≤◌}
use mathlib.Core.Path.{◌≡◌}
use mathlib.Core.List.{List, [], ◌∷◌, ◌++◌}
use mathlib.Core.Option.{Option, none, some}
use mathlib.Core.Bool.{Bool, true, false}
use union_core.Prelude.Tests.{if◌then◌else◌}
use native.Mathlib.Omega.{arith}

module _ {ℓ} {A : Type ℓ} where
  abbrev pub length : List A → ℕ
  length [] = 0
  length (x ∷ xs) = suc (length xs)

  abbrev pub get_elem? : List A → ℕ → Option A
  get_elem? [] i = none
  get_elem? (x ∷ xs) zero = some x
  get_elem? (x ∷ xs) (suc i) = get_elem? xs i

  pub length-append : (xs ys : List A) → length (xs ++ ys) ≡ length xs + length ys
  length-append [] ys = omega arith
  length-append (x ∷ xs) ys = omega (arith, length-append xs ys)

  -- a search in order
  unfoldable pub any : (A → Bool) → List A → Bool
  any p [] = false
  any p (x ∷ xs) = if p x then true else any p xs

  unfoldable pub all : (A → Bool) → List A → Bool
  all p [] = true
  all p (x ∷ xs) = if p x then all p xs else false

  unfoldable pub filter : (A → Bool) → List A → List A
  filter p [] = []
  filter p (x ∷ xs) = if p x then x ∷ filter p xs else filter p xs

  pub length-filter : (p : A → Bool) (xs : List A) → length (filter p xs) ≤ length xs
  unfolding filter
  length-filter p [] = omega arith
  length-filter p (x ∷ xs) = ground (arith, length-filter p xs)

  abbrev pub is_empty : List A → Bool
  is_empty [] = true
  is_empty (x ∷ xs) = false

  abbrev pub is_some : Option A → Bool
  is_some none = false
  is_some (some a) = true

  -- `is_some_and`, `is_none_or` and `unwrap_or` of an option
  abbrev pub is_some_and : (A → Bool) → Option A → Bool
  is_some_and p none = false
  is_some_and p (some a) = p a

  abbrev pub is_none_or : (A → Bool) → Option A → Bool
  is_none_or p none = true
  is_none_or p (some a) = p a

  abbrev pub unwrap_or : A → Option A → A
  unwrap_or d none = d
  unwrap_or d (some a) = a

  abbrev pub take : ℕ → List A → List A
  take zero xs = []
  take (suc n) [] = []
  take (suc n) (x ∷ xs) = x ∷ take n xs

  abbrev pub drop : ℕ → List A → List A
  drop zero xs = xs
  drop (suc n) [] = []
  drop (suc n) (x ∷ xs) = drop n xs

  -- `slice::chunks`; `room` is what the chunk in hand still takes.
  unfoldable pub chunks_from : ℕ → ℕ → List A → List A → List (List A)
  chunks_from n room chunk [] = if is_empty chunk then [] else chunk ∷ []
  chunks_from n zero chunk (x ∷ xs) = chunk ∷ chunks_from n (n - 1) (x ∷ []) xs
  chunks_from n (suc room) chunk (x ∷ xs) = chunks_from n room (chunk ++ x ∷ []) xs

  abbrev pub chunks : ℕ → List A → List (List A)
  chunks n xs = chunks_from n n [] xs
