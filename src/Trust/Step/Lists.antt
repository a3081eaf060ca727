-- ===== src/Trust/Step/Lists.antt =====
-- Tests over sets and dictionaries, and what they say of the entries, for crates/identity/src/trust.rs.
use union_core.Prelude.{
  String, Bool, true, false, ◌≡◌, inl, inr, ◌<◌, ◌≤◌, arith, text_key, pair_key, length, [], ◌∷◌,
  any, filter, Bool-cases,
}
use union_core.Prelude.Dict
use union_core.Prelude.Dict.{Dict, values}
use union_core.Prelude.Entries
use union_core.Prelude.Set
use union_core.Prelude.Set.{Set, IsDistinct}
use union_core.Trust.Step.Allowed.{Some}

pub any-of :
    (p : String → Bool) (s : Set String) (x : String)
    → Set.contains x s ≡ true
    → p x ≡ true
    → any p s ≡ true
any-of p s x c h = elim (Bool-cases (any p s)) [
  | inl yes_ ↦ yes_
  | inr no_ ↦ absurd (ground (arith, Set.any-false p s x no_ c))
]

pub any-none :
    (p : String → Bool) (s : Set String)
    → ((x : String) → Set.contains x s ≡ true → p x ≡ false)
    → any p s ≡ false
any-none p s f = elim (Bool-cases (any p s)) [
  | inr no_ ↦ no_
  | inl yes_ ↦ let (x, c, h) = Set.any-true p s yes_ in absurd (ground (arith, f x c))
]

module _ {V : Type 0} (p : String → V → Bool) (P : String → V → Type 0) where
  pub any-Some :
      (m : Dict String V)
      → ((k : String) (v : V) → p k v ≡ true → P k v)
      → Dict.any p m ≡ true
      → Some P m
  unfolding Dict.any
  any-Some [] f h = absurd (ground arith)
  any-Some ((k, v) ∷ m) f h = elim (Bool-cases (p k v)) [
    | inl hit ↦ inl (f k v hit)
    | inr miss ↦ inr (any-Some m f (ground arith))
  ]

  pub Some-any :
      (m : Dict String V)
      → ((k : String) (v : V) → P k v → p k v ≡ true)
      → Some P m
      → Dict.any p m ≡ true
  unfolding Dict.any
  Some-any [] f h = absurd (ground arith)
  Some-any ((k, v) ∷ m) f (inl h) = ground (arith, f k v h)
  Some-any ((k, v) ∷ m) f (inr h) = ground (arith, Some-any m f h)

  pub any-All :
      (m : Dict String V)
      → ((k : String) (v : V) → p k v ≡ false → P k v)
      → Dict.any p m ≡ false
      → Entries.All P m
  unfolding Dict.any
  any-All [] f h = tt
  any-All ((k, v) ∷ m) f h = (f k v (ground arith), any-All m f (ground arith))

  pub All-any :
      (m : Dict String V)
      → ((k : String) (v : V) → P k v → p k v ≡ false)
      → Entries.All P m
      → Dict.any p m ≡ false
  unfolding Dict.any
  All-any [] f h = ground arith
  All-any ((k, v) ∷ m) f (here, rest) = ground (arith, f k v here, All-any m f rest)

pub filter-IsDistinct :
    (p : String → Bool) (s : Set String) → IsDistinct s → IsDistinct (filter p s)
unfolding filter
filter-IsDistinct p [] d = tt
filter-IsDistinct p (x ∷ s) d = ground (arith, filter-IsDistinct p s d.1, Set.contains-filter x p s)

remove-shorter :
    (k : String) (s : Set String) → Set.contains k s ≡ true → length (Set.remove k s) < length s
unfolding Set.contains Set.remove
remove-shorter k [] h = absurd (ground arith)
remove-shorter k (x ∷ s) h = ground (arith, remove-shorter k s, Set.length-remove k s)

-- Distinct elements of a set are no more than the set has.
pub subset-length :
    (xs ys : Set String)
    → IsDistinct xs
    → ((x : String) → Set.contains x xs ≡ true → Set.contains x ys ≡ true)
    → length xs ≤ length ys
unfolding Set.contains
subset-length [] ys d f = omega arith
subset-length (x ∷ xs) ys d f =
    let here : Set.contains x ys ≡ true = f x (ground arith) in
    let rest : length xs ≤ length (Set.remove x ys) =
      subset-length xs (Set.remove x ys) d.1
        (λ y c. ground (arith, f y, Set.contains-remove y x ys)) in
    omega (arith, rest, remove-shorter x ys here)
