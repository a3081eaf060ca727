-- ===== src/Prelude/Set.antt =====
-- The ordered set of the language's library, `BTreeSet`: a list that insertion keeps in order.
use union_core.Prelude.Tests.{if◌then◌else◌, Bool-cases}
use union_core.Prelude.Keys.{Key, ◌==◌}
use union_core.Prelude.Lists.{length, any, all, filter}
use Prim.Native.Nat.{suc, ◌≤◌}
use mathlib.Core.Path.{◌≡◌, refl}
use mathlib.Core.Logic.{inl, inr}
use mathlib.Core.Bool.{Bool, true, false, ◌&&◌, ◌||◌}
use mathlib.Core.List.{List, [], ◌∷◌}
use native.Mathlib.Omega.{arith}

abbrev pub Set {ℓ} : Type ℓ → Type ℓ
Set K = List K

module _ {ℓ} {K : Type ℓ} ⦃o : Key K⦄ where
  unfoldable pub contains : K → Set K → Bool
  contains k [] = false
  contains k (x ∷ s) = if k == x then true else contains k s

  unfoldable pub place : K → Set K → Set K
  place k [] = k ∷ []
  place k (x ∷ s) = if o.less k x then k ∷ x ∷ s else x ∷ place k s

  unfoldable pub insert : K → Set K → Set K
  unfolding contains place
  insert k s = if contains k s then s else place k s

  unfoldable pub remove : K → Set K → Set K
  remove k [] = []
  remove k (x ∷ s) = if k == x then remove k s else x ∷ remove k s

  -- `extend`, and `collect` of an iterator
  unfoldable pub extend : List K → Set K → Set K
  unfolding insert
  extend [] s = s
  extend (x ∷ xs) s = extend xs (insert x s)

  abbrev pub collect : List K → Set K
  collect xs = extend xs []

  contains-place :
      (j k : K) (s : Set K) → contains j (place k s) ≡ (if j == k then true else contains j s)
  unfolding contains place
  contains-place j k [] = refl
  contains-place j k (x ∷ s) = ground (arith, contains-place j k s)

  pub contains-insert :
      (j k : K) (s : Set K) → contains j (insert k s) ≡ (if j == k then true else contains j s)
  unfolding insert
  contains-insert j k s = ground (arith, contains-place j k s)

  pub contains-remove :
      (j k : K) (s : Set K) → contains j (remove k s) ≡ (if j == k then false else contains j s)
  unfolding contains remove
  contains-remove j k [] = ground arith
  contains-remove j k (x ∷ s) = ground (arith, contains-remove j k s)

  length-place : (k : K) (s : Set K) → length (place k s) ≡ suc (length s)
  unfolding place
  length-place k [] = refl
  length-place k (x ∷ s) = ground (arith, length-place k s)

  pub length-insert :
      (k : K) (s : Set K)
      → length (insert k s) ≡ (if contains k s then length s else suc (length s))
  unfolding insert
  length-insert k s = ground (arith, length-place k s)

  pub length-remove : (k : K) (s : Set K) → length (remove k s) ≤ length s
  unfolding remove
  length-remove k [] = omega arith
  length-remove k (x ∷ s) = ground (arith, length-remove k s)

  pub contains-extend :
      (j : K) (xs : List K) (s : Set K) → contains j (extend xs s) ≡ (contains j xs || contains j s)
  unfolding contains extend
  contains-extend j [] s = refl
  contains-extend j (x ∷ xs) s =
      ground (arith, contains-insert j x s, contains-extend j xs (insert x s))

  pub contains-filter :
      (j : K) (p : K → Bool) (s : Set K) → contains j (filter p s) ≡ (p j && contains j s)
  unfolding contains filter
  contains-filter j p [] = ground arith
  contains-filter j p (x ∷ s) = ground (arith, contains-filter j p s)

  -- A test that some member passes names that member.
  pub any-true :
      (p : K → Bool) (s : Set K) → any p s ≡ true → (x : K) × (contains x s ≡ true) × (p x ≡ true)
  unfolding any contains
  any-true p [] h = ground arith
  any-true p (x ∷ s) h = elim (Bool-cases (p x)) [
    | inl hit ↦ (x, ground arith, hit)
    | inr miss ↦ let (y, c, e) = any-true p s (ground arith) in (y, ground arith, e)
  ]

  pub any-false :
      (p : K → Bool) (s : Set K) (x : K) → any p s ≡ false → contains x s ≡ true → p x ≡ false
  unfolding any contains
  any-false p [] x h e = ground arith
  any-false p (y ∷ s) x h e = ground (arith, any-false p s x)

  pub all-true :
      (p : K → Bool) (s : Set K) (x : K) → all p s ≡ true → contains x s ≡ true → p x ≡ true
  unfolding all contains
  all-true p [] x h e = ground arith
  all-true p (y ∷ s) x h e = ground (arith, all-true p s x)

module _ {ℓ} {K : Type ℓ} ⦃o : Key K⦄ where
  -- No element is listed twice.
  abbrev pub IsDistinct : Set K → Type ℓ
  IsDistinct [] = Unit
  IsDistinct (x ∷ s) = (contains x s ≡ false) × IsDistinct s

  place-IsDistinct :
      (k : K) (s : Set K) → contains k s ≡ false → IsDistinct s → IsDistinct (place k s)
  unfolding place contains
  place-IsDistinct k [] h d = (refl, tt)
  place-IsDistinct k (x ∷ s) h d = ground (arith, place-IsDistinct k s, contains-place x k s)

  pub insert-IsDistinct : (k : K) (s : Set K) → IsDistinct s → IsDistinct (insert k s)
  unfolding insert
  insert-IsDistinct k s d = ground (arith, place-IsDistinct k s)

  pub remove-IsDistinct : (k : K) (s : Set K) → IsDistinct s → IsDistinct (remove k s)
  unfolding remove
  remove-IsDistinct k [] d = tt
  remove-IsDistinct k (x ∷ s) d = ground (arith, remove-IsDistinct k s, contains-remove x k s)

  pub extend-IsDistinct : (xs : List K) (s : Set K) → IsDistinct s → IsDistinct (extend xs s)
  unfolding extend
  extend-IsDistinct [] s d = d
  extend-IsDistinct (x ∷ xs) s d = extend-IsDistinct xs (insert x s) (insert-IsDistinct x s d)
