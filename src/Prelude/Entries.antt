-- ===== src/Prelude/Entries.antt =====
-- Properties of every entry of a dictionary, and dictionaries with distinct keys.
use mathlib.Core.Bool.{Bool, true, false}
use mathlib.Core.List.{[], ◌∷◌}
use mathlib.Core.Logic.{inl, inr}
use mathlib.Core.Option.{some}
use mathlib.Core.Path.{◌≡◌, refl, subst}
use native.Mathlib.Omega.{arith}
use union_core.Prelude.Dict.{Dict, find, lookup, contains, replace, place, insert}
use union_core.Prelude.Keys.{Key, ◌==◌}
use union_core.Prelude.Tests.{if◌then◌else◌, Bool-cases}

-- A property of every entry, and of the keys that no two entries share one.
abbrev pub All {ℓ κ μ} : {K : Type ℓ} {V : Type κ} → (K → V → Type μ) → Dict K V → Type μ
All P [] = Unit
All P ((k, v) ∷ m) = P k v × All P m

module _ {ℓ κ μ ν} {K : Type ℓ} {V : Type κ} (P : K → V → Type μ) (Q : K → V → Type ν) where
  pub All-map : (m : Dict K V) → ((k : K) (v : V) → P k v → Q k v) → All P m → All Q m
  All-map [] f a = tt
  All-map ((k, v) ∷ m) f a = (f k v a.0, All-map m f a.1)

module _ {ℓ κ μ} {K : Type ℓ} {V : Type κ} (P : K → V → Type μ) where
  pub All-find :
      (p : K → V → Bool) (m : Dict K V) (e : K × V) → All P m → find p m ≡ some e → P e.0 e.1
  unfolding find
  All-find p [] e a h = absurd (ground arith)
  All-find p ((k, v) ∷ m) e a h = elim (Bool-cases (p k v)) [
    | inl hit ↦ let here : (k, v) ≡ e = ground arith in subst (λ (x : K × V). P x.0 x.1) here a.0
    | inr miss ↦ All-find p m e a.1 (ground arith)
  ]

module _ {ℓ κ μ} {K : Type ℓ} {V : Type κ} ⦃o : Key K⦄ (P : K → V → Type μ) where
  All-replace : (k : K) (v : V) (m : Dict K V) → P k v → All P m → All P (replace k v m)
  unfolding replace
  All-replace k v [] h a = tt
  All-replace k v ((j, w) ∷ m) h a =
      elim (o.same k j)
        as (λ d. All P (
          if (elim d [ yes _ ↦ true | no _ ↦ false ])
          then (j, v) ∷ m
          else (j, w) ∷ replace k v m)) [
            | yes e ↦ (subst (λ i. P i v) e h, a.1)
            | no n ↦ (a.0, All-replace k v m h a.1)
          ]

  All-place : (k : K) (v : V) (m : Dict K V) → P k v → All P m → All P (place k v m)
  unfolding place
  All-place k v [] h a = (h, tt)
  All-place k v ((j, w) ∷ m) h a =
      elim (o.less k j) as (λ b. All P (if b then (k, v) ∷ (j, w) ∷ m else (j, w) ∷ place k v m)) [
        | true ↦ (h, a)
        | false ↦ (a.0, All-place k v m h a.1)
      ]

  pub All-insert : (k : K) (v : V) (m : Dict K V) → P k v → All P m → All P (insert k v m)
  unfolding insert
  All-insert k v m h a =
      elim (contains k m) as (λ b. All P (if b then replace k v m else place k v m)) [
        | true ↦ All-replace k v m h a
        | false ↦ All-place k v m h a
      ]

module _ {ℓ κ} {K : Type ℓ} {V : Type κ} ⦃o : Key K⦄ where
  pub All-at {μ} :
      (P : K → V → Type μ) (k : K) (v : V) (m : Dict K V) → All P m → lookup k m ≡ some v → P k v
  unfolding lookup
  All-at P k v [] a h = absurd (ground arith)
  All-at P k v ((j, w) ∷ m) a h = elim (o.same k j) [
    | yes e ↦ let same : (j, w) ≡ (k, v) = ground arith in subst (λ (x : K × V). P x.0 x.1) same a.0
    | no n ↦ All-at P k v m a.1 (ground arith)
  ]

  abbrev pub IsDistinct : Dict K V → Type 0
  IsDistinct [] = Unit
  IsDistinct ((k, v) ∷ m) = (contains k m ≡ false) × IsDistinct m

  contains-replace : (j k : K) (v : V) (m : Dict K V) → contains j (replace k v m) ≡ contains j m
  unfolding lookup replace
  contains-replace j k v [] = refl
  contains-replace j k v ((i, w) ∷ m) = ground (arith, contains-replace j k v m)

  contains-place :
      (j k : K) (v : V) (m : Dict K V)
      → contains j (place k v m) ≡ (if j == k then true else contains j m)
  unfolding lookup place
  contains-place j k v [] = ground arith
  contains-place j k v ((i, w) ∷ m) = ground (arith, contains-place j k v m)

  replace-IsDistinct : (k : K) (v : V) (m : Dict K V) → IsDistinct m → IsDistinct (replace k v m)
  unfolding replace
  replace-IsDistinct k v [] d = tt
  replace-IsDistinct k v ((j, w) ∷ m) d =
      ground (arith, replace-IsDistinct k v m, contains-replace j k v m)

  place-IsDistinct :
      (k : K) (v : V) (m : Dict K V)
      → contains k m ≡ false
      → IsDistinct m
      → IsDistinct (place k v m)
  unfolding place lookup
  place-IsDistinct k v [] h d = (refl, tt)
  place-IsDistinct k v ((j, w) ∷ m) h d =
      ground (arith, place-IsDistinct k v m, contains-place j k v m)

  pub insert-IsDistinct : (k : K) (v : V) (m : Dict K V) → IsDistinct m → IsDistinct (insert k v m)
  unfolding insert
  insert-IsDistinct k v m d = elim (Bool-cases (contains k m)) [
    | inl old ↦ rw old (replace-IsDistinct k v m d)
    | inr new ↦ rw new (place-IsDistinct k v m new d)
  ]

  -- With distinct keys every entry is the one that a lookup finds.
  pub All-lookup : (m : Dict K V) → IsDistinct m → All (λ k v. lookup k m ≡ some v) m
  unfolding lookup
  All-lookup [] d = tt
  All-lookup ((j, w) ∷ m) d = (
    ground arith,
    All-map (λ k v. lookup k m ≡ some v) (λ k v. lookup k ((j, w) ∷ m) ≡ some v) m
        (λ k v e. ground arith) (All-lookup m d.1),
  )
