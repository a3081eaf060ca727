-- ===== src/Prelude/Dict.antt =====
-- The ordered map of the language's library, `BTreeMap`: a list of entries that insertion keeps in
-- the order of the keys, so that iteration runs in that order.
use union_core.Prelude.Tests.{if◌then◌else◌}
use union_core.Prelude.Keys.{Key, ◌==◌}
use union_core.Prelude.Lists.{length}
use Prim.Native.Nat.{suc}
use mathlib.Core.Path.{◌≡◌, refl}
use mathlib.Core.Logic.{◌⊎◌}
use mathlib.Core.Bool.{Bool, true, false}
use mathlib.Core.Option.{Option, none, some}
use mathlib.Core.List.{List, [], ◌∷◌}
use native.Mathlib.Omega.{arith}

abbrev pub Dict {ℓ κ} : Type ℓ → Type κ → Type (ℓ ⊔ κ)
Dict K V = List (K × V)

module _ {ℓ κ} {K : Type ℓ} {V : Type κ} where
  -- `keys` and `values`, in the order of the keys
  unfoldable pub keys : Dict K V → List K
  keys [] = []
  keys ((k, v) ∷ m) = k ∷ keys m

  unfoldable pub values : Dict K V → List V
  values [] = []
  values ((k, v) ∷ m) = v ∷ values m

  -- `iter().find`
  unfoldable pub find : (K → V → Bool) → Dict K V → Option (K × V)
  find p [] = none
  find p ((k, v) ∷ m) = if p k v then some (k, v) else find p m

  -- `iter().any`
  unfoldable pub any : (K → V → Bool) → Dict K V → Bool
  any p [] = false
  any p ((k, v) ∷ m) = if p k v then true else any p m

  -- `retain`
  unfoldable pub retain : (K → V → Bool) → Dict K V → Dict K V
  retain p [] = []
  retain p ((k, v) ∷ m) = if p k v then (k, v) ∷ retain p m else retain p m

  -- a change of every value in place
  unfoldable pub map_values {μ} : {W : Type μ} → (K → V → W) → Dict K V → Dict K W
  map_values f [] = []
  map_values f ((k, v) ∷ m) = (k, f k v) ∷ map_values f m

module _ {ℓ κ} {K : Type ℓ} {V : Type κ} ⦃o : Key K⦄ where
  -- `get`
  unfoldable pub lookup : K → Dict K V → Option V
  lookup k [] = none
  lookup k ((j, v) ∷ m) = if k == j then some v else lookup k m

  -- `contains_key`
  abbrev pub contains : K → Dict K V → Bool
  contains k m = elim (lookup k m) [ none ↦ false | some _ ↦ true ]

  unfoldable pub replace : K → V → Dict K V → Dict K V
  replace k v [] = []
  replace k v ((j, w) ∷ m) = if k == j then (j, v) ∷ m else (j, w) ∷ replace k v m

  unfoldable pub place : K → V → Dict K V → Dict K V
  place k v [] = (k, v) ∷ []
  place k v ((j, w) ∷ m) = if o.less k j then (k, v) ∷ (j, w) ∷ m else (j, w) ∷ place k v m

  unfoldable pub insert : K → V → Dict K V → Dict K V
  unfolding place replace lookup
  insert k v m = if contains k m then replace k v m else place k v m

  unfoldable pub remove : K → Dict K V → Dict K V
  remove k [] = []
  remove k ((j, v) ∷ m) = if k == j then remove k m else (j, v) ∷ remove k m

  lookup-replace :
      (j k : K) (v : V) (m : Dict K V)
      → contains k m ≡ true
      → lookup j (replace k v m) ≡ (if j == k then some v else lookup j m)
  unfolding lookup replace
  lookup-replace j k v [] h = ground arith
  lookup-replace j k v ((i, w) ∷ m) h = ground (arith, lookup-replace j k v m)

  lookup-place :
      (j k : K) (v : V) (m : Dict K V)
      → contains k m ≡ false
      → lookup j (place k v m) ≡ (if j == k then some v else lookup j m)
  unfolding lookup place
  lookup-place j k v [] h = ground arith
  lookup-place j k v ((i, w) ∷ m) h = ground (arith, lookup-place j k v m)

  pub lookup-insert :
      (j k : K) (v : V) (m : Dict K V)
      → lookup j (insert k v m) ≡ (if j == k then some v else lookup j m)
  unfolding insert
  lookup-insert j k v m = ground (arith, lookup-place j k v m, lookup-replace j k v m)

  -- What is found after an insertion is the new value, or was there before.
  pub found-insert :
      (j k : K) (v w : V) (m : Dict K V)
      → lookup j (insert k v m) ≡ some w
      → ((j ≡ k) × (w ≡ v)) ⊎ (lookup j m ≡ some w)
  found-insert j k v w m h = ground (arith, lookup-insert j k v m)

  pub lookup-remove :
      (j k : K) (m : Dict K V) → lookup j (remove k m) ≡ (if j == k then none else lookup j m)
  unfolding lookup remove
  lookup-remove j k [] = ground arith
  lookup-remove j k ((i, w) ∷ m) = ground (arith, lookup-remove j k m)

  pub contains-insert :
      (j k : K) (v : V) (m : Dict K V)
      → contains j (insert k v m) ≡ (if j == k then true else contains j m)
  contains-insert j k v m = ground (arith, lookup-insert j k v m)

  length-replace : (k : K) (v : V) (m : Dict K V) → length (replace k v m) ≡ length m
  unfolding replace
  length-replace k v [] = refl
  length-replace k v ((j, w) ∷ m) = ground (arith, length-replace k v m)

  length-place : (k : K) (v : V) (m : Dict K V) → length (place k v m) ≡ suc (length m)
  unfolding place
  length-place k v [] = refl
  length-place k v ((j, w) ∷ m) = ground (arith, length-place k v m)

  pub length-insert :
      (k : K) (v : V) (m : Dict K V)
      → length (insert k v m) ≡ (if contains k m then length m else suc (length m))
  unfolding insert
  length-insert k v m = ground (arith, length-replace k v m, length-place k v m)

  -- What a search finds passes its test, and a search that fails passes over every entry.
  pub find-some :
      (p : K → V → Bool) (m : Dict K V) (e : K × V) → find p m ≡ some e → p e.0 e.1 ≡ true
  unfolding find
  find-some p [] e h = ground arith
  find-some p ((k, v) ∷ m) e h = ground (arith, find-some p m e)

  pub find-none :
      (p : K → V → Bool) (m : Dict K V) (k : K) (v : V)
      → find p m ≡ none
      → lookup k m ≡ some v
      → p k v ≡ false
  unfolding find lookup
  find-none p [] k v h e = ground arith
  find-none p ((j, w) ∷ m) k v h e = ground (arith, find-none p m k v)

  any-replace :
      (p : K → V → Bool) (k : K) (v : V) (m : Dict K V)
      → any p (replace k v m) ≡ true
      → (p k v ≡ true) ⊎ (any p m ≡ true)
  unfolding any replace
  any-replace p k v [] h = ground arith
  any-replace p k v ((j, w) ∷ m) h = ground (arith, any-replace p k v m)

  any-place :
      (p : K → V → Bool) (k : K) (v : V) (m : Dict K V)
      → any p (place k v m) ≡ true
      → (p k v ≡ true) ⊎ (any p m ≡ true)
  unfolding any place
  any-place p k v [] h = ground arith
  any-place p k v ((j, w) ∷ m) h = ground (arith, any-place p k v m)

  -- What passes after an insertion is the new entry, or passed before.
  pub any-insert :
      (p : K → V → Bool) (k : K) (v : V) (m : Dict K V)
      → any p (insert k v m) ≡ true
      → (p k v ≡ true) ⊎ (any p m ≡ true)
  unfolding insert
  any-insert p k v m h = ground (arith, any-place p k v m, any-replace p k v m)

  pub any-false :
      (p : K → V → Bool) (m : Dict K V) (k : K) (v : V)
      → any p m ≡ false
      → lookup k m ≡ some v
      → p k v ≡ false
  unfolding any lookup
  any-false p [] k v h e = ground arith
  any-false p ((j, w) ∷ m) k v h e = ground (arith, any-false p m k v)

module _ {ℓ κ μ} {K : Type ℓ} {V : Type κ} {W : Type μ} ⦃o : Key K⦄ where
  pub lookup-map_values :
      (f : K → V → W) (j : K) (m : Dict K V)
      → lookup j (map_values f m) ≡ elim (lookup j m) [ none ↦ none | some v ↦ some (f j v) ]
  unfolding lookup map_values
  lookup-map_values f j [] = refl
  lookup-map_values f j ((i, w) ∷ m) = ground (arith, lookup-map_values f j m)
