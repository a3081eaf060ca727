-- ===== src/Prelude/Keys.antt =====
-- What the ordered maps and sets ask of their keys: a decision of equality and a strict order.
use Prim.Native.Nat.{ℕ, Ordering}
use Prim.Native.String.{String, compare}
use mathlib.Core.Bool.{Bool, true, false, ◌&&◌, ◌||◌}
use mathlib.Core.Logic.{◌⊎◌, ◌≢◌, inl, inr}
use mathlib.Core.List.{List, [], ◌∷◌}
use mathlib.Core.Path.{◌≡◌, refl, sym}
use native.Mathlib.Decide.{ℕ_discrete}
use native.Mathlib.Omega.{arith}
use text.Mathlib.Text.{◌==◌ as str_eq}
use text.Mathlib.TextEquality.{eq_iff}
use union_core.Prelude.Tests.{ltb, Bool-cases}

pub record Key {ℓ} (K : Type ℓ) : Type ℓ where
  pub same : Discrete K
  pub less : K → K → Bool

infix 50 ◌==◌
abbrev pub ◌==◌ {ℓ} : {K : Type ℓ} ⦃o : Key K⦄ → K → K → Bool
◌==◌ ⦃o⦄ a b = elim (o.same a b) [ yes _ ↦ true | no _ ↦ false ]

pub ==_refl {ℓ} : {K : Type ℓ} ⦃o : Key K⦄ (a : K) → (a == a) ≡ true
==_refl a = ground arith

decide_text : (s t : String) → (str_eq s t ≡ true) ⊎ (str_eq s t ≡ false) → Dec (s ≡ t)
decide_text s t (inl h) = yes ((eq_iff s t).0 h)
decide_text s t (inr h) = no (λ e. ground (arith, eq_iff s t))

unfoldable pub String-discrete : Discrete String
unfolding decide_text Bool-cases
String-discrete s t = decide_text s t (Bool-cases (str_eq s t))

-- Texts are ordered by their bytes, as the language orders its strings.
unfoldable pub text_less : String → String → Bool
text_less s t = elim (compare s t) [ Ordering.lt ↦ true | _ ↦ false ]

instance abbrev pub nat_key : Key ℕ
nat_key = record { same = ℕ_discrete; less = ltb }

instance abbrev pub text_key : Key String
text_key = record { same = String-discrete; less = text_less }

decide_pair {ℓ κ} :
    {A : Type ℓ} {B : Type κ} (x y : A × B) → Dec (x.0 ≡ y.0) → Dec (x.1 ≡ y.1) → Dec (x ≡ y)
decide_pair x y (yes p) (yes q) = yes (λ i. (p i, q i))
decide_pair x y (no n) d = no (λ e. n (λ i. (e i).0))
decide_pair x y (yes p) (no n) = no (λ e. n (λ i. (e i).1))

unfoldable pub pair-discrete {ℓ κ} :
    {A : Type ℓ} {B : Type κ} → Discrete A → Discrete B → Discrete (A × B)
unfolding decide_pair
pair-discrete d e x y = decide_pair x y (d x.0 y.0) (e x.1 y.1)

-- Tuples compare lexicographically.
instance abbrev pub pair_key {ℓ κ} : {A : Type ℓ} {B : Type κ} ⦃a : Key A⦄ ⦃b : Key B⦄ → Key (A × B)
pair_key ⦃a⦄ ⦃b⦄ = record {
  same = pair-discrete a.same b.same;
  less = λ x y. a.less x.0 y.0 || (x.0 == y.0 && b.less x.1 y.1);
}

decide_cons {ℓ} :
    {A : Type ℓ} (x y : A) (xs ys : List A) → Dec (x ≡ y) → Dec (xs ≡ ys) → Dec (x ∷ xs ≡ y ∷ ys)
decide_cons x y xs ys (yes p) (yes q) = yes (λ i. p i ∷ q i)
decide_cons x y xs ys (no n) d = no (λ e. n (ground arith))
decide_cons x y xs ys (yes p) (no n) = no (λ e. n (ground arith))

pub nil-ne-cons {ℓ} : {A : Type ℓ} (y : A) (ys : List A) → [] ≢ y ∷ ys
nil-ne-cons y ys e = ground arith

unfoldable pub list-discrete {ℓ} : {A : Type ℓ} → Discrete A → Discrete (List A)
unfolding decide_cons
list-discrete d [] [] = yes refl
list-discrete d [] (y ∷ ys) = no (nil-ne-cons y ys)
list-discrete d (x ∷ xs) [] = no (λ e. nil-ne-cons x xs (sym e))
list-discrete d (x ∷ xs) (y ∷ ys) = decide_cons x y xs ys (d x y) (list-discrete d xs ys)

-- Lists, such as the bytes of a file, compare lexicographically.
unfoldable pub list_less {ℓ} : {A : Type ℓ} ⦃a : Key A⦄ → List A → List A → Bool
list_less [] [] = false
list_less [] (y ∷ ys) = true
list_less (x ∷ xs) [] = false
list_less ⦃a⦄ (x ∷ xs) (y ∷ ys) = a.less x y || (x == y && list_less xs ys)

instance abbrev pub list_key {ℓ} : {A : Type ℓ} ⦃a : Key A⦄ → Key (List A)
list_key ⦃a⦄ = record { same = list-discrete a.same; less = list_less }
