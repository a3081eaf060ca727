-- ===== src/Prelude/Results.antt =====
-- The errors of crates/protocol/src/error.rs, results, and the rules for postconditions.
use mathlib.Core.Path.{◌≡◌, refl, subst}
use native.Mathlib.Omega.{arith}
use mathlib.Core.Logic.{◌⊎◌, inl, inr}
use mathlib.Core.Bool.{Bool, true, false}
use mathlib.Core.Option.{Option, none, some}
use mathlib.Core.List.{List, [], ◌∷◌}
use Prim.Native.String.{String}

-- `enum Error`; an I/O error carries no data here.
pub data Error : Type 0 where
  io : Error
  identity : String → Error
  protocol : String → Error
  network : String → Error
  timeout stopped authority_unavailable denied not_found capacity : Error

pub data Result {ℓ} (A : Type ℓ) : Type ℓ where
  ok : A → Result A
  err : Error → Result A

infixl 5 ◌>>=◌ ◌>>◌
abbrev pub ◌>>=◌ {ℓ κ} : {A : Type ℓ} {B : Type κ} → Result A → (A → Result B) → Result B
ok a >>= f = f a
err e >>= f = err e

abbrev pub ◌>>◌ {κ} : {B : Type κ} → Result (Unit {0}) → Result B → Result B
m >> k = m >>= λ _. k

-- `if c { return Err(e) }`
abbrev pub refuse_if : Bool → Error → Result (Unit {0})
refuse_if true e = err e
refuse_if false e = ok tt

-- `o.ok_or(e)?`
abbrev pub ok_or {ℓ} : {A : Type ℓ} → Option A → Error → Result A
ok_or none e = err e
ok_or (some a) e = ok a

-- A loop whose body may refuse, and one that carries a state.
unfoldable pub for_each {ℓ} : {A : Type ℓ} → (A → Result (Unit {0})) → List A → Result (Unit {0})
for_each f [] = ok tt
for_each f (x ∷ xs) = f x >> for_each f xs

unfoldable pub try_fold {ℓ κ} :
    {A : Type ℓ} {S : Type κ} → (S → A → Result S) → S → List A → Result S
try_fold f s [] = ok s
try_fold f s (x ∷ xs) = f s x >>= λ t. try_fold f t xs

-- The result, if there is one, has the property.
abbrev pub Ensures {ℓ κ} : {A : Type ℓ} → (A → Type κ) → Result A → Type κ
Ensures P (ok a) = P a
Ensures P (err e) = Unit

module _ {ℓ κ μ} {A : Type ℓ} {B : Type κ} (P : B → Type μ) where
  -- Split a chain at a bind, keeping the equation of its first part.
  pub Ensures-bind :
      (m : Result A) (f : A → Result B)
      → ((a : A) → m ≡ ok a → Ensures P (f a))
      → Ensures P (m >>= f)
  Ensures-bind (ok a) f h = h a refl
  Ensures-bind (err e) f h = tt

  pub Ensures-ok_or :
      (o : Option A) (e : Error) (f : A → Result B)
      → ((a : A) → o ≡ some a → Ensures P (f a))
      → Ensures P (ok_or o e >>= f)
  Ensures-ok_or (some a) e f h = h a refl
  Ensures-ok_or none e f h = tt

module _ {κ μ} {B : Type κ} (P : B → Type μ) where
  -- What follows a refusal runs only where the test fails.
  pub Ensures-refuse_if :
      (c : Bool) (e : Error) (k : Result B)
      → (c ≡ false → Ensures P k)
      → Ensures P (refuse_if c e >> k)
  Ensures-refuse_if true e k h = tt
  Ensures-refuse_if false e k h = h refl

  pub Ensures-then :
      (m : Result (Unit {0})) (k : Result B) → (m ≡ ok tt → Ensures P k) → Ensures P (m >> k)
  Ensures-then (ok tt) k h = h refl
  Ensures-then (err e) k h = tt

  pub Ensures-at : (r : Result B) (b : B) → Ensures P r → r ≡ ok b → P b
  Ensures-at (ok a) b h e = subst P (ground arith) h
  Ensures-at (err x) b h e = absurd (ground arith)

  pub Ensures-of : (r : Result B) → ((b : B) → r ≡ ok b → P b) → Ensures P r
  Ensures-of (ok a) h = h a refl
  Ensures-of (err x) h = tt

-- A property that each round keeps holds after the loop.
pub Ensures-try_fold {ℓ κ μ} :
    {A : Type ℓ} {S : Type κ} (P : S → Type μ) (f : S → A → Result S)
    → ((s : S) (a : A) → P s → Ensures P (f s a))
    → (s : S) (xs : List A) → P s
    → Ensures P (try_fold f s xs)
unfolding try_fold
Ensures-try_fold P f keep s [] h = h
Ensures-try_fold P f keep s (x ∷ xs) h =
    Ensures-bind P (f s x) (λ t. try_fold f t xs)
      λ t e. Ensures-try_fold P f keep t xs (Ensures-at P (f s x) t (keep s x h) e)

pub Result-cases {ℓ} :
    {A : Type ℓ} (r : Result A) → ((a : A) × (r ≡ ok a)) ⊎ ((e : Error) × (r ≡ err e))
Result-cases (ok a) = inl (a, refl)
Result-cases (err e) = inr (e, refl)
