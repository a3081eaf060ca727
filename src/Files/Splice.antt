-- ===== src/Files/Splice.antt =====
-- Differences between versions of a file: splicing one into its base gives the new bytes.
use mathlib.Core.List.{reverse-append, reverse-reverse}
use union_core.Prelude.{
  ℕ, zero, suc, ◌+◌, ◌-◌, ◌≤◌, ◌<◌, ◌≡◌, refl, sym, ap, ◌∙◌, arith, true, false, nat_key, list_key,
  ok, [], ◌∷◌, ◌++◌, length, length-append, take, drop, reverse, if◌then◌else◌,
}
use union_core.Prelude.Words.{checked_add, u64_end}
use union_core.Protocol.Schema.{Bytes}
use union_core.Protocol.Ipld.{Cid, Encoding}
use union_core.Files.Store.{FileStore, splice, whole_tree, max_file_bytes}
use union_core.Files.Version.{difference, common_prefix}

pub length-take : (n : ℕ) (xs : Bytes) → n ≤ length xs → length (take n xs) ≡ n
length-take zero xs h = refl
length-take (suc n) [] h = absurd (omega arith)
length-take (suc n) (x ∷ xs) h = omega (arith, length-take n xs)

pub length-drop : (n : ℕ) (xs : Bytes) → length (drop n xs) ≡ length xs - n
length-drop zero xs = omega arith
length-drop (suc n) [] = omega arith
length-drop (suc n) (x ∷ xs) = omega (arith, length-drop n xs)

take-drop : (n : ℕ) (xs : Bytes) → take n xs ++ drop n xs ≡ xs
take-drop zero xs = refl
take-drop (suc n) [] = refl
take-drop (suc n) (x ∷ xs) = ap (λ ys. x ∷ ys) (take-drop n xs)

drop-nil : (k : ℕ) → drop {A = ℕ} k [] ≡ []
drop-nil zero = refl
drop-nil (suc k) = refl

drop-drop : (m n k : ℕ) (xs : Bytes) → n + m ≡ k → drop m (drop n xs) ≡ drop k xs
drop-drop m zero k xs e = ap (λ (i : ℕ). drop i xs) (let f : m ≡ k = omega arith in f)
drop-drop m (suc n) k [] e = drop-nil m ∙ sym (drop-nil k)
drop-drop m (suc n) zero (x ∷ xs) e = absurd (omega arith)
drop-drop m (suc n) (suc k) (x ∷ xs) e = drop-drop m n k xs (omega arith)

take-append : (xs ys : Bytes) → take (length xs) (xs ++ ys) ≡ xs
take-append [] ys = refl
take-append (x ∷ xs) ys = ap (λ zs. x ∷ zs) (take-append xs ys)

length-reverse : (xs : Bytes) → length (reverse xs) ≡ length xs
length-reverse [] = refl
length-reverse (x ∷ xs) =
    ap length (reverse-append (x ∷ []) xs)
    ∙ omega (arith, length-append (reverse xs) (x ∷ []), length-reverse xs)

common_prefix-le :
    (xs ys : Bytes) → (common_prefix xs ys ≤ length xs) × (common_prefix xs ys ≤ length ys)
unfolding common_prefix
common_prefix-le [] ys = omega arith
common_prefix-le (x ∷ xs) [] = omega arith
common_prefix-le (x ∷ xs) (y ∷ ys) = ground (arith, common_prefix-le xs ys)

take-common_prefix : (xs ys : Bytes) → take (common_prefix xs ys) xs ≡ take (common_prefix xs ys) ys
unfolding common_prefix
take-common_prefix [] ys = refl
take-common_prefix (x ∷ xs) [] = refl
take-common_prefix (x ∷ xs) (y ∷ ys) =
    elim (nat_key.same x y)
      as (λ d.
        take (if (elim d [ yes _ ↦ true | no _ ↦ false ]) then suc (common_prefix xs ys) else 0)
          (x ∷ xs)
        ≡ take (if (elim d [ yes _ ↦ true | no _ ↦ false ]) then suc (common_prefix xs ys) else 0)
            (y ∷ ys)) [ yes e ↦ ground (arith, take-common_prefix xs ys) | no n ↦ refl ]

-- The last bytes are the first ones from the end.
drop-reverse :
    (s : ℕ) (xs : Bytes) → s ≤ length xs → drop (length xs - s) xs ≡ reverse (take s (reverse xs))
drop-reverse s xs h =
    let front : Bytes = take (length xs - s) xs in
    let back : Bytes = drop (length xs - s) xs in
    let whole : reverse xs ≡ reverse back ++ reverse front =
      ap reverse (sym (take-drop (length xs - s) xs)) ∙ reverse-append front back in
    let size : length (reverse back) ≡ s =
      omega (arith, length-reverse back, length-drop (length xs - s) xs) in
    sym (
      ap (λ ys. reverse (take s ys)) whole
      ∙ ap (λ (n : ℕ). reverse (take n (reverse back ++ reverse front))) (sym size)
      ∙ ap reverse (take-append (reverse back) (reverse front))
      ∙ reverse-reverse back)

module _ (previous bytes : Bytes) where
  abbrev prefix : ℕ
  prefix = common_prefix previous bytes

  abbrev old : Bytes
  old = drop prefix previous

  abbrev new : Bytes
  new = drop prefix bytes

  abbrev suffix : ℕ
  suffix = common_prefix (reverse old) (reverse new)

  sizes :
      (prefix + length old ≡ length previous)
      × (prefix + length new ≡ length bytes)
      × (suffix ≤ length old)
      × (suffix ≤ length new)
  sizes = omega (
    arith,
    common_prefix-le previous bytes,
    common_prefix-le (reverse old) (reverse new),
    length-drop prefix previous,
    length-drop prefix bytes,
    length-reverse old,
    length-reverse new,
  )

  same_suffix : drop (length old - suffix) old ≡ drop (length new - suffix) new
  same_suffix =
      drop-reverse suffix old (omega (arith, sizes))
      ∙ ap reverse (take-common_prefix (reverse old) (reverse new))
      ∙ sym (drop-reverse suffix new (omega (arith, sizes)))

  joined :
      take prefix previous
        ++ (take (length new - suffix) new ++ drop (length previous - suffix) previous)
      ≡ bytes
  joined =
      ap (λ xs. take prefix previous ++ (take (length new - suffix) new ++ xs))
        (sym (
            drop-drop (length old - suffix) prefix (length previous - suffix) previous
              (omega (arith, sizes)))
          ∙ same_suffix)
      ∙ ap (λ xs. take prefix previous ++ xs) (take-drop (length new - suffix) new)
      ∙ ap (λ xs. xs ++ new) (take-common_prefix previous bytes)
      ∙ take-drop prefix bytes

-- What a splice that passes its tests makes.
splice_lem :
    (E : Encoding) (st : FileStore) (base : Bytes) (offset remove : ℕ) (link : Cid)
    (replacement : Bytes) (ending : ℕ)
    → offset + remove ≡ ending
    → ending < u64_end
    → ending ≤ length base
    → offset ≤ ending
    → whole_tree E st link ≡ ok replacement
    → length base - (ending - offset) + length replacement ≤ max_file_bytes
    → splice E st base offset remove link
      ≡ ok (take offset base ++ (replacement ++ drop ending base))
unfolding splice checked_add
splice_lem E st base offset remove link replacement ending e1 e2 e3 e4 e5 e6 = ground arith

-- A version that is stored as its difference reads back: where the base is within the bound for files,
-- the new bytes too, and the inserted bytes read from their tree, the splice gives the new bytes.
pub splice-difference :
    (E : Encoding) (st : FileStore) (previous bytes : Bytes) (link : Cid)
    → length previous ≤ max_file_bytes
    → length bytes ≤ max_file_bytes
    → whole_tree E st link ≡ ok (difference previous bytes).insert
    → splice E st previous
        (difference previous bytes).offset
        (difference previous bytes).remove
        link
      ≡ ok bytes
unfolding difference
splice-difference E st previous bytes link small fits reads =
    let p : ℕ = prefix previous bytes in
    let s : ℕ = suffix previous bytes in
    let kept : length bytes - s - p ≡ length (new previous bytes) - s =
      omega (arith, sizes previous bytes) in
    let ending : p + (length previous - p - s) ≡ length previous - s =
      omega (arith, sizes previous bytes) in
    let inserted : length (take (length (new previous bytes) - s) (new previous bytes))
        ≡ length (new previous bytes) - s =
      length-take (length (new previous bytes) - s) (new previous bytes) (omega arith) in
    splice_lem E st previous p (length previous - p - s) link
      (take (length bytes - s - p) (new previous bytes)) (length previous - s) ending
      (omega (arith, sizes previous bytes)) (omega (arith, sizes previous bytes))
      (omega (arith, sizes previous bytes)) reads
      (rw kept (omega (arith, sizes previous bytes, inserted)))
    ∙ ap (λ xs. ok (take p previous ++ (xs ++ drop (length previous - s) previous)))
        (ap (λ (n : ℕ). take n (new previous bytes)) kept)
    ∙ ap ok (joined previous bytes)
