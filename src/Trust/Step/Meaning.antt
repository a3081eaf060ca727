-- ===== src/Trust/Step/Meaning.antt =====
-- The tests of crates/identity/src/trust.rs, and what they say of signers, chairs and verifiers.
use union_core.Prelude.{
  ℕ, String, Bool, true, false, not, ◌≡◌, inl, inr, ◌≤◌, arith, text_key, pair_key, length, ok, [],
  ◌∷◌, any, filter, for_each, is_empty, Option-cases, refl,
}
use union_core.Prelude.Dict
use union_core.Prelude.Dict.{Dict, values}
use union_core.Prelude.Entries
use union_core.Prelude.Set
use union_core.Prelude.Set.{Set, IsDistinct}
use union_core.Protocol.Text.{validate_identifier}
use union_core.Trust.State.{
  TrustState, Verifier, Succession, member_for_device, signed_member, speaks_for, chair, majority,
  voters,
}
use union_core.Trust.Members.{attests}
use union_core.Trust.Chairs.{
  validate_chairs, some_chair_signed, lacks_device, check_candidate, signing_chairs, may_take_chair,
}
use union_core.Trust.Step.Allowed.{
  IsSignedBy, IsSignedByChair, IsSignedByHolder, IsSignedByQuorum, IsAttestedBy, HasDevice, MayTake,
  IsChairs, IsName,
}
use union_core.Trust.Step.Lists.{any-of, filter-IsDistinct, subset-length}

module _ (st : TrustState) (s : Set String) where
  pub signed_member-IsSignedBy : (m : String) → signed_member st m s ≡ true → IsSignedBy st s m
  unfolding signed_member
  signed_member-IsSignedBy m h =
      let (d, c, e) = Set.any-true (speaks_for st m) s h in
      unfold speaks_for member_for_device in (d, c, ground arith, ground arith)

  pub signed_member_of : (m : String) → IsSignedBy st s m → signed_member st m s ≡ true
  unfolding signed_member
  signed_member_of m (d, c, live, owned_) =
      any-of (speaks_for st m) s d c (unfold speaks_for member_for_device in ground arith)

  pub chair-IsSignedByChair : (c : String) → chair st c s ≡ true → IsSignedByChair st s c
  unfolding chair
  chair-IsSignedByChair c h = elim (Option-cases (Dict.lookup c st.chairs)) [
    | inl vacant ↦ absurd (ground arith)
    | inr (m, held) ↦ (m, held, signed_member-IsSignedBy m (ground arith))
  ]

  pub chair_of : (c : String) → IsSignedByChair st s c → chair st c s ≡ true
  unfolding chair
  chair_of c (m, held, signed) = ground (arith, signed_member_of m signed)

  holder-IsSignedByHolder :
      (chairs : Dict String String)
      → any (λ m. signed_member st m s) (values chairs) ≡ true
      → IsSignedByHolder st s chairs
  holder-IsSignedByHolder chairs h =
      let (m, c, e) = Set.any-true (λ m. signed_member st m s) (values chairs) h in
      (m, c, signed_member-IsSignedBy m e)

  holder_of :
      (chairs : Dict String String)
      → IsSignedByHolder st s chairs
      → any (λ m. signed_member st m s) (values chairs) ≡ true
  holder_of chairs (m, c, e) =
      any-of (λ m. signed_member st m s) (values chairs) m c (signed_member_of m e)

  pub some_chair-IsSignedByHolder : some_chair_signed st s ≡ true → IsSignedByHolder st s st.chairs
  unfolding some_chair_signed
  some_chair-IsSignedByHolder h = holder-IsSignedByHolder st.chairs h

  pub some_chair_of : IsSignedByHolder st s st.chairs → some_chair_signed st s ≡ true
  unfolding some_chair_signed
  some_chair_of h = holder_of st.chairs h

  pub signing_chairs-IsSignedByHolder :
      (chairs : Dict String String)
      → is_empty (signing_chairs st chairs s) ≡ false
      → IsSignedByHolder st s chairs
  unfolding signing_chairs
  signing_chairs-IsSignedByHolder chairs h =
      let signed : Set String = filter (λ m. signed_member st m s) (values chairs) in
      let (m, c) = first (Set.collect signed) h in
      let nobody : Set.contains m [] ≡ false = unfold Set.contains in refl in
      let there : Set.contains m signed ≡ true = ground (arith, Set.contains-extend m signed []) in
      let both = Set.contains-filter m (λ m. signed_member st m s) (values chairs) in
      (m, ground arith, signed_member-IsSignedBy m (ground arith))
    where
      first : (xs : Set String) → is_empty xs ≡ false → (x : String) × (Set.contains x xs ≡ true)
      first [] e = absurd (ground arith)
      first (x ∷ xs) e = (x, unfold Set.contains in ground arith)

  pub signing_chairs_of :
      (chairs : Dict String String)
      → IsSignedByHolder st s chairs
      → is_empty (signing_chairs st chairs s) ≡ false
  unfolding signing_chairs
  signing_chairs_of chairs (m, c, e) =
      let signed : Set String = filter (λ m. signed_member st m s) (values chairs) in
      let there : Set.contains m signed ≡ true = ground (
        arith,
        Set.contains-filter m (λ m. signed_member st m s) (values chairs),
        signed_member_of m e,
      ) in
      let listed : Set.contains m (Set.collect signed) ≡ true =
        ground (arith, Set.contains-extend m signed []) in
      filled (Set.collect signed) listed
    where
      filled : (xs : Set String) → Set.contains m xs ≡ true → is_empty xs ≡ false
      filled [] e = absurd (unfold Set.contains in ground arith)
      filled (x ∷ xs) e = refl

  pub majority-IsSignedByQuorum : majority st s ≡ true → IsSignedByQuorum st s
  unfolding majority voters
  majority-IsSignedByQuorum h =
      let holders : Set String = voters st.chairs in
      let signed : String → Bool = λ m. signed_member st m s in
      (
        filter signed holders,
        filter-IsDistinct signed holders (Set.extend-IsDistinct (values st.chairs) [] tt),
        ground arith,
        λ m c.
            let both = Set.contains-filter m signed holders in
            let old = Set.contains-extend m (values st.chairs) [] in
            (unfold Set.contains in ground arith, signed_member-IsSignedBy m (ground arith)),
      )

  pub majority_of : IsSignedByQuorum st s → majority st s ≡ true
  unfolding majority voters
  majority_of (holders, distinct, enough, each) =
      let signed : String → Bool = λ m. signed_member st m s in
      let few : length holders ≤ length (filter signed (voters st.chairs)) =
        subset-length holders (filter signed (voters st.chairs)) distinct (λ m c. ground (
          arith,
          Set.contains-filter m signed (voters st.chairs),
          Set.contains-extend m (values st.chairs) [],
          (each m c).0,
          signed_member_of m (each m c).1,
        )) in
      ground arith

  pub attests-IsAttestedBy :
      (c e : String) (v : Verifier) → attests st c e s v ≡ true → IsAttestedBy st s c e v
  unfolding attests
  attests-IsAttestedBy c e v h = ground arith

  pub attests_of :
      (c e : String) (v : Verifier) → IsAttestedBy st s c e v → attests st c e s v ≡ true
  unfolding attests
  attests_of c e v a = ground (arith, a)

  pub lacks_device-HasDevice : (m : String) → lacks_device st m ≡ false → HasDevice st m
  unfolding lacks_device
  lacks_device-HasDevice m h = elim (Option-cases (Dict.lookup m st.members)) [
    | inl missing ↦ absurd (ground arith)
    | inr ([], found) ↦ absurd (ground arith)
    | inr (d ∷ ds, found) ↦ (d ∷ ds, found, ground arith)
  ]

  pub lacks_device_of : (m : String) → HasDevice st m → lacks_device st m ≡ false
  unfolding lacks_device
  lacks_device_of m ([], found, some_) = absurd (ground arith)
  lacks_device_of m (d ∷ ds, found, some_) = ground arith

  pub candidates-All :
      (chairs : Dict String String)
      → for_each (check_candidate st) chairs ≡ ok tt
      → Entries.All (λ c m. IsName c × HasDevice st m) chairs
  unfolding for_each check_candidate
  candidates-All [] h = tt
  candidates-All ((c, m) ∷ chairs) h = (
    (ground arith, lacks_device-HasDevice m (ground arith)),
    candidates-All chairs (ground arith),
  )

  pub candidates_of :
      (chairs : Dict String String)
      → Entries.All (λ c m. IsName c × HasDevice st m) chairs
      → for_each (check_candidate st) chairs ≡ ok tt
  unfolding for_each check_candidate
  candidates_of [] h = ground arith
  candidates_of ((c, m) ∷ chairs) ((name, device), rest) =
      ground (arith, lacks_device_of m device, candidates_of chairs rest)

  pub may_take_chair-MayTake :
      (p : Succession) (c m : String) → not (may_take_chair st p c m) ≡ false → MayTake st p c m
  unfolding may_take_chair
  may_take_chair-MayTake p c m h = (lacks_device-HasDevice m (ground arith), ground arith)

  pub may_take_chair_of :
      (p : Succession) (c m : String) → MayTake st p c m → not (may_take_chair st p c m) ≡ false
  unfolding may_take_chair
  may_take_chair_of p c m (device, willing) = ground (arith, lacks_device_of m device)

pub validate_chairs-IsChairs :
    (chairs : Dict String String) (q : ℕ) → validate_chairs chairs q ≡ ok tt → IsChairs chairs q
unfolding validate_chairs voters
validate_chairs-IsChairs [] q h = absurd (ground arith)
validate_chairs-IsChairs (c ∷ chairs) q h = ground arith

pub validate_chairs_of :
    (chairs : Dict String String) (q : ℕ) → IsChairs chairs q → validate_chairs chairs q ≡ ok tt
unfolding validate_chairs voters
validate_chairs_of [] q h = absurd (ground arith)
validate_chairs_of (c ∷ chairs) q h = ground arith

pub names-each :
    (xs : Set String)
    → for_each validate_identifier xs ≡ ok tt
    → (x : String) → Set.contains x xs ≡ true
    → IsName x
unfolding for_each Set.contains
names-each [] h x c = absurd (ground arith)
names-each (y ∷ xs) h x c = ground (arith, names-each xs (ground arith) x)

pub names_of :
    (xs : Set String)
    → ((x : String) → Set.contains x xs ≡ true → IsName x)
    → for_each validate_identifier xs ≡ ok tt
unfolding for_each Set.contains
names_of [] f = ground arith
names_of (y ∷ xs) f = ground (arith, f y (ground arith), names_of xs (λ x c. f x (ground arith)))
