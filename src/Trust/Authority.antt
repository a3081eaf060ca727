-- ===== src/Trust/Authority.antt =====
-- Whose signature each change of crates/identity/src/trust.rs needs, read off the steps.
use union_core.Prelude.{
  String, Bool, true, false, not, ◌≡◌, ◌≤◌, ◌&&◌, ◌⊎◌, inl, inr, ◌==◌, if◌then◌else◌, subst, ◌∙◌,
  refl, text_key, pair_key, arith, length, Option, some, ok, Bool-cases,
}
use union_core.Prelude.Dict
use union_core.Prelude.Set
use union_core.Prelude.Set.{Set, IsDistinct}
use union_core.Protocol.Schema.{TrustAction}
use union_core.Trust.State.{
  TrustState, Succession, Service, chair, signed_member, permits_member, grants,
}
use union_core.Trust.Chairs.{may_take_chair}
use union_core.Trust.Log.{transition}
use union_core.Trust.Invariant.Approvals.{HasBacking, IsBacked}
use union_core.Trust.Step.{
  Step, IsOpen, Acts, owned, Confirms, Introduces, known, binding, confirmed, expelled,
  device_added, device_revoked, succession_executed, service_registered, permission_granted,
  permission_revoked,
}
use union_core.Trust.Step.Next.{next_lem}
use union_core.Trust.Step.Sound.{transition-Step}

-- The action confirms this membership, with the right to do so.
abbrev pub ConfirmedBy : TrustState → TrustAction → Set String → String → String → Type 0
ConfirmedBy st a s m c =
    (d : Option String) × (e : String) × (v : Option String) × (a
      ≡ TrustAction.confirm_member m c d e v)
    × Confirms st m c e v s

introduced-memberships :
    {parses : String → Bool} {st : TrustState} {s : Set String} {m : String} {d : Option String}
    {t : TrustState}
    → Introduces parses st m s d t
    → t.memberships ≡ st.memberships
introduced-memberships (known h e) = ground arith
introduced-memberships (binding d h k b e) = ground arith

-- A step adds a membership only by its confirmation.
membership_authority :
    {parses : String → Bool} {st : TrustState} {s : Set String} {a : TrustAction} {t : TrustState}
    (m c : String)
    → Step parses st s a t
    → Set.contains (m, c) t.memberships ≡ true
    → Set.contains (m, c) st.memberships ≡ false
    → ConfirmedBy st a s m c
membership_authority {st = st} {s = s} {a = a} m c (confirmed n b d e v u h1 h2 h3 h4 i h6 h7) new
      old =
    subst (λ (p : String × String). ConfirmedBy st (TrustAction.confirm_member n b d e v) s p.0 p.1)
      {x = (n, b)} {y = (m, c)}
      (ground (arith, Set.contains-insert (m, c) (n, b) u.memberships, introduced-memberships i))
      (d, e, v, refl, h4)
membership_authority {st = st} m c (expelled n b h1 h2 e) new old =
    absurd (ground (arith, Set.contains-remove (m, c) (n, b) st.memberships))
membership_authority m c step new old = absurd (ground (arith, next_lem step))

-- A step ends a membership only with the signature of the club's chair.
expulsion_authority :
    {parses : String → Bool} {st : TrustState} {s : Set String} {a : TrustAction} {t : TrustState}
    (m c : String)
    → Step parses st s a t
    → Set.contains (m, c) st.memberships ≡ true
    → Set.contains (m, c) t.memberships ≡ false
    → chair st c s ≡ true
expulsion_authority m c (confirmed n b d e v u h1 h2 h3 h4 i h6 h7) old new =
    absurd
      (ground (arith, Set.contains-insert (m, c) (n, b) u.memberships, introduced-memberships i))
expulsion_authority {st = st} m c (expelled n b h1 h2 e) old new =
    ground (arith, Set.contains-remove (m, c) (n, b) st.memberships)
expulsion_authority m c step old new = absurd (ground (arith, next_lem step))

-- An accepted action leaves a membership as it is, or adds it by confirming it, on the word of the
-- club's chair or of a verifier that the club trusts, or ends it with the chair's signature.
pub transition-membership :
    (parses : String → Bool) (st : TrustState) (a : TrustAction) (s : Set String) (t : TrustState)
    (m c : String)
    → transition parses st a s ≡ ok t
    → (Set.contains (m, c) t.memberships ≡ Set.contains (m, c) st.memberships)
      ⊎ ((Set.contains (m, c) t.memberships ≡ true) × ConfirmedBy st a s m c)
      ⊎ ((Set.contains (m, c) t.memberships ≡ false) × (chair st c s ≡ true))
transition-membership parses st a s t m c h =
    let step = (transition-Step parses st s a t h).0 in
    elim (Bool-cases (Set.contains (m, c) st.memberships)) [
      | inl old ↦ elim (Bool-cases (Set.contains (m, c) t.memberships)) [
        | inl new ↦ inl (ground arith)
        | inr gone ↦ inr (inr (gone, expulsion_authority m c step old gone))
      ]
      | inr old ↦ elim (Bool-cases (Set.contains (m, c) t.memberships)) [
        | inl new ↦ inr (inl (new, membership_authority m c step new old))
        | inr gone ↦ inl (ground arith)
      ]
    ]

introduced-devices :
    {parses : String → Bool} {st : TrustState} {s : Set String} {n : String} {d : Option String}
    {t : TrustState} (m e : String)
    → Introduces parses st n s d t
    → Set.contains e (owned t m) ≡ true
    → Set.contains e (owned st m) ≡ false
    → (Set.contains e s ≡ true)
      × ((Dict.contains m st.members ≡ false) ⊎ (signed_member st m s ≡ true))
introduced-devices m e (known h q) new old = absurd (ground arith)
introduced-devices {st = st} {n = n} m e (binding d h k b q) new old = ground (
  arith,
  Dict.lookup-insert m n (Set.insert d (owned st n)) st.members,
  Set.contains-insert e d (owned st n),
)

-- A device joins a member only if it signed itself, beside a device of that member or the majority of
-- the chairs; or the member is new.
pub device_authority :
    {parses : String → Bool} {st : TrustState} {s : Set String} {a : TrustAction} {t : TrustState}
    (m e : String)
    → Step parses st s a t
    → Set.contains e (owned t m) ≡ true
    → Set.contains e (owned st m) ≡ false
    → (Set.contains e s ≡ true) × ((Dict.contains m st.members ≡ false) ⊎ Acts st m s)
device_authority m e (confirmed n b d x v u h1 h2 h3 h4 i h6 h7) new old =
    ground (arith, introduced-devices m e i (ground arith) old)
device_authority {st = st} m e (device_added n d h1 h2 h3 b q) new old = ground (
  arith,
  Dict.lookup-insert m n (Set.insert d (owned st n)) st.members,
  Set.contains-insert e d (owned st n),
)
device_authority {st = st} m e (device_revoked n d ds h1 h2 h3 q) new old = absurd (
    ground (arith, Dict.lookup-insert m n (Set.remove d ds) st.members, Set.contains-remove e d ds))
device_authority m e step new old = absurd (ground (arith, next_lem step))

-- An accepted action attaches no device to a member but one that signed it, and to a member that is
-- known only beside a signature of that member's devices or of the majority of the chairs.
pub transition-devices :
    (parses : String → Bool) (st : TrustState) (a : TrustAction) (s : Set String) (t : TrustState)
    (m e : String)
    → transition parses st a s ≡ ok t
    → Set.contains e (owned t m) ≡ true
    → (Set.contains e (owned st m) ≡ true)
      ⊎ ((Set.contains e s ≡ true) × ((Dict.contains m st.members ≡ false) ⊎ Acts st m s))
transition-devices parses st a s t m e h new = elim (Bool-cases (Set.contains e (owned st m))) [
  | inl old ↦ inl old
  | inr old ↦ inr (device_authority m e (transition-Step parses st s a t h).0 new old)
]

-- A change of the chairs carries out an open proposal that present holders, as many distinct ones as
-- the quorum asks, have approved; whoever takes a chair held it before or accepted it.
pub record Succeeds (st t : TrustState) : Type 0 where
  pub id : String
  pub proposal : Succession
  pub pending : IsOpen st id proposal
  pub enough : st.quorum ≤ length proposal.approvals
  pub distinct : IsDistinct proposal.approvals
  pub backing : IsBacked st.chairs proposal
  pub result : t.chairs ≡ proposal.chairs
  pub quorum : t.quorum ≡ proposal.quorum
  pub willing :
      (c m : String)
      → Dict.lookup c t.chairs ≡ some m
      → (Dict.lookup c st.chairs ≡ some m) ⊎ (Set.contains m proposal.accepted ≡ true)

chairs_authority :
    {parses : String → Bool} {st : TrustState} {s : Set String} {a : TrustAction} {t : TrustState}
    → HasBacking st
    → Step parses st s a t
    → ((t.chairs ≡ st.chairs) × (t.quorum ≡ st.quorum)) ⊎ Succeeds st t
unfolding may_take_chair
chairs_authority o (confirmed m c d e v u h1 h2 h3 h4 (known h q) h6 h7) = inl (ground arith)
chairs_authority o (confirmed m c d e v u h1 h2 h3 h4 (binding x h k b q) h6 h7) =
    inl (ground arith)
chairs_authority {st = st} o (succession_executed i p n w h1 h2 h3 h4 e) = inr (record {
  id = i;
  proposal = p;
  pending = w;
  enough = h1;
  distinct = o.counted_once i p w.proposed;
  backing = o.backed i p w.proposed w.undecided w.current;
  result = ground arith;
  quorum = ground arith;
  willing = λ c m l. ground (
    arith,
    Dict.any-false (λ club member. not (may_take_chair st p club member)) p.chairs c m h3,
  );
})
chairs_authority o step = inl (ground (arith, next_lem step))

-- In a state whose proposals are backed, an accepted action keeps the chairs and the quorum, or
-- carries out an open proposal of the present epoch. That proposal has at least as many approvals as
-- the quorum asks, each of a present chair holder and none counted twice, and whoever takes a chair
-- held that chair before or has accepted.
pub transition-chairs :
    (parses : String → Bool) (st : TrustState) (a : TrustAction) (s : Set String) (t : TrustState)
    → HasBacking st
    → transition parses st a s ≡ ok t
    → ((t.chairs ≡ st.chairs) × (t.quorum ≡ st.quorum)) ⊎ Succeeds st t
transition-chairs parses st a s t o h = chairs_authority o (transition-Step parses st s a t h).0

-- A permission that a step adds is granted by the chair of the club behind the service.
grant_authority :
    {parses : String → Bool} {st : TrustState} {s : Set String} {a : TrustAction} {t : TrustState}
    (m v p : String)
    → Step parses st s a t
    → Dict.any (λ _ q. grants m v p q) t.permissions ≡ true
    → Dict.any (λ _ q. grants m v p q) st.permissions ≡ false
    → (w : Service) × (Dict.lookup v st.services ≡ some w) × (chair st w.club s ≡ true)
unfolding grants
grant_authority {st = st} m v p (confirmed n c d e x u h1 h2 h3 h4 (known h q) h6 h7) new old =
    absurd (ground arith)
grant_authority {st = st} m v p (confirmed n c d e x u h1 h2 h3 h4 (binding y h k b q) h6 h7) new
      old =
    absurd (ground arith)
grant_authority {st = st} m v p (permission_granted i n x q w h1 h2 h3 h4 h5 h6 h7 e) new old =
    (w, ground (arith, fresh), h4)
  where
    fresh :
        (((not false && n == m) && x == v) && q == p ≡ true)
        ⊎ (Dict.any (λ _ r. grants m v p r) st.permissions ≡ true)
    fresh =
        Dict.any-insert (λ _ r. grants m v p r) i
          (record { member = n; service = x; permission = q; revoked = false }) st.permissions
          (ground arith)
grant_authority {st = st} m v p (permission_revoked i q w h1 h2 h3 e) new old =
    absurd (ground (arith, fresh))
  where
    fresh : (false ≡ true) ⊎ (Dict.any (λ _ r. grants m v p r) st.permissions ≡ true)
    fresh =
        Dict.any-insert (λ _ r. grants m v p r) i (record q { revoked = true }) st.permissions
          (ground arith)
grant_authority m v p step new old = absurd (ground (arith, next_lem step))

service_authority :
    {parses : String → Bool} {st : TrustState} {s : Set String} {a : TrustAction} {t : TrustState}
    (v : String)
    → Step parses st s a t
    → (Dict.lookup v t.services ≡ Dict.lookup v st.services)
      ⊎ ((w : Service) × (Dict.lookup v t.services ≡ some w) × (chair st w.club s ≡ true))
service_authority v (confirmed n c d e x u h1 h2 h3 h4 (known h q) h6 h7) = inl (ground arith)
service_authority v (confirmed n c d e x u h1 h2 h3 h4 (binding y h k b q) h6 h7) =
    inl (ground arith)
service_authority {st = st} v (service_registered x a c h1 h2 h3 h4 h5 h6 e) =
    elim (Bool-cases (v == x)) [
      | inl here ↦ inr (record { audience = a; club = c }, ground (arith, found), h3)
      | inr there ↦ inl (ground (arith, found))
    ]
  where
    found :
        Dict.lookup v (Dict.insert x (record { audience = a; club = c }) st.services)
        ≡ (if v == x then some (record { audience = a; club = c }) else Dict.lookup v st.services)
    found = Dict.lookup-insert v x (record { audience = a; club = c }) st.services
service_authority v step = inl (ground (arith, next_lem step))

-- What a member may do after an accepted action, the member might do before; or the chair of the club
-- that runs the service signed the action.
pub transition-permissions :
    (parses : String → Bool) (st : TrustState) (a : TrustAction) (s : Set String) (t : TrustState)
    (m audience v p : String)
    → transition parses st a s ≡ ok t
    → permits_member t m audience v p ≡ true
    → (permits_member st m audience v p ≡ true)
      ⊎ ((w : Service) × (Dict.lookup v t.services ≡ some w) × (chair st w.club s ≡ true))
unfolding permits_member
transition-permissions parses st a s t m audience v p h may =
    let step = (transition-Step parses st s a t h).0 in
    elim (service_authority v step) [
      | inr signed ↦ inr signed
      | inl kept ↦ elim (Bool-cases (Dict.any (λ _ q. grants m v p q) st.permissions)) [
        | inl old ↦ inl (ground arith)
        | inr old ↦
            let (w, found, signed) = grant_authority m v p step (ground arith) old in
            inr (w, kept ∙ found, signed)
      ]
    ]
