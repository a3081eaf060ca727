-- ===== src/Trust/Invariant/Facts.antt =====
-- Memberships, profiles and services: a membership is not at once revoked, and belongs to a known
-- member; a game profile has one member; a permission names a registered service.
use union_core.Prelude.{
  String, Bool, true, false, not, ◌&&◌, ◌==◌, ◌≡◌, if◌then◌else◌, sym, subst, text_key, pair_key,
  arith, Option, some,
}
use union_core.Prelude.Dict
use union_core.Prelude.Set
use union_core.Prelude.Set.{Set}
use union_core.Protocol.Schema.{TrustAction}
use union_core.Trust.State.{TrustState, Permission}
use union_core.Trust.Step.{
  Step, owned, enrolled, Introduces, known, binding, confirmed, expelled, device_added,
  device_revoked, profile_bound, service_registered, permission_granted, permission_revoked,
}
use union_core.Trust.Step.Next.{next_lem}

pub record HasFacts (st : TrustState) : Type 0 where
  pub exclusive :
      (m c : String)
      → Set.contains (m, c) st.memberships ≡ true
      → Set.contains (m, c) st.revoked_memberships ≡ false
  pub registered :
      (m c : String) → Set.contains (m, c) st.memberships ≡ true → Dict.contains m st.members ≡ true
  pub profile_owner :
      (m n p : String)
      → Dict.lookup m st.profiles ≡ some p
      → Dict.lookup n st.profiles ≡ some p
      → m ≡ n
  pub served :
      (i : String) (p : Permission)
      → Dict.lookup i st.permissions ≡ some p
      → Dict.contains p.service st.services ≡ true

-- A change that leaves these facts alone keeps them, if it forgets no member.
same :
    (st t : TrustState)
    → ((m : String) → Dict.contains m st.members ≡ true → Dict.contains m t.members ≡ true)
    → t.memberships ≡ st.memberships
    → t.revoked_memberships ≡ st.revoked_memberships
    → t.profiles ≡ st.profiles
    → t.permissions ≡ st.permissions
    → t.services ≡ st.services
    → HasFacts st
    → HasFacts t
same st t keeps e1 e2 e3 e4 e5 v = record {
  exclusive = λ m c h. ground (arith, v.exclusive m c);
  registered = λ m c h. ground (arith, v.registered m c, keeps m);
  profile_owner = λ m n p h1 h2. ground (arith, v.profile_owner m n p);
  served = λ i p h. ground (arith, v.served i p);
}

introduced :
    {parses : String → Bool} {st : TrustState} {s : Set String} {m : String} {d : Option String}
    {t : TrustState}
    → Introduces parses st m s d t
    → HasFacts st
    → HasFacts t × (Dict.contains m t.members ≡ true)
introduced (known h e) v = (subst HasFacts (sym e) v, ground arith)
introduced {st = st} {m = m} {t = t} (binding d h k b e) v = (
  same st t (λ n kn. ground (arith, kept n)) (ground arith) (ground arith) (ground arith)
      (ground arith) (ground arith) v,
  ground (arith, kept m),
)
  where
    kept :
        (n : String)
        → Dict.contains n (Dict.insert m (Set.insert d (owned st m)) st.members)
          ≡ (if n == m then true else Dict.contains n st.members)
    kept n = Dict.contains-insert n m (Set.insert d (owned st m)) st.members

-- The membership of a known member is recorded.
enrolled-HasFacts :
    (u : TrustState) (m c : String)
    → Dict.contains m u.members ≡ true
    → HasFacts u
    → HasFacts (enrolled u m c)
enrolled-HasFacts u m c k v = record {
  exclusive = λ n b h. ground (
    arith,
    v.exclusive n b,
    Set.contains-insert (n, b) (m, c) u.memberships,
    Set.contains-remove (n, b) (m, c) u.revoked_memberships,
  );
  registered =
      λ n b h. ground (arith, v.registered n b, Set.contains-insert (n, b) (m, c) u.memberships);
  profile_owner = v.profile_owner;
  served = v.served;
}

pub Step-HasFacts :
    {parses : String → Bool} {st : TrustState} {s : Set String} {a : TrustAction} {t : TrustState}
    → Step parses st s a t
    → HasFacts st
    → HasFacts t
Step-HasFacts (confirmed m c d e v u h1 h2 h3 h4 i h6 h7) o =
    let known_member = introduced i o in
    subst HasFacts (sym h7) (enrolled-HasFacts u m c known_member.1 known_member.0)
Step-HasFacts {st = st} {t = t} (expelled m c h1 h2 e) o = record {
  exclusive = λ n b h. ground (
    arith,
    o.exclusive n b,
    Set.contains-remove (n, b) (m, c) st.memberships,
    Set.contains-insert (n, b) (m, c) st.revoked_memberships,
  );
  registered =
      λ n b h. ground (arith, o.registered n b, Set.contains-remove (n, b) (m, c) st.memberships);
  profile_owner = λ n b p k1 k2. ground (arith, o.profile_owner n b p);
  served = λ j p k. ground (arith, o.served j p);
}
Step-HasFacts {st = st} {t = t} (device_added m d h1 h2 h3 b e) o =
    same st t
      (λ n kn. ground (arith, Dict.contains-insert n m (Set.insert d (owned st m)) st.members))
      (ground arith) (ground arith) (ground arith) (ground arith) (ground arith) o
Step-HasFacts {st = st} {t = t} (device_revoked m d ds h1 h2 h3 e) o =
    same st t (λ n kn. ground (arith, Dict.contains-insert n m (Set.remove d ds) st.members))
      (ground arith) (ground arith) (ground arith) (ground arith) (ground arith) o
Step-HasFacts {st = st} {t = t} (profile_bound m c p h1 h2 h3 h4 h5 e) o = record {
  exclusive = λ n b h. ground (arith, o.exclusive n b);
  registered = λ n b h. ground (arith, o.registered n b);
  profile_owner = λ n b q k1 k2. ground (
    arith,
    o.profile_owner n b q,
    Dict.lookup-insert n m p st.profiles,
    Dict.lookup-insert b m p st.profiles,
    Dict.any-false (λ m' p'. not (m' == m) && p' == p) st.profiles n q h5,
    Dict.any-false (λ m' p'. not (m' == m) && p' == p) st.profiles b q h5,
  );
  served = λ j q k. ground (arith, o.served j q);
}
Step-HasFacts {st = st} {t = t} (service_registered v a c h1 h2 h3 h4 h5 h6 e) o = record {
  exclusive = λ n b h. ground (arith, o.exclusive n b);
  registered = λ n b h. ground (arith, o.registered n b);
  profile_owner = λ n b p k1 k2. ground (arith, o.profile_owner n b p);
  served = λ j q k. ground (
    arith,
    o.served j q,
    Dict.contains-insert q.service v (record { audience = a; club = c }) st.services,
  );
}
Step-HasFacts {st = st} {t = t} (permission_granted i m v p w h1 h2 h3 h4 h5 h6 h7 e) o = record {
  exclusive = λ n b h. ground (arith, o.exclusive n b);
  registered = λ n b h. ground (arith, o.registered n b);
  profile_owner = λ n b q k1 k2. ground (arith, o.profile_owner n b q);
  served = λ j q k. ground (
    arith,
    o.served j q,
    Dict.lookup-insert j i (record { member = m; service = v; permission = p; revoked = false })
        st.permissions,
  );
}
Step-HasFacts {st = st} {t = t} (permission_revoked i p w h1 h2 h3 e) o = record {
  exclusive = λ n b h. ground (arith, o.exclusive n b);
  registered = λ n b h. ground (arith, o.registered n b);
  profile_owner = λ n b q k1 k2. ground (arith, o.profile_owner n b q);
  served = λ j q k.
      ground
        (arith, o.served j q, Dict.lookup-insert j i (record p { revoked = true }) st.permissions);
}
Step-HasFacts {st = st} {t = t} step o =
    same st t (λ n kn. ground (arith, next_lem step)) (ground (arith, next_lem step))
      (ground (arith, next_lem step)) (ground (arith, next_lem step))
      (ground (arith, next_lem step)) (ground (arith, next_lem step)) o
