-- ===== src/Trust/Invariant/Devices.antt =====
-- Devices: each listed device has one owner and is not revoked; eight at most to a member.
use union_core.Prelude.{
  String, Bool, true, false, ◌≡◌, ◌≤◌, sym, subst, text_key, pair_key, arith, length, Option, some,
}
use union_core.Prelude.Dict
use union_core.Prelude.Entries
use union_core.Prelude.Set
use union_core.Prelude.Set.{Set}
use union_core.Protocol.Schema.{TrustAction}
use union_core.Trust.State.{TrustState, member_for_device}
use union_core.Trust.Step.{
  Step, Binds, bound, owned, Introduces, known, binding, confirmed, device_added, device_revoked,
}
use union_core.Trust.Step.Next.{next_lem}

pub record HasOwners (st : TrustState) : Type 0 where
  pub owner :
      (m d : String)
      → Set.contains d (owned st m) ≡ true
      → (Dict.lookup d st.devices ≡ some m) × (Set.contains d st.revoked_devices ≡ false)
  pub listed :
      (m d : String)
      → Dict.lookup d st.devices ≡ some m
      → Set.contains d st.revoked_devices ≡ false
      → Set.contains d (owned st m) ≡ true
  pub one_entry : Entries.IsDistinct st.members
  pub few : (m : String) → length (owned st m) ≤ 8

pub HasOwners-same :
    (st t : TrustState)
    → t.members ≡ st.members
    → t.devices ≡ st.devices
    → t.revoked_devices ≡ st.revoked_devices
    → HasOwners st
    → HasOwners t
HasOwners-same st t e1 e2 e3 v = record {
  owner = λ m d h. ground (arith, v.owner m d);
  listed = λ m d h k. ground (arith, v.listed m d);
  one_entry = rw e1 v.one_entry;
  few = λ m. ground (arith, v.few m);
}

pub bound-HasOwners :
    (parses : String → Bool) (st : TrustState) (m d : String)
    → Binds parses st m d
    → HasOwners st
    → HasOwners (bound st m d)
bound-HasOwners parses st m d b v = record {
  owner = λ n e h. ground (
    arith,
    v.owner n e,
    v.owner m e,
    Dict.lookup-insert n m (Set.insert d (owned st m)) st.members,
    Dict.lookup-insert e d m st.devices,
    Set.contains-insert e d (owned st m),
  );
  listed = λ n e h k. ground (
    arith,
    v.listed n e,
    Dict.lookup-insert n m (Set.insert d (owned st m)) st.members,
    Dict.lookup-insert e d m st.devices,
    Set.contains-insert e d (owned st m),
  );
  one_entry = Entries.insert-IsDistinct m (Set.insert d (owned st m)) st.members v.one_entry;
  few = λ n. ground (
    arith,
    v.few n,
    v.few m,
    Dict.lookup-insert n m (Set.insert d (owned st m)) st.members,
    Set.length-insert d (owned st m),
  );
}

-- A revoked device is gone from its owner's list, and stands among the revoked ones.
revoked-HasOwners :
    (st t : TrustState) (m d : String) (ds : Set String)
    → member_for_device st d ≡ some m
    → Dict.lookup m st.members ≡ some ds
    → t.members ≡ Dict.insert m (Set.remove d ds) st.members
    → t.devices ≡ st.devices
    → t.revoked_devices ≡ Set.insert d st.revoked_devices
    → HasOwners st
    → HasOwners t
unfolding member_for_device
revoked-HasOwners st t m d ds h1 h2 e1 e2 e3 v = record {
  owner = λ n e h. ground (
    arith,
    v.owner n e,
    Dict.lookup-insert n m (Set.remove d ds) st.members,
    Set.contains-remove e d ds,
    Set.contains-insert e d st.revoked_devices,
  );
  listed = λ n e h k. ground (
    arith,
    v.listed n e,
    Dict.lookup-insert n m (Set.remove d ds) st.members,
    Set.contains-remove e d ds,
    Set.contains-insert e d st.revoked_devices,
  );
  one_entry = rw e1 (Entries.insert-IsDistinct m (Set.remove d ds) st.members v.one_entry);
  few = λ n. ground (
    arith,
    v.few n,
    v.few m,
    Dict.lookup-insert n m (Set.remove d ds) st.members,
    Set.length-remove d ds,
  );
}

introduced-HasOwners :
    {parses : String → Bool} {st : TrustState} {s : Set String} {m : String} {d : Option String}
    {t : TrustState}
    → Introduces parses st m s d t
    → HasOwners st
    → HasOwners t
introduced-HasOwners (known h e) v = subst HasOwners (sym e) v
introduced-HasOwners {parses} {st} {m = m} (binding d h k b e) v =
    subst HasOwners (sym e) (bound-HasOwners parses st m d b v)

pub Step-HasOwners :
    {parses : String → Bool} {st : TrustState} {s : Set String} {a : TrustAction} {t : TrustState}
    → Step parses st s a t
    → HasOwners st
    → HasOwners t
Step-HasOwners {t = t} (confirmed m c d e v u h1 h2 h3 h4 i h6 h7) o =
    HasOwners-same u t (ground arith) (ground arith) (ground arith) (introduced-HasOwners i o)
Step-HasOwners {parses} {st} (device_added m d h1 h2 h3 b e) o =
    subst HasOwners (sym e) (bound-HasOwners parses st m d b o)
Step-HasOwners {st = st} {t = t} (device_revoked m d ds h1 h2 h3 e) o =
    revoked-HasOwners st t m d ds h1 h3 (ground arith) (ground arith) (ground arith) o
Step-HasOwners {st = st} {t = t} step o =
    HasOwners-same st t (ground (arith, next_lem step)) (ground (arith, next_lem step))
      (ground (arith, next_lem step)) o
