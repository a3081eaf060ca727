-- ===== src/Governance/Actors.antt =====
-- The member that an action of the domain sees as its actor is the one that the identity log names.
use union_core.Prelude.{
  ℕ, String, true, false, ◌≡◌, ◌≢◌, ◌⊎◌, inl, inr, refl, sym, subst, arith, text_key, nat_key,
  pair_key, some, none, List, [], ◌∷◌, ok, Option-cases, is_empty,
}
use union_core.Prelude.Dict
use union_core.Prelude.Entries
use union_core.Prelude.Set
use union_core.Prelude.Set.{Set}
use union_core.Trust.State.{TrustState, clubs, member_for_device}
use union_core.Trust.Step.{owned}
use union_core.Trust.Invariant.Devices.{HasOwners}
use union_core.Governance.State.{Domain, State, Action, CoreState, Member, member_of, owns}
use union_core.Governance.Consensus.{Network}
use union_core.Governance.Core.{
  identity_core, add_members, add_member, derived_member, first, can_write, can_read,
}
use union_core.Governance.Apply.{apply}
use union_core.Governance.Accepted.{apply-Acted}

-- The entry is derived from the log's entry for this id.
pub record IsDerived (trust : TrustState) (before : CoreState) (id : String) (m : Member)
    : Type 0 where
  pub devices : Set String
  pub club : String
  pub logged : Dict.lookup id trust.members ≡ some devices
  pub belongs : first (clubs trust id) ≡ some club
  pub result : m ≡ derived_member trust before id devices club

module _ (trust : TrustState) (before : CoreState) where
  add_member-All :
      (core : CoreState) (id : String) (ds : Set String)
      → Dict.lookup id trust.members ≡ some ds
      → Entries.All (IsDerived trust before) core.members
      → Entries.All (IsDerived trust before) (add_member trust before core (id, ds)).members
  unfolding add_member
  add_member-All core id ds h a = elim (Option-cases (first (clubs trust id))) [
    | inl homeless ↦ rw (homeless, add_member) a
    | inr (c, at) ↦
        rw (at, add_member)
          (Entries.All-insert (IsDerived trust before) id (derived_member trust before id ds c)
            core.members
            (record { devices = ds; club = c; logged = h; belongs = at; result = refl }) a)
  ]

  add_members-All :
      (core : CoreState) (ms : List (String × Set String))
      → Entries.All (λ id ds. Dict.lookup id trust.members ≡ some ds) ms
      → Entries.All (IsDerived trust before) core.members
      → Entries.All (IsDerived trust before) (add_members trust before core ms).members
  unfolding add_members
  add_members-All core [] l a = a
  add_members-All core ((id, ds) ∷ ms) l a =
      add_members-All (add_member trust before core (id, ds)) ms l.1
        (add_member-All core id ds l.0 a)

  add_member-keeps :
      (core : CoreState) (id : String) (ds : Set String) (k : String)
      → Dict.contains k core.members ≡ true
      → Dict.contains k (add_member trust before core (id, ds)).members ≡ true
  unfolding add_member
  add_member-keeps core id ds k h = elim (Option-cases (first (clubs trust id))) [
    | inl homeless ↦ ground arith
    | inr (c, at) ↦
        ground (arith, Dict.contains-insert k id (derived_member trust before id ds c) core.members)
  ]

  add_member-contains :
      (core : CoreState) (id : String) (ds : Set String)
      → is_empty (clubs trust id) ≡ false
      → Dict.contains id (add_member trust before core (id, ds)).members ≡ true
  unfolding add_member
  add_member-contains core id ds h = elim (Option-cases (first (clubs trust id))) [
    | inl homeless ↦ absurd (ground arith)
    | inr (c, at) ↦
        ground
          (arith, Dict.contains-insert id id (derived_member trust before id ds c) core.members)
  ]

  -- A member with a club is among the derived members.
  add_members-contains :
      (core : CoreState) (ms : List (String × Set String)) (k : String)
      → (Dict.contains k core.members ≡ true)
        ⊎ ((Dict.contains k ms ≡ true) × (is_empty (clubs trust k) ≡ false))
      → Dict.contains k (add_members trust before core ms).members ≡ true
  unfolding add_members Dict.lookup
  add_members-contains core [] k (inl h) = h
  add_members-contains core [] k (inr h) = absurd (ground arith)
  add_members-contains core ((id, ds) ∷ ms) k h =
      add_members-contains (add_member trust before core (id, ds)) ms k (elim h [
        | inl old ↦ inl (add_member-keeps core id ds k old)
        | inr (listed, home) ↦ elim (text_key.same k id) [
          | yes e ↦ inl (
              subst (λ i. Dict.contains i (add_member trust before core (id, ds)).members ≡ true)
                (sym e)
                (add_member-contains core id ds
                  (subst (λ i. is_empty (clubs trust i) ≡ false) e home)))
          | no n ↦ inr (ground arith, home)
        ]
      ])

  -- A derived member owns just the devices that the log lists, whatever the empty name.
  owns-derived :
      (id : String) (m : Member) (d : String)
      → d ≢ ""
      → IsDerived trust before id m
      → owns m d ≡ Set.contains d (owned trust id)
  unfolding owns derived_member Set.contains
  owns-derived id m d h v = elim_set v.devices refl
    where
      elim_set : (ds : Set String) → v.devices ≡ ds → owns m d ≡ Set.contains d (owned trust id)
      elim_set [] e = ground (arith, v.logged, v.result)
      elim_set (x ∷ ds) e = ground (arith, v.logged, v.result)

  IsDerived-All :
      (core : CoreState)
      → Entries.IsDistinct trust.members
      → identity_core before trust ≡ ok core
      → Entries.All (IsDerived trust before) core.members
  unfolding identity_core
  IsDerived-All core d h =
      let start : CoreState = record before { admins = []; members = [] } in
      subst (λ (c : CoreState). Entries.All (IsDerived trust before) c.members)
        (let e : add_members trust before start trust.members ≡ core = ground arith in e)
        (add_members-All start trust.members (Entries.All-lookup trust.members d) tt)

  derived-contains :
      (core : CoreState) (m : String) (ds : Set String)
      → identity_core before trust ≡ ok core
      → Dict.lookup m trust.members ≡ some ds
      → is_empty (clubs trust m) ≡ false
      → Dict.contains m core.members ≡ true
  unfolding identity_core
  derived-contains core m ds h l home = ground (
    arith,
    add_members-contains (record before { admins = []; members = [] }) trust.members m
        (inr (ground arith, home)),
  )

  -- The first member that owns the device is the one that the log names.
  found-agrees :
      (ms : List (String × Member)) (d m : String) (x : String × Member)
      → d ≢ ""
      → HasOwners trust
      → Dict.lookup d trust.devices ≡ some m
      → Entries.All (IsDerived trust before) ms
      → Dict.find (λ _ x. owns x d) ms ≡ some x
      → (x.0 ≡ m) × IsDerived trust before m x.1
  found-agrees ms d m x h v k a e =
      let derived = Entries.All-find (IsDerived trust before) (λ _ x. owns x d) ms x a e in
      let same : x.0 ≡ m = ground (
        arith,
        Dict.find-some (λ _ x. owns x d) ms x e,
        owns-derived x.0 x.1 d h derived,
        v.owner x.0 d,
      ) in
      (same, subst (λ i. IsDerived trust before i x.1) same derived)

  -- Some member owns the device that the log lists.
  some_owner :
      (ms : List (String × Member)) (d m : String)
      → d ≢ ""
      → HasOwners trust
      → Set.contains d (owned trust m) ≡ true
      → Entries.All (IsDerived trust before) ms
      → Dict.contains m ms ≡ true
      → Dict.find (λ _ x. owns x d) ms ≢ none
  some_owner ms d m h v l a c e = elim (Option-cases (Dict.lookup m ms)) [
    | inl absent ↦ absurd (ground arith)
    | inr (x, there) ↦ ground (
      arith,
      Dict.find-none (λ _ x. owns x d) ms m x e there,
      owns-derived m x d h (Entries.All-at (IsDerived trust before) m x ms a there),
    )
  ]

  pub member_of-agrees :
      (core : CoreState) (d m : String)
      → d ≢ ""
      → HasOwners trust
      → identity_core before trust ≡ ok core
      → member_for_device trust d ≡ some m
      → is_empty (clubs trust m) ≡ false
      → (found : Member) × (member_of core.members d ≡ some (m, found))
        × IsDerived trust before m found
  unfolding member_for_device member_of Set.contains
  member_of-agrees core d m h v e k home = elim (Option-cases (Dict.lookup m trust.members)) [
    | inl absent ↦ absurd (ground (arith, v.listed m d))
    | inr (ds, logged) ↦ elim (Option-cases (Dict.find (λ _ x. owns x d) core.members)) [
      | inl missing ↦ absurd (
          some_owner core.members d m h v (ground (arith, v.listed m d))
            (IsDerived-All core v.one_entry e) (derived-contains core m ds e logged home) missing)
      | inr (x, found) ↦
          let (same, derived) =
            found-agrees core.members d m x h v (ground arith) (IsDerived-All core v.one_entry e)
              found in
          (x.1, ground arith, derived)
    ]
  ]

module _ (net : Network) (D : Domain) where
  -- Where the log has owners for its devices, an accepted action of an actor whose name is not empty
  -- comes from a device that the log lists for some member with a club, and the members that the state
  -- machine shows to the domain name the same member for it, with its first club and the devices of
  -- the log.
  pub apply-actor :
      (st : State D) (actor : String) (revision now_ms : ℕ) (action : Action D) (trust : TrustState)
      (t : State D)
      → actor ≢ ""
      → HasOwners trust
      → apply net D st actor revision now_ms action trust ≡ ok t
      → (core : CoreState) × (m : String) × (found : Member) × (identity_core st.core trust
          ≡ ok core)
        × (member_for_device trust actor ≡ some m)
        × (member_of core.members actor ≡ some (m, found))
        × IsDerived trust st.core m found
  unfolding can_write can_read
  apply-actor st actor revision now_ms action trust t h v e =
      let a = apply-Acted net D st actor revision now_ms action trust t e in
      elim (Option-cases (member_for_device trust actor)) [
        | inl nobody ↦ absurd (ground (arith, a.writer))
        | inr (m, k) ↦
            let (found, seen, derived) =
              member_of-agrees trust st.core a.derived actor m h v a.derives k
                (ground (arith, a.writer)) in
            (a.derived, m, found, a.derives, k, seen, derived)
      ]
