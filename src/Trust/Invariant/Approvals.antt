-- ===== src/Trust/Invariant/Approvals.antt =====
-- Successions: an open proposal of the present epoch is approved by present chair holders only,
-- each counted once, and accepted by its own candidates only.
use union_core.Prelude.{
  ℕ, String, Bool, true, false, ◌≡◌, ◌≤◌, ◌+◌, inl, inr, ◌⊎◌, sym, subst, text_key, arith, Option,
  some, filter, [],
}
use union_core.Prelude.Dict
use union_core.Prelude.Dict.{Dict, values}
use union_core.Prelude.Set
use union_core.Prelude.Set.{Set, IsDistinct}
use union_core.Prelude.Words.{checked_add-some}
use union_core.Protocol.Schema.{TrustAction}
use union_core.Trust.State.{TrustState, Succession, voters, signed_member}
use union_core.Trust.Chairs.{signing_chairs}
use union_core.Trust.Step.{
  Step, Introduces, known, binding, confirmed, succession_proposed, succession_approved,
  succession_executed, succession_cancelled,
}
use union_core.Trust.Step.Next.{next_lem}

-- A proposal of the present epoch, under these chairs.
pub record IsBacked (chairs : Dict String String) (p : Succession) : Type 0 where
  pub by_holders :
      (m : String) → Set.contains m p.approvals ≡ true → Set.contains m (voters chairs) ≡ true
  pub by_candidates :
      (m : String) → Set.contains m p.accepted ≡ true → Set.contains m (voters p.chairs) ≡ true

pub record HasBacking (st : TrustState) : Type 0 where
  pub past :
      (i : String) (p : Succession)
      → Dict.lookup i st.successions ≡ some p
      → p.epoch ≤ st.chair_epoch
  pub counted_once :
      (i : String) (p : Succession) → Dict.lookup i st.successions ≡ some p → IsDistinct p.approvals
  pub backed :
      (i : String) (p : Succession)
      → Dict.lookup i st.successions ≡ some p
      → p.closed ≡ false
      → p.epoch ≡ st.chair_epoch
      → IsBacked st.chairs p

same :
    (st t : TrustState)
    → t.chairs ≡ st.chairs
    → t.chair_epoch ≡ st.chair_epoch
    → t.successions ≡ st.successions
    → HasBacking st
    → HasBacking t
same st t e1 e2 e3 v = record {
  past = λ i p h. ground (arith, v.past i p);
  counted_once = λ i p h. v.counted_once i p (ground arith);
  backed = λ i p h k l. rw e1 (v.backed i p (ground arith) k (ground arith));
}

-- One proposal is written, and the chairs stay.
written :
    (st t : TrustState) (i : String) (p : Succession)
    → p.epoch ≤ st.chair_epoch
    → IsDistinct p.approvals
    → (p.closed ≡ false → p.epoch ≡ st.chair_epoch → IsBacked st.chairs p)
    → t.successions ≡ Dict.insert i p st.successions
    → t.chair_epoch ≡ st.chair_epoch
    → t.chairs ≡ st.chairs
    → HasBacking st
    → HasBacking t
written st t i p h1 h2 h3 e1 e2 e3 v = record {
  past = λ j q h. ground (arith, v.past j q, Dict.lookup-insert j i p st.successions);
  counted_once = λ j q h. elim (found j q h) [
    | inl (_, here) ↦ subst (λ r. IsDistinct r.approvals) (sym here) h2
    | inr there ↦ v.counted_once j q there
  ];
  backed = λ j q h k l. elim (found j q h) [
    | inl (_, here) ↦
        rw e3 (subst (IsBacked st.chairs) (sym here) (h3 (ground arith) (ground arith)))
    | inr there ↦ rw e3 (v.backed j q there k (ground arith))
  ];
}
  where
    found :
        (j : String) (q : Succession)
        → Dict.lookup j t.successions ≡ some q
        → ((j ≡ i) × (q ≡ p)) ⊎ (Dict.lookup j st.successions ≡ some q)
    found j q h = Dict.found-insert j i p q st.successions (ground arith)

-- The chairs change: an epoch begins to which no open proposal belongs.
succeeded :
    (st t : TrustState) (i : String) (p : Succession) (epoch : ℕ)
    → Dict.lookup i st.successions ≡ some p
    → epoch ≡ st.chair_epoch + 1
    → t.successions ≡ Dict.insert i (record p { closed = true }) st.successions
    → t.chair_epoch ≡ epoch
    → HasBacking st
    → HasBacking t
succeeded st t i p epoch h1 h2 e1 e2 v = record {
  past = λ j q h. elim (found j q h) [
    | inl (_, here) ↦ ground (arith, v.past i p h1)
    | inr there ↦ ground (arith, v.past j q there)
  ];
  counted_once = λ j q h. elim (found j q h) [
    | inl (_, here) ↦ subst (λ r. IsDistinct r.approvals) (sym here) (v.counted_once i p h1)
    | inr there ↦ v.counted_once j q there
  ];
  backed = λ j q h k l. elim (found j q h) [
    | inl (_, here) ↦ absurd (ground arith)
    | inr there ↦ absurd (ground (arith, v.past j q there))
  ];
}
  where
    found :
        (j : String) (q : Succession)
        → Dict.lookup j t.successions ≡ some q
        → ((j ≡ i) × (q ≡ record p { closed = true })) ⊎ (Dict.lookup j st.successions ≡ some q)
    found j q h = Dict.found-insert j i (record p { closed = true }) q st.successions (ground arith)

-- The signing holders of some chairs hold some of those chairs.
signing_chairs-holders :
    (st : TrustState) (c : Dict String String) (s : Set String) (m : String)
    → Set.contains m (signing_chairs st c s) ≡ true
    → Set.contains m (voters c) ≡ true
unfolding signing_chairs voters
signing_chairs-holders st c s m h = ground (
  arith,
  Set.contains-extend m (filter (λ m. signed_member st m s) (values c)) [],
  Set.contains-extend m (values c) [],
  Set.contains-filter m (λ m. signed_member st m s) (values c),
)

approved :
    (st : TrustState) (p : Succession) (s : Set String)
    → IsBacked st.chairs p
    → IsBacked st.chairs (record p {
      approvals = Set.extend (signing_chairs st st.chairs s) p.approvals;
      accepted = Set.extend (signing_chairs st p.chairs s) p.accepted;
    })
approved st p s b = record {
  by_holders = λ m h. ground (
    arith,
    b.by_holders m,
    signing_chairs-holders st st.chairs s m,
    Set.contains-extend m (signing_chairs st st.chairs s) p.approvals,
  );
  by_candidates = λ m h. ground (
    arith,
    b.by_candidates m,
    signing_chairs-holders st p.chairs s m,
    Set.contains-extend m (signing_chairs st p.chairs s) p.accepted,
  );
}

introduced :
    {parses : String → Bool} {st : TrustState} {s : Set String} {m : String} {d : Option String}
    {t : TrustState}
    → Introduces parses st m s d t
    → HasBacking st
    → HasBacking t
introduced (known h e) v = subst HasBacking (sym e) v
introduced {st = st} {t = t} (binding d h k b e) v =
    same st t (ground arith) (ground arith) (ground arith) v

-- A proposal as it is written first.
abbrev proposal : Dict String String → ℕ → ℕ → Succession
proposal c q n = record {
  chairs = c;
  quorum = q;
  epoch = n;
  approvals = [];
  accepted = [];
  closed = false;
}

proposal-IsBacked : (now c : Dict String String) (q n : ℕ) → IsBacked now (proposal c q n)
unfolding Set.contains
proposal-IsBacked now c q n = record {
  by_holders = λ m h. absurd (ground arith);
  by_candidates = λ m h. absurd (ground arith);
}

pub Step-HasBacking :
    {parses : String → Bool} {st : TrustState} {s : Set String} {a : TrustAction} {t : TrustState}
    → Step parses st s a t
    → HasBacking st
    → HasBacking t
Step-HasBacking {t = t} (confirmed m c d e v u h1 h2 h3 h4 i h6 h7) o =
    same u t (ground arith) (ground arith) (ground arith) (introduced i o)
Step-HasBacking {st = st} {t = t} (succession_proposed i c q h1 h2 h3 h4 h5 h6 e) o =
    written st t i (proposal c q st.chair_epoch) (omega arith) tt
      (λ _ _. proposal-IsBacked st.chairs c q st.chair_epoch) (ground arith) (ground arith)
      (ground arith) o
Step-HasBacking {st = st} {s = s} {t = t} (succession_approved i p w h1 e) o =
    written st t i
      (record p {
        approvals = Set.extend (signing_chairs st st.chairs s) p.approvals;
        accepted = Set.extend (signing_chairs st p.chairs s) p.accepted;
      })
      (o.past i p w.proposed)
      (Set.extend-IsDistinct (signing_chairs st st.chairs s) p.approvals
        (o.counted_once i p w.proposed))
      (λ k l. approved st p s (o.backed i p w.proposed k l)) (ground arith) (ground arith)
      (ground arith) o
Step-HasBacking {st = st} {t = t} (succession_executed i p n w h1 h2 h3 h4 e) o =
    succeeded st t i p n w.proposed (checked_add-some st.chair_epoch 1 n h4).0 (ground arith)
      (ground arith) o
Step-HasBacking {st = st} {t = t} (succession_cancelled i p h1 w e) o =
    written st t i (record p { closed = true }) (o.past i p w.proposed)
      (o.counted_once i p w.proposed) (λ k l. absurd (ground arith)) (ground arith) (ground arith)
      (ground arith) o
Step-HasBacking {st = st} {t = t} step o =
    same st t (ground (arith, next_lem step)) (ground (arith, next_lem step))
      (ground (arith, next_lem step)) o
