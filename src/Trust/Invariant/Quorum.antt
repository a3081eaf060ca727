-- ===== src/Trust/Invariant/Quorum.antt =====
-- Chairs: the quorum is a strict majority of the distinct holders, and so is every proposed one.
use union_core.Prelude.{
  String, Bool, true, false, ◌≡◌, ◌≤◌, ◌<◌, ◌+◌, ◌*◌, sym, subst, text_key, arith, length, List,
  Option, some, ok, filter, any, [], ◌∷◌, ◌&&◌,
}
use union_core.Prelude.Dict
use union_core.Prelude.Set
use union_core.Prelude.Set.{Set}
use union_core.Protocol.Schema.{TrustAction}
use union_core.Trust.State.{TrustState, Succession, voters, majority, signed_member}
use union_core.Trust.Chairs.{validate_chairs, signing_chairs}
use union_core.Trust.Step.{
  Step, Introduces, known, binding, confirmed, succession_proposed, succession_approved,
  succession_executed, succession_cancelled,
}
use union_core.Trust.Step.Next.{next_lem}

pub record HasQuorum (st : TrustState) : Type 0 where
  pub seated : validate_chairs st.chairs st.quorum ≡ ok tt
  pub planned :
      (i : String) (p : Succession)
      → Dict.lookup i st.successions ≡ some p
      → validate_chairs p.chairs p.quorum ≡ ok tt

same :
    (st t : TrustState)
    → t.chairs ≡ st.chairs
    → t.quorum ≡ st.quorum
    → t.successions ≡ st.successions
    → HasQuorum st
    → HasQuorum t
same st t e1 e2 e3 v = record {
  seated = ground (arith, v.seated);
  planned = λ i p h. ground (arith, v.planned i p);
}

-- One proposal is written, whose chairs are in order.
written :
    (st t : TrustState) (i : String) (p : Succession)
    → validate_chairs p.chairs p.quorum ≡ ok tt
    → validate_chairs t.chairs t.quorum ≡ ok tt
    → t.successions ≡ Dict.insert i p st.successions
    → HasQuorum st
    → HasQuorum t
written st t i p h1 h2 e v = record {
  seated = h2;
  planned = λ j q h. ground (arith, v.planned j q, Dict.lookup-insert j i p st.successions);
}

introduced :
    {parses : String → Bool} {st : TrustState} {s : Set String} {m : String} {d : Option String}
    {t : TrustState}
    → Introduces parses st m s d t
    → HasQuorum st
    → HasQuorum t
introduced (known h e) v = subst HasQuorum (sym e) v
introduced {st = st} {t = t} (binding d h k b e) v =
    same st t (ground arith) (ground arith) (ground arith) v

pub Step-HasQuorum :
    {parses : String → Bool} {st : TrustState} {s : Set String} {a : TrustAction} {t : TrustState}
    → Step parses st s a t
    → HasQuorum st
    → HasQuorum t
Step-HasQuorum {t = t} (confirmed m c d e v u h1 h2 h3 h4 i h6 h7) o =
    same u t (ground arith) (ground arith) (ground arith) (introduced i o)
Step-HasQuorum {st = st} {t = t} (succession_proposed i c q h1 h2 h3 h4 h5 h6 e) o =
    written st t i
      (record {
        chairs = c;
        quorum = q;
        epoch = st.chair_epoch;
        approvals = [];
        accepted = [];
        closed = false;
      })
      h2 (ground (arith, o.seated)) (ground arith) o
Step-HasQuorum {st = st} {s = s} {t = t} (succession_approved i p w h1 e) o =
    written st t i
      (record p {
        approvals = Set.extend (signing_chairs st st.chairs s) p.approvals;
        accepted = Set.extend (signing_chairs st p.chairs s) p.accepted;
      })
      (o.planned i p w.proposed) (ground (arith, o.seated)) (ground arith) o
Step-HasQuorum {st = st} {t = t} (succession_executed i p n w h1 h2 h3 h4 e) o =
    written st t i (record p { closed = true }) (o.planned i p w.proposed)
      (ground (arith, o.planned i p w.proposed)) (ground arith) o
Step-HasQuorum {st = st} {t = t} (succession_cancelled i p h1 w e) o =
    written st t i (record p { closed = true }) (o.planned i p w.proposed)
      (ground (arith, o.seated)) (ground arith) o
Step-HasQuorum {st = st} {t = t} step o =
    same st t (ground (arith, next_lem step)) (ground (arith, next_lem step))
      (ground (arith, next_lem step)) o

-- Two selections from a list that together outnumber it share an element.
pub overlap {ℓ} :
    {A : Type ℓ} (p q : A → Bool) (xs : List A)
    → length (filter p xs) + length (filter q xs) ≤ length xs + length (filter (λ x. p x && q x) xs)
unfolding filter
overlap p q [] = omega arith
overlap p q (x ∷ xs) = ground (arith, overlap p q xs)

any_of_filter {ℓ} :
    {A : Type ℓ} (p : A → Bool) (xs : List A) → 0 < length (filter p xs) → any p xs ≡ true
unfolding filter any
any_of_filter p [] h = absurd (omega arith)
any_of_filter p (x ∷ xs) h = ground (arith, any_of_filter p xs)

quorum_above_half : (st : TrustState) → HasQuorum st → length (voters st.chairs) < 2 * st.quorum
unfolding validate_chairs
quorum_above_half st v = ground (arith, v.seated)

-- Two sets of signers that both pass for a majority share a chair holder.
pub majority_overlap :
    (st : TrustState) (s1 s2 : Set String)
    → HasQuorum st
    → majority st s1 ≡ true
    → majority st s2 ≡ true
    → (m : String) × (Set.contains m (voters st.chairs) ≡ true)
      × (signed_member st m s1 ≡ true)
      × (signed_member st m s2 ≡ true)
unfolding majority
majority_overlap st s1 s2 v h1 h2 =
    let both : String → Bool = λ m. signed_member st m s1 && signed_member st m s2 in
    let (m, seat, signed) = Set.any-true both (voters st.chairs) (
      any_of_filter both (voters st.chairs) (
        ground (
          arith,
          quorum_above_half st v,
          overlap (λ m. signed_member st m s1) (λ m. signed_member st m s2) (voters st.chairs),
        ))) in
    (m, seat, ground arith, ground arith)
