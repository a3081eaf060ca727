-- ===== src/Trust/Genesis.antt =====
-- `TrustState::new`: the state that a pinned genesis yields.
use union_core.Prelude.{
  String, true, ◌≡◌, subst, refl, text_key, pair_key, nat_key, arith, [], ok, Result-cases, inl,
  inr, Ensures, Ensures-try_fold, Ensures-of, Ensures-at, try_fold,
}
use union_core.Prelude.Dict
use union_core.Prelude.Set
use union_core.Prelude.Set.{Set}
use union_core.Protocol.Schema.{TrustGenesis, TrustFounder}
use union_core.Trust.State.{TrustState}
use union_core.Trust.Members.{bind}
use union_core.Trust.Chairs.{validate_chairs}
use union_core.Trust.Log.{Crypto, new, add_founder, empty_state, key}
use union_core.Trust.Invariant.Devices.{HasOwners, HasOwners-same, bound-HasOwners}
use union_core.Trust.Step.{bound, owned}
use union_core.Trust.Step.Sound.{bind-Binds}
use union_core.Trust.Replay.{IsValid, Extends, Extends-IsValid}

-- While the founders are added.
record IsFounding (st : TrustState) : Type 0 where
  owners : HasOwners st
  registered :
      (m c : String) → Set.contains (m, c) st.memberships ≡ true → Dict.contains m st.members ≡ true
  no_expulsions : st.revoked_memberships ≡ []
  no_profiles : st.profiles ≡ []
  no_successions : st.successions ≡ []
  no_permissions : st.permissions ≡ []

module _ (x : Crypto) where
  open x use {parses_peer, digest, genesis_json, peer_id}

  empty_state-IsFounding : (g : TrustGenesis) → IsFounding (empty_state x g)
  unfolding empty_state Dict.lookup Set.contains
  empty_state-IsFounding g = record {
    owners = record {
      owner = λ m d h. absurd (ground arith);
      listed = λ m d h k. absurd (ground arith);
      one_entry = tt;
      few = λ m. omega arith;
    };
    registered = λ m c h. absurd (ground arith);
    no_expulsions = refl;
    no_profiles = refl;
    no_successions = refl;
    no_permissions = refl;
  }

  -- The founder's device is bound, and the membership is recorded.
  joined :
      (st seated u t : TrustState) (f : TrustFounder) (d : String)
      → seated ≡ record st { chairs = Dict.insert f.club f.member st.chairs }
      → bind parses_peer seated f.member d ≡ ok u
      → t ≡ record u { memberships = Set.insert (f.member, f.club) u.memberships }
      → IsFounding st
      → IsFounding t
  joined st seated u t f d e1 h e2 v =
      let (guards, e3) = bind-Binds parses_peer seated f.member d u h in
      let kept =
        Dict.contains-insert f.member f.member (Set.insert d (owned seated f.member))
          seated.members in
      record {
        owners =
            HasOwners-same (bound seated f.member d) t (ground arith) (ground arith) (ground arith)
              (bound-HasOwners parses_peer seated f.member d guards
                (HasOwners-same st seated (ground arith) (ground arith) (ground arith) v.owners));
        registered = λ m c k. ground (
          arith,
          v.registered m c,
          Set.contains-insert (m, c) (f.member, f.club) seated.memberships,
          Dict.contains-insert m f.member (Set.insert d (owned seated f.member)) seated.members,
        );
        no_expulsions = ground (arith, v.no_expulsions);
        no_profiles = ground (arith, v.no_profiles);
        no_successions = ground (arith, v.no_successions);
        no_permissions = ground (arith, v.no_permissions);
      }

  add_founder-IsFounding :
      (st : TrustState) (f : TrustFounder) → IsFounding st → Ensures IsFounding (add_founder x st f)
  unfolding add_founder
  add_founder-IsFounding st f v = Ensures-of IsFounding (add_founder x st f) λ t h.
      elim (Result-cases (key x f.public_key)) [
        | inr (e, bad) ↦ absurd (ground arith)
        | inl (k, good) ↦
            let seated : TrustState = record st {
              chairs = Dict.insert f.club f.member st.chairs;
            } in
            elim (Result-cases (bind parses_peer seated f.member (peer_id k))) [
              | inr (e, bad) ↦ absurd (ground arith)
              | inl (u, done) ↦ joined st seated u t f (peer_id k) refl done (ground arith) v
            ]
      ]

  founded :
      (st : TrustState) → validate_chairs st.chairs st.quorum ≡ ok tt → IsFounding st → IsValid st
  unfolding Dict.lookup Set.contains
  founded st h v = record {
    owners = v.owners;
    quorum = record { seated = h; planned = λ i p k. absurd (ground (arith, v.no_successions)) };
    facts = record {
      exclusive = λ m c k. ground (arith, v.no_expulsions);
      registered = v.registered;
      profile_owner = λ m n p k l. absurd (ground (arith, v.no_profiles));
      served = λ i p k. absurd (ground (arith, v.no_permissions));
    };
    backing = record {
      past = λ i p k. absurd (ground (arith, v.no_successions));
      counted_once = λ i p k. absurd (ground (arith, v.no_successions));
      backed = λ i p k l m. absurd (ground (arith, v.no_successions));
    };
  }

  -- A genesis that is accepted hashes to the pinned digest and yields a valid state at its own digest;
  -- every state that the log reaches from there is valid.
  pub new-IsValid :
      (g : TrustGenesis) (pinned : String) (st t : TrustState)
      → new x g pinned ≡ ok st
      → Extends x st t
      → (digest (genesis_json g) ≡ pinned) × IsValid st × IsValid t
  unfolding new
  new-IsValid g pinned st t h e =
      elim (Result-cases (try_fold (add_founder x) (empty_state x g) g.founders)) [
        | inr (x', bad) ↦ absurd (ground arith)
        | inl (u, done) ↦
            let start =
              Ensures-at IsFounding _ u
                (Ensures-try_fold IsFounding (add_founder x) add_founder-IsFounding
                  (empty_state x g) g.founders (empty_state-IsFounding g))
                done in
            let valid : IsValid st =
              subst IsValid (ground arith) (founded u (ground arith) start) in
            (ground arith, valid, Extends-IsValid x valid e)
      ]
