-- ===== src/Trust/Step/Next.antt =====
-- The state that a step leads to, as a function of the step.
use union_core.Prelude.{String, Bool, true, false, ◌≡◌, text_key, pair_key, []}
use union_core.Prelude.Dict
use union_core.Prelude.Set
use union_core.Prelude.Set.{Set}
use union_core.Protocol.Schema.{TrustAction}
use union_core.Trust.State.{TrustState}
use union_core.Trust.Chairs.{signing_chairs}
use union_core.Trust.Step.{
  Step, bound, enrolled, with_succession, confirmed, expelled, device_added, device_revoked,
  profile_bound, succession_proposed, succession_approved, succession_executed,
  succession_cancelled, verifier_authorized, verifier_revoked, service_registered,
  permission_granted, permission_revoked,
}

module _ {parses : String → Bool} {st : TrustState} {s : Set String} where
  abbrev pub next : {a : TrustAction} {t : TrustState} → Step parses st s a t → TrustState
  next (confirmed m c d e v u h1 h2 h3 h4 h5 h6 h7) = enrolled u m c
  next (expelled m c h1 h2 e) = record st {
    memberships = Set.remove (m, c) st.memberships;
    revoked_memberships = Set.insert (m, c) st.revoked_memberships;
  }
  next (device_added m d h1 h2 h3 b e) = bound st m d
  next (device_revoked m d ds h1 h2 h3 e) = record st {
    members = Dict.insert m (Set.remove d ds) st.members;
    revoked_devices = Set.insert d st.revoked_devices;
  }
  next (profile_bound m c p h1 h2 h3 h4 h5 e) = record st { profiles = Dict.insert m p st.profiles }
  next (succession_proposed i c q h1 h2 h3 h4 h5 h6 e) = with_succession st i (record {
    chairs = c;
    quorum = q;
    epoch = st.chair_epoch;
    approvals = [];
    accepted = [];
    closed = false;
  })
  next (succession_approved i p o h1 e) = with_succession st i (record p {
    approvals = Set.extend (signing_chairs st st.chairs s) p.approvals;
    accepted = Set.extend (signing_chairs st p.chairs s) p.accepted;
  })
  next (succession_executed i p n o h1 h2 h3 h4 e) = record st {
    chairs = p.chairs;
    quorum = p.quorum;
    chair_epoch = n;
    successions = Dict.insert i (record p { closed = true }) st.successions;
  }
  next (succession_cancelled i p h1 o e) = with_succession st i (record p { closed = true })
  next (verifier_authorized i c d v h1 h2 h3 h4 h5 h6 h7 h8 h9 e) = record st {
    verifiers =
        Dict.insert i (record { club = c; device = d; evidence = v; revoked = false }) st.verifiers;
  }
  next (verifier_revoked i v h1 h2 e) = record st {
    verifiers = Dict.insert i (record v { revoked = true }) st.verifiers;
  }
  next (service_registered v a c h1 h2 h3 h4 h5 h6 e) = record st {
    services = Dict.insert v (record { audience = a; club = c }) st.services;
  }
  next (permission_granted i m v p w h1 h2 h3 h4 h5 h6 h7 e) = record st {
    permissions =
        Dict.insert i (record { member = m; service = v; permission = p; revoked = false })
          st.permissions;
  }
  next (permission_revoked i p w h1 h2 h3 e) = record st {
    permissions = Dict.insert i (record p { revoked = true }) st.permissions;
  }

  pub next_lem : {a : TrustAction} {t : TrustState} (x : Step parses st s a t) → t ≡ next x
  next_lem (confirmed m c d e v u h1 h2 h3 h4 h5 h6 h7) = h7
  next_lem (expelled m c h1 h2 e) = e
  next_lem (device_added m d h1 h2 h3 b e) = e
  next_lem (device_revoked m d ds h1 h2 h3 e) = e
  next_lem (profile_bound m c p h1 h2 h3 h4 h5 e) = e
  next_lem (succession_proposed i c q h1 h2 h3 h4 h5 h6 e) = e
  next_lem (succession_approved i p o h1 e) = e
  next_lem (succession_executed i p n o h1 h2 h3 h4 e) = e
  next_lem (succession_cancelled i p h1 o e) = e
  next_lem (verifier_authorized i c d v h1 h2 h3 h4 h5 h6 h7 h8 h9 e) = e
  next_lem (verifier_revoked i v h1 h2 e) = e
  next_lem (service_registered v a c h1 h2 h3 h4 h5 h6 e) = e
  next_lem (permission_granted i m v p w h1 h2 h3 h4 h5 h6 h7 e) = e
  next_lem (permission_revoked i p w h1 h2 h3 e) = e
