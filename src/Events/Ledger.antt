-- ===== src/Events/Ledger.antt =====
-- The ledger of points: an attestation credits what its receipt says, and nothing else.
use union_core.Prelude.{
  ℕ, ◌+◌, ◌≡◌, inl, inr, refl, sym, ap, ◌∙◌, subst, arith, String, true, false, some, ◌==◌,
  text_key, ok, try_fold, unwrap_or, is_some_and, [], ◌∷◌, if◌then◌else◌, Result-cases,
}
use union_core.Prelude.Dict
use union_core.Prelude.Dict.{Dict}
use union_core.Prelude.Entries
use union_core.Protocol.Ipld.{IpldBlock}
use union_core.Governance.State.{Context}
use union_core.Events.Organization.{
  OracleSource, OracleSourcePolicy, ActivityTotals, Attestation, ActivityReceipt, OrganizationState,
}
use union_core.Events.State.{EventsState, Libraries}
use union_core.Events.Points.{points_of}
use union_core.Events.Attest.{
  Tally, award, cell, set_cell, attest, first_tally, close_window, receipt_id, recent,
}
use union_core.Events.Caps.{award_lem}
use union_core.Events.Attested.{attest_lem, day_of}

-- What an account got, by the awards and the clubs of a receipt.
unfoldable pub credited : Dict String String → Dict String ℕ → String → String → ℕ
credited accounts awarded club member =
    if is_some_and (λ c. c == club) (Dict.lookup member accounts)
    then unwrap_or 0 (Dict.lookup member awarded)
    else 0

pub cell-set_cell :
    (points : Dict String (Dict String ℕ)) (club member c m : String) (v : ℕ)
    → cell (set_cell points club member v) c m
      ≡ (if c == club then (if m == member then v else cell points c m) else cell points c m)
cell-set_cell points club member c m v =
    let row = unwrap_or [] (Dict.lookup club points) in
    let a = Dict.lookup-insert c club (Dict.insert member v row) points in
    let b = Dict.lookup-insert m member v row in ground arith

-- Every account holds what it had, and what it is credited.
Balances : Dict String (Dict String ℕ) → Tally → Type 0
Balances before t =
    (club member : String)
    → cell t.points club member
      ≡ cell before club member + credited t.accounts t.awarded club member

award-Balances :
    (ctx : Context) (config : OracleSourcePolicy) (cap day : ℕ)
    (before : Dict String (Dict String ℕ)) (t : Tally) (name : String) (total : ActivityTotals)
    (s : Tally)
    → Balances before t
    → Dict.contains name t.accounts ≡ false
    → award ctx config cap day t (name, total) ≡ ok s
    → Balances before s
unfolding Balances credited
award-Balances ctx config cap day before t name total s b new e club member =
    let (m, points, used, is, low, room, left, daily, members, by, on, table, awarded, accounts) =
      award_lem ctx config cap day t name total s e in
    let was = b club member in
    let c = cell-set_cell t.points m.club name club member (cell t.points m.club name + points) in
    let d = Dict.lookup-insert member name points t.awarded in
    let f = Dict.lookup-insert member name m.club t.accounts in ground arith

-- The players who are not counted yet are in no account.
Fresh : Tally → Dict String ActivityTotals → Type 0
Fresh t ps = (name : String) → Dict.contains name ps ≡ true → Dict.contains name t.accounts ≡ false

-- One player less to count.
Fresh-tail :
    (t s : Tally) (name club : String) (total : ActivityTotals) (ps : Dict String ActivityTotals)
    → Fresh t ((name, total) ∷ ps)
    → Dict.contains name ps ≡ false
    → s.accounts ≡ Dict.insert name club t.accounts
    → Fresh s ps
unfolding Fresh Dict.lookup
Fresh-tail t s name club total ps fresh alone accounts other is =
    let rest = fresh other in
    let c = Dict.contains-insert other name club t.accounts in ground arith

Fresh-head :
    (t : Tally) (name : String) (total : ActivityTotals) (ps : Dict String ActivityTotals)
    → Fresh t ((name, total) ∷ ps)
    → Dict.contains name t.accounts ≡ false
unfolding Fresh Dict.lookup
Fresh-head t name total ps fresh = fresh name (ground arith)

try_fold-Balances :
    (ctx : Context) (config : OracleSourcePolicy) (cap day : ℕ)
    (before : Dict String (Dict String ℕ)) (t : Tally) (ps : Dict String ActivityTotals) (s : Tally)
    → Balances before t
    → Fresh t ps
    → Entries.IsDistinct ps
    → try_fold (award ctx config cap day) t ps ≡ ok s
    → Balances before s
unfolding try_fold Fresh
try_fold-Balances ctx config cap day before t [] s b fresh d e =
    subst (Balances before) (ground arith) b
try_fold-Balances ctx config cap day before t ((name, total) ∷ ps) s b fresh d e =
    elim (Result-cases (award ctx config cap day t (name, total))) [
      | inr (x, bad) ↦ absurd (ground arith)
      | inl (mid, one) ↦
          let (
            m, points, used, is, low, room, left, daily, members, by, on, table, awarded, accounts,
          ) =
            award_lem ctx config cap day t name total mid one in
          try_fold-Balances ctx config cap day before mid ps s
            (award-Balances ctx config cap day before t name total mid b
              (Fresh-head t name total ps fresh) one)
            (Fresh-tail t mid name m.club total ps fresh d.0 accounts) d.1 (ground arith)
    ]

first_tally-Fresh :
    (org : OrganizationState) (source : OracleSource) (day : ℕ) (ps : Dict String ActivityTotals)
    → Fresh (first_tally org source day) ps
unfolding Fresh Dict.lookup
first_tally-Fresh org source day ps name is = refl

first_tally-Balances :
    (org : OrganizationState) (source : OracleSource) (day : ℕ)
    → Balances org.points (first_tally org source day)
unfolding Balances credited Dict.lookup
first_tally-Balances org source day club member = omega arith

receipt-lookup :
    (k : String) (r : ActivityReceipt) (m : Dict String ActivityReceipt)
    → Dict.lookup k (Dict.insert k r m) ≡ some r
receipt-lookup k r m = ground (arith, Dict.lookup-insert k k r m)

-- An accepted attestation, of players who are each named once, leaves a receipt; every account of every
-- club holds what it held before, and what the receipt's accounts and awards give it.
pub attest-credits :
    (L : Libraries) (st : EventsState) (ctx : Context) (a : Attestation) (evidence : IpldBlock)
    (u : EventsState)
    → attest L st ctx a evidence ≡ ok u
    → Entries.IsDistinct a.players
    → (r : ActivityReceipt) × (Dict.lookup (receipt_id a) u.organization.activity_receipts ≡ some r)
      × (r.attestation ≡ a)
      × ((club member : String)
          → points_of u club member
            ≡ points_of st club member + credited r.accounts r.awarded club member)
unfolding close_window Balances
attest-credits L st ctx a evidence u h d =
    let x = attest_lem L st ctx a evidence u h in
    let day = day_of ctx in
    let from = first_tally st.organization x.source day in
    let t = x.tally in
    let b =
      try_fold-Balances ctx x.source.config x.policy.daily_member_cap day st.organization.points
        from a.players t (first_tally-Balances st.organization x.source day)
        (first_tally-Fresh st.organization x.source day a.players) d x.counted in
    let r : ActivityReceipt = record {
      accounts = t.accounts;
      credited_ms = ctx.now_ms;
      attestation = a;
      evidence = evidence.cid;
      credited_day = day;
      awarded = t.awarded;
    } in
    (
      r,
      subst
          (λ (v : EventsState).
            Dict.lookup (receipt_id a) v.organization.activity_receipts ≡ some r)
          (sym x.result)
          (receipt-lookup (receipt_id a) r (recent ctx.now_ms st.organization.activity_receipts)),
      refl,
      λ club member. ap (λ (v : EventsState). points_of v club member) x.result ∙ b club member,
    )
