-- ===== src/Events/Attested.antt =====
-- What an accepted attestation went through, and what it leaves.
use union_core.Prelude.{
  ℕ, ◌+◌, ◌-◌, ◌/◌, ◌≤◌, ◌<◌, ◌≡◌, refl, sym, ap, ◌∙◌, subst, arith, max, String, false, nat_key,
  some, text_key, ok, for_each, try_fold, length, Ensures-at, Ensures-bind, Ensures-ok_or,
  Ensures-refuse_if, Ensures-then, not_found, denied, capacity, leb,
}
use union_core.Prelude.Dict
use union_core.Prelude.Dict.{Dict}
use union_core.Prelude.Words.{checked_sub-some, checked_sub, saturating_sub}
use union_core.Protocol.Ipld.{IpldBlock}
use union_core.Governance.State.{Context}
use union_core.Events.Organization.{
  OracleSource, DayUsage, ActivityPolicy, Attestation, ActivityEvidence,
}
use union_core.Events.State.{EventsState, Libraries, max_records}
use union_core.Events.Points.{usage_at, slice_ms, day_ms}
use union_core.Events.Attest.{
  Tally, award, first_tally, attest, verify, check_player, bad_window, close_window, recent,
}
use union_core.Events.Caps.{try_fold-IsCapped, IsCapped-refl, day_points}

abbrev pub day_of : Context → ℕ
day_of ctx = ctx.now_ms / day_ms

-- What an accepted attestation went through.
pub record Attested (L : Libraries) (st : EventsState) (ctx : Context) (a : Attestation)
    (evidence : IpldBlock) (u : EventsState) : Type 0 where
  pub source : OracleSource
  pub policy : ActivityPolicy
  pub duration : ℕ
  pub header : ActivityEvidence
  pub tally : Tally
  pub has_source : Dict.lookup a.source st.organization.oracle_sources ≡ some source
  pub has_policy : st.organization.activity_policy ≡ some policy
  pub lasts : checked_sub a.window_end_ms a.window_start_ms ≡ some duration
  pub window : bad_window source ctx a duration ≡ false
  pub players : for_each (check_player ctx source.config (duration / slice_ms)) a.players ≡ ok tt
  pub verified : verify L evidence a ≡ ok header
  pub counted :
      try_fold
        (award ctx source.config policy.daily_member_cap (day_of ctx))
        (first_tally st.organization source (day_of ctx))
        a.players
      ≡ ok tally
  pub result :
      u ≡ record st { organization = close_window st.organization ctx source a evidence.cid tally }

pub attest_lem :
    (L : Libraries) (st : EventsState) (ctx : Context) (a : Attestation) (evidence : IpldBlock)
    (u : EventsState)
    → attest L st ctx a evidence ≡ ok u
    → Attested L st ctx a evidence u
unfolding attest
attest_lem L st ctx a evidence u h =
    let P = Attested L st ctx a evidence in
    Ensures-at P (attest L st ctx a evidence) u
      (Ensures-ok_or P (Dict.lookup a.source st.organization.oracle_sources) not_found _
        λ source is. Ensures-ok_or P st.organization.activity_policy denied _ λ policy set.
          Ensures-ok_or P (checked_sub a.window_end_ms a.window_start_ms) denied _ λ duration lasts.
            Ensures-refuse_if P (bad_window source ctx a duration) denied _ λ window.
              Ensures-refuse_if P
                (leb max_records (length (recent ctx.now_ms st.organization.activity_receipts)))
                capacity _
                λ room.
                  Ensures-then P
                    (for_each (check_player ctx source.config (duration / slice_ms)) a.players) _
                    λ checked. Ensures-bind P (verify L evidence a) _ λ header good.
                      Ensures-bind P
                        (try_fold (award ctx source.config policy.daily_member_cap (day_of ctx))
                          (first_tally st.organization source (day_of ctx)) a.players)
                        _
                        λ t counted. record {
                          source = source;
                          policy = policy;
                          duration = duration;
                          header = header;
                          tally = t;
                          has_source = is;
                          has_policy = set;
                          lasts = lasts;
                          window = window;
                          players = checked;
                          verified = good;
                          counted = counted;
                          result = refl;
                        })
      h

bad_window-false :
    (source : OracleSource) (ctx : Context) (a : Attestation) (duration : ℕ)
    → bad_window source ctx a duration ≡ false
    → (source.last_window_end_ms ≤ a.window_start_ms)
      × (a.window_end_ms ≤ ctx.now_ms)
      × (1 ≤ duration)
      × (source.config.oracle_device ≡ ctx.actor)
unfolding bad_window
bad_window-false source ctx a duration h = (ground arith, ground arith, ground arith, ground arith)

lookup-insert_same :
    (k : String) (v : OracleSource) (m : Dict String OracleSource)
    → Dict.lookup k (Dict.insert k v m) ≡ some v
lookup-insert_same k v m = ground (arith, Dict.lookup-insert k k v m)

-- A source after an attestation: its window is later than the last, and ends by now.
pub attest-source :
    (L : Libraries) (st : EventsState) (ctx : Context) (a : Attestation) (evidence : IpldBlock)
    (u : EventsState) (x : Attested L st ctx a evidence u)
    → (Dict.lookup a.source u.organization.oracle_sources
        ≡ some (record x.source { last_window_end_ms = a.window_end_ms; daily = x.tally.daily }))
      × (x.source.last_window_end_ms ≤ a.window_start_ms)
      × (a.window_start_ms < a.window_end_ms)
      × (a.window_end_ms ≤ ctx.now_ms)
unfolding close_window
attest-source L st ctx a evidence u x =
    let (later, past, some_, by) = bad_window-false x.source ctx a x.duration x.window in
    let long = checked_sub-some a.window_end_ms a.window_start_ms x.duration x.lasts in
    let source : OracleSource = record x.source {
      last_window_end_ms = a.window_end_ms;
      daily = x.tally.daily;
    } in
    (
      subst (λ (v : EventsState). Dict.lookup a.source v.organization.oracle_sources ≡ some source)
          (sym x.result) (lookup-insert_same a.source source st.organization.oracle_sources),
      later,
      omega arith,
      past,
    )

some_path {ℓ} : {A : Type ℓ} {a b : A} → some a ≡ some b → a ≡ b
some_path h = ground arith

sum_le : (n r cap was : ℕ) → n + r ≡ was + (cap - was) → n ≤ max cap was
sum_le n r cap was h = omega arith

-- An accepted attestation leaves the points of its day within the caps: those of the source
-- are at most its daily cap, and those of any member at most the daily cap of a member, or what they
-- were before where a cap was lowered; nobody's points of the day fall.
pub attest-caps :
    (L : Libraries) (st : EventsState) (ctx : Context) (a : Attestation) (evidence : IpldBlock)
    (u : EventsState) (source : OracleSource) (policy : ActivityPolicy)
    → attest L st ctx a evidence ≡ ok u
    → Dict.lookup a.source st.organization.oracle_sources ≡ some source
    → st.organization.activity_policy ≡ some policy
    → ((after : OracleSource) × (Dict.lookup a.source u.organization.oracle_sources ≡ some after)
        × (after.daily.points
            ≤ max source.config.daily_source_cap (usage_at source.daily (day_of ctx)).points))
      × ((member : String)
          → (day_points st.organization.activity_members member (day_of ctx)
              ≤ day_points u.organization.activity_members member (day_of ctx))
            × (day_points u.organization.activity_members member (day_of ctx)
                ≤ max policy.daily_member_cap
                    (day_points st.organization.activity_members member (day_of ctx))))
unfolding close_window saturating_sub
attest-caps L st ctx a evidence u source policy h is set =
    let x = attest_lem L st ctx a evidence u h in
    let (same, later, lasts, past) = attest-source L st ctx a evidence u x in
    let day = day_of ctx in
    let from = first_tally st.organization x.source day in
    let c =
      try_fold-IsCapped ctx x.source.config x.policy.daily_member_cap day from from a.players
        x.tally (IsCapped-refl x.policy.daily_member_cap day from) x.counted in
    let source_ : x.source ≡ source = some_path (sym x.has_source ∙ is) in
    let policy_ : x.policy ≡ policy = some_path (sym x.has_policy ∙ set) in
    let members_ : u.organization.activity_members ≡ x.tally.members =
      ap (λ (v : EventsState). v.organization.activity_members) x.result in
    (
      (
        record x.source { last_window_end_ms = a.window_end_ms; daily = x.tally.daily },
        same,
        subst
            (λ (s : OracleSource).
              x.tally.daily.points ≤ max s.config.daily_source_cap (usage_at s.daily day).points)
            source_ (sum_le _ _ _ _ c.source_capped),
      ),
      λ member.
          subst
            (λ (m : Dict String DayUsage).
              (day_points st.organization.activity_members member day ≤ day_points m member day)
              × (day_points m member day
                  ≤ max policy.daily_member_cap
                      (day_points st.organization.activity_members member day)))
            (sym members_)
            (
              c.grown member,
              subst
                  (λ (p : ActivityPolicy).
                    day_points x.tally.members member day
                    ≤ max p.daily_member_cap
                        (day_points st.organization.activity_members member day))
                  policy_ (c.members_capped member),
            ),
    )
