-- ===== src/Events/Settled.antt =====
-- What settling an event gives: awards by rank, each paid once (crates/events/src/workflows.rs).
use union_core.Prelude.{
  ℕ, ◌+◌, ◌≡◌, inl, inr, refl, sym, ap, ◌∙◌, subst, arith, String, true, false, none, some, ◌==◌,
  text_key, nat_key, ok, denied, capacity, try_fold, unwrap_or, is_some_and, ltb, [], ◌∷◌,
  if◌then◌else◌, Bool-cases, Option-cases, Result-cases, Ensures, Ensures-at, Ensures-try_fold,
  Ensures-ok_or,
}
use union_core.Prelude.Dict
use union_core.Prelude.Dict.{Dict}
use union_core.Prelude.Entries
use union_core.Prelude.Set.{Set}
use union_core.Prelude.Int.{ℤ, pos, checked_add_i64}
use union_core.Prelude.Words.{checked_add}
use union_core.Governance.State.{Context}
use union_core.Events.Organization.{Award, Plan, RewardRule}
use union_core.Events.State.{EventsState}
use union_core.Events.Points.{points_of}
use union_core.Events.Attest.{cell}
use union_core.Events.Ledger.{cell-set_cell}
use union_core.Events.Plans.{is_online}
use union_core.Events.Games.{
  add_award, add_game, add_score, event_scores, new_award, pay, rank_of, settle, zero_scores,
}

-- What the awards give an account.
unfoldable pub paid : Dict String Award → String → String → ℕ
paid awards club member = elim (Dict.lookup member awards) [
  | none ↦ 0
  | some a ↦ if a.club == club then a.points else 0
]

-- The award is that of a ranked score, by the rule of the member's club.
pub record Deserved (enrolled : Dict String String) (p : Plan) (scores : Dict String ℤ)
    (member : String) (a : Award) : Type 0 where
  pub score : ℤ
  pub club : String
  pub rule : RewardRule
  pub scored : Dict.lookup member scores ≡ some score
  pub of_club : Dict.lookup member enrolled ≡ some club
  pub by_rule : Dict.lookup club p.rewards ≡ some rule
  pub placed : is_some_and (λ n. ltb n (rank_of scores score)) rule.top_places ≡ false
  pub given : a ≡ new_award club member rule

abbrev IsNamed : Dict String Award → Type 0
IsNamed awards = Entries.All (λ k (a : Award). a.member ≡ k) awards

pay-cell :
    (points : Dict String (Dict String ℕ)) (a : Award) (q : Dict String (Dict String ℕ))
    (club member : String)
    → pay points a ≡ ok q
    → cell q club member ≡ (
        if club == a.club
        then (if member == a.member
            then cell points a.club a.member + a.points
            else cell points club member)
        else cell points club member)
unfolding pay checked_add
pay-cell points a q club member h =
    let c =
      cell-set_cell points a.club a.member club member (cell points a.club a.member + a.points) in
    ground arith

-- Each award is paid once, to its account.
pay-all :
    (awards : Dict String Award) (points q : Dict String (Dict String ℕ)) (club member : String)
    → Entries.IsDistinct awards
    → IsNamed awards
    → try_fold pay points (Dict.values awards) ≡ ok q
    → cell q club member ≡ cell points club member + paid awards club member
unfolding try_fold paid Dict.values Dict.lookup
pay-all [] points q club member d n h = ground arith
pay-all ((k, a) ∷ awards) points q club member d n h = elim (Result-cases (pay points a)) [
  | inr (e, bad) ↦ absurd (ground arith)
  | inl (mid, one) ↦
      let rest = pay-all awards mid q club member d.1 n.1 (ground arith) in
      let here = pay-cell points a mid club member one in
      let name = n.0 in
      let alone = d.0 in
      elim (Bool-cases (member == k)) [
        | inl same ↦ elim (Option-cases (Dict.lookup member awards)) [
          | inl none_ ↦ ground arith
          | inr (b, found) ↦ absurd (ground arith)
        ]
        | inr other ↦ ground arith
      ]
]

-- The awards of the loop: distinct, named, and deserved.
record AreDeserved (enrolled : Dict String String) (p : Plan) (scores : Dict String ℤ)
    (awards : Dict String Award) : Type 0 where
  distinct : Entries.IsDistinct awards
  named : IsNamed awards
  deserved : Entries.All (Deserved enrolled p scores) awards

add_award-AreDeserved :
    (enrolled : Dict String String) (p : Plan) (scores : Dict String ℤ) (awards : Dict String Award)
    (member : String) (score : ℤ) (next : Dict String Award)
    → AreDeserved enrolled p scores awards
    → Dict.lookup member scores ≡ some score
    → add_award enrolled p scores awards (member, score) ≡ ok next
    → AreDeserved enrolled p scores next
unfolding add_award
add_award-AreDeserved enrolled p scores awards member score next a scored h =
    elim (Option-cases (Dict.lookup member enrolled)) [
      | inl none_ ↦ absurd (ground arith)
      | inr (club, of_club) ↦ elim (Option-cases (Dict.lookup club p.rewards)) [
        | inl none_ ↦ absurd (ground arith)
        | inr (rule, by_rule) ↦
            elim (Bool-cases (is_some_and (λ n. ltb n (rank_of scores score)) rule.top_places)) [
              | inl late ↦ subst (AreDeserved enrolled p scores) (ground arith) a
              | inr placed ↦
                  let given = new_award club member rule in
                  let goes : Dict.insert member given awards ≡ next = ground arith in
                  subst (AreDeserved enrolled p scores) goes (record {
                    distinct = Entries.insert-IsDistinct member given awards a.distinct;
                    named =
                        Entries.All-insert (λ k (b : Award). b.member ≡ k) member given awards refl
                          a.named;
                    deserved =
                        Entries.All-insert (Deserved enrolled p scores) member given awards
                          (record {
                            score = score;
                            club = club;
                            rule = rule;
                            scored = scored;
                            of_club = of_club;
                            by_rule = by_rule;
                            placed = placed;
                            given = refl;
                          })
                          a.deserved;
                  })
            ]
      ]
    ]

try_fold-AreDeserved :
    (enrolled : Dict String String) (p : Plan) (scores ps : Dict String ℤ)
    (awards next : Dict String Award)
    → AreDeserved enrolled p scores awards
    → Entries.All (λ k s. Dict.lookup k scores ≡ some s) ps
    → try_fold (add_award enrolled p scores) awards ps ≡ ok next
    → AreDeserved enrolled p scores next
unfolding try_fold
try_fold-AreDeserved enrolled p scores [] awards next a all h =
    subst (AreDeserved enrolled p scores) (ground arith) a
try_fold-AreDeserved enrolled p scores ((k, s) ∷ ps) awards next a all h =
    elim (Result-cases (add_award enrolled p scores awards (k, s))) [
      | inr (e, bad) ↦ absurd (ground arith)
      | inl (mid, one) ↦
          try_fold-AreDeserved enrolled p scores ps mid next
            (add_award-AreDeserved enrolled p scores awards k s mid a all.0 one) all.1
            (ground arith)
    ]

-- The scores of an event name each member once.
zero_scores-IsDistinct :
    (ms : Set String) (scores : Dict String ℤ)
    → Entries.IsDistinct scores
    → Entries.IsDistinct (zero_scores ms scores)
unfolding zero_scores
zero_scores-IsDistinct [] scores d = d
zero_scores-IsDistinct (m ∷ ms) scores d =
    zero_scores-IsDistinct ms (Dict.insert m (pos 0) scores)
      (Entries.insert-IsDistinct m (pos 0) scores d)

add_score-IsDistinct :
    (scores : Dict String ℤ) (e : String × ℤ)
    → Entries.IsDistinct scores
    → Ensures Entries.IsDistinct (add_score scores e)
unfolding add_score
add_score-IsDistinct scores (m, s) d =
    Ensures-ok_or Entries.IsDistinct (checked_add_i64 (unwrap_or (pos 0) (Dict.lookup m scores)) s)
      capacity (λ sum. ok (Dict.insert m sum scores))
      λ sum h. Entries.insert-IsDistinct m sum scores d

add_game-IsDistinct :
    (p : Plan) (scores : Dict String ℤ) (game : String)
    → Entries.IsDistinct scores
    → Ensures Entries.IsDistinct (add_game p scores game)
unfolding add_game
add_game-IsDistinct p scores game d =
    Ensures-ok_or Entries.IsDistinct (Dict.lookup game p.games) denied _ λ run is.
      Ensures-ok_or Entries.IsDistinct run.results denied _ λ results has.
        Ensures-try_fold Entries.IsDistinct add_score add_score-IsDistinct scores results d

event_scores-IsDistinct :
    (st : EventsState) (id : String) (p : Plan) (scores : Dict String ℤ)
    → event_scores st id p ≡ ok scores
    → Entries.IsDistinct scores
unfolding event_scores
event_scores-IsDistinct st id p scores h = elim (Bool-cases (is_online p.kind)) [
  | inl games ↦
      Ensures-at Entries.IsDistinct (try_fold (add_game p) [] p.selected) scores
        (Ensures-try_fold Entries.IsDistinct (add_game p) (add_game-IsDistinct p) [] p.selected tt)
        (ground arith)
  | inr there ↦
      let members = unwrap_or [] (Dict.lookup id st.checkins) in
      let same : zero_scores members [] ≡ scores = ground arith in
      subst Entries.IsDistinct same (zero_scores-IsDistinct members [] tt)
]

plan-lookup :
    (k : String) (p : Plan) (m : Dict String Plan) → Dict.lookup k (Dict.insert k p m) ≡ some p
plan-lookup k p m = ground (arith, Dict.lookup-insert k k p m)

-- Settling succeeds only for an event that is done and not settled yet. The plan then has its awards
-- and is settled; each award is that of a member with a score, by the rule of the club that the member
-- enrolled for, and within its places; every account of every club holds what it held before, and
-- what the awards give it.
pub settle-pays :
    (st : EventsState) (ctx : Context) (id : String) (p : Plan) (u : EventsState)
    → settle st ctx id ≡ ok u
    → Dict.lookup id st.organization.plans ≡ some p
    → (p.settled ≡ false)
      × (scores : Dict String ℤ) × (awards : Dict String Award) × (event_scores st id p ≡ ok scores)
      × (Dict.lookup id u.organization.plans ≡ some (record p { awards = awards; settled = true }))
      × Entries.All
          (Deserved (unwrap_or [] (Dict.lookup id st.organization.enrollment)) p scores)
          awards
      × ((club member : String)
          → points_of u club member ≡ points_of st club member + paid awards club member)
unfolding settle
settle-pays st ctx id p u h is =
    let enrolled = unwrap_or [] (Dict.lookup id st.organization.enrollment) in
    elim (Option-cases (Dict.lookup id st.events)) [
      | inl missing ↦ absurd (ground arith)
      | inr (e, found) ↦ elim (Result-cases (event_scores st id p)) [
        | inr (x, bad) ↦ absurd (ground arith)
        | inl (scores, scored) ↦
            elim (Result-cases (try_fold (add_award enrolled p scores) [] scores)) [
              | inr (x, bad) ↦ absurd (ground arith)
              | inl (awards, given) ↦
                  elim (Result-cases (try_fold pay st.organization.points (Dict.values awards))) [
                    | inr (x, bad) ↦ absurd (ground arith)
                    | inl (points, all_paid) ↦
                        let a =
                          try_fold-AreDeserved enrolled p scores scores [] awards
                            (record { distinct = tt; named = tt; deserved = tt })
                            (Entries.All-lookup scores
                              (event_scores-IsDistinct st id p scores scored))
                            given in
                        let settled : Plan = record p { awards = awards; settled = true } in
                        let first : p.settled ≡ false = ground arith in
                        let points_ : u.organization.points ≡ points = ground arith in
                        let plans_ : u.organization.plans
                            ≡ Dict.insert id settled st.organization.plans =
                          ground arith in
                        (
                          first,
                          scores,
                          awards,
                          scored,
                          subst (λ (m : Dict String Plan). Dict.lookup id m ≡ some settled)
                              (sym plans_) (plan-lookup id settled st.organization.plans),
                          a.deserved,
                          λ club member.
                              ap (λ (t : Dict String (Dict String ℕ)). cell t club member) points_
                              ∙ pay-all awards st.organization.points points club member a.distinct
                                  a.named all_paid,
                        )
                  ]
            ]
      ]
    ]
