-- ===== src/League/Once.antt =====
-- Histories of all leagues (crates/league/src/governance.rs and season.rs): what every action keeps of
-- each league, that scores after the end change only by a resolution, and that a score counts once.
use union_core.Prelude.{
  ℕ, ◌≤◌, ◌≡◌, ◌≢◌, ◌⊎◌, inl, inr, refl, sym, subst, arith, String, Bool, true, false, some,
  is_some, ◌∙◌, Bool-cases, ==_refl, text_key, ok, err, protocol, Option-cases, Result-cases,
}
use union_core.Prelude.Dict
use union_core.Prelude.Dict.{Dict}
use union_core.Prelude.Int.{ℤ}
use union_core.Governance.State.{Context}
use union_core.League.State.{
  League, LeagueState, LeagueAction, Dispute, Hashing, is_finished, is_registration,
}
use union_core.League.Seats.{update_pause}
use union_core.League.Scores.{score}
use union_core.League.Season.{
  create_season, schedule_league, pause_league, dispute_result, resolve_dispute, review,
}
use union_core.League.Step.{
  is_admin, player_of, command, transition, create_league, on_league, new_league,
}
use union_core.League.Tally.{score-known}
use union_core.League.Ledger.{rank, Follows, Follows-refl, Follows-same, update_pause-Follows}
use union_core.League.Orders.{command-Follows, score-Follows}
use union_core.League.Life.{Course, opening, played}
use union_core.League.Disputes.{resolved_for_good}

-- A dispute on the league that was resolved between the two states: it is resolved after, and before
-- it was not.
pub record IsReviewed (id : String) (st t : LeagueState) : Type 0 where
  pub dispute : String
  pub resolved : Dispute
  pub listed : Dict.lookup dispute t.disputes ≡ some resolved
  pub on_league : resolved.league ≡ id
  pub decided : is_some resolved.resolution ≡ true
  pub before :
      (old : Dispute) → Dict.lookup dispute st.disputes ≡ some old → is_some old.resolution ≡ false

-- What a history from `st` to `t` keeps of the league `id`, which was `l` and is `k`.
pub record Keeps (id : String) (st t : LeagueState) (l k : League) : Type 0 where
  pub officers : (k.organizer ≡ l.organizer) × (k.host ≡ l.host) × (k.scorer ≡ l.scorer)
  pub rules : k.rules ≡ l.rules
  pub phase : rank l.phase ≤ rank k.phase
  pub events :
      (e d : String) → Dict.lookup e l.score_events ≡ some d → Dict.lookup e k.score_events ≡ some d
  pub teams : is_registration l.phase ≡ false → k.teams ≡ l.teams
  -- After the end, scores change only by a resolution.
  pub final :
      is_finished l.phase ≡ true
      → ((k.player_scores ≡ l.player_scores) × (k.team_scores ≡ l.team_scores)) ⊎ IsReviewed id st t

Keeps-Follows : (id : String) (st t : LeagueState) (l k : League) → Follows l k → Keeps id st t l k
Keeps-Follows id st t l k f = record {
  officers = f.officers;
  rules = f.rules;
  phase = f.phase;
  events = f.events;
  teams = f.teams;
  final = λ h. inl (f.final h);
}

-- The league is there in the later state, and is kept.
abbrev pub IsKept : String → LeagueState → LeagueState → League → Type 0
IsKept id st t l = (k : League) × (Dict.lookup id t.leagues ≡ some k) × Keeps id st t l k

same-IsKept :
    (id : String) (st t : LeagueState) (l : League)
    → t.leagues ≡ st.leagues
    → Dict.lookup id st.leagues ≡ some l
    → IsKept id st t l
same-IsKept id st t l e h = (l, ground arith, Keeps-Follows id st t l l (Follows-refl l))

-- One league changes; another one stays.
put-IsKept :
    (id : String) (st t : LeagueState) (l : League) (j : String) (m n : League)
    → t.leagues ≡ Dict.insert j n st.leagues
    → Dict.lookup j st.leagues ≡ some m
    → Keeps j st t m n
    → Dict.lookup id st.leagues ≡ some l
    → IsKept id st t l
put-IsKept id st t l j m n e old f h = elim (text_key.same id j) [
  | yes same ↦
      let here : m ≡ l = ground arith in
      (
        n,
        ground (arith, Dict.lookup-insert id j n st.leagues),
        subst (λ i. Keeps i st t l n) (sym same) (subst (λ x. Keeps j st t x n) here f),
      )
  | no other ↦ (
    l,
    ground (arith, Dict.lookup-insert id j n st.leagues),
    Keeps-Follows id st t l l (Follows-refl l),
  )
]

resolve_dispute-IsKept :
    (st : LeagueState) (actor : String) (now_ms : ℕ) (admin : Bool) (i response : String)
    (ps ts : Dict String ℤ) (t : LeagueState) (id : String) (l : League)
    → resolve_dispute st actor now_ms admin i response ps ts ≡ ok t
    → Dict.lookup id st.leagues ≡ some l
    → IsKept id st t l
unfolding resolve_dispute
resolve_dispute-IsKept st actor now_ms admin i response ps ts t id l h found =
    elim (Option-cases (Dict.lookup i st.disputes)) [
      | inl missing ↦ absurd (ground arith)
      | inr (d, listed) ↦ elim (Option-cases (Dict.lookup d.league st.leagues)) [
        | inl missing ↦ absurd (ground arith)
        | inr (m, old) ↦ elim (Result-cases (review m ps ts)) [
          | inr (e, bad) ↦ absurd (ground arith)
          | inl (n, reviewed) ↦
              let closed : Dispute = record d {
                resolution = some (record {
                  reviewer = actor;
                  time_ms = now_ms;
                  response = response;
                  players = ps;
                  teams = ts;
                });
              } in
              let resolution : IsReviewed d.league st t = record {
                dispute = i;
                resolved = closed;
                listed = ground (arith, Dict.lookup-insert i i closed st.disputes, ==_refl i);
                on_league = refl;
                decided = refl;
                before = λ o e. ground arith;
              } in
              put-IsKept id st t l d.league m n (ground arith) old
                (unfold review in
                  record {
                    officers = ground arith;
                    rules = ground arith;
                    phase = ground arith;
                    events = λ e g k. ground arith;
                    teams = λ _. ground arith;
                    final = λ _. inr resolution;
                  })
                found
        ]
      ]
    ]

module _ (H : Hashing) where
  transition-IsKept :
      (st : LeagueState) (ctx : Context) (a : LeagueAction) (t : LeagueState) (id : String)
      (l : League)
      → transition H st ctx a ≡ ok t
      → Dict.lookup id st.leagues ≡ some l
      → IsKept id st t l
  transition-IsKept st ctx (LeagueAction.create_season i title) t id l h found =
      same-IsKept id st t l (unfold transition create_season in ground arith) found
  transition-IsKept st ctx (LeagueAction.schedule_league season i schedule) t id l h found =
      elim (Option-cases (Dict.lookup i st.leagues)) [
        | inl missing ↦ absurd (unfold transition schedule_league in ground arith)
        | inr (m, old) ↦
            let n : League = record m { schedule = some schedule } in
            put-IsKept id st t l i m n (unfold transition schedule_league in ground arith) old
              (Keeps-Follows i st t m n (
                Follows-same m n (refl, refl, refl) refl (omega arith) refl
                  (inr (refl, refl, refl))))
              found
      ]
  transition-IsKept st ctx (LeagueAction.pause_league i paused) t id l h found =
      elim (Option-cases (Dict.lookup i st.leagues)) [
        | inl missing ↦ absurd (unfold transition pause_league in ground arith)
        | inr (m, old) ↦
            let n : League = record m { manual_pause = paused } in
            let f = update_pause-Follows n ctx.now_ms in
            put-IsKept id st t l i m (update_pause n ctx.now_ms)
              (unfold transition pause_league in ground arith) old
              (Keeps-Follows i st t m (update_pause n ctx.now_ms) (record {
                officers = f.officers;
                rules = f.rules;
                phase = f.phase;
                events = f.events;
                teams = f.teams;
                final = f.final;
              }))
              found
      ]
  transition-IsKept st ctx (LeagueAction.dispute_result i league reason) t id l h found =
      same-IsKept id st t l (unfold transition dispute_result in ground arith) found
  transition-IsKept st ctx (LeagueAction.resolve_dispute i response ps ts) t id l h found =
      resolve_dispute-IsKept st ctx.actor ctx.now_ms (is_admin ctx) i response ps ts t id l
        (unfold transition in h) found
  transition-IsKept st ctx (LeagueAction.create_league i rules host scorer) t id l h found = (
    l,
    unfold transition create_league in
        ground (arith, Dict.lookup-insert id i (new_league rules ctx.actor host scorer) st.leagues),
    Keeps-Follows id st t l l (Follows-refl l),
  )
  transition-IsKept st ctx (LeagueAction.on i c) t id l h found =
      elim (Option-cases (Dict.lookup i st.leagues)) [
        | inl missing ↦ absurd (unfold transition on_league in ground arith)
        | inr (m, old) ↦ elim (Result-cases (command H m ctx (player_of ctx) c)) [
          | inr (e, bad) ↦ absurd (unfold transition on_league in ground arith)
          | inl (n, changed) ↦
              put-IsKept id st t l i m n (unfold transition on_league in ground arith) old
                (Keeps-Follows i st t m n (command-Follows H m ctx (player_of ctx) c n changed))
                found
        ]
      ]

  -- A dispute resolved earlier in a history is resolved at its end, and one resolved later was open.
  IsReviewed-later :
      (id : String) (st t u : LeagueState) → IsReviewed id st t → Course H t u → IsReviewed id st u
  IsReviewed-later id st t u r c = record {
    dispute = r.dispute;
    resolved = r.resolved;
    on_league = r.on_league;
    decided = r.decided;
    before = r.before;
    listed = resolved_for_good H t u r.dispute r.resolved c r.listed r.decided;
  }

  IsReviewed-since :
      (id : String) (st t u : LeagueState) → Course H st t → IsReviewed id t u → IsReviewed id st u
  IsReviewed-since id st t u c r = record {
    dispute = r.dispute;
    resolved = r.resolved;
    listed = r.listed;
    on_league = r.on_league;
    decided = r.decided;
    before = λ old h. elim (Bool-cases (is_some old.resolution)) [
      | inr open_ ↦ open_
      | inl done ↦ r.before old (resolved_for_good H st t r.dispute old c h done)
    ];
  }

  Keeps-trans :
      (id : String) (st t u : LeagueState) (l k m : League)
      → Course H st t
      → Course H t u
      → Keeps id st t l k
      → Keeps id t u k m
      → Keeps id st u l m
  Keeps-trans id st t u l k m c d f g = record {
    officers = ground (arith, f.officers, g.officers);
    rules = g.rules ∙ f.rules;
    phase = omega (arith, f.phase, g.phase);
    events = λ e x h. g.events e x (f.events e x h);
    teams = λ h. ground (arith, f.teams h, f.phase, g.teams);
    final = λ h. elim (f.final h) [
      | inr r ↦ inr (IsReviewed-later id st t u r d)
      | inl same ↦ elim (g.final (ground (arith, f.phase))) [
        | inr r ↦ inr (IsReviewed-since id st t u c r)
        | inl still ↦ inl (ground arith)
      ]
    ];
  }

  -- Whatever actions a state of leagues accepts, each of its leagues stays there: it keeps its
  -- officers and its rules, never goes back to an earlier phase, never forgets a score event or
  -- changes its digest, changes its teams only during the registration, and after its end its scores
  -- change only where a dispute on this league, not resolved before, has been resolved.
  pub season-Keeps :
      (st t : LeagueState) (id : String) (l : League)
      → Course H st t
      → Dict.lookup id st.leagues ≡ some l
      → (k : League) × (Dict.lookup id t.leagues ≡ some k) × Keeps id st t l k
  season-Keeps st t id l opening h = (l, h, Keeps-Follows id st st l l (Follows-refl l))
  season-Keeps st u id l (played {t} ctx a c e) h =
      let (k, found, kept) = season-Keeps st t id l c h in
      let (m, there, step) = transition-IsKept t ctx a u id k e found in
      (m, there, Keeps-trans id st t u l k m c (played ctx a opening e) kept step)

  -- Once a league has accepted a score event, then in every state that actions on any league, pauses,
  -- schedules and resolutions reach, the league is there, accepts the same event with the same
  -- payload and changes nothing, and refuses it with a payload of another digest.
  pub score-once :
      (l k : League) (actor event : String) (ps ts qs us : Dict String ℤ) (st t : LeagueState)
      (id : String)
      → score H l actor event ps ts ≡ ok k
      → Dict.lookup id st.leagues ≡ some k
      → Course H st t
      → H.digest_scores qs us ≢ H.digest_scores ps ts
      → (m : League) × (Dict.lookup id t.leagues ≡ some m)
        × (score H m actor event ps ts ≡ ok m)
        × (score H m actor event qs us
            ≡ err (protocol "score event id reused with different payload"))
  score-once l k actor event ps ts qs us st t id h found c other =
      let (m, there, f) = season-Keeps st t id k c found in
      let digest : String = H.digest_scores ps ts in
      let kept : Dict.lookup event m.score_events ≡ some digest =
        f.events event digest (score-known H l actor event ps ts k h) in
      let scorer = score-Follows H l actor event ps ts k h in
      unfold score in
      (
        m,
        there,
        ground (arith, kept, f.officers, scorer, ==_refl digest),
        ground (arith, kept, f.officers, scorer, ==_refl digest),
      )
