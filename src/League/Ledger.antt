-- ===== src/League/Ledger.antt =====
-- A league over a sequence of actions: its officers and rules, its phase, its score events.
use union_core.Prelude.{
  ℕ, suc, zero, ◌≤◌, ◌≡◌, ◌⊎◌, inl, inr, refl, ◌∙◌, subst, arith, String, Bool, true, false, ◌&&◌,
  none, some, text_key, ok, List, [], ◌∷◌, length, is_some, is_none_or, filter, ltb, Bool-cases,
  Option-cases, Result-cases,
}
use union_core.Prelude.Dict
use union_core.Prelude.Dict.{Dict}
use union_core.Prelude.Int.{ℤ}
use union_core.Prelude.Words.{checked_add, saturating_add}
use union_core.Governance.State.{Context}
use union_core.League.State.{
  League, Team, Seat, Phase, ConnectionHealth, Hashing, is_finished, is_registration, grace,
}
use union_core.League.Seats.{
  drawn, presence, resolve_expired, replace_expired, refill, mark_member, tick, update_pause,
  resume, runs, fill_vacancies, fill_teams, fill_team, take_seat,
}
use union_core.League.Scores.{record_score, enter_teams, enter_team}

-- The phases in their order.
abbrev pub rank : Phase → ℕ
rank Phase.registration = 0
rank Phase.playing = 1
rank Phase.finished = 2

-- What every action on a league leaves as it is, or only moves on.
pub record Follows (l k : League) : Type 0 where
  pub officers : (k.organizer ≡ l.organizer) × (k.host ≡ l.host) × (k.scorer ≡ l.scorer)
  pub rules : k.rules ≡ l.rules
  pub phase : rank l.phase ≤ rank k.phase
  pub events :
      (e d : String) → Dict.lookup e l.score_events ≡ some d → Dict.lookup e k.score_events ≡ some d
  pub final :
      is_finished l.phase ≡ true
      → (k.player_scores ≡ l.player_scores) × (k.team_scores ≡ l.team_scores)
  -- Teams change only during the registration.
  pub teams : is_registration l.phase ≡ false → k.teams ≡ l.teams

pub Follows-refl : (l : League) → Follows l l
Follows-refl l = record {
  officers = (refl, refl, refl);
  rules = refl;
  phase = omega arith;
  events = λ e d h. h;
  final = λ _. (refl, refl);
  teams = λ _. refl;
}

pub Follows-trans : (a b c : League) → Follows a b → Follows b c → Follows a c
Follows-trans a b c f g = record {
  officers = ground (arith, f.officers, g.officers);
  rules = g.rules ∙ f.rules;
  phase = omega (arith, f.phase, g.phase);
  events = λ e d h. g.events e d (f.events e d h);
  final = λ h. ground (arith, f.final h, f.phase, g.final);
  teams = λ h. ground (arith, f.teams h, f.phase, g.teams);
}

-- A change of none of this.
pub Follows-same :
    (l k : League)
    → (k.organizer ≡ l.organizer) × (k.host ≡ l.host) × (k.scorer ≡ l.scorer)
    → k.rules ≡ l.rules
    → rank l.phase ≤ rank k.phase
    → k.score_events ≡ l.score_events
    → (is_registration l.phase ≡ true)
      ⊎ ((k.player_scores ≡ l.player_scores)
          × (k.team_scores ≡ l.team_scores)
          × (k.teams ≡ l.teams))
    → Follows l k
Follows-same l k e1 e2 e3 e4 e5 = record {
  officers = e1;
  rules = e2;
  phase = e3;
  events = λ e d h. ground arith;
  final = λ h. ground arith;
  teams = λ h. ground arith;
}

take_seat-Follows :
    (l : League) (seats : List Seat) (p : String) (k : League) (s : List Seat)
    → take_seat l seats p ≡ ok (k, s)
    → Follows l k
unfolding take_seat checked_add
take_seat-Follows l seats p k s h =
    Follows-same l k (ground arith) (ground arith) (ground arith) (ground arith) (ground arith)

module _ (H : Hashing) where
  fill_team-drawn :
      (n : ℕ) (l : League) (id : String) (seats : List Seat) (k : League) (s : List Seat)
      → ((m : League) (r : List Seat) → fill_team H n m id r ≡ ok (k, s) → Follows m k)
      → (t : Team) → Dict.lookup id l.teams ≡ some t
      → ltb (length seats) l.rules.seats ≡ true
      → (ds : List String) → drawn H l t seats ≡ ds
      → fill_team H (suc n) l id seats ≡ ok (k, s)
      → Follows l k
  unfolding fill_team
  fill_team-drawn n l id seats k s ih t found vacant [] e h =
      subst (Follows l) (let e : l ≡ k = ground arith in e) (Follows-refl l)
  fill_team-drawn n l id seats k s ih t found vacant (p ∷ ps) e h =
      elim (Result-cases (take_seat l seats p)) [
        | inr (x, bad) ↦ absurd (ground arith)
        | inl ((m, r), taken) ↦
            Follows-trans l m k (take_seat-Follows l seats p m r taken) (ih m r (ground arith))
      ]

  fill_team-Follows :
      (n : ℕ) (l : League) (id : String) (seats : List Seat) (k : League) (s : List Seat)
      → fill_team H n l id seats ≡ ok (k, s)
      → Follows l k
  unfolding fill_team
  fill_team-Follows zero l id seats k s h =
      subst (Follows l) (let e : l ≡ k = ground arith in e) (Follows-refl l)
  fill_team-Follows (suc n) l id seats k s h =
      elim (Bool-cases (ltb (length seats) l.rules.seats)) [
        | inr full ↦ subst (Follows l) (let e : l ≡ k = ground arith in e) (Follows-refl l)
        | inl vacant ↦ elim (Option-cases (Dict.lookup id l.teams)) [
          | inl missing ↦ absurd (ground arith)
          | inr (t, found) ↦
              fill_team-drawn n l id seats k s (λ m r e. fill_team-Follows n m id r k s e) t found
                vacant (drawn H l t seats) refl h
        ]
      ]

  fill_teams-Follows :
      (l : League) (m : Dict String (List Seat)) (k : League) (s : Dict String (List Seat))
      → fill_teams H l m ≡ ok (k, s)
      → Follows l k
  unfolding fill_teams
  fill_teams-Follows l [] k s h =
      subst (Follows l) (let e : l ≡ k = ground arith in e) (Follows-refl l)
  fill_teams-Follows l ((id, seats) ∷ rest) k s h =
      elim (Result-cases (fill_team H l.rules.seats l id seats)) [
        | inr (x, bad) ↦ absurd (ground arith)
        | inl ((m, r), filled) ↦ elim (Result-cases (fill_teams H m rest)) [
          | inr (x, bad) ↦ absurd (ground arith)
          | inl ((n, others), later) ↦
              let f =
                Follows-trans l m n (fill_team-Follows l.rules.seats l id seats m r filled)
                  (fill_teams-Follows m rest n others later) in
              subst (Follows l) (let e : n ≡ k = ground arith in e) f
        ]
      ]

  pub fill_vacancies-Follows : (l k : League) → fill_vacancies H l ≡ ok k → Follows l k
  unfolding fill_vacancies
  fill_vacancies-Follows l k h = elim (Result-cases (fill_teams H l l.seats)) [
    | inr (x, bad) ↦ absurd (ground arith)
    | inl ((m, s), filled) ↦ Follows-trans l m k (fill_teams-Follows l l.seats m s filled) (
        Follows-same m k (ground arith) (ground arith) (ground arith) (ground arith) (ground arith))
  ]

  replace_expired-Follows :
      (l k : League) (now_ms : ℕ) → replace_expired H l now_ms ≡ ok k → Follows l k
  unfolding replace_expired
  replace_expired-Follows l k now_ms h =
      let m : League = record l {
        seats =
            Dict.map_values
              (λ _ seats. filter (λ s. is_none_or (λ t. ltb now_ms t) s.disconnected_until) seats)
              l.seats;
      } in
      Follows-trans l m k
        (Follows-same l m (refl, refl, refl) refl (omega arith) refl (inr (refl, refl, refl)))
        (fill_vacancies-Follows m k h)

  resolve_expired-Follows :
      (l k : League) (now_ms : ℕ) → resolve_expired H l now_ms ≡ ok k → Follows l k
  unfolding resolve_expired
  resolve_expired-Follows l k now_ms h = elim (Bool-cases (runs l)) [
    | inl on ↦ replace_expired-Follows l k now_ms (ground arith)
    | inr off ↦ subst (Follows l) (let e : l ≡ k = ground arith in e) (Follows-refl l)
  ]

  refill-Follows : (l k : League) (online : Bool) → refill H l online ≡ ok k → Follows l k
  unfolding refill
  refill-Follows l k online h = elim (Bool-cases (online && runs l)) [
    | inl on ↦ fill_vacancies-Follows l k (ground arith)
    | inr off ↦ subst (Follows l) (let e : l ≡ k = ground arith in e) (Follows-refl l)
  ]

  pub presence-Follows :
      (l : League) (ctx : Context) (member : String) (online : Bool) (health : ConnectionHealth)
      (k : League)
      → presence H l ctx member online health ≡ ok k
      → Follows l k
  unfolding presence
  presence-Follows l ctx member online health k h =
      let measured : League = record l { health = Dict.insert member health l.health } in
      elim (Result-cases (resolve_expired H measured ctx.now_ms)) [
        | inr (x, bad) ↦ absurd (ground arith)
        | inl (m, resolved) ↦
            let deadline : ℕ = saturating_add ctx.now_ms (grace health m.rules) in
            let marked : League = mark_member member online deadline m in
            Follows-trans l measured k
              (Follows-same l measured (refl, refl, refl) refl (omega arith) refl
                (inr (refl, refl, refl)))
              (Follows-trans measured m k (resolve_expired-Follows measured m ctx.now_ms resolved) (
                Follows-trans m marked k
                  (unfold mark_member in
                    Follows-same m marked (refl, refl, refl) refl (omega arith) refl
                      (inr (refl, refl, refl)))
                  (refill-Follows marked k online (ground arith))))
      ]

  -- The teams stay in every phase.
  pub presence-teams :
      (l : League) (ctx : Context) (member : String) (online : Bool) (health : ConnectionHealth)
      (k : League)
      → presence H l ctx member online health ≡ ok k
      → k.teams ≡ l.teams
  unfolding presence resolve_expired refill mark_member
  presence-teams l ctx member online health k h = elim (Bool-cases (is_registration l.phase)) [
    | inl early ↦ ground arith
    | inr late ↦ ground (arith, (presence-Follows l ctx member online health k h).teams)
  ]

  pub tick-Follows :
      (l : League) (actor : String) (now_ms : ℕ) (k : League)
      → tick H l actor now_ms ≡ ok k
      → Follows l k
  unfolding tick
  tick-Follows l actor now_ms k h = elim (Bool-cases (is_some l.paused_since)) [
    | inl paused ↦ subst (Follows l) (let e : l ≡ k = ground arith in e) (Follows-refl l)
    | inr runs ↦ replace_expired-Follows l k now_ms (ground arith)
  ]

pub enter_teams-same :
    (l : League) (ts : List (String × Team))
    → ((enter_teams l ts).organizer ≡ l.organizer)
      × ((enter_teams l ts).host ≡ l.host)
      × ((enter_teams l ts).scorer ≡ l.scorer)
      × ((enter_teams l ts).rules ≡ l.rules)
      × ((enter_teams l ts).phase ≡ l.phase)
      × ((enter_teams l ts).score_events ≡ l.score_events)
      × ((enter_teams l ts).teams ≡ l.teams)
unfolding enter_teams enter_team
enter_teams-same l [] = (refl, refl, refl, refl, refl, refl, refl)
enter_teams-same l ((id, t) ∷ ts) = ground (arith, enter_teams-same (enter_team l (id, t)) ts)

pub update_pause-Follows : (l : League) (now_ms : ℕ) → Follows l (update_pause l now_ms)
unfolding update_pause resume
update_pause-Follows l now_ms =
    Follows-same l (update_pause l now_ms) (ground arith) (ground arith) (ground arith)
      (ground arith) (inr (ground arith))

pub record_score-Follows :
    (l : League) (event digest : String) (ps ts : Dict String ℤ) (k : League)
    → Dict.lookup event l.score_events ≡ none
    → record_score l event digest ps ts ≡ ok k
    → Follows l k
unfolding record_score
record_score-Follows l event digest ps ts k new h = record {
  officers = ground arith;
  rules = ground arith;
  phase = ground arith;
  events = λ e d c. ground (arith, Dict.lookup-insert e event digest l.score_events);
  final = λ f. absurd (ground arith);
  teams = λ _. ground arith;
}
