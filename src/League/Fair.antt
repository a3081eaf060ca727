-- ===== src/League/Fair.antt =====
-- The seats of a league over its whole life: every action keeps them in order.
use union_core.Prelude.{
  ℕ, ◌≡◌, inl, inr, refl, sym, subst, arith, String, Bool, true, false, not, ◌&&◌, ◌||◌, text_key,
  ok, List, [], ◌∷◌, length, length-filter, is_some, is_none_or, filter, map, ltb, Bool-cases,
  Option-cases, Result-cases,
}
use union_core.Prelude.Dict
use union_core.Prelude.Dict.{Dict}
use union_core.Prelude.Entries
use union_core.Prelude.Set
use union_core.Prelude.Set.{Set}
use union_core.Prelude.Words.{saturating_add, saturating_sub}
use union_core.Governance.State.{Context}
use union_core.League.State.{League, Seat, Hashing, ConnectionHealth, grace, is_registration}
use union_core.League.Seats.{
  players, fill_vacancies, replace_expired, resolve_expired, refill, mark_member, presence, tick,
  update_pause, resume, infrastructure, mark_seat, put_off, runs,
}
use union_core.League.Fill.{fill_vacancies-IsFull}
use union_core.League.Seated.{IsSeated}

-- The seats are in order, and there are none before the start.
pub record IsFair (l : League) : Type 0 where
  pub seated : Entries.All (IsSeated l) l.seats
  pub idle : is_registration l.phase ≡ true → l.seats ≡ []

-- A change of the seats of each team that keeps who sits there.
seats_by :
    (l k : League) (f : String → List Seat → List Seat)
    → ((id : String) (seats : List Seat) → IsSeated l id seats → IsSeated k id (f id seats))
    → (m : Dict String (List Seat)) → Entries.All (IsSeated l) m
    → Entries.All (IsSeated k) (Dict.map_values f m)
unfolding Dict.map_values
seats_by l k f keep [] a = tt
seats_by l k f keep ((id, seats) ∷ m) a = (keep id seats a.0, seats_by l k f keep m a.1)

players-map :
    (f : Seat → Seat) (seats : List Seat)
    → ((s : Seat) → (f s).player ≡ s.player)
    → players (map f seats) ≡ players seats
players-map f [] same = refl
players-map f (s ∷ ss) same = ground (arith, same s, players-map f ss same)

length-map : (f : Seat → Seat) (seats : List Seat) → length (map f seats) ≡ length seats
length-map f [] = refl
length-map f (s ∷ ss) = ground (arith, length-map f ss)

IsSeated-map :
    (l : League) (id : String) (f : Seat → Seat) (seats : List Seat)
    → ((s : Seat) → (f s).player ≡ s.player)
    → IsSeated l id seats
    → IsSeated l id (map f seats)
IsSeated-map l id f seats same v = record {
  team = v.team;
  listed = v.listed;
  few = ground (arith, v.few, length-map f seats);
  distinct = rw (players-map f seats same) v.distinct;
  belongs = rw (players-map f seats same) v.belongs;
  allowed = rw (players-map f seats same) v.allowed;
  active = rw (players-map f seats same) v.active;
}

contains-players_filter :
    (p : String) (keep : Seat → Bool) (seats : List Seat)
    → Set.contains p (players (filter keep seats)) ≡ true
    → Set.contains p (players seats) ≡ true
unfolding filter Set.contains
contains-players_filter p keep [] h = h
contains-players_filter p keep (s ∷ ss) h = ground (arith, contains-players_filter p keep ss)

players_filter-IsDistinct :
    (keep : Seat → Bool) (seats : List Seat)
    → Set.IsDistinct (players seats)
    → Set.IsDistinct (players (filter keep seats))
unfolding filter Set.contains
players_filter-IsDistinct keep [] d = tt
players_filter-IsDistinct keep (s ∷ ss) d = elim (Bool-cases (keep s)) [
  | inr gone ↦ rw gone (players_filter-IsDistinct keep ss d.1)
  | inl stays ↦ rw stays (
    ground (arith, d.0, contains-players_filter s.player keep ss),
    players_filter-IsDistinct keep ss d.1,
  )
]

IsSeated-filter :
    (l : League) (id : String) (keep : Seat → Bool) (seats : List Seat)
    → IsSeated l id seats
    → IsSeated l id (filter keep seats)
IsSeated-filter l id keep seats v = record {
  team = v.team;
  listed = v.listed;
  few = ground (arith, v.few, length-filter keep seats);
  distinct = players_filter-IsDistinct keep seats v.distinct;
  belongs = λ p h. v.belongs p (contains-players_filter p keep seats h);
  allowed = λ p h. v.allowed p (contains-players_filter p keep seats h);
  active = λ p h. v.active p (contains-players_filter p keep seats h);
}

-- The same teams, rules, list and players: the seats stay in order.
pub same_seating :
    (l k : League)
    → k.teams ≡ l.teams
    → k.rules ≡ l.rules
    → k.admitted ≡ l.admitted
    → k.played ≡ l.played
    → (id : String) (seats : List Seat) → IsSeated l id seats
    → IsSeated k id seats
same_seating l k e1 e2 e3 e4 id seats v = record {
  team = v.team;
  listed = ground (arith, v.listed);
  few = ground (arith, v.few);
  distinct = v.distinct;
  belongs = v.belongs;
  allowed = λ p h. ground (arith, v.allowed p);
  active = λ p h. ground (arith, v.active p);
}

pub IsFair-same :
    (l k : League)
    → k.teams ≡ l.teams
    → k.rules ≡ l.rules
    → k.admitted ≡ l.admitted
    → k.played ≡ l.played
    → k.seats ≡ l.seats
    → k.phase ≡ l.phase
    → IsFair l
    → IsFair k
IsFair-same l k e1 e2 e3 e4 e5 e6 v = record {
  seated =
      subst (Entries.All (IsSeated k)) (sym e5)
        (Entries.All-map (IsSeated l) (IsSeated k) l.seats (same_seating l k e1 e2 e3 e4) v.seated);
  idle = λ h. ground (arith, v.idle);
}

-- Before the start there is no seat to keep.
pub IsFair-idle :
    (l k : League) → is_registration l.phase ≡ true → k.seats ≡ l.seats → IsFair l → IsFair k
IsFair-idle l k r e v =
    let none : k.seats ≡ [] = ground (arith, v.idle r) in
    record { seated = rw none tt; idle = λ _. none }

module _ (H : Hashing) where
  pub fill_vacancies-IsFair :
      (l k : League)
      → Entries.All (IsSeated l) l.seats
      → is_registration l.phase ≡ false
      → fill_vacancies H l ≡ ok k
      → IsFair k × (is_registration k.phase ≡ false)
  fill_vacancies-IsFair l k v r h =
      let (g, seated, full) = fill_vacancies-IsFull H l k v h in
      (
        record { seated = seated; idle = λ e. absurd (ground (arith, g.phase)) },
        ground (arith, g.phase),
      )

  replace_expired-IsFair :
      (l k : League) (now_ms : ℕ)
      → Entries.All (IsSeated l) l.seats
      → is_registration l.phase ≡ false
      → replace_expired H l now_ms ≡ ok k
      → IsFair k × (is_registration k.phase ≡ false)
  replace_expired-IsFair l k now_ms v r h =
      let keep : String → List Seat → List Seat =
        λ _ seats. filter (λ s. is_none_or (λ t. ltb now_ms t) s.disconnected_until) seats in
      let m : League = record l { seats = Dict.map_values keep l.seats } in
      fill_vacancies-IsFair m k
        (seats_by l m keep
          (λ id seats w. same_seating l m refl refl refl refl id (keep id seats) (
            IsSeated-filter l id (λ s. is_none_or (λ t. ltb now_ms t) s.disconnected_until) seats
              w))
          l.seats v)
        r (unfold replace_expired in h)

  pub tick-IsFair :
      (l : League) (actor : String) (now_ms : ℕ) (k : League)
      → tick H l actor now_ms ≡ ok k
      → IsFair l
      → IsFair k
  unfolding tick
  tick-IsFair l actor now_ms k h v = elim (Bool-cases (is_some l.paused_since)) [
    | inl paused ↦ let e : l ≡ k = ground arith in subst IsFair e v
    | inr runs ↦ (replace_expired-IsFair l k now_ms v.seated (ground arith) (ground arith)).0
  ]

  mark_seat-player :
      (member : String) (online : Bool) (deadline : ℕ) (s : Seat)
      → (mark_seat member online deadline s).player ≡ s.player
  unfolding mark_seat
  mark_seat-player member online deadline s = ground arith

  mark_member-IsFair :
      (member : String) (online : Bool) (deadline : ℕ) (l : League)
      → IsFair l
      → IsFair (mark_member member online deadline l)
  unfolding mark_member
  mark_member-IsFair member online deadline l v =
      let mark : String → List Seat → List Seat =
        λ _ seats. map (mark_seat member online deadline) seats in
      let k : League = mark_member member online deadline l in
      record {
        seated =
            seats_by l k mark
              (λ id seats w. same_seating l k refl refl refl refl id (mark id seats) (
                IsSeated-map l id (mark_seat member online deadline) seats
                  (mark_seat-player member online deadline) w))
              l.seats v.seated;
        idle = λ h. rw (v.idle h) (unfold Dict.map_values in refl);
      }

  resolve_expired-IsFair :
      (l k : League) (now_ms : ℕ) → resolve_expired H l now_ms ≡ ok k → IsFair l → IsFair k
  unfolding resolve_expired
  resolve_expired-IsFair l k now_ms h v = elim (Bool-cases (runs l)) [
    | inl on ↦ (replace_expired-IsFair l k now_ms v.seated (ground arith) (ground arith)).0
    | inr off ↦ let e : l ≡ k = ground arith in subst IsFair e v
  ]

  refill-IsFair : (l k : League) (online : Bool) → refill H l online ≡ ok k → IsFair l → IsFair k
  unfolding refill
  refill-IsFair l k online h v = elim (Bool-cases (online && runs l)) [
    | inl on ↦ (fill_vacancies-IsFair l k v.seated (ground arith) (ground arith)).0
    | inr off ↦ let e : l ≡ k = ground arith in subst IsFair e v
  ]

  pub presence-IsFair :
      (l : League) (ctx : Context) (member : String) (online : Bool) (health : ConnectionHealth)
      (k : League)
      → presence H l ctx member online health ≡ ok k
      → IsFair l
      → IsFair k
  unfolding presence
  presence-IsFair l ctx member online health k h v =
      let measured : League = record l { health = Dict.insert member health l.health } in
      elim (Result-cases (resolve_expired H measured ctx.now_ms)) [
        | inr (x, bad) ↦ absurd (ground arith)
        | inl (m, resolved) ↦
            let deadline : ℕ = saturating_add ctx.now_ms (grace health m.rules) in
            refill-IsFair (mark_member member online deadline m) k online (ground arith) (
              mark_member-IsFair member online deadline m (
                resolve_expired-IsFair measured m ctx.now_ms resolved
                  (IsFair-same l measured refl refl refl refl refl refl v)))
      ]

resume-IsFair : (l : League) (since now_ms : ℕ) → IsFair l → IsFair (resume l since now_ms)
unfolding resume
resume-IsFair l since now_ms v =
    let late : String → List Seat → List Seat =
      λ _ seats. map (put_off (saturating_sub now_ms since)) seats in
    record {
      seated =
          seats_by l (resume l since now_ms) late
            (λ id seats w.
              same_seating l (resume l since now_ms) refl refl refl refl id (late id seats) (
                IsSeated-map l id (put_off (saturating_sub now_ms since)) seats
                  (λ s. unfold put_off in refl) w))
            l.seats v.seated;
      idle = λ h. rw (v.idle h) (unfold Dict.map_values in refl);
    }

pub update_pause-IsFair : (l : League) (now_ms : ℕ) → IsFair l → IsFair (update_pause l now_ms)
update_pause-IsFair l now_ms v = elim (Bool-cases (l.manual_pause || l.infrastructure_down)) [
  | inl down ↦
      IsFair-same l (update_pause l now_ms) (unfold update_pause in ground arith)
        (unfold update_pause in ground arith) (unfold update_pause in ground arith)
        (unfold update_pause in ground arith) (unfold update_pause in ground arith)
        (unfold update_pause in ground arith) v
  | inr up ↦ elim (Option-cases l.paused_since) [
    | inl running ↦
        let e : l ≡ update_pause l now_ms = unfold update_pause in ground arith in subst IsFair e v
    | inr (since, paused) ↦
        let e : resume l since now_ms ≡ update_pause l now_ms =
          unfold update_pause in ground arith in
        subst IsFair e (resume-IsFair l since now_ms v)
  ]
]

pub infrastructure-IsFair :
    (l : League) (actor : String) (now_ms : ℕ) (healthy : Bool) (k : League)
    → infrastructure l actor now_ms healthy ≡ ok k
    → IsFair l
    → IsFair k
unfolding infrastructure
infrastructure-IsFair l actor now_ms healthy k h v =
    let m : League = record l { infrastructure_down = not healthy } in
    let e : update_pause m now_ms ≡ k = ground arith in
    subst IsFair e (update_pause-IsFair m now_ms (IsFair-same l m refl refl refl refl refl refl v))
