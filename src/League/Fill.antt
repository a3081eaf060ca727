-- ===== src/League/Fill.antt =====
-- The draw for vacant seats (`fill_vacancies` in crates/league/src/governance.rs): who may sit, and
-- that no seat stays empty while a candidate waits.
use union_core.Prelude.{
  ℕ, suc, zero, ◌+◌, ◌≤◌, ◌≡◌, ◌⊎◌, inl, inr, refl, subst, arith, String, Bool, true, false, not,
  ◌&&◌, none, some, text_key, Result, ok, List, [], ◌∷◌, length, length-append, filter, any, ltb,
  Bool-cases, Result-cases,
}
use union_core.Prelude.Dict
use union_core.Prelude.Dict.{Dict}
use union_core.Prelude.Entries
use union_core.Prelude.Set
use union_core.Prelude.Set.{Set}
use union_core.League.State.{League, Team, Seat, Hashing, admits}
use union_core.League.Seats.{
  players, candidates, drawn, take_seat, fill_team, fill_teams, fill_vacancies, sort_by_cached_key,
  to_be_bytes,
}
use union_core.League.Seated.{
  IsSeated, Grows, Grows-refl, Grows-trans, IsSeated-Grows, contains-sort, drawn-candidate,
  take_seat_lem, take_seat-Grows, take_seat-IsSeated,
}

-- Where nobody passes a test, everybody fails another that is as strict.
none_waits :
    (p q : String → Bool) (xs : List String)
    → ((x : String) → p x ≡ q x)
    → filter p xs ≡ []
    → any q xs ≡ false
unfolding filter any
none_waits p q [] e h = refl
none_waits p q (x ∷ xs) e h = ground (arith, e x, none_waits p q xs e)

-- Every seat is taken, or nobody who may take one is left.
-- Some online, admitted member of the team has no seat.
unfoldable pub someone_waits : League → Team → List Seat → Bool
someone_waits l t seats =
    any (λ p. Set.contains p l.online && admits l p && not (Set.contains p (players seats)))
      t.members

abbrev pub IsFull : League → String → List Seat → Type 0
IsFull l id seats =
    (l.rules.seats ≤ length seats)
    ⊎ ((t : Team) × (Dict.lookup id l.teams ≡ some t) × (someone_waits l t seats ≡ false))

module _ (H : Hashing) where
  drawn-none :
      (l : League) (t : Team) (seats : List Seat)
      → drawn H l t seats ≡ []
      → someone_waits l t seats ≡ false
  unfolding drawn candidates someone_waits Set.contains
  drawn-none l t seats h =
      none_waits
        (λ p. Set.contains p l.online && not (Set.contains p (players seats)) && admits l p)
        (λ p. Set.contains p l.online && admits l p && not (Set.contains p (players seats)))
        t.members (λ p. ground arith)
        (empty
          (filter
            (λ p. Set.contains p l.online && not (Set.contains p (players seats)) && admits l p)
            t.members)
          h)
    where
      empty :
          (cs : List String)
          → sort_by_cached_key (H.draw_hash l.random_seed (to_be_bytes l.draw)) cs ≡ []
          → cs ≡ []
      empty [] h = refl
      empty (c ∷ cs) h = absurd (
          ground (arith, contains-sort (H.draw_hash l.random_seed (to_be_bytes l.draw)) c (c ∷ cs)))

  stop :
      (l : League) (id : String) (seats : List Seat) (k : League) (s : List Seat)
      → IsSeated l id seats
      → IsFull l id seats
      → ◌≡◌ {A = Result (League × List Seat)} (ok (l, seats)) (ok (k, s))
      → Grows l k × IsSeated k id s × IsFull k id s
  stop l id seats k s v f h =
      let e1 : l ≡ k = ground arith in
      let e2 : seats ≡ s = ground arith in
      subst (λ x. Grows l x × IsSeated x id s × IsFull x id s) e1
        (subst (λ y. Grows l l × IsSeated l id y × IsFull l id y) e2 (Grows-refl l, v, f))

  room_left :
      (n : ℕ) (l : League) (seats : List Seat) (p : String) (m : League) (r : List Seat)
      → l.rules.seats ≤ suc n + length seats
      → take_seat l seats p ≡ ok (m, r)
      → m.rules.seats ≤ n + length r
  room_left n l seats p m r h e =
      let (draw, epoch, f, g) = take_seat_lem l seats p m r e in
      let seat : Seat = record { player = p; epoch = epoch; disconnected_until = none } in
      ground (arith, f, g, length-append seats (seat ∷ []))

  -- One round, given what the rounds after it do.
  fill_team-next :
      (n : ℕ) (l : League) (id : String) (seats : List Seat) (k : League) (s : List Seat)
      → ((m : League) (r : List Seat)
          → m.rules.seats ≤ n + length r
          → IsSeated m id r
          → fill_team H n m id r ≡ ok (k, s)
          → Grows m k × IsSeated k id s × IsFull k id s)
      → l.rules.seats ≤ suc n + length seats
      → (v : IsSeated l id seats) → ltb (length seats) l.rules.seats ≡ true
      → (ds : List String) → drawn H l v.team seats ≡ ds
      → fill_team H (suc n) l id seats ≡ ok (k, s)
      → Grows l k × IsSeated k id s × IsFull k id s
  unfolding fill_team
  fill_team-next n l id seats k s ih room v vacant [] e h =
      stop l id seats k s v (inr (v.team, v.listed, drawn-none l v.team seats e))
        (ground (arith, v.listed))
  fill_team-next n l id seats k s ih room v vacant (p ∷ ps) e h =
      elim (Result-cases (take_seat l seats p)) [
        | inr (x, bad) ↦ absurd (ground (arith, v.listed))
        | inl ((m, r), taken) ↦
            let (member, online, new, allowed) = drawn-candidate H l v.team seats p ps e in
            let (grown, seated, full) =
              ih m r (room_left n l seats p m r room taken)
                (take_seat-IsSeated l id seats p m r v (ground arith) member new allowed taken)
                (ground (arith, v.listed)) in
            (Grows-trans l m k (take_seat-Grows l seats p m r taken) grown, seated, full)
      ]

  -- The loop of one team, with enough rounds for its vacancies.
  fill_team-IsSeated :
      (n : ℕ) (l : League) (id : String) (seats : List Seat) (k : League) (s : List Seat)
      → l.rules.seats ≤ n + length seats
      → IsSeated l id seats
      → fill_team H n l id seats ≡ ok (k, s)
      → Grows l k × IsSeated k id s × IsFull k id s
  fill_team-IsSeated zero l id seats k s room v h =
      stop l id seats k s v (inl (omega (arith, room))) (unfold fill_team in h)
  fill_team-IsSeated (suc n) l id seats k s room v h =
      elim (Bool-cases (ltb (length seats) l.rules.seats)) [
        | inr full ↦ stop l id seats k s v (inl (ground arith)) (unfold fill_team in ground arith)
        | inl vacant ↦
            fill_team-next n l id seats k s
              (λ m r room v h. fill_team-IsSeated n m id r k s room v h) room v vacant
              (drawn H l v.team seats) refl h
      ]

  someone_waits-Grows :
      (l k : League) (t : Team) (seats : List Seat)
      → Grows l k
      → someone_waits k t seats ≡ someone_waits l t seats
  unfolding someone_waits
  someone_waits-Grows l k t seats g = rw (g.online, g.admitted) refl

  pub IsFull-Grows :
      (l k : League) (id : String) (seats : List Seat)
      → Grows l k
      → IsFull l id seats
      → IsFull k id seats
  IsFull-Grows l k id seats g (inl h) = inl (ground (arith, g.rules))
  IsFull-Grows l k id seats g (inr (t, e, f)) =
      inr (t, ground (arith, g.teams), ground (arith, someone_waits-Grows l k t seats g))

  fill_teams-IsSeated :
      (l : League) (m : Dict String (List Seat)) (k : League) (s : Dict String (List Seat))
      → Entries.All (IsSeated l) m
      → fill_teams H l m ≡ ok (k, s)
      → Grows l k × Entries.All (IsSeated k) s × Entries.All (IsFull k) s
  fill_teams-IsSeated l [] k s v h = done (unfold fill_teams in h)
    where
      done :
          ◌≡◌ {A = Result (League × Dict String (List Seat))} (ok (l, [])) (ok (k, s))
          → Grows l k × Entries.All (IsSeated k) s × Entries.All (IsFull k) s
      done h =
          let e1 : l ≡ k = ground arith in
          let e2 : [] ≡ s = ground arith in
          subst (λ x. Grows l x × Entries.All (IsSeated x) s × Entries.All (IsFull x) s) e1
            (subst (λ y. Grows l l × Entries.All (IsSeated l) y × Entries.All (IsFull l) y) e2
              (Grows-refl l, tt, tt))
  fill_teams-IsSeated l ((id, seats) ∷ rest) k s v h =
      elim (Result-cases (fill_team H l.rules.seats l id seats)) [
        | inr (x, bad) ↦ absurd (unfold fill_teams in ground arith)
        | inl ((m, r), filled) ↦ elim (Result-cases (fill_teams H m rest)) [
          | inr (x, bad) ↦ absurd (unfold fill_teams in ground arith)
          | inl ((n, others), later) ↦
              let (g, seated, full) =
                fill_team-IsSeated l.rules.seats l id seats m r (omega arith) v.0 filled in
              let (f, all, every) =
                fill_teams-IsSeated m rest n others
                  (Entries.All-map (IsSeated l) (IsSeated m) rest
                    (λ i x w. IsSeated-Grows l m i x g w) v.1)
                  later in
              let e1 : n ≡ k = unfold fill_teams in ground arith in
              let e2 : (id, r) ∷ others ≡ s = unfold fill_teams in ground arith in
              subst (λ x. Grows l x × Entries.All (IsSeated x) s × Entries.All (IsFull x) s) e1
                (subst (λ y. Grows l n × Entries.All (IsSeated n) y × Entries.All (IsFull n) y) e2
                  (
                    Grows-trans l m n g f,
                    (IsSeated-Grows m n id r f seated, all),
                    (IsFull-Grows m n id r f full, every),
                  ))
        ]
      ]

  -- A draw that succeeds on seats that are in order keeps teams, rules, attendance and who has played,
  -- leaves every team's seats in order, and leaves no seat free that an online, admitted member of the
  -- team without a seat may take.
  pub fill_vacancies-IsFull :
      (l k : League)
      → Entries.All (IsSeated l) l.seats
      → fill_vacancies H l ≡ ok k
      → Grows l k × Entries.All (IsSeated k) k.seats × Entries.All (IsFull k) k.seats
  fill_vacancies-IsFull l k v h = elim (Result-cases (fill_teams H l l.seats)) [
    | inr (x, bad) ↦ absurd (unfold fill_vacancies in ground arith)
    | inl ((m, s), filled) ↦
        let (g, seated, full) = fill_teams-IsSeated l l.seats m s v filled in
        let n : League = record m { seats = s } in
        let kept : Grows m n = record {
          teams = refl;
          rules = refl;
          admitted = refl;
          online = refl;
          phase = refl;
          played = λ p c. c;
        } in
        let e : n ≡ k = unfold fill_vacancies in ground arith in
        subst
          (λ (x : League).
            Grows l x × Entries.All (IsSeated x) x.seats × Entries.All (IsFull x) x.seats)
          e
          (
            Grows-trans l m n g kept,
            Entries.All-map (IsSeated m) (IsSeated n) s (λ i x w. IsSeated-Grows m n i x kept w)
                seated,
            Entries.All-map (IsFull m) (IsFull n) s (λ i x w. IsFull-Grows m n i x kept w) full,
          )
  ]
