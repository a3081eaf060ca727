-- ===== src/League/Seated.antt =====
-- Seats that are in order, and what a draw leaves alone (crates/league/src/governance.rs).
use union_core.Prelude.{
  ℕ, ◌≤◌, ◌<◌, ◌≡◌, inl, inr, refl, sym, subst, arith, String, Bool, true, false, not, ◌&&◌, none,
  some, ◌==◌, text_key, ok, List, [], ◌∷◌, ◌++◌, length, length-append, filter, if◌then◌else◌,
  Option-cases,
}
use union_core.Prelude.Dict
use union_core.Prelude.Dict.{Dict}
use union_core.Prelude.Words.{checked_add}
use union_core.Prelude.Set
use union_core.Prelude.Set.{Set}
use union_core.League.State.{League, Team, Seat, Hashing, admits}
use union_core.League.Seats.{
  players, candidates, drawn, take_seat, sort_by_cached_key, place_by, to_be_bytes,
}

-- The seats of a team that exists: not too many, nobody twice, and only admitted members of the team
-- that count as having played.
pub record IsSeated (l : League) (id : String) (seats : List Seat) : Type 0 where
  pub team : Team
  pub listed : Dict.lookup id l.teams ≡ some team
  pub few : length seats ≤ l.rules.seats
  pub distinct : Set.IsDistinct (players seats)
  pub belongs :
      (p : String) → Set.contains p (players seats) ≡ true → Set.contains p team.members ≡ true
  pub allowed : (p : String) → Set.contains p (players seats) ≡ true → admits l p ≡ true
  pub active : (p : String) → Set.contains p (players seats) ≡ true → Set.contains p l.played ≡ true

-- What a draw leaves alone.
pub record Grows (l k : League) : Type 0 where
  pub teams : k.teams ≡ l.teams
  pub rules : k.rules ≡ l.rules
  pub admitted : k.admitted ≡ l.admitted
  pub online : k.online ≡ l.online
  pub phase : k.phase ≡ l.phase
  pub played : (p : String) → Set.contains p l.played ≡ true → Set.contains p k.played ≡ true

pub Grows-refl : (l : League) → Grows l l
Grows-refl l = record {
  teams = refl;
  rules = refl;
  admitted = refl;
  online = refl;
  phase = refl;
  played = λ p h. h;
}

pub Grows-trans : (a b c : League) → Grows a b → Grows b c → Grows a c
Grows-trans a b c g h = record {
  teams = ground (arith, g.teams, h.teams);
  rules = ground (arith, g.rules, h.rules);
  admitted = ground (arith, g.admitted, h.admitted);
  online = ground (arith, g.online, h.online);
  phase = ground (arith, g.phase, h.phase);
  played = λ p e. h.played p (g.played p e);
}

pub IsSeated-Grows :
    (l k : League) (id : String) (seats : List Seat)
    → Grows l k
    → IsSeated l id seats
    → IsSeated k id seats
IsSeated-Grows l k id seats g v = record {
  team = v.team;
  listed = ground (arith, v.listed, g.teams);
  few = ground (arith, v.few, g.rules);
  distinct = v.distinct;
  belongs = v.belongs;
  allowed = λ p h. ground (arith, v.allowed p, g.admitted);
  active = λ p h. g.played p (v.active p h);
}

contains-place_by :
    (key : String → List ℕ) (p x : String) (xs : List String)
    → Set.contains p (place_by key x xs) ≡ Set.contains p (x ∷ xs)
unfolding place_by Set.contains
contains-place_by key p x [] = refl
contains-place_by key p x (y ∷ ys) = ground (arith, contains-place_by key p x ys)

pub contains-sort :
    (key : String → List ℕ) (p : String) (xs : List String)
    → Set.contains p (sort_by_cached_key key xs) ≡ Set.contains p xs
unfolding sort_by_cached_key Set.contains
contains-sort key p [] = refl
contains-sort key p (x ∷ xs) =
    ground (arith, contains-sort key p xs, contains-place_by key p x (sort_by_cached_key key xs))

-- Whoever is drawn is an online, admitted member of the team without a seat.
pub drawn-candidate :
    (H : Hashing) (l : League) (t : Team) (seats : List Seat) (p : String) (rest : List String)
    → drawn H l t seats ≡ p ∷ rest
    → (Set.contains p t.members ≡ true)
      × (Set.contains p l.online ≡ true)
      × (Set.contains p (players seats) ≡ false)
      × (admits l p ≡ true)
unfolding drawn candidates Set.contains
drawn-candidate H l t seats p rest h =
    let key : String → List ℕ = H.draw_hash l.random_seed (to_be_bytes l.draw) in
    let test : String → Bool =
      λ p. Set.contains p l.online && not (Set.contains p (players seats)) && admits l p in
    let listed : Set.contains p (filter test t.members) ≡ true =
      ground (arith, contains-sort key p (filter test t.members)) in
    ground (arith, Set.contains-filter p test t.members)

contains-players :
    (p : String) (seats : List Seat) (s : Seat)
    → Set.contains p (players (seats ++ s ∷ []))
      ≡ (if p == s.player then true else Set.contains p (players seats))
unfolding Set.contains
contains-players p [] s = refl
contains-players p (x ∷ xs) s = ground (arith, contains-players p xs s)

players-IsDistinct :
    (seats : List Seat) (s : Seat)
    → Set.contains s.player (players seats) ≡ false
    → Set.IsDistinct (players seats)
    → Set.IsDistinct (players (seats ++ s ∷ []))
unfolding Set.contains
players-IsDistinct [] s h d = (refl, tt)
players-IsDistinct (x ∷ xs) s h d =
    ground (arith, players-IsDistinct xs s, contains-players x.player xs s)

-- What taking a seat changes.
pub take_seat_lem :
    (l : League) (seats : List Seat) (p : String) (k : League) (s : List Seat)
    → take_seat l seats p ≡ ok (k, s)
    → (draw epoch : ℕ) × (k
        ≡ record l { draw = draw; epoch = epoch; played = Set.insert p l.played })
      × (s ≡ seats ++ record { player = p; epoch = epoch; disconnected_until = none } ∷ [])
unfolding take_seat
take_seat_lem l seats p k s h = elim (Option-cases (checked_add l.draw 1)) [
  | inl full ↦ absurd (ground arith)
  | inr (draw, e) ↦ elim (Option-cases (checked_add l.epoch 1)) [
    | inl full ↦ absurd (ground arith)
    | inr (epoch, f) ↦ (draw, epoch, ground arith, ground arith)
  ]
]

pub take_seat-Grows :
    (l : League) (seats : List Seat) (p : String) (k : League) (s : List Seat)
    → take_seat l seats p ≡ ok (k, s)
    → Grows l k
take_seat-Grows l seats p k s h =
    let (draw, epoch, e, f) = take_seat_lem l seats p k s h in
    record {
      teams = ground (arith, e);
      rules = ground (arith, e);
      admitted = ground (arith, e);
      online = ground (arith, e);
      phase = ground (arith, e);
      played = λ q c. ground (arith, e, Set.contains-insert q p l.played);
    }

pub take_seat-IsSeated :
    (l : League) (id : String) (seats : List Seat) (p : String) (k : League) (s : List Seat)
    → (v : IsSeated l id seats) → length seats < l.rules.seats
    → Set.contains p v.team.members ≡ true
    → Set.contains p (players seats) ≡ false
    → admits l p ≡ true
    → take_seat l seats p ≡ ok (k, s)
    → IsSeated k id s
take_seat-IsSeated l id seats p k s v room member new allowed h =
    let (draw, epoch, e, f) = take_seat_lem l seats p k s h in
    let seat : Seat = record { player = p; epoch = epoch; disconnected_until = none } in
    record {
      team = v.team;
      listed = ground (arith, v.listed, e);
      few = ground (arith, e, f, length-append seats (seat ∷ []));
      distinct =
          subst (λ s. Set.IsDistinct (players s)) (sym f)
            (players-IsDistinct seats seat new v.distinct);
      belongs = λ q c. ground (arith, f, contains-players q seats seat, v.belongs q);
      allowed = λ q c. ground (arith, e, f, contains-players q seats seat, v.allowed q);
      active = λ q c. ground (
        arith,
        e,
        f,
        contains-players q seats seat,
        Set.contains-insert q p l.played,
        v.active q,
      );
    }
