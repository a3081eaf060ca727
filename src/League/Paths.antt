-- ===== src/League/Paths.antt =====
-- Where `League::route` sends a player, and what a pause does to the deadlines
-- (crates/league/src/governance.rs and season.rs).
use union_core.Prelude.{
  ℕ, ◌+◌, ◌-◌, ◌^◌, ◌<◌, ◌≤◌, ◌⊎◌, sym, subst, ◌≡◌, ◌≢◌, inl, inr, refl, arith, String, true, false,
  none, some, text_key, ok, is_some, Option, List, [], ◌∷◌, map, Option-cases,
}
use union_core.Prelude.Dict
use union_core.Prelude.Dict.{Dict}
use union_core.Prelude.Entries
use union_core.Prelude.Set
use union_core.Prelude.Words.{saturating_add, saturating_sub}
use union_core.League.State.{League, Team, Seat, is_playing}
use union_core.League.Seats.{
  players, route, seat_of, seat_in, to_match, infrastructure, update_pause, resume, put_off,
}
use union_core.League.Seated.{IsSeated}
use union_core.League.Fair.{IsFair}
use union_core.League.Apart.{IsApart, IsApart-at}

-- Whoever sits has a seat that the search finds, and only they have.
seat_in-players :
    (p : String) (seats : List Seat) → is_some (seat_in p seats) ≡ Set.contains p (players seats)
unfolding seat_in Set.contains
seat_in-players p [] = refl
seat_in-players p (s ∷ ss) = ground (arith, seat_in-players p ss)

seat_of-some :
    (l : League) (p : String) (m : Dict String (List Seat)) (team : String) (e : ℕ)
    → Entries.All (IsSeated l) m
    → seat_of p m ≡ some (team, e)
    → (t : Team) × (Dict.lookup team l.teams ≡ some t) × (Set.contains p t.members ≡ true)
unfolding seat_of
seat_of-some l p [] team e a h = absurd (ground arith)
seat_of-some l p ((id, seats) ∷ m) team e a h = elim (Option-cases (seat_in p seats)) [
  | inl absent ↦ seat_of-some l p m team e a.1 (ground arith)
  | inr (s, here) ↦ (
    a.0.team,
    ground (arith, a.0.listed),
    a.0.belongs p (ground (arith, seat_in-players p seats)),
  )
]

seat_of-found :
    (p : String) (m : Dict String (List Seat)) (team : String) (seats : List Seat)
    → Dict.lookup team m ≡ some seats
    → Set.contains p (players seats) ≡ true
    → seat_of p m ≢ none
unfolding seat_of Dict.lookup
seat_of-found p [] team seats h c e = absurd (ground arith)
seat_of-found p ((id, s) ∷ m) team seats h c e =
    ground (arith, seat_in-players p s, seat_of-found p m team seats)

-- While a league plays whose seats are in order and whose teams share no member, whoever sits for a
-- team is sent to the match of this team, and to no other.
pub route-seat :
    (l : League) (p team : String) (seats : List Seat)
    → IsFair l
    → IsApart l
    → is_playing l.phase ≡ true
    → Dict.lookup team l.seats ≡ some seats
    → Set.contains p (players seats) ≡ true
    → (epoch : ℕ) × (route l p ≡ to_match team epoch)
unfolding route
route-seat l p team seats v apart playing h c = elim (Option-cases (seat_of p l.seats)) [
  | inl none_ ↦ absurd (seat_of-found p l.seats team seats h c none_)
  | inr ((other, epoch), found) ↦
      let here = Entries.All-at (IsSeated l) team seats l.seats v.seated h in
      let (t, listed, member) = seat_of-some l p l.seats other epoch v.seated found in
      (
        epoch,
        ground (
          arith,
          IsApart-at l p other team t here.team apart listed here.listed member (here.belongs p c),
        ),
      )
]

-- A deadline moved by a delay, up to the largest number of 64 bits.
abbrev pub IsMoved : ℕ → Option ℕ → Option ℕ → Type 0
IsMoved delay none after = after ≡ none
IsMoved delay (some deadline) after =
    ((deadline + delay < 2 ^ 64) × (after ≡ some (deadline + delay)))
    ⊎ ((2 ^ 64 ≤ deadline + delay) × (after ≡ some (2 ^ 64 - 1)))

-- The same seats in the same order, each with its deadline moved.
abbrev pub AreMoved : ℕ → List Seat → List Seat → Type 0
AreMoved delay [] [] = Unit
AreMoved delay (s ∷ ss) (r ∷ rs) =
    ((r.player ≡ s.player)
      × (r.epoch ≡ s.epoch)
      × IsMoved delay s.disconnected_until r.disconnected_until)
    × AreMoved delay ss rs
AreMoved delay [] (r ∷ rs) = true ≡ false
AreMoved delay (s ∷ ss) [] = true ≡ false

-- The same teams in the same order, all their seats moved.
abbrev pub AllMoved : ℕ → Dict String (List Seat) → Dict String (List Seat) → Type 0
AllMoved delay [] [] = Unit
AllMoved delay ((i, ss) ∷ m) ((j, rs) ∷ n) = (j ≡ i) × AreMoved delay ss rs × AllMoved delay m n
AllMoved delay [] (e ∷ n) = true ≡ false
AllMoved delay (e ∷ m) [] = true ≡ false

put_off-IsMoved :
    (delay : ℕ) (deadline : Option ℕ) (s : Seat)
    → s.disconnected_until ≡ deadline
    → IsMoved delay deadline (put_off delay s).disconnected_until
unfolding put_off saturating_add
put_off-IsMoved delay none s h = ground arith
put_off-IsMoved delay (some d) s h = ground arith

map-AreMoved : (delay : ℕ) (ss : List Seat) → AreMoved delay ss (map (put_off delay) ss)
map-AreMoved delay [] = tt
map-AreMoved delay (s ∷ ss) = (
  unfold put_off in (refl, refl, put_off-IsMoved delay s.disconnected_until s refl),
  map-AreMoved delay ss,
)

map_values-AllMoved :
    (delay : ℕ) (m : Dict String (List Seat))
    → AllMoved delay m (Dict.map_values (λ _ seats. map (put_off delay) seats) m)
unfolding Dict.map_values
map_values-AllMoved delay [] = tt
map_values-AllMoved delay ((i, ss) ∷ m) = (refl, map-AreMoved delay ss, map_values-AllMoved delay m)

-- Where the infrastructure of a league that nothing else pauses fails and then returns, nothing
-- moves at the failure, and at the return the time between is added to the deadline of every seat,
-- up to the largest number of 64 bits; the teams, the players on the seats and their epochs are the
-- same and in the same order, and but for the seats the league is as before, marked as up.
pub pause-resume :
    (l : League) (down up : ℕ) (k m : League)
    → l.manual_pause ≡ false
    → l.paused_since ≡ none
    → infrastructure l l.host down false ≡ ok k
    → infrastructure k l.host up true ≡ ok m
    → (k.paused_since ≡ some down)
      × (k.seats ≡ l.seats)
      × AllMoved (up - down) l.seats m.seats
      × (m ≡ record l { infrastructure_down = false; seats = m.seats })
unfolding infrastructure update_pause resume saturating_sub
pause-resume l down up k m e1 e2 h1 h2 =
    let moved : Dict String (List Seat) =
      Dict.map_values (λ _ seats. map (put_off (up - down)) seats) l.seats in
    let seats : m.seats ≡ moved = ground arith in
    (
      ground arith,
      ground arith,
      subst (AllMoved (up - down) l.seats) (sym seats) (map_values-AllMoved (up - down) l.seats),
      ground arith,
    )
