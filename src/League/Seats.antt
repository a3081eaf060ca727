-- ===== src/League/Seats.antt =====
-- The seats of a running league in crates/league/src/governance.rs: the draw of players for
-- vacancies, presence, pauses, and where a player is sent.
use union_core.Prelude.{
  ℕ, suc, zero, ◌/◌, ◌%◌, ◌^◌, String, Bool, true, false, not, ◌&&◌, ◌||◌, Option, none, some, ◌==◌,
  text_key, nat_key, Result, ok, denied, protocol, refuse_if, ok_or, ◌>>=◌, ◌>>◌, is_some,
  is_some_and, is_none_or, ltb, List, [], ◌∷◌, ◌++◌, length, filter, map, if◌then◌else◌,
}
use union_core.Prelude.Dict
use union_core.Prelude.Dict.{Dict}
use union_core.Prelude.Set
use union_core.Prelude.Set.{Set}
use union_core.Prelude.Words.{checked_add, saturating_add, saturating_sub}
use union_core.Governance.State.{Context}
use union_core.League.State.{
  League, Team, Seat, ConnectionHealth, Hashing, is_playing, is_finished, team_of, panicked, admits,
  grace,
}

-- `to_be_bytes`
abbrev pub to_be_bytes : ℕ → List ℕ
to_be_bytes n =
    n / 256 ^ 7 % 256
    ∷ n / 256 ^ 6 % 256
    ∷ n / 256 ^ 5 % 256
    ∷ n / 256 ^ 4 % 256
    ∷ n / 256 ^ 3 % 256
    ∷ n / 256 ^ 2 % 256
    ∷ n / 256 % 256
    ∷ n % 256
    ∷ []

-- Bytes in the order of lists.
unfoldable pub bytes_less : List ℕ → List ℕ → Bool
bytes_less [] [] = false
bytes_less [] (y ∷ ys) = true
bytes_less (x ∷ xs) [] = false
bytes_less (x ∷ xs) (y ∷ ys) = ltb x y || (x == y && bytes_less xs ys)

module _ (key : String → List ℕ) where
  -- `sort_by_cached_key`: stable, by the key
  unfoldable pub place_by : String → List String → List String
  unfolding bytes_less
  place_by x [] = x ∷ []
  place_by x (y ∷ ys) = if bytes_less (key y) (key x) then y ∷ place_by x ys else x ∷ y ∷ ys

  unfoldable pub sort_by_cached_key : List String → List String
  unfolding place_by
  sort_by_cached_key [] = []
  sort_by_cached_key (x ∷ xs) = place_by x (sort_by_cached_key xs)

abbrev pub players : List Seat → List String
players [] = []
players (s ∷ ss) = s.player ∷ players ss

unfoldable pub candidates : League → Team → List Seat → List String
candidates l t seats =
    filter (λ p. Set.contains p l.online && not (Set.contains p (players seats)) && admits l p)
      t.members

-- One seat more: the draw and the epoch move on, and the player has played.
unfoldable pub take_seat : League → List Seat → String → Result (League × List Seat)
take_seat l seats player = do
  draw ← ok_or (checked_add l.draw 1) (protocol "draw overflow")
  epoch ← ok_or (checked_add l.epoch 1) (protocol "seat epoch overflow")
  ok (
    record l { draw = draw; epoch = epoch; played = Set.insert player l.played },
    seats ++ record { player = player; epoch = epoch; disconnected_until = none } ∷ [],
  )

-- The seat of the member, as the connection comes or goes.
unfoldable pub mark_seat : String → Bool → ℕ → Seat → Seat
mark_seat member online deadline s =
    if s.player == member
    then (if online
        then record s { disconnected_until = none }
        else if is_some s.disconnected_until
        then s
        else record s { disconnected_until = some deadline })
    else s

-- The member in the set of those online, and its seats.
unfoldable pub mark_member : String → Bool → ℕ → League → League
unfolding mark_seat
mark_member member online deadline l = record l {
  online = if online then Set.insert member l.online else Set.remove member l.online;
  seats = Dict.map_values (λ _ seats. map (mark_seat member online deadline) seats) l.seats;
}

abbrev pub runs : League → Bool
runs l = is_playing l.phase && not (is_some l.paused_since)

module _ (H : Hashing) where
  -- The candidates of a team, in the order of their hashes.
  unfoldable pub drawn : League → Team → List Seat → List String
  unfolding candidates sort_by_cached_key
  drawn l t seats =
      sort_by_cached_key (H.draw_hash l.random_seed (to_be_bytes l.draw)) (candidates l t seats)

  -- The loop over the vacancies of one team, at most `n` times.
  unfoldable pub fill_team : ℕ → League → String → List Seat → Result (League × List Seat)
  unfolding drawn take_seat
  fill_team zero l team seats = ok (l, seats)
  fill_team (suc n) l team seats = elim (ltb (length seats) l.rules.seats) [
    | false ↦ ok (l, seats)
    | true ↦ do
      t ← ok_or (Dict.lookup team l.teams) panicked
      elim (drawn l t seats) [
        | [] ↦ ok (l, seats)
        | player ∷ _ ↦ do taken ← take_seat l seats player; fill_team n taken.0 team taken.1
      ]
  ]

  unfoldable pub fill_teams :
      League → Dict String (List Seat) → Result (League × Dict String (List Seat))
  unfolding fill_team
  fill_teams l [] = ok (l, [])
  fill_teams l ((team, seats) ∷ rest) = do
    filled ← fill_team l.rules.seats l team seats
    others ← fill_teams filled.0 rest
    ok (others.0, (team, filled.1) ∷ others.1)

  unfoldable pub fill_vacancies : League → Result League
  unfolding fill_teams
  fill_vacancies l = do filled ← fill_teams l l.seats; ok (record (filled.0) { seats = filled.1 })

  unfoldable pub replace_expired : League → ℕ → Result League
  unfolding fill_vacancies
  replace_expired l now_ms = fill_vacancies (record l {
    seats =
        Dict.map_values
          (λ _ seats. filter (λ s. is_none_or (λ t. ltb now_ms t) s.disconnected_until) seats)
          l.seats;
  })

  -- Expired seats go before a late connection comes back.
  unfoldable pub resolve_expired : League → ℕ → Result League
  unfolding replace_expired
  resolve_expired l now_ms = if runs l then replace_expired l now_ms else ok l

  unfoldable pub refill : League → Bool → Result League
  unfolding fill_vacancies
  refill l online = if online && runs l then fill_vacancies l else ok l

  unfoldable pub presence : League → Context → String → Bool → ConnectionHealth → Result League
  unfolding resolve_expired refill mark_member
  presence l ctx member online health = do
    refuse_if (not (ctx.actor == l.host) || not (Dict.contains member ctx.core.members)) denied
    refuse_if (is_finished l.phase) (protocol "league finished")
    refuse_if
        (ltb 60_000 health.rtt_ms || ltb 60_000 health.jitter_ms || ltb 600_000 health.recovery_ms)
        (protocol "invalid measured health")
    current ← resolve_expired (record l { health = Dict.insert member health l.health }) ctx.now_ms
    refill
        (mark_member member online (saturating_add ctx.now_ms (grace health current.rules)) current)
        online

  unfoldable pub tick : League → String → ℕ → Result League
  unfolding replace_expired
  tick l actor now_ms = do
    refuse_if (not (actor == l.host)) denied
    refuse_if (not (is_playing l.phase)) (protocol "not playing")
    if is_some l.paused_since then ok l else replace_expired l now_ms

-- The deadline of a seat, put off by the time of the pause.
unfoldable pub put_off : ℕ → Seat → Seat
put_off pause s = record s {
  disconnected_until = elim s.disconnected_until [
    | none ↦ none
    | some deadline ↦ some (saturating_add deadline pause)
  ];
}

-- The end of a pause that began at `since`.
unfoldable pub resume : League → ℕ → ℕ → League
unfolding put_off
resume l since now_ms = record l {
  paused_since = none;
  seats = Dict.map_values (λ _ seats. map (put_off (saturating_sub now_ms since)) seats) l.seats;
}

unfoldable pub update_pause : League → ℕ → League
unfolding resume
update_pause l now_ms =
    if l.manual_pause || l.infrastructure_down
    then record l {
      paused_since = elim l.paused_since [ none ↦ some now_ms | some since ↦ some since ];
    }
    else elim l.paused_since [ none ↦ l | some since ↦ resume l since now_ms ]

unfoldable pub infrastructure : League → String → ℕ → Bool → Result League
unfolding update_pause
infrastructure l actor now_ms healthy = do
  refuse_if (not (actor == l.host)) denied
  ok (update_pause (record l { infrastructure_down = not healthy }) now_ms)

pub data Route : Type 0 where
  to_match : String → ℕ → Route
  waiting : Route
  unavailable : Route

unfoldable pub seat_in : String → List Seat → Option Seat
seat_in member [] = none
seat_in member (s ∷ ss) = if s.player == member then some s else seat_in member ss

-- The first seat of the member, with its team.
unfoldable pub seat_of : String → Dict String (List Seat) → Option (String × ℕ)
unfolding seat_in
seat_of member [] = none
seat_of member ((team, seats) ∷ rest) = elim (seat_in member seats) [
  | none ↦ seat_of member rest
  | some s ↦ some (team, s.epoch)
]

abbrev pub is_registered : League → String → Bool
is_registered l team = is_some_and (λ (t : Team). t.registered) (Dict.lookup team l.teams)

unfoldable pub route : League → String → Route
unfolding seat_of
route l member = if not (is_playing l.phase) then unavailable else elim (seat_of member l.seats) [
  | some (team, epoch) ↦ to_match team epoch
  | none ↦ if is_some_and (is_registered l) (team_of l member) then waiting else unavailable
]
