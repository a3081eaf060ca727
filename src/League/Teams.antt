-- ===== src/League/Teams.antt =====
-- The teams of a league before it starts: the actions of crates/league/src/governance.rs that run
-- during registration.
use union_core.Prelude.{
  ℕ, String, Bool, true, false, not, ◌&&◌, ◌||◌, Option, some, ◌==◌, text_key, nat_key, Result, ok,
  err, denied, not_found, protocol, refuse_if, ok_or, ◌>>=◌, ◌>>◌, is_some, is_some_and, is_empty,
  ltb, leb, List, [], ◌∷◌, ◌++◌, length, any, unwrap_or, try_fold, chunks, chunks_from,
}
use union_core.Prelude.Dict
use union_core.Prelude.Dict.{Dict}
use union_core.Prelude.Set
use union_core.Prelude.Set.{Set}
use union_core.Protocol.Text.{validate_identifier}
use union_core.Governance.State.{Context, Member}
use union_core.League.State.{League, Team, Hashing, auto_name, is_registration, team_of, panicked}

-- `League::registration`
unfoldable pub check_registration : League → Result (Unit {0})
check_registration l = refuse_if (not (is_registration l.phase)) (protocol "registration closed")

unfoldable pub registration_window : League → ℕ → Result (Unit {0})
registration_window l now =
    refuse_if (is_some_and (λ s. ltb now s.opens_ms || leb s.closes_ms now) l.schedule) denied

-- The team that one chunk makes, under a name from its captain.
unfoldable pub auto_team : Hashing → Dict String Team → List String → Result (Dict String Team)
auto_team H teams [] = err denied
auto_team H teams (captain ∷ chunk) = ok (
    Dict.insert (auto_name (H.digest_text captain))
      (record {
        captain = captain;
        members = Set.collect (captain ∷ chunk);
        invited = [];
        registered = true;
      })
      teams)

-- The group of a member: its club, or one for all where clubs may mix.
unfoldable pub group_of : Bool → Dict String Member → String → Result String
group_of true members m = ok ""
group_of false members m = do entry ← ok_or (Dict.lookup m members) panicked; ok entry.club

unfoldable pub group_members :
    Bool
    → Dict String Member
    → List String
    → Dict String (List String)
    → Result (Dict String (List String))
unfolding group_of
group_members cross_club members [] groups = ok groups
group_members cross_club members (m ∷ ms) groups = do
  club ← group_of cross_club members m
  group_members cross_club members ms
      (Dict.insert club (unwrap_or [] (Dict.lookup club groups) ++ m ∷ []) groups)

-- The teams of all groups, in the order of the clubs.
unfoldable pub group_teams :
    Hashing → ℕ → Dict String Team → List (List String) → Result (Dict String Team)
unfolding chunks_from auto_team
group_teams H n teams groups =
    try_fold (λ ts g. try_fold (auto_team H) ts (chunks n g)) teams groups

unfoldable pub set_attendance : Hashing → League → Context → Set String → Bool → Result League
unfolding check_registration group_members group_teams
set_attendance H l ctx members automatic = do
  check_registration l
  refuse_if
      (not (ctx.actor == l.organizer)
        || ltb 10_000 (length members)
        || any (λ m. not (Dict.contains m ctx.core.members)) members)
      denied
  elim automatic [
    | false ↦ ok (record l { admitted = some members })
    | true ↦ do
      refuse_if (not (is_empty l.teams)) denied
      groups ← group_members l.rules.cross_club ctx.core.members members []
      refuse_if (l.rules.seats == 0 && not (is_empty groups)) panicked
      teams ← group_teams H l.rules.seats l.teams (Dict.values groups)
      ok (record l { teams = teams; admitted = some members })
  ]

-- `player` is the member that owns the actor's device, if there is one.
unfoldable pub create_team : League → ℕ → Option String → String → Result League
unfolding check_registration registration_window team_of
create_team l now_ms player team = do
  check_registration l
  registration_window l now_ms
  validate_identifier team
  captain ← ok_or player denied
  refuse_if (is_some (team_of l captain) || Dict.contains team l.teams)
      (protocol "already in a team or team exists")
  ok (record l {
    teams =
        Dict.insert team
          (record { captain = captain; members = captain ∷ []; invited = []; registered = false })
          l.teams;
  })

abbrev pub is_captain : Option String → Team → Bool
is_captain player t = is_some_and (λ p. t.captain == p) player

unfoldable pub invite : League → Context → Option String → String → String → Result League
unfolding check_registration registration_window
invite l ctx player team member = do
  check_registration l
  registration_window l ctx.now_ms
  refuse_if (not (Dict.contains member ctx.core.members)) not_found
  t ← ok_or (Dict.lookup team l.teams) not_found
  refuse_if (not (is_captain player t)) denied
  ok (record l {
    teams = Dict.insert team (record t { invited = Set.insert member t.invited }) l.teams;
  })

-- Unless clubs may mix, the player and the captain are of one club.
unfoldable pub check_club : Bool → Dict String Member → String → String → Result (Unit {0})
check_club true members member captain = ok tt
check_club false members member captain = do
  m ← ok_or (Dict.lookup member members) panicked
  c ← ok_or (Dict.lookup captain members) panicked
  refuse_if (not (m.club == c.club)) (protocol "cross-club teams disabled")

unfoldable pub accept : League → Context → Option String → String → Result League
unfolding check_registration registration_window team_of check_club
accept l ctx player team = do
  check_registration l
  registration_window l ctx.now_ms
  member ← ok_or player denied
  refuse_if (is_some (team_of l member)) (protocol "member already belongs to a team")
  t ← ok_or (Dict.lookup team l.teams) not_found
  refuse_if (not (Set.contains member t.invited)) denied
  check_club l.rules.cross_club ctx.core.members member t.captain
  ok (record l {
    teams =
        Dict.insert team
          (record t {
            invited = Set.remove member t.invited;
            members = Set.insert member t.members;
            registered = false;
          })
          l.teams;
  })

unfoldable pub register : League → ℕ → Option String → String → Result League
unfolding check_registration registration_window
register l now_ms player team = do
  check_registration l
  registration_window l now_ms
  t ← ok_or (Dict.lookup team l.teams) not_found
  refuse_if (not (is_captain player t)) denied
  ok (record l { teams = Dict.insert team (record t { registered = true }) l.teams })
