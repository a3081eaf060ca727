-- ===== src/League/State.antt =====
-- The state and the actions of the league domain (crates/league/src/governance.rs and season.rs).
use union_core.Prelude.{
  ℕ, String, Bool, true, false, Option, none, some, text_key, Error, is_none_or, ltb, List,
  if◌then◌else◌,
}
use Prim.Native.String.{◌++◌}
use union_core.Prelude.Dict
use union_core.Prelude.Dict.{Dict}
use union_core.Prelude.Set
use union_core.Prelude.Set.{Set}
use union_core.Prelude.Int.{ℤ}
use union_core.Prelude.Words.{saturating_add, saturating_mul}

pub record Rules : Type 0 where
  pub cross_club : Bool
  pub seats : ℕ
  pub reconnect_min_ms : ℕ
  pub reconnect_max_ms : ℕ

pub record Team : Type 0 where
  pub captain : String
  pub members : Set String
  pub invited : Set String
  pub registered : Bool

pub data Phase : Type 0 where
  registration playing finished : Phase

abbrev pub is_registration : Phase → Bool
is_registration registration = true
is_registration playing = false
is_registration finished = false

abbrev pub is_playing : Phase → Bool
is_playing registration = false
is_playing playing = true
is_playing finished = false

abbrev pub is_finished : Phase → Bool
is_finished registration = false
is_finished playing = false
is_finished finished = true

pub record Seat : Type 0 where
  pub player : String
  pub epoch : ℕ
  pub disconnected_until : Option ℕ

pub record ConnectionHealth : Type 0 where
  pub rtt_ms : ℕ
  pub jitter_ms : ℕ
  pub recovery_ms : ℕ

abbrev pub clamp : ℕ → ℕ → ℕ → ℕ
clamp x low high = if ltb x low then low else if ltb high x then high else x

unfoldable pub grace : ConnectionHealth → Rules → ℕ
grace h rules =
    clamp
      (saturating_add (saturating_add (saturating_mul h.rtt_ms 8) (saturating_mul h.jitter_ms 4))
        (saturating_mul h.recovery_ms 2))
      rules.reconnect_min_ms rules.reconnect_max_ms

pub record Schedule : Type 0 where
  pub opens_ms : ℕ
  pub closes_ms : ℕ
  pub starts_ms : ℕ

pub record League : Type 0 where
  pub admitted : Option (Set String)
  pub rules : Rules
  pub organizer : String
  pub host : String
  pub scorer : String
  pub phase : Phase
  pub teams : Dict String Team
  pub online : Set String
  pub seats : Dict String (List Seat)
  pub played : Set String
  pub player_scores : Dict String ℤ
  pub team_scores : Dict String ℤ
  pub score_events : Dict String String
  pub paused_since : Option ℕ
  pub schedule : Option Schedule
  pub manual_pause : Bool
  pub infrastructure_down : Bool
  pub random_seed : List ℕ
  pub draw : ℕ
  pub epoch : ℕ
  pub health : Dict String ConnectionHealth

pub record Season : Type 0 where
  pub title : String
  pub leagues : Set String

pub record Resolution : Type 0 where
  pub reviewer : String
  pub time_ms : ℕ
  pub response : String
  pub players : Dict String ℤ
  pub teams : Dict String ℤ

pub record Dispute : Type 0 where
  pub league : String
  pub member : String
  pub reason : String
  pub created_ms : ℕ
  pub resolution : Option Resolution

pub record LeagueState : Type 0 where
  pub leagues : Dict String League
  pub seasons : Dict String Season
  pub disputes : Dict String Dispute

-- The actions on one league that exists, without its id.
pub data LeagueCommand : Type 0 where
  set_attendance : Set String → Bool → LeagueCommand
  create_team : String → LeagueCommand
  invite : String → String → LeagueCommand
  accept : String → LeagueCommand
  register : String → LeagueCommand
  presence : String → Bool → ConnectionHealth → LeagueCommand
  start : List ℕ → LeagueCommand
  tick : LeagueCommand
  infrastructure : Bool → LeagueCommand
  score : String → Dict String ℤ → Dict String ℤ → LeagueCommand
  finish : LeagueCommand

-- `enum LeagueAction`; the actions that carry the id of an existing league first are `on`.
pub data LeagueAction : Type 0 where
  create_season : String → String → LeagueAction
  schedule_league : String → String → Schedule → LeagueAction
  pause_league : String → Bool → LeagueAction
  dispute_result : String → String → String → LeagueAction
  resolve_dispute : String → String → Dict String ℤ → Dict String ℤ → LeagueAction
  create_league : String → Rules → String → String → LeagueAction
  on : String → LeagueCommand → LeagueAction

-- Peers and hashes, which libraries compute.
pub record Hashing : Type 0 where
  -- `parse::<PeerId>()` succeeds
  pub parses_peer : String → Bool
  -- SHA-256 of a seed, the bytes of a draw and the bytes of a player's id
  pub draw_hash : List ℕ → List ℕ → String → List ℕ
  -- `digest(text.as_bytes())`
  pub digest_text : String → String
  -- `digest` of the JSON text of the two maps
  pub digest_scores : Dict String ℤ → Dict String ℤ → String

-- An index of a map by a missing key panics; here that is an error of its own.
abbrev pub panicked : Error
panicked = Error.protocol "no entry found for key"

-- The first team, in the order of the names, that has the member.
unfoldable pub team_of : League → String → Option String
team_of l member = elim (Dict.find (λ _ t. Set.contains member t.members) l.teams) [
  | none ↦ none
  | some (id, _) ↦ some id
]

-- Nobody is left out, or the member is on the list.
abbrev pub admits : League → String → Bool
admits l member = is_none_or (λ s. Set.contains member s) l.admitted

-- The name of a team that is put together from the digest of its captain.
abbrev pub auto_name : String → String
auto_name digest = "auto-" ++ digest
