-- ===== src/Events/State.antt =====
-- The data of crates/events/src/lib.rs, its tests, and what it takes from the libraries for JSON.
use Prim.Native.Char.{code}
use Prim.Native.String.{len, ◌++◌}
use union_core.Prelude.{
  ℕ, zero, suc, ◌/◌, ◌%◌, String, Bool, ◌&&◌, ◌||◌, Option, none, some, ◌==◌, text_key, nat_key,
  Result, denied, refuse_if, is_some_and, ltb, List, [], ◌∷◌, any, if◌then◌else◌,
}
use union_core.Prelude.Dict
use union_core.Prelude.Dict.{Dict}
use union_core.Prelude.Set
use union_core.Prelude.Set.{Set}
use union_core.Protocol.Schema.{Bytes}
use union_core.Protocol.Text.{is_blank, is_control, codes}
use union_core.Protocol.Ipld.{Cid, IpldBlock, Encoding}
use union_core.Governance.State.{Context, Member, member_of}
use union_core.League.State.{LeagueState, LeagueAction, Hashing}
use union_core.Files.Store.{FileStore}
use union_core.Events.Organization.{
  OrganizationState, OrganizationAction, Attestation, ActivityEvidence, Plan, ReportKind,
  empty_organization,
}

pub record Window : Type 0 where
  pub opens_ms : ℕ
  pub closes_ms : ℕ
  pub starts_ms : ℕ

pub data Phase : Type 0 where
  draft review approved opened done cancelled : Phase

-- `==` on phases, by their order
abbrev phase_index : Phase → ℕ
phase_index Phase.draft = 0
phase_index Phase.review = 1
phase_index Phase.approved = 2
phase_index Phase.opened = 3
phase_index Phase.done = 4
phase_index Phase.cancelled = 5

abbrev pub is_phase : Phase → Phase → Bool
is_phase p q = phase_index p == phase_index q

pub record Event : Type 0 where
  pub title : String
  pub brief_hash : String
  pub organizer : String
  pub creator : String
  pub co_organizers : Set String
  pub window : Window
  pub phase : Phase
  pub epoch : ℕ

pub record Task : Type 0 where
  pub event : String
  pub title : String
  pub assignee : Option String
  -- `done`
  pub completed : Bool
  pub due_ms : Option ℕ

pub record EventsState : Type 0 where
  pub organization : OrganizationState
  pub competitions : LeagueState
  pub files : FileStore
  pub events : Dict String Event
  pub tasks : Dict String Task
  pub signups : Dict String (Set String)
  pub checkins : Dict String (Set String)

-- The actions of the domain.
pub data EventAction : Type 0 where
  put_block : IpldBlock → EventAction
  -- branch, expected, commit
  commit_files : String → Option Cid → Cid → EventAction
  -- id, title, brief_hash, window
  create : String → String → String → Window → EventAction
  submit : String → EventAction
  -- id, epoch, co_organizers
  approve : String → ℕ → Set String → EventAction
  publish : String → EventAction
  amend : String → String → EventAction
  revise : String → String → String → Window → EventAction
  finish : String → EventAction
  cancel_event : String → EventAction
  -- event, id, title, due_ms
  add_task : String → String → String → Option ℕ → EventAction
  assign : String → String → EventAction
  complete : String → EventAction
  signup : String → EventAction
  checkin : String → EventAction
  cancel_signup : String → EventAction
  of_organization : OrganizationAction → EventAction
  of_competition : LeagueAction → EventAction

abbrev pub max_records : ℕ
max_records = 10_000

-- `document_evidence`: a document by its text, its type, or only its id.
pub data DocumentEvidence : Type 0 where
  text_document : Cid → String → DocumentEvidence
  typed_document : Cid → String → DocumentEvidence
  unread_document : Cid → DocumentEvidence

pub record ConsentEvidence : Type 0 where
  pub original : DocumentEvidence
  pub transcript : Option DocumentEvidence

-- What a plan's review, and what a report, is given; the fields are those of the JSON objects.
pub record PlanEvidence : Type 0 where
  pub event : Event
  pub plan : Plan
  pub planning_document : DocumentEvidence
  pub opinions : Dict String DocumentEvidence
  pub consents : Dict String ConsentEvidence
  pub signups : Option (Set String)
  pub checkins : Option (Set String)
  pub tasks : Dict String Task

pub record EventRecord : Type 0 where
  pub id : String
  pub event : Event
  pub plan : Option Plan
  pub planning_document : DocumentEvidence
  pub summary : Option DocumentEvidence
  pub attendance : Option (Set String)
  pub tasks : Dict String Task

pub record ReportEvidence : Type 0 where
  pub club : String
  pub period_start_ms : ℕ
  pub period_end_ms : ℕ
  pub requirements : DocumentEvidence
  pub kind : ReportKind
  pub audience : String
  pub activities : List EventRecord

-- The libraries: the encodings of blocks and the hashes, JSON texts and UTF-8.
pub record Libraries : Type 0 where
  pub encoding : Encoding
  pub hashing : Hashing
  -- `from_utf8`
  pub utf8 : Bytes → Option String
  -- `to_vec` of an attestation and of its evidence, `from_slice` of an evidence,
  -- `to_vec` of the evidence of a plan and of a report
  pub attestation_json : Attestation → Bytes
  pub evidence_json : ActivityEvidence → Bytes
  pub parse_evidence : Bytes → Option ActivityEvidence
  pub plan_json : PlanEvidence → Bytes
  pub report_json : ReportEvidence → Bytes

-- `text`
unfoldable pub text : String → ℕ → Result (Unit {0})
unfolding is_blank is_control
text s max = refuse_if (is_blank s || ltb max (len s) || any is_control (codes s)) denied

-- `Display` of an integer; `fuel` bounds the digits, 20 for a `u64`.
unfoldable digits : ℕ → ℕ → String
digits zero n = ""
digits (suc fuel) n =
    let low = digit (n % 10) in
    let high = digits fuel (n / 10) in if ltb n 10 then low else high ++ low
  where
    digit : ℕ → String
    digit n =
        if n == 0
        then "0"
        else if n == 1
        then "1"
        else if n == 2
        then "2"
        else if n == 3
        then "3"
        else if n == 4
        then "4"
        else if n == 5
        then "5"
        else if n == 6
        then "6"
        else if n == 7
        then "7"
        else if n == 8
        then "8"
        else "9"

unfoldable pub decimal : ℕ → String
unfolding digits
decimal n = digits 20 n

-- `strip_prefix`
unfoldable pub strip_prefix : String → String → Option String
strip_prefix String.[] s = some s
strip_prefix (String.◌∷◌ c p) String.[] = none
strip_prefix (String.◌∷◌ c p) (String.◌∷◌ d s) = if code c == code d then strip_prefix p s else none

abbrev pub is_admin : Context → Bool
is_admin ctx = Set.contains ctx.actor ctx.core.admins

-- `club_manager`
unfoldable pub club_manager : Context → String → Bool
unfolding member_of
club_manager ctx club =
    is_admin ctx
    || is_some_and
        (λ (m : String × Member).
          m.1.club == club
          && any (λ role. Set.contains role m.1.roles) ("president" ∷ "admin" ∷ "manager" ∷ []))
        (member_of ctx.core.members ctx.actor)

unfoldable pub manage : Event → Context → Bool
unfolding club_manager
manage event ctx = club_manager ctx event.organizer

-- `active`
abbrev pub active : Event → Result (Unit {0})
active event =
    refuse_if (is_phase event.phase Phase.done || is_phase event.phase Phase.cancelled) denied

abbrev pub has_club : Context → String → Bool
has_club ctx club = Dict.any (λ _ m. m.club == club) ctx.core.members

abbrev pub empty_events : EventsState
empty_events = record {
  organization = empty_organization;
  competitions = record { leagues = []; seasons = []; disputes = [] };
  files = record { blocks = []; branches = [] };
  events = [];
  tasks = [];
  signups = [];
  checkins = [];
}
