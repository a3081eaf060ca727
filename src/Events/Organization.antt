-- ===== src/Events/Organization.antt =====
-- The data of crates/events/src/points.rs and crates/events/src/workflows.rs.
use union_core.Prelude.{ℕ, String, Bool, Option, none, []}
use union_core.Prelude.Dict.{Dict}
use union_core.Prelude.Set.{Set}
use union_core.Prelude.Int.{ℤ}
use union_core.Protocol.Ipld.{Cid, IpldBlock}

pub record PointAccount : Type 0 where
  pub club : String
  pub member : String

pub record AiAllowance : Type 0 where
  pub scope : String
  pub epoch : ℕ

pub record ActivityPolicy : Type 0 where
  pub daily_member_cap : ℕ

pub record OracleSourcePolicy : Type 0 where
  pub title : String
  pub club : String
  pub oracle_device : String
  pub service : String
  pub weight_bps : ℕ
  pub points_per_slice : ℕ
  pub max_bonus_per_slice : ℕ
  pub daily_source_cap : ℕ
  pub enabled : Bool

pub record DayUsage : Type 0 where
  pub day_epoch : ℕ
  pub points : ℕ
  pub active_slices : ℕ
  pub afk_slices : ℕ

abbrev pub no_usage : DayUsage
no_usage = record { day_epoch = 0; points = 0; active_slices = 0; afk_slices = 0 }

pub record OracleSource : Type 0 where
  pub config : OracleSourcePolicy
  pub last_window_end_ms : ℕ
  pub daily : DayUsage

pub record ActivityTotals : Type 0 where
  pub active_slices : ℕ
  pub afk_slices : ℕ
  pub bonus_points : ℕ

pub record Attestation : Type 0 where
  pub source : String
  pub window_start_ms : ℕ
  pub window_end_ms : ℕ
  pub players : Dict String ActivityTotals

pub record ActivityEvidence : Type 0 where
  pub attestation_hash : String
  pub telemetry : Cid

pub record ActivityReceipt : Type 0 where
  pub accounts : Dict String String
  pub credited_ms : ℕ
  pub attestation : Attestation
  pub evidence : Cid
  pub credited_day : ℕ
  pub awarded : Dict String ℕ

pub record BudgetAuthorization : Type 0 where
  pub account : PointAccount
  pub epoch : ℕ
  pub remaining_points : ℕ

pub record AiDocument : Type 0 where
  pub member : String
  pub worker : String
  pub output : Cid
  pub created_ms : ℕ

pub data ReportKind : Type 0 where
  mua_annual club_annual_review : ReportKind

pub data ReportStatus : Type 0 where
  generating draft published : ReportStatus

pub data Kind : Type 0 where
  online meeting : Kind

pub data ClubKind : Type 0 where
  official independent : ClubKind

pub record PublicReport : Type 0 where
  pub club : String
  pub kind : ReportKind
  pub period_start_ms : ℕ
  pub period_end_ms : ℕ
  pub version : ℕ
  pub output : Cid
  pub published_ms : ℕ

pub record PushCheckpoint : Type 0 where
  pub revision : ℕ
  pub ciphertext : String

pub record Automation : Type 0 where
  pub worker : String
  pub model : String
  pub max_tokens : ℕ
  pub timeout_ms : ℕ

pub record GameResource : Type 0 where
  pub title : String
  pub address : String
  pub peer : String
  pub host : String
  pub scorer : String
  pub seats : ℕ
  pub cross_school : Bool
  pub automatic_teams : Bool
  pub operations_service : String
  -- `instance`
  pub instance_ : String

pub record SchoolProfile : Type 0 where
  pub kind : ClubKind
  pub mua_requirements : Cid
  pub mua_recipient : String
  pub annual_requirements : Option Cid
  pub annual_recipient : Option String

pub record School : Type 0 where
  pub kind : ClubKind
  pub participants : Set String

pub record Opinion : Type 0 where
  pub member : String
  pub epoch : ℕ
  pub document : Cid
  pub games : Set String

pub record Consent : Type 0 where
  pub transcript : Option Cid
  pub member : String
  pub epoch : ℕ
  pub document : Cid

pub record RewardRule : Type 0 where
  pub points : ℕ
  pub material : Option String
  pub top_places : Option ℕ

pub record Award : Type 0 where
  pub club : String
  pub member : String
  pub points : ℕ
  pub material : Option String
  pub delivered_by : Option String
  pub received_ms : Option ℕ

pub record GameRun : Type 0 where
  pub reserved : Bool
  pub stopped : Bool
  pub resource : String
  pub league : String
  pub started : Bool
  pub results : Option (Dict String ℤ)
  pub evidence : Option Cid
  -- `error`
  pub failure : Option String

pub record Plan : Type 0 where
  pub kind : Kind
  pub schools : Dict String School
  pub candidates : Set String
  pub selected : Set String
  pub opinions : Dict String Opinion
  pub consents : Dict String Consent
  pub rewards : Dict String RewardRule
  pub final_epoch : Option ℕ
  pub polished : Option Cid
  pub review_input : Option Cid
  pub summary : Option Cid
  pub awards : Dict String Award
  pub settled : Bool
  pub games : Dict String GameRun
  pub checkin_opens_ms : ℕ
  pub checkin_closes_ms : ℕ
  pub ends_ms : ℕ
  pub worker : String

pub record Report : Type 0 where
  pub club : String
  pub creator : String
  pub kind : ReportKind
  pub period_start_ms : ℕ
  pub period_end_ms : ℕ
  pub recipient : String
  pub requirements : Cid
  pub evidence : Cid
  pub output : Option Cid
  pub status : ReportStatus
  pub version : ℕ
  pub worker : String

pub record Notice : Type 0 where
  pub event : String
  pub task : String
  pub member : String
  pub due_ms : ℕ
  pub acknowledged_ms : Option ℕ

pub record OrganizationState : Type 0 where
  pub automation : Option Automation
  pub resources : Dict String GameResource
  pub schools : Dict String SchoolProfile
  pub enrollment : Dict String (Dict String String)
  pub plans : Dict String Plan
  pub reports : Dict String Report
  pub points : Dict String (Dict String ℕ)
  pub activity_policy : Option ActivityPolicy
  pub oracle_sources : Dict String OracleSource
  pub activity_members : Dict String DayUsage
  pub activity_receipts : Dict String ActivityReceipt
  pub ai_allowances : Dict String BudgetAuthorization
  pub ai_documents : Dict String AiDocument
  pub notices : Dict String Notice
  pub publications : Dict String PublicReport
  pub push_checkpoints : Dict String PushCheckpoint

-- The actions of an organization.
pub data OrganizationAction : Type 0 where
  activity_policy : ActivityPolicy → OrganizationAction
  oracle_source : String → OracleSourcePolicy → OrganizationAction
  -- source, start and end of the window, players, evidence
  activity_attest : String → ℕ → ℕ → Dict String ActivityTotals → IpldBlock → OrganizationAction
  authorize_ai : String → ℕ → OrganizationAction
  -- id, member, worker
  ai_document : String → String → String → OrganizationAction
  automation : Automation → OrganizationAction
  resource : String → GameResource → OrganizationAction
  school_profile : String → SchoolProfile → OrganizationAction
  -- event, kind, schools, candidates, opening and closing of the check-in, end, worker
  plan : String → Kind → Dict String School → Set String → ℕ → ℕ → ℕ → String → OrganizationAction
  -- event, document, games
  opinion : String → Cid → Set String → OrganizationAction
  -- event, document, transcript
  consent : String → Cid → Option Cid → OrganizationAction
  rewards : String → RewardRule → OrganizationAction
  finalize : String → Set String → OrganizationAction
  polish : String → ℕ → OrganizationAction
  summary : String → ℕ → OrganizationAction
  game_claim : String → String → OrganizationAction
  -- event, game, started, stopped, results, evidence, error
  game_receipt :
      String
      → String
      → Bool
      → Bool
      → Option (Dict String ℤ)
      → Option Cid
      → Option String
      → OrganizationAction
  settle : String → OrganizationAction
  deliver : String → String → OrganizationAction
  receive : String → OrganizationAction
  notify : String → ℕ → OrganizationAction
  acknowledge : String → OrganizationAction
  -- id, kind, start and end of the period, recipient, requirements, worker
  report : String → ReportKind → ℕ → ℕ → String → Cid → String → OrganizationAction
  report_generated : String → ℕ → OrganizationAction
  report_revise : String → Cid → OrganizationAction
  report_publish : String → OrganizationAction
  -- group, expected revision, ciphertext
  push_checkpoint : String → ℕ → String → OrganizationAction

abbrev pub empty_organization : OrganizationState
empty_organization = record {
  automation = none;
  resources = [];
  schools = [];
  enrollment = [];
  plans = [];
  reports = [];
  points = [];
  activity_policy = none;
  oracle_sources = [];
  activity_members = [];
  activity_receipts = [];
  ai_allowances = [];
  ai_documents = [];
  notices = [];
  publications = [];
  push_checkpoints = [];
}
