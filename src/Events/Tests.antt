-- ===== src/Events/Tests.antt =====
-- A source that attests twice, and an event from its draft to its opening.
use union_core.Prelude.{
  subst, ℕ, ℕ_discrete, String-discrete, list-discrete, pair-discrete, text_less, String, Bool,
  true, false, some, none, ◌≡◌, ◌≤◌, ◌+◌, max, refl, text_key, nat_key, list_key, [], ◌∷◌, Result,
  ok, err, any, all, filter, for_each, try_fold, unwrap_or,
}
use union_core.Prelude.Dict
use union_core.Prelude.Entries
use union_core.Prelude.Set
use union_core.Prelude.Words.{checked_add, checked_mul, checked_sub, saturating_add, saturating_sub}
use union_core.Protocol.Text.{
  validate_digest, validate_lower_hex, is_lower_hex, is_blank, is_whitespace, is_control,
}
use union_core.Protocol.Ipld.{IpldBlock, parse_cid}
use union_core.Governance.State.{Context, Member, context_member, member_of, owns}
use union_core.Files.Tests as FilesTests
use union_core.Events.Organization.{
  Award, GameRun, Kind, Plan, ActivityPolicy, ActivityReceipt, Attestation, OracleSource, no_usage,
  empty_organization,
}
use union_core.Events.State.{
  Event, EventAction, EventsState, Libraries, Phase, Window, club_manager, decimal, empty_events,
  manage, text,
}
use union_core.Events.Points.{points_of, usage_at}
use union_core.Events.Attest.{
  add_usage, attest, award, bad_window, check_player, close_window, raw_points, receipt_id, recent,
  verify,
}
use union_core.Events.Attested.{attest-caps, day_of}
use union_core.Events.Caps.{day_points}
use union_core.Events.Ledger.{attest-credits, credited}
use union_core.Events.Apart.{attest-apart}
use union_core.Events.Attendance.{checked-signed, is_listed}
use union_core.Events.Step.{
  checkin, signup, enrol, approve, check_brief, create, go, is_worker, may_go, transition,
}
use union_core.Events.Plans.{ready, new_plan}
use union_core.Events.Cleared
use union_core.Events.Games.{add_award, add_game, add_score, event_scores, pay, settle, zero_scores}
use union_core.Events.Settled.{Deserved, paid, settle-pays}
use union_core.Prelude.Int.{ℤ, pos, checked_add_i64}

abbrev toy : Libraries
toy = record {
  encoding = FilesTests.toy;
  hashing = record {
    parses_peer = λ s. true;
    draw_hash = λ seed draw player. seed;
    digest_text = λ s. s;
    digest_scores = λ ps ts. "none";
  };
  utf8 = λ bytes. some "text";
  attestation_json = λ a. [];
  evidence_json = λ e. 1 ∷ 2 ∷ 3 ∷ [];
  parse_evidence = λ bytes. some (record { attestation_hash = "sum"; telemetry = "f" });
  plan_json = λ e. [];
  report_json = λ e. [];
}

evaluation : Unit {0}
unfolding FilesTests.evaluation checkin is_listed Set.insert Set.place signup enrol settle
    event_scores add_game add_score zero_scores add_award pay checked_add_i64 Dict.values parse_cid
    attest award bad_window check_player close_window raw_points receipt_id recent verify add_usage
    usage_at decimal day_points credited checked_add checked_mul checked_sub saturating_add
    saturating_sub transition create go approve check_brief is_worker may_go ready club_manager
    manage text context_member member_of owns validate_digest validate_lower_hex is_lower_hex
    is_blank is_whitespace is_control for_each try_fold any all filter Dict.lookup Dict.insert
    Dict.replace Dict.place Dict.retain Dict.any Dict.find Dict.keys Set.contains pair-discrete
    String-discrete list-discrete text_less ℕ_discrete
evaluation = tt

abbrev ann : Member
ann = record { club = "chess"; device = "ann1"; additional_devices = []; roles = "president" ∷ [] }

abbrev at_time : String → ℕ → Bool → Context
at_time actor time approved = record {
  actor = actor;
  now_ms = time;
  revision = 0;
  core = record { admins = []; members = ("ann", ann) ∷ [] };
  approved = approved;
}

abbrev oracle : OracleSource
oracle = record {
  config = record {
    title = "bot";
    club = "chess";
    oracle_device = "box1";
    service = "game";
    weight_bps = 10_000;
    points_per_slice = 10;
    max_bonus_per_slice = 5;
    daily_source_cap = 100;
    enabled = true;
  };
  last_window_end_ms = 0;
  daily = no_usage;
}

abbrev policy : ActivityPolicy
policy = record { daily_member_cap = 20 }

abbrev quiet : EventsState
quiet = record empty_events {
  organization = record empty_organization {
    activity_policy = some policy;
    oracle_sources = ("bot", oracle) ∷ [];
  };
}

abbrev window_from : ℕ → Attestation
window_from start = record {
  source = "bot";
  window_start_ms = start;
  window_end_ms = start + 300_000;
  players = ("ann", record { active_slices = 1; afk_slices = 0; bonus_points = 2 }) ∷ [];
}

abbrev proof : IpldBlock
proof = record { cid = "l"; content = "AQID" }

abbrev state_of : Result EventsState → EventsState
state_of (ok st) = st
state_of (err e) = empty_events

abbrev at_900 : Context
at_900 = at_time "box1" 900_000 false

abbrev played : EventsState
played = state_of (attest toy quiet at_900 (window_from 0) proof)

played-attest : attest toy quiet at_900 (window_from 0) proof ≡ ok played
unfolding evaluation
played-attest = refl

played-points : points_of played "chess" "ann" ≡ 12
unfolding evaluation
played-points = refl

attest-credits_example :
    (r : ActivityReceipt) × (Dict.lookup
        (receipt_id (window_from 0))
        played.organization.activity_receipts
      ≡ some r)
    × (r.attestation ≡ window_from 0)
    × ((club member : String)
        → points_of played club member
          ≡ points_of quiet club member + credited r.accounts r.awarded club member)
attest-credits_example =
    attest-credits toy quiet at_900 (window_from 0) proof played played-attest
      (unfold evaluation in (refl, tt))

attest-caps_example :
    ((after : OracleSource) × (Dict.lookup "bot" played.organization.oracle_sources ≡ some after)
      × (after.daily.points ≤ max 100 (usage_at oracle.daily (day_of at_900)).points))
    × ((member : String)
        → (day_points quiet.organization.activity_members member (day_of at_900)
            ≤ day_points played.organization.activity_members member (day_of at_900))
          × (day_points played.organization.activity_members member (day_of at_900)
              ≤ max 20 (day_points quiet.organization.activity_members member (day_of at_900))))
attest-caps_example =
    attest-caps toy quiet at_900 (window_from 0) proof played oracle policy played-attest
      (unfold evaluation in refl) refl

abbrev replayed : EventsState
replayed = state_of (attest toy played at_900 (window_from 300_000) proof)

replayed-attest : attest toy played at_900 (window_from 300_000) proof ≡ ok replayed
unfolding evaluation
replayed-attest = refl

attest-apart_example : 300_000 ≤ (window_from 300_000).window_start_ms
attest-apart_example =
    attest-apart toy quiet played played replayed at_900 at_900 (window_from 0)
      (window_from 300_000) proof proof played-attest Cleared.now replayed-attest refl

-- An event is drafted, reviewed, approved and published.
abbrev cup : Window
cup = record { opens_ms = 10; closes_ms = 20; starts_ms = 30 }

abbrev brief : String
brief = "00000000000000000000000000000000ffffffffffffffffffffffffffffffff"

abbrev by_ann : Bool → Context
by_ann approved = at_time "ann1" 5 approved

abbrev step_of : EventsState → Bool → EventAction → EventsState
step_of st approved a = state_of (transition toy st (by_ann approved) a)

abbrev drafted : EventsState
drafted = step_of empty_events false (EventAction.create "cup" "Cup" brief cup)

abbrev reviewed : EventsState
reviewed = step_of drafted false (EventAction.submit "cup")

abbrev cleared : EventsState
cleared = step_of reviewed true (EventAction.approve "cup" 1 [])

abbrev published : EventsState
published = step_of cleared false (EventAction.publish "cup")

abbrev cup_event : Phase → Event
cup_event phase = record {
  title = "Cup";
  brief_hash = brief;
  organizer = "chess";
  creator = "ann";
  co_organizers = [];
  window = cup;
  phase = phase;
  epoch = 1;
}

published-lookup : Dict.lookup "cup" published.events ≡ some (cup_event Phase.opened)
unfolding evaluation
published-lookup = refl

act_step :
    (st : EventsState) (approved : Bool) (a : EventAction) (u : EventsState)
    → transition toy st (by_ann approved) a ≡ ok u
    → Cleared.run toy st (Cleared.act (by_ann approved) a) ≡ ok u
unfolding Cleared.run
act_step st approved a u h = h

history : Cleared.Later toy empty_events published
history =
    Cleared.after
      (Cleared.after
        (Cleared.after
          (Cleared.after Cleared.now _ (
            act_step empty_events false (EventAction.create "cup" "Cup" brief cup) drafted
              (unfold evaluation in refl)))
          _
          (act_step drafted false (EventAction.submit "cup") reviewed (unfold evaluation in refl)))
        _
        (act_step reviewed true (EventAction.approve "cup" 1 []) cleared
          (unfold evaluation in refl)))
      _ (act_step cleared false (EventAction.publish "cup") published (unfold evaluation in refl))

opened-approved_example : Cleared.Approval toy published "cup" (cup_event Phase.opened)
opened-approved_example =
    Cleared.opened-approved toy published "cup" (cup_event Phase.opened) history published-lookup
      (unfold evaluation in refl)

-- Ann wins the one game of the cup, and her club rewards the first place.
abbrev run : GameRun
run = record {
  reserved = true;
  stopped = true;
  resource = "mc";
  league = "office";
  started = true;
  results = some (("ann", pos 7) ∷ []);
  evidence = some "f";
  failure = none;
}

abbrev plan : Plan
plan = record (new_plan Kind.online [] [] 10 20 40 "ann") {
  selected = "mc" ∷ [];
  rewards = ("chess", record { points = 30; material = none; top_places = some 1 }) ∷ [];
  games = ("mc", run) ∷ [];
}

abbrev over : EventsState
over = record empty_events {
  organization = record empty_organization {
    plans = ("cup", plan) ∷ [];
    enrollment = ("cup", ("ann", "chess") ∷ []) ∷ [];
  };
  events = ("cup", cup_event Phase.done) ∷ [];
}

abbrev rewarded : EventsState
rewarded = state_of (settle over (by_ann false) "cup")

rewarded-settle : settle over (by_ann false) "cup" ≡ ok rewarded
unfolding evaluation
rewarded-settle = refl

rewarded-points : points_of rewarded "chess" "ann" ≡ 30
unfolding evaluation
rewarded-points = refl

settle-pays_example :
    (plan.settled ≡ false)
    × (scores : Dict.Dict String ℤ) × (awards : Dict.Dict String Award) × (event_scores over "cup"
          plan
        ≡ ok scores)
    × (Dict.lookup "cup" rewarded.organization.plans
        ≡ some (record plan { awards = awards; settled = true }))
    × Entries.All
        (Deserved (unwrap_or [] (Dict.lookup "cup" over.organization.enrollment)) plan scores)
        awards
    × ((club member : String)
        → points_of rewarded club member ≡ points_of over club member + paid awards club member)
settle-pays_example =
    settle-pays over (by_ann false) "cup" plan rewarded rewarded-settle (unfold evaluation in refl)

abbrev at_opening : EventsState
at_opening = record empty_events { events = ("cup", cup_event Phase.opened) ∷ [] }

published-opening : published ≡ at_opening
unfolding evaluation
published-opening = refl

abbrev later : ℕ → Context
later time = at_time "ann1" time false

-- Signing up for an event without a plan enrols nobody.
abbrev signed : EventsState
signed = record at_opening { signups = ("cup", "ann" ∷ []) ∷ [] }

signed-run :
    Cleared.run toy at_opening (Cleared.act (later 15) (EventAction.signup "cup")) ≡ ok signed
unfolding Cleared.run evaluation
signed-run = refl

abbrev attended : EventsState
attended = record signed { checkins = ("cup", "ann" ∷ []) ∷ [] }

attended-run :
    Cleared.run toy signed (Cleared.act (later 35) (EventAction.checkin "cup")) ≡ ok attended
unfolding Cleared.run evaluation
attended-run = refl

checked-signed_example : is_listed attended.signups "cup" "ann" ≡ true
checked-signed_example =
    checked-signed toy attended
      (Cleared.after
        (Cleared.after (subst (Cleared.Later toy empty_events) published-opening history)
          (Cleared.act (later 15) (EventAction.signup "cup")) signed-run)
        (Cleared.act (later 35) (EventAction.checkin "cup")) attended-run)
      "cup" "ann" (unfold evaluation in refl)
