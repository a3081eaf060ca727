-- ===== src/Events/Plans.antt =====
-- The plan of an event (crates/events/src/workflows.rs): its draft, its opinions and consents, its final form.
use union_core.Prelude.{
  ℕ, ◌*◌, String, Bool, true, false, not, ◌&&◌, ◌||◌, Option, none, some, ◌==◌, text_key, nat_key,
  pair_key, Result, ok, err, denied, not_found, refuse_if, ok_or, for_each, ◌>>=◌, ◌>>◌, is_some,
  is_some_and, is_none_or, is_empty, ltb, leb, List, [], ◌∷◌, length, any, all, if◌then◌else◌,
}
use union_core.Prelude.Dict
use union_core.Prelude.Dict.{Dict}
use union_core.Prelude.Set
use union_core.Prelude.Set.{Set}
use union_core.Governance.State.{Context, Member}
use union_core.Events.Organization.{
  Automation, GameResource, Kind, ClubKind, School, RewardRule, Plan,
}
use union_core.Events.State.{
  Event, Phase, is_phase, EventsState, text, is_admin, club_manager, manage, has_club,
}
use union_core.Events.Points.{max_items}

-- `==` on kinds
abbrev pub is_online : Kind → Bool
is_online Kind.online = true
is_online Kind.meeting = false

abbrev pub is_official : ClubKind → Bool
is_official ClubKind.official = true
is_official ClubKind.independent = false

abbrev pub same_kind : ClubKind → ClubKind → Bool
same_kind a b = if is_official a then is_official b else not (is_official b)

abbrev pub is_subset : Set String → Set String → Bool
is_subset a b = all (λ x. Set.contains x b) a

abbrev pub set_plan : EventsState → String → Plan → EventsState
set_plan st event p = record st {
  organization = record st.organization { plans = Dict.insert event p st.organization.plans };
}

-- `plan` and `editable`
abbrev pub plan_of : EventsState → String → Result Plan
plan_of st id = ok_or (Dict.lookup id st.organization.plans) not_found

unfoldable pub editable : EventsState → Context → String → Result (Unit {0})
unfolding manage
editable st ctx id = do
  event ← ok_or (Dict.lookup id st.events) not_found
  refuse_if (not (is_phase event.phase Phase.draft) || not (manage event ctx)) denied

-- Whose consents a school needs.
abbrev pub consent_keys : String → School → List String
consent_keys club s = if is_official s.kind then club ∷ [] else s.participants

unfoldable pub check_consents : Plan → ℕ → String × School → Result (Unit {0})
check_consents p epoch (club, s) =
    refuse_if
      (is_empty (consent_keys club s)
        || any (λ key. is_none_or (λ c. not (c.epoch == epoch)) (Dict.lookup key p.consents))
            (consent_keys club s))
      denied

unfoldable pub consents_ready : EventsState → String → Result (Unit {0})
unfolding check_consents
consents_ready st id = do
  event ← ok_or (Dict.lookup id st.events) not_found
  p ← plan_of st id
  for_each (check_consents p event.epoch) p.schools

-- `p == Some(epoch)`
abbrev pub at_epoch : Option ℕ → ℕ → Bool
at_epoch none epoch = false
at_epoch (some e) epoch = e == epoch

-- `ready`
unfoldable pub ready : EventsState → String → Result (Unit {0})
unfolding consents_ready
ready st id = do
  event ← ok_or (Dict.lookup id st.events) not_found
  elim (Dict.lookup id st.organization.plans) [
    | none ↦ ok tt
    | some p ↦ do
      refuse_if
          (not (at_epoch p.final_epoch event.epoch)
            || not (is_some p.polished)
            || leb p.checkin_closes_ms p.checkin_opens_ms
            || ltb event.window.starts_ms p.checkin_closes_ms
            || leb p.ends_ms event.window.starts_ms)
          denied
      if is_online p.kind then ok tt else consents_ready st id
  ]

abbrev pub is_president : Context → Member → Bool
is_president ctx member = is_admin ctx || Set.contains "president" member.roles

unfoldable pub set_automation : EventsState → Context → Member → Automation → Result EventsState
unfolding text
set_automation st ctx member config = do
  refuse_if (not (is_president ctx member) || not (Dict.contains config.worker ctx.core.members))
      denied
  text config.model 128
  refuse_if
      (config.max_tokens == 0
        || ltb 8192 config.max_tokens
        || config.timeout_ms == 0
        || ltb (30 * 86_400_000) config.timeout_ms)
      denied
  ok (record st { organization = record st.organization { automation = some config } })

unfoldable pub set_resource :
    EventsState → Context → Member → String → GameResource → Result EventsState
unfolding text
set_resource st ctx member id resource = do
  refuse_if
      (not (is_president ctx member)
        || leb max_items (length st.organization.resources)
        || Dict.any (λ _ p. is_some p.final_epoch && Set.contains id p.selected)
            st.organization.plans)
      denied
  text id 128
  text resource.title 256
  text resource.address 1024
  text resource.peer 128
  text resource.instance_ 128
  refuse_if (resource.seats == 0 || ltb max_items resource.seats) denied
  ok (record st {
    organization = record st.organization {
      resources = Dict.insert id resource st.organization.resources;
    };
  })

-- A plan that is drafted.
abbrev pub new_plan : Kind → Dict String School → Set String → ℕ → ℕ → ℕ → String → Plan
new_plan kind schools candidates opens closes ends worker = record {
  kind = kind;
  schools = schools;
  candidates = candidates;
  selected = [];
  opinions = [];
  consents = [];
  rewards = [];
  final_epoch = none;
  polished = none;
  review_input = none;
  summary = none;
  awards = [];
  settled = false;
  games = [];
  checkin_opens_ms = opens;
  checkin_closes_ms = closes;
  ends_ms = ends;
  worker = worker;
}

-- A school of a plan: its kind is its profile's, its participants are its members.
unfoldable pub check_school : EventsState → Context → String × School → Result (Unit {0})
check_school st ctx (club, s) =
    refuse_if
      (is_none_or (λ p. not (same_kind p.kind s.kind)) (Dict.lookup club st.organization.schools)
        || not (has_club ctx club)
        || ltb max_items (length s.participants)
        || any (λ id. is_none_or (λ m. not (m.club == club)) (Dict.lookup id ctx.core.members))
            s.participants)
      denied

-- `automation` is none, or has another worker.
abbrev pub other_worker : EventsState → String → Bool
other_worker st worker = is_none_or (λ a. not (a.worker == worker)) st.organization.automation

unfoldable pub draft_plan : EventsState → Context → String → Plan → Result EventsState
unfolding editable check_school text
draft_plan st ctx event p = do
  editable st ctx event
  e ← ok_or (Dict.lookup event st.events) not_found
  refuse_if
      (other_worker st p.worker
        || any (λ id. not (Dict.contains id st.organization.resources)) p.candidates
        || is_some_and (λ (old : Plan). is_some old.final_epoch)
            (Dict.lookup event st.organization.plans)
        || is_empty p.schools
        || ltb max_items (length p.schools)
        || not (Dict.contains e.organizer p.schools)
        || not (Dict.contains p.worker ctx.core.members)
        || ltb max_items (length p.candidates)
        || (is_online p.kind && is_empty p.candidates)
        || leb p.checkin_closes_ms p.checkin_opens_ms
        || ltb e.window.starts_ms p.checkin_closes_ms
        || leb p.ends_ms e.window.starts_ms)
      denied
  for_each (check_school st ctx) p.schools
  for_each (λ id. text id 128) p.candidates
  ok (set_plan st event p)

-- The event is no draft, the plan is final, or the club does not manage a school of it.
abbrev pub closed_to : Event → Plan → Context → Member → Bool
closed_to e p ctx member =
    not (is_phase e.phase Phase.draft)
    || is_some p.final_epoch
    || not (Dict.contains member.club p.schools)
    || not (club_manager ctx member.club)

unfoldable pub set_rewards :
    EventsState → Context → Member → String → RewardRule → Result EventsState
unfolding club_manager text
set_rewards st ctx member event rule = do
  e ← ok_or (Dict.lookup event st.events) not_found
  p ← plan_of st event
  refuse_if (closed_to e p ctx member || at_epoch rule.top_places 0) denied
  elim rule.material [ none ↦ ok tt | some material ↦ text material 4096 ]
  ok (set_plan st event (record p { rewards = Dict.insert member.club rule p.rewards }))

-- Who consents for the caller's school.
unfoldable pub consent_key : Context → String → Member → School → Result String
unfolding club_manager
consent_key ctx actor member s =
    if is_official s.kind
    then (if club_manager ctx member.club then ok member.club else err denied)
    else (if Set.contains actor s.participants then ok actor else err denied)
