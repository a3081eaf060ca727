-- ===== src/Events/Final.antt =====
-- The final form of a plan (crates/events/src/workflows.rs): opinions, consents, and `finalize`.
use union_core.Prelude.{
  String, Bool, false, not, ◌&&◌, ◌||◌, Option, none, some, ◌==◌, text_key, nat_key, pair_key,
  Result, ok, denied, not_found, refuse_if, ok_or, try_fold, ◌>>=◌, ◌>>◌, is_some, is_some_and,
  is_none_or, is_empty, ltb, [], length, any, if◌then◌else◌,
}
use union_core.Prelude.Dict
use union_core.Prelude.Dict.{Dict}
use union_core.Prelude.Set
use union_core.Prelude.Set.{Set}
use union_core.Protocol.Ipld.{Cid}
use union_core.Governance.State.{Context, Member}
use union_core.Events.Organization.{GameResource, Plan}
use union_core.Events.State.{Event, Phase, is_phase, EventsState, Libraries}
use union_core.Events.Evidence.{file, plan_evidence, store}
use union_core.Events.Plans.{
  is_online, is_subset, set_plan, plan_of, editable, consents_ready, consent_key, closed_to,
}

abbrev pub Instance : Type 0
Instance = String × (String × String)

-- Where a game of a resource runs.
abbrev pub instance_of : GameResource → Instance
instance_of r = (r.peer, (r.operations_service, r.instance_))

-- The loop over the selected games: each has an instance of its own.
unfoldable pub take_instance :
    Dict String GameResource → Set Instance → String → Result (Set Instance)
take_instance resources taken game = do
  r ← ok_or (Dict.lookup game resources) denied
  refuse_if (Set.contains (instance_of r) taken) denied
  ok (Set.insert (instance_of r) taken)

-- Two games that both have a resource, and the same instance.
unfoldable pub share_instance : Dict String GameResource → String → String → Bool
share_instance resources g h = elim (Dict.lookup g resources) [
  | none ↦ false
  | some a ↦ is_some_and (λ b. instance_of a == instance_of b) (Dict.lookup h resources)
]

-- Another plan is final, of an event that is not over, and at overlapping times.
unfoldable pub at_same_time : EventsState → String → Plan → String → Plan → Bool
at_same_time st event p other_id other =
    not (other_id == event)
    && is_some other.final_epoch
    && is_some_and (λ e. not (is_phase e.phase Phase.done || is_phase e.phase Phase.cancelled))
        (Dict.lookup other_id st.events)
    && ltb p.checkin_opens_ms other.ends_ms
    && ltb other.checkin_opens_ms p.ends_ms

-- A selected game's instance is taken by a plan at the same time.
unfoldable pub is_taken : EventsState → String → Plan → String → Bool
unfolding at_same_time share_instance
is_taken st event p game =
    Dict.any
      (λ other_id other.
        at_same_time st event p other_id other
        && any (λ g. share_instance st.organization.resources g game) other.selected)
      st.organization.plans

-- The first refusals of `finalize`.
unfoldable pub not_final : Event → Plan → Set String → Bool
not_final e p selected =
    is_some p.final_epoch
    || not (is_subset selected p.candidates)
    || (is_online p.kind && is_empty selected)
    || (ltb 1 (length p.schools)
        && Dict.any (λ c _. is_none_or (λ o. not (o.epoch == e.epoch)) (Dict.lookup c p.opinions))
            p.schools)
    || Dict.any (λ c _. not (Dict.contains c p.rewards)) p.schools

unfoldable pub check_final : EventsState → Context → String → Set String → Result (Event × Plan)
unfolding editable not_final consents_ready take_instance is_taken
check_final st ctx event selected = do
  editable st ctx event
  e ← ok_or (Dict.lookup event st.events) not_found
  p ← plan_of st event
  refuse_if (not_final e p selected) denied
  if is_online p.kind then ok tt else consents_ready st event
  instances ← try_fold (take_instance st.organization.resources) [] selected
  refuse_if (any (is_taken st event p) selected) denied
  ok (e, p)

module _ (L : Libraries) where
  unfoldable pub give_opinion :
      EventsState → Context → String → Member → String → Cid → Set String → Result EventsState
  unfolding file
  give_opinion st ctx actor member event document games = do
    file L st document
    e ← ok_or (Dict.lookup event st.events) not_found
    p ← plan_of st event
    refuse_if (closed_to e p ctx member || not (is_subset games p.candidates)) denied
    ok (
        set_plan st event (record p {
          opinions =
              Dict.insert member.club
                (record { member = actor; epoch = e.epoch; document = document; games = games })
                p.opinions;
        }))

  unfoldable pub give_consent :
      EventsState → Context → String → Member → String → Cid → Option Cid → Result EventsState
  unfolding file consent_key
  give_consent st ctx actor member event document transcript = do
    file L st document
    elim transcript [ none ↦ ok tt | some cid ↦ file L st cid ]
    e ← ok_or (Dict.lookup event st.events) not_found
    p ← plan_of st event
    s ← ok_or (Dict.lookup member.club p.schools) denied
    refuse_if (not (is_phase e.phase Phase.draft) || is_some p.final_epoch) denied
    key ← consent_key ctx actor member s
    ok (
        set_plan st event (record p {
          consents =
              Dict.insert key
                (record {
                  transcript = transcript;
                  member = actor;
                  epoch = e.epoch;
                  document = document;
                })
                p.consents;
        }))

  -- The plan is final; what its review reads is stored.
  unfoldable pub finalize : EventsState → Context → String → Set String → Result EventsState
  unfolding check_final plan_evidence store
  finalize st ctx event selected = do
    (e, p) ← check_final st ctx event selected
    let final : Plan = record p { selected = selected; final_epoch = some e.epoch }
    let decided : EventsState = set_plan st event final
    bytes ← plan_evidence L decided event e.epoch
    (cid, stored) ← store L decided bytes
    ok (set_plan stored event (record final { review_input = some cid }))
