-- ===== src/Builder/Preview.antt =====
-- frontend/src/lib/scenarioBuilderPreview.ts: what a draft amounts to, and its order of events.
use industrial_safety_intell.Prelude.{ℕ, String, Bool, List, [], ◌∷◌, ◌++◌, map}
use industrial_safety_intell.Prelude.Double.{Double}
use industrial_safety_intell.Prelude.Eq.{dedup_from, string_eq}
use industrial_safety_intell.Prelude.Lists.{length}
use industrial_safety_intell.Prelude.Select.{select}
use industrial_safety_intell.Prelude.Sort.{sort}
use industrial_safety_intell.Api.Drafts.{
  SensorEventDraft, PermitEventDraft, ScenarioDefinitionDraft,
}

pub record DraftSummary (N : Type 0) : Type 0 where
  pub sensor_event_count : ℕ
  pub permit_event_count : ℕ
  pub total_duration_minutes : N
  pub affected_zone_ids : List String
  pub curve_types : List String
  pub permit_types : List String

pub data EventKind : Type 0 where
  sensor permit : EventKind

pub record SequenceStep (N : Type 0) : Type 0 where
  pub kind : EventKind
  pub name : String
  pub zone_id : String
  pub sim_time : N
  pub duration_minutes : N

module _ {N : Type 0} ⦃d : Double N⦄ where
  -- `ends.length > 0 ? Math.max(...ends) : 0`
  unfoldable pub latest_end : List N → N
  unfolding select
  latest_end [] = d.of_ℕ 0
  latest_end (x ∷ xs) = select d.lt (λ y. y) x xs

  abbrev pub ends_of : ScenarioDefinitionDraft N → List N
  ends_of draft =
      map (λ e. d.add e.sim_time e.duration_minutes) draft.sensor_events
      ++ map (λ e. d.add e.sim_time e.duration_minutes) draft.permit_events

  abbrev pub zone_ids_of : ScenarioDefinitionDraft N → List String
  zone_ids_of draft =
      map (λ e. e.zone_id) draft.sensor_events ++ map (λ e. e.zone_id) draft.permit_events

  unfoldable pub summarize_scenario : ScenarioDefinitionDraft N → DraftSummary N
  summarize_scenario draft = record {
    sensor_event_count = length draft.sensor_events;
    permit_event_count = length draft.permit_events;
    total_duration_minutes = latest_end (ends_of draft);
    affected_zone_ids = dedup_from [] (zone_ids_of draft);
    curve_types = dedup_from [] (map (λ e. e.curve) draft.sensor_events);
    permit_types = dedup_from [] (map (λ e. e.permit_type) draft.permit_events);
  }

  abbrev pub sensor_step : SensorEventDraft N → SequenceStep N
  sensor_step e = record {
    kind = sensor;
    name = e.name;
    zone_id = e.zone_id;
    sim_time = e.sim_time;
    duration_minutes = e.duration_minutes;
  }

  abbrev pub permit_step : PermitEventDraft N → SequenceStep N
  permit_step e = record {
    kind = permit;
    name = e.name;
    zone_id = e.zone_id;
    sim_time = e.sim_time;
    duration_minutes = e.duration_minutes;
  }

  abbrev pub steps_of : ScenarioDefinitionDraft N → List (SequenceStep N)
  steps_of draft = map sensor_step draft.sensor_events ++ map permit_step draft.permit_events

  -- `a.simTime - b.simTime` is positive
  abbrev pub starts_after : SequenceStep N → SequenceStep N → Bool
  starts_after a b = d.lt b.sim_time a.sim_time

  unfoldable pub build_expected_sequence : ScenarioDefinitionDraft N → List (SequenceStep N)
  unfolding sort
  build_expected_sequence draft = sort starts_after (steps_of draft)
