-- ===== src/Tests/Building.antt =====
-- Runs of the Scenario Builder and of the change summary.
use industrial_safety_intell.Prelude.{[], ◌∷◌, none, some, ◌≡◌, ◌↔◌}
use industrial_safety_intell.Prelude.Double.{int_double}
use industrial_safety_intell.Prelude.Eq.{IsDistinct, string_eq}
use industrial_safety_intell.Prelude.Int.{ℤ, pos, negsuc}
use industrial_safety_intell.Prelude.Lists.{All}
use industrial_safety_intell.Api.Drafts.{
  SensorEventDraft, PermitEventDraft, ScenarioDefinitionDraft,
}
use industrial_safety_intell.Builder.{
  ScenarioValidationContext, validate_scenario_draft, event_names, sample_errors,
}
use industrial_safety_intell.Builder.Validity.{
  IsValidSensor, IsValidPermit, validate_scenario_draft_iff,
}
use industrial_safety_intell.Builder.Sampling.{ReportsFirst, sample_errors-first}
use industrial_safety_intell.Changes.{ChangeSummaryInput, build_change_summary}
use industrial_safety_intell.Changes.Telling.{TellsChanges}
use industrial_safety_intell.Changes.Told.{build_change_summary-told}
use industrial_safety_intell.Tests.Data.{calm_tick, alarm_tick}

abbrev leak : SensorEventDraft ℤ
leak = record {
  name = "leak";
  zone_id = "coke_oven_1";
  gas_type = "CO";
  sim_time = pos 2;
  duration_minutes = pos 3;
  sample_interval_minutes = pos 1;
  curve = "linear_ramp";
  params = ("start_value", pos 1) ∷ ("slope", negsuc 0) ∷ [];
}

abbrev hot_work : PermitEventDraft ℤ
hot_work = record {
  name = "hot work";
  zone_id = "coke_oven_1";
  sim_time = pos 0;
  permit_type = "hot_work";
  authorizing_officer_id = "w1";
  duration_minutes = pos 30;
}

abbrev draft : ScenarioDefinitionDraft ℤ
draft = record {
  title = "Leak under hot work";
  description = "";
  seed = pos 1;
  start_time = "10:00";
  sensor_events = leak ∷ [];
  permit_events = hot_work ∷ [];
}

abbrev context : ScenarioValidationContext
context = record {
  known_zone_ids = "coke_oven_1" ∷ [];
  known_worker_ids = "w1" ∷ [];
  unassigned_worker_ids = [];
  zone_gas_types = ("coke_oven_1", "CO" ∷ []) ∷ [];
}

validate_scenario_draft_iff_example :
    (validate_scenario_draft ⦃d = int_double⦄ draft context ≡ []) ↔ (
      (IsDistinct (event_names ⦃d = int_double⦄ draft)
        × All (IsValidSensor ⦃d = int_double⦄ context) draft.sensor_events)
      × All (IsValidPermit ⦃d = int_double⦄ context) draft.permit_events)
validate_scenario_draft_iff_example = validate_scenario_draft_iff ⦃d = int_double⦄ draft context

sample_errors-first_example :
    ReportsFirst ⦃d = int_double⦄ leak 0 4 (sample_errors ⦃d = int_double⦄ leak 0 4)
sample_errors-first_example = sample_errors-first ⦃d = int_double⦄ leak 0 4

abbrev change : ChangeSummaryInput ℤ
change = record {
  previous_assessment = some calm_tick;
  current_assessment = alarm_tick;
  previous_best_match = none;
  current_best_match = none;
  previous_foresight = none;
  current_foresight = none;
}

build_change_summary-told_example :
    TellsChanges ⦃d = int_double⦄ change (build_change_summary ⦃d = int_double⦄ change)
build_change_summary-told_example = build_change_summary-told ⦃d = int_double⦄ change
