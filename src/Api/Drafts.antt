-- ===== src/Api/Drafts.antt =====
-- The drafts of the Scenario Builder in api/types.ts.
use industrial_safety_intell.Prelude.{String, List}

pub record SensorEventDraft (N : Type 0) : Type 0 where
  pub name : String
  pub zone_id : String
  pub gas_type : String
  pub sim_time : N
  pub duration_minutes : N
  pub sample_interval_minutes : N
  pub curve : String
  pub params : List (String × N)

pub record PermitEventDraft (N : Type 0) : Type 0 where
  pub name : String
  pub zone_id : String
  pub sim_time : N
  pub permit_type : String
  pub authorizing_officer_id : String
  pub duration_minutes : N

pub record ScenarioDefinitionDraft (N : Type 0) : Type 0 where
  pub title : String
  pub description : String
  pub seed : N
  pub start_time : String
  pub sensor_events : List (SensorEventDraft N)
  pub permit_events : List (PermitEventDraft N)
