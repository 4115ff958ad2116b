-- ===== src/Api/Insight.antt =====
-- Historical matches and foresight in api/types.ts.
use industrial_safety_intell.Prelude.{String, List, Option}
use industrial_safety_intell.Api.Risk.{Tier}

pub record HistoricalLesson : Type 0 where
  pub rule : String
  pub lesson : String

pub record IncidentMatch (N : Type 0) : Type 0 where
  pub scenario_key : String
  pub incident_name : String
  pub date : String
  pub zone_id : String
  pub similarity : N
  pub outcome_tier : Tier
  pub root_cause : String
  pub business_impact : String
  pub operational_impact : String
  pub safety_impact : String
  pub matching_features : List String
  pub differing_features : List String
  pub lessons_learned : List HistoricalLesson
  pub evidence_source : String

pub record ForesightConfidence (N : Type 0) : Type 0 where
  pub historical_agreement : N
  pub data_completeness : N
  pub trajectory_similarity : N
  pub replay_coverage : N
  pub overall : N

pub data WarningCategory : Type 0 where
  escalation stabilization recovery shutdown : WarningCategory

-- The category as the string that it is in the payload.
abbrev pub category_text : WarningCategory → String
category_text escalation = "Potential Escalation"
category_text stabilization = "Potential Stabilization"
category_text recovery = "Potential Recovery"
category_text shutdown = "Potential Shutdown"

pub record EarlyWarningSignal (N : Type 0) : Type 0 where
  pub category : WarningCategory
  pub why : String
  pub supporting_matches : N
  pub total_matches : N

pub record ForesightMatchSummary (N : Type 0) : Type 0 where
  pub scenario_key : String
  pub incident_name : String
  pub zone_id : String
  pub anchor_timestamp : String
  pub similarity : N
  pub window_length : N

pub record ForecastEvidence (N : Type 0) : Type 0 where
  pub scenario_key : String
  pub zone_id : String
  pub similarity : N
  pub observed_risk : N
  pub observed_tier : Tier
  pub observed_timestamp : String
  pub minutes_after_anchor : N

pub record ForecastPoint (N : Type 0) : Type 0 where
  pub horizon_minutes : N
  pub projected_risk : Option N
  pub projected_tier : Option Tier
  pub evidence : List (ForecastEvidence N)
  pub unavailable_reason : Option String

pub record ProgressionStage (N : Type 0) : Type 0 where
  pub label : String
  pub tier : Option Tier
  pub supporting_matches : N
  pub total_matches : N
  pub evidence : String

pub record IncidentProgression (N : Type 0) : Type 0 where
  pub current_stage : ProgressionStage N
  pub likely_next_stage : ProgressionStage N
  pub likely_following_stage : ProgressionStage N
  pub expected_resolution : ProgressionStage N

pub record DeckContribution (N : Type 0) : Type 0 where
  pub deck_key : String
  pub deck_name : String
  pub matched_incident_count : N

pub record ForesightResult (N : Type 0) : Type 0 where
  pub zone_id : String
  pub timestamp : String
  pub current_risk_score : N
  pub current_tier : Tier
  pub window_size : N
  pub current_window_length : N
  pub matches : List (ForesightMatchSummary N)
  pub forecast : List (ForecastPoint N)
  pub confidence : ForesightConfidence N
  pub progression : IncidentProgression N
  pub early_warning : EarlyWarningSignal N
  pub deck_contributions : List (DeckContribution N)

pub record RuleFrequency (N : Type 0) : Type 0 where
  pub rule : String
  pub lesson : String
  pub incident_count : N

pub record HistoricalUnavailable : Type 0 where
  pub reason : String

pub record CrossScenarioAnalytics (N : Type 0) : Type 0 where
  pub total_incidents : N
  pub total_indexed_ticks : N
  pub most_common_causes : List (RuleFrequency N)
  pub most_common_equipment_issues : List (RuleFrequency N)
  pub most_common_permit_conflicts : List (RuleFrequency N)
  pub most_common_worker_hazards : List (RuleFrequency N)
  pub average_resolution_minutes : Option N
  pub most_effective_interventions : HistoricalUnavailable
  pub industry_comparisons : HistoricalUnavailable
