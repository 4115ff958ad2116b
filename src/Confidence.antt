-- ===== src/Confidence.antt =====
-- frontend/src/lib/confidenceBreakdown.ts: the named factors of a confidence.
pub mod Factors
use industrial_safety_intell.Prelude.{
  String, Bool, List, [], ◌∷◌, Option, none, some, if◌then◌else◌,
}
use industrial_safety_intell.Prelude.Eq.{includes, string_eq}
use industrial_safety_intell.Prelude.Double.{Double}
use industrial_safety_intell.Prelude.Lists.{any}
use industrial_safety_intell.Prelude.Text.{◌⧺◌}
use industrial_safety_intell.Api.Risk.{RiskAssessment}
use industrial_safety_intell.Api.Insight.{IncidentMatch, ForesightResult, category_text}
use industrial_safety_intell.Justification.{AgentContribution, RiskJustification, contribution_of}

pub data ConfidenceFactor (N : Type 0) : Type 0 where
  percentage : String → N → String → ConfidenceFactor N
  categorical : String → String → String → ConfidenceFactor N
  unavailable : String → String → ConfidenceFactor N

-- MISSING_OR_STALE_RULES
abbrev missing_or_stale_rules : List String
missing_or_stale_rules = "missing_data_fail_safe" ∷ "stale_data_fail_safe" ∷ []

module _ {N : Type 0} where
  abbrev pub historical_factor :
      Option (ForesightResult N) → Option (IncidentMatch N) → ConfidenceFactor N
  historical_factor (some f) best_match =
      percentage "Historical Agreement" f.confidence.historical_agreement
        "Operational Foresight's own confidence model (historical_agreement)."
  historical_factor none (some m) =
      percentage "Historical Agreement" m.similarity
        ("Historical Intelligence similarity score to \"" ⧺ m.incident_name ⧺ "\".")
  historical_factor none none =
      unavailable "Historical Agreement" "No historical match found for this tick."

  abbrev pub sensor_factor : Option (AgentContribution N) → ConfidenceFactor N
  sensor_factor (some c) =
      percentage "Sensor Quality" c.confidence "Gas Risk agent's own confidence this tick."
  sensor_factor none =
      unavailable "Sensor Quality" "Gas Risk did not contribute to this assessment."

  abbrev pub missing_or_stale : RiskJustification N → Bool
  missing_or_stale j = any (includes missing_or_stale_rules) j.rules_fired

  abbrev pub fail_safe_factor : Option (AgentContribution N) → ConfidenceFactor N
  fail_safe_factor (some c) =
      percentage "Data Completeness" c.confidence
        "Gas Risk's own confidence under its missing/stale-data fail-safe."
  fail_safe_factor none =
      unavailable "Data Completeness"
        "A missing/stale-data rule fired but no agent confidence is available to trace it to."

  abbrev pub forecast_factor : Option (ForesightResult N) → ConfidenceFactor N
  forecast_factor (some f) =
      percentage "Forecast Agreement" f.confidence.trajectory_similarity
        "Operational Foresight's own confidence model (trajectory_similarity)."
  forecast_factor none = unavailable "Forecast Agreement" "No forecast computed for this tick."

  abbrev pub stability_factor : Option (ForesightResult N) → ConfidenceFactor N
  stability_factor (some f) =
      categorical "Operational Stability" (category_text f.early_warning.category)
        "Operational Foresight's early-warning signal (categorical, not a percentage)."
  stability_factor none = unavailable "Operational Stability" "No forecast computed for this tick."

module _ {N : Type 0} ⦃d : Double N⦄ where
  abbrev pub completeness_factor :
      Option (ForesightResult N)
      → Option (RiskJustification N)
      → Option (AgentContribution N)
      → ConfidenceFactor N
  completeness_factor (some f) o gas_risk =
      percentage "Data Completeness" f.confidence.data_completeness
        "Operational Foresight's own confidence model (data_completeness)."
  completeness_factor none (some j) gas_risk =
      if missing_or_stale j
      then fail_safe_factor gas_risk
      else percentage "Data Completeness" (d.of_ℕ 1) "No missing/stale-data rule fired this tick."
  completeness_factor none none gas_risk =
      unavailable "Data Completeness" "No justification recorded for this tick."

  unfoldable pub build_confidence_breakdown :
      RiskAssessment N
      → Option (RiskJustification N)
      → Option (IncidentMatch N)
      → Option (ForesightResult N)
      → List (ConfidenceFactor N)
  build_confidence_breakdown assessment justification best_match foresight =
      let gas_risk = contribution_of justification "gas_risk" in
      percentage "Overall" assessment.confidence
        "RiskAssessment.confidence - Fusion's minimum-across-agents aggregation."
      ∷ historical_factor foresight best_match
      ∷ sensor_factor gas_risk
      ∷ completeness_factor foresight justification gas_risk
      ∷ forecast_factor foresight
      ∷ stability_factor foresight
      ∷ []
