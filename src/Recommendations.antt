-- ===== src/Recommendations.antt =====
-- frontend/src/lib/recommendations.ts: the lookup of recommendations by tier and rule.
pub mod Derived
use industrial_safety_intell.Prelude.{
  String, Bool, List, [], ◌∷◌, ◌++◌, Option, none, some, map, if◌then◌else◌, ◌||◌,
}
use industrial_safety_intell.Prelude.Eq.{◌==◌, string_eq}
use industrial_safety_intell.Prelude.Lists.{any}
use industrial_safety_intell.Api.Risk.{Tier}
use industrial_safety_intell.Justification.{RiskJustification}

pub data Severity : Type 0 where
  critical high medium : Severity

pub record Recommendation : Type 0 where
  pub id : String
  pub text : String
  pub severity : Severity

abbrev recommend : String → String → Severity → Recommendation
recommend i t s = record { id = i; text = t; severity = s }

-- TIER_BASELINE
unfoldable pub tier_baseline : Tier → Option Recommendation
tier_baseline Tier.critical = some (
    recommend "tier_critical"
      "Escalate immediately: evacuate non-essential personnel from this zone and notify the shift supervisor."
      critical)
tier_baseline Tier.elevated = some (
    recommend "tier_elevated"
      "Increase monitoring frequency and confirm response readiness for this zone." high)
tier_baseline Tier.watch = some (
    recommend "tier_watch" "Log this zone for closer observation; no immediate action required yet."
      medium)
tier_baseline Tier.normal = none

-- RULE_RECOMMENDATIONS; the key of each entry is its id
abbrev pub rule_recommendations : List Recommendation
rule_recommendations =
    recommend "unauthorized_presence"
      "Verify headcount and remove unauthorized personnel operating without an active permit." high
    ∷ recommend "permit_status_escalated"
        "Review the active permit in this zone for suspension or revocation." high
    ∷ recommend "common_cause_grouped_degradation_count"
        "Inspect equipment flagged under common-cause degradation before continuing operations."
        medium
    ∷ recommend "stale_data_fail_safe"
        "Sensor data is stale for this zone - dispatch a technician to confirm sensor health."
        medium
    ∷ recommend "missing_data_fail_safe"
        "No sensor data is reaching this zone - treat as an instrumentation failure until confirmed otherwise."
        high
    ∷ recommend "missing_location_fail_safe"
        "Worker location data is unavailable for this zone - confirm headcount manually." medium
    ∷ recommend "missing_equipment_context"
        "Equipment telemetry is unavailable for this zone - confirm equipment status manually."
        medium
    ∷ recommend "agent_unavailable_using_last_known"
        "One or more risk agents used stale/last-known data this tick - confirm all upstream systems are reporting."
        medium
    ∷ recommend "interaction_bonus_applied"
        "Multiple independent risk factors are compounding in this zone (SIMOPS) - review concurrent activity."
        high
    ∷ []

abbrev pub lookup_id : List Recommendation → String → Option Recommendation
lookup_id [] rule = none
lookup_id (r ∷ rs) rule = let later = lookup_id rs rule in if r.id == rule then some r else later

-- `RULE_RECOMMENDATIONS[rule]`
unfoldable pub rule_recommendation : String → Option Recommendation
rule_recommendation = lookup_id rule_recommendations

-- ALL_RECOMMENDATION_TEMPLATES
unfoldable pub all_recommendation_templates : List Recommendation
all_recommendation_templates =
    recommend "tier_critical"
      "Escalate immediately: evacuate non-essential personnel from this zone and notify the shift supervisor."
      critical
    ∷ recommend "tier_elevated"
        "Increase monitoring frequency and confirm response readiness for this zone." high
    ∷ recommend "tier_watch"
        "Log this zone for closer observation; no immediate action required yet." medium
    ∷ rule_recommendations

-- `recommendations.some((r) => r.id === id)`
abbrev pub has_id : String → List Recommendation → Bool
has_id id = any (λ r. r.id == id)

abbrev pub push_new : List Recommendation → Option Recommendation → List Recommendation
push_new out none = out
push_new out (some r) = if has_id r.id out then out else out ++ r ∷ []

-- The loop over `rulesFired`, with the recommendations so far.
unfoldable pub push_rules : List Recommendation → List String → List Recommendation
unfolding any rule_recommendation
push_rules out [] = out
push_rules out (rule ∷ rules) = push_rules (push_new out (rule_recommendation rule)) rules

abbrev pub baseline_list : Option Recommendation → List Recommendation
baseline_list none = []
baseline_list (some r) = r ∷ []

unfoldable pub derive_recommendations :
    {N : Type 0} → Tier → Option (RiskJustification N) → List Recommendation
unfolding tier_baseline push_rules
derive_recommendations tier none = baseline_list (tier_baseline tier)
derive_recommendations tier (some j) = push_rules (baseline_list (tier_baseline tier)) j.rules_fired
