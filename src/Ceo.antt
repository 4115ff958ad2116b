-- ===== src/Ceo.antt =====
-- frontend/src/lib/ceoDashboard.ts: the figures of one tick in business terms.
use industrial_safety_intell.Prelude.{String, Bool, true, false, List, [], ◌∷◌, Option, none, some}
use industrial_safety_intell.Prelude.Double.{Double}
use industrial_safety_intell.Prelude.Text.{◌⧺◌}
use industrial_safety_intell.Api.Insight.{IncidentMatch}
use industrial_safety_intell.Api.Risk.{Tier, RiskAssessment, tier_upper}
use industrial_safety_intell.Actions.{PrioritizedAction}
use industrial_safety_intell.Actions.Playbook.{ImpactLevel}
use industrial_safety_intell.Justification.{RiskJustification}
use industrial_safety_intell.Narrative.{business_story_line}
use industrial_safety_intell.Recommendations.{Recommendation}

pub data BusinessRiskLevel : Type 0 where
  severe significant moderate low : BusinessRiskLevel

pub record BusinessRiskEntry : Type 0 where
  pub level : BusinessRiskLevel
  pub description : String

-- BUSINESS_RISK_BY_TIER, which has every tier
unfoldable pub business_risk : Tier → BusinessRiskEntry
business_risk Tier.critical = record {
  level = severe;
  description = "Could halt operations and carry significant financial and reputational impact.";
}
business_risk Tier.elevated = record {
  level = significant;
  description = "Business disruption is likely if this is not addressed soon.";
}
business_risk Tier.watch = record {
  level = moderate;
  description = "Close monitoring is warranted; no disruption expected yet.";
}
business_risk Tier.normal = record {
  level = low;
  description = "Normal operations; no business impact expected.";
}

pub record EstimatedDowntime : Type 0 where
  pub text : String
  pub sourced : Bool

pub record CeoDashboardData (N : Type 0) : Type 0 where
  pub current_situation : String
  pub business_risk : BusinessRiskEntry
  pub operational_risk_label : String
  pub operational_risk_score : N
  pub estimated_downtime : EstimatedDowntime
  pub workers_affected : N
  pub recommended_decision : String
  pub confidence_percent : N
  pub expected_outcome : String

-- `impactLevel.toLowerCase()`
abbrev impact_lower : ImpactLevel → String
impact_lower ImpactLevel.informational = "informational"
impact_lower ImpactLevel.low = "low"
impact_lower ImpactLevel.moderate = "moderate"
impact_lower ImpactLevel.high = "high"
impact_lower ImpactLevel.very_high = "very high"
impact_lower ImpactLevel.critical = "critical"

abbrev decision_text : List Recommendation → String
decision_text [] = "No action required - continue normal operations."
decision_text (r ∷ rs) = r.text

abbrev outcome_text : Option PrioritizedAction → String
outcome_text none = "No open recommendation - risk is not currently expected to change."
outcome_text (some a) =
    "Following this recommendation is expected to have a "
    ⧺ impact_lower a.impact_level
    ⧺ " impact on reducing risk."

module _ {N : Type 0} where
  unfoldable pub estimated_downtime : Option (IncidentMatch N) → EstimatedDowntime
  estimated_downtime none = record {
    text = "Not available - no comparable historical incident to estimate from.";
    sourced = false;
  }
  estimated_downtime (some m) = record { text = m.business_impact; sourced = true }

module _ {N : Type 0} ⦃d : Double N⦄ (upper_case : String → String) where
  unfoldable pub build_ceo_dashboard :
      RiskAssessment N
      → Option (RiskJustification N)
      → List Recommendation
      → Option PrioritizedAction
      → N
      → Option (IncidentMatch N)
      → CeoDashboardData N
  build_ceo_dashboard a j recommendations top_action workers best_match = record {
    current_situation = business_story_line upper_case a j;
    business_risk = business_risk a.tier;
    operational_risk_label = tier_upper a.tier;
    operational_risk_score = a.compound_risk_score;
    estimated_downtime = estimated_downtime best_match;
    workers_affected = workers;
    recommended_decision = decision_text recommendations;
    confidence_percent = d.round (d.mul a.confidence (d.of_ℕ 100));
    expected_outcome = outcome_text top_action;
  }
