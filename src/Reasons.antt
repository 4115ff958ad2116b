-- ===== src/Reasons.antt =====
-- frontend/src/lib/agentContributionReasons.ts: why an agent contributed what it did.
use industrial_safety_intell.Prelude.{
  String, List, [], ◌∷◌, Option, none, some, map, or_else, if◌then◌else◌,
}
use industrial_safety_intell.Prelude.Dict.{get}
use industrial_safety_intell.Prelude.Double.{Double}
use industrial_safety_intell.Prelude.Eq.{◌==◌, string_eq, includes}
use industrial_safety_intell.Prelude.Lists.{any, find}
use industrial_safety_intell.Prelude.Text.{◌⧺◌, join}
use industrial_safety_intell.Justification.{AgentContribution, RiskJustification}
use industrial_safety_intell.Stages.{StageRules, agent_stage, group_rules_by_stage, stage_eq}

-- RULE_SENTENCES
abbrev pub rule_sentences : List (String × String)
rule_sentences =
    (
      "agent_unavailable_using_last_known",
      "An agent was unavailable this tick; its last known output was reused.",
    )
    ∷ (
      "missing_data_fail_safe",
      "Sensor reading was missing; the agent fell back to a fail-safe elevated risk floor.",
    )
    ∷ (
      "stale_data_fail_safe",
      "Sensor reading was stale; risk was decayed toward a fail-safe floor rather than zero.",
    )
    ∷ (
      "saturating_threshold_function",
      "Gas concentration relative to its alarm threshold drove this risk score.",
    )
    ∷ (
      "insufficient_history",
      "Not enough historical readings were available to fit a trend, so a conservative estimate was used.",
    )
    ∷ (
      "missing_equipment_context",
      "No equipment inventory was available for this zone; a low-confidence fallback was used.",
    )
    ∷ ("confirmed_empty_inventory", "Equipment inventory was confirmed empty for this zone.")
    ∷ (
      "no_degradation",
      "No equipment type in this zone showed isolation, degradation, or LOTO flags.",
    )
    ∷ (
      "common_cause_grouped_degradation_count",
      "Multiple equipment items of the same type showed degradation, isolation, or LOTO flags.",
    )
    ∷ (
      "missing_location_fail_safe",
      "Worker location data was unavailable; a fail-safe assumed occupancy was used.",
    )
    ∷ (
      "exposure_weighted_headcount",
      "Worker headcount was weighted by the zone's current risk tier.",
    )
    ∷ (
      "unauthorized_presence",
      "Workers were present with an elevated or higher gas risk and no active permit authorizing entry.",
    )
    ∷ (
      "fail_open_never",
      "No permit context was available; this agent never fails open, so an escalated risk was assumed.",
    )
    ∷ ("no_open_permits", "No open permits exist for this zone.")
    ∷ (
      "permit_status_escalated",
      "A permit's status escalated - risk exceeded its baseline, or a SIMOPS conflict was detected.",
    )
    ∷ ("permits_within_policy", "All open permits remain within policy.")
    ∷ ("weighted_sum_fusion", "Agent risks were combined via the fusion formula's weighted sum.")
    ∷ (
      "interaction_bonus_applied",
      "An interaction bonus was applied because multiple agents were simultaneously elevated.",
    )
    ∷ ("tier_stable", "The risk tier held steady from the previous tick.")
    ∷ ("tier_escalated", "The risk tier escalated from the previous tick.")
    ∷ ("tier_de_escalated", "The risk tier de-escalated from the previous tick.")
    ∷ []

-- CONFIDENCE_CAVEAT_RULES
abbrev pub confidence_caveat_rules : List String
confidence_caveat_rules =
    "missing_data_fail_safe" ∷ "stale_data_fail_safe" ∷ "insufficient_history"
    ∷ "missing_equipment_context" ∷ "missing_location_fail_safe" ∷ "fail_open_never" ∷ []

abbrev rules_of : Option StageRules → List String
rules_of none = []
rules_of (some s) = s.rules

abbrev pub sentence_of : String → String
sentence_of rule = or_else (get rule rule_sentences) ("Rule \"" ⧺ rule ⧺ "\" fired.")

module _ {N : Type 0} ⦃d : Double N⦄ (agent_display_name : String → String) where
  abbrev pub own_rules : String → RiskJustification N → List String
  own_rules agent_name j =
      rules_of (find (λ s. s.stage == agent_stage agent_name) (group_rules_by_stage j.rules_fired))

  abbrev percent : N → String
  percent n = d.to_fixed (d.mul n (d.of_ℕ 100)) 0

  abbrev confidence_note : AgentContribution N → List String → String
  confidence_note c rules =
      if any (λ rule. includes confidence_caveat_rules rule) rules
      then " (confidence reduced to " ⧺ percent c.confidence ⧺ "% accordingly)"
      else ""

  abbrev reason_for : AgentContribution N → List String → String
  reason_for c [] =
      if d.lt (d.of_ℕ 0) c.risk
      then "Risk score "
        ⧺ d.to_fixed c.risk 1
        ⧺ " at "
        ⧺ percent c.confidence
        ⧺ "% confidence; no fail-safe or escalation rule fired for this agent this tick."
      else "No risk contribution and no rule fired for this agent this tick."
  reason_for c (rule ∷ rules) =
      join " " (map sentence_of (rule ∷ rules)) ⧺ confidence_note c (rule ∷ rules)

  unfoldable pub build_agent_contribution_reason :
      String → AgentContribution N → RiskJustification N → String
  unfolding any includes get find group_rules_by_stage agent_stage
  build_agent_contribution_reason agent_name c j = reason_for c (own_rules agent_name j)

  unfoldable pub format_agent_contribution_with_reason :
      String → AgentContribution N → RiskJustification N → String
  unfolding build_agent_contribution_reason
  format_agent_contribution_with_reason agent_name c j =
      agent_display_name agent_name
      ⧺ " "
      ⧺ d.to_fixed c.risk 0
      ⧺ "% - Reason: "
      ⧺ build_agent_contribution_reason agent_name c j
