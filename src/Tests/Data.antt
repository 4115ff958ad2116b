-- ===== src/Tests/Data.antt =====
-- The inputs of the runs: two ticks of a coke-oven zone, over whole numbers.
use industrial_safety_intell.Prelude.{Bool, String, [], ◌∷◌, none, some}
use industrial_safety_intell.Prelude.Int.{ℤ, pos}
use industrial_safety_intell.Api.Json.{Fields, end}
use industrial_safety_intell.Api.Risk.{Tier, RiskAssessment}
use industrial_safety_intell.Comparison.{ComparisonMoment}
use industrial_safety_intell.Justification.{RiskJustification}
use industrial_safety_intell.Justification.Parsing.{row_of}

abbrev pub alarm : RiskJustification ℤ
alarm = record {
  schema_version = pos 1;
  rules_fired =
      "interaction_bonus_applied" ∷ "permit_status_escalated" ∷ "interaction_bonus_applied" ∷ [];
  agent_contributions =
      ("worker_exposure", record { risk = pos 30; confidence = pos 1 })
      ∷ ("gas_risk", record { risk = pos 80; confidence = pos 1 })
      ∷ [];
  interaction_bonus_applied = pos 2;
  tier_before = "watch";
  tier_after = "critical";
}

abbrev pub tick : String → ℤ → Tier → Fields ℤ → RiskAssessment ℤ
tick timestamp score tier justification = record {
  assessment_id = timestamp;
  zone_id = "coke_oven_1";
  timestamp = timestamp;
  compound_risk_score = score;
  confidence = pos 1;
  tier = tier;
  justification = justification;
}

abbrev pub calm_tick : RiskAssessment ℤ
calm_tick = tick "10:00" (pos 5) Tier.normal end

abbrev pub alarm_tick : RiskAssessment ℤ
alarm_tick = tick "10:05" (pos 90) Tier.critical (row_of alarm)

abbrev pub moment : String → ℤ → Tier → ComparisonMoment ℤ
moment timestamp score tier = record {
  zone_id = "coke_oven_1";
  timestamp = timestamp;
  compound = some (record { compound_risk_score = score; confidence = pos 1; tier = tier });
  counterfactual = record { alert = Bool.false; triggered_sensors = []; highest_ratio = none };
}
