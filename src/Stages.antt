-- ===== src/Stages.antt =====
-- frontend/src/lib/pipelineStages.ts: the pipeline stage of each rule.
pub mod Grouping
use industrial_safety_intell.Prelude.{
  ℕ, String, Bool, true, List, [], ◌∷◌, ◌++◌, Option, none, some, map, ◌≡◌, ◌↔◌, or_else, arith,
  is_some, if◌then◌else◌,
}
use industrial_safety_intell.Prelude.Tests.{nat_beq}
use industrial_safety_intell.Prelude.Eq.{Eq, ◌==◌, string_eq}
use industrial_safety_intell.Prelude.Dict.{get, set}

pub data PipelineStage : Type 0 where
  scheduler gas_risk_agent equipment_status_agent worker_exposure_agent : PipelineStage
  permit_intelligence_agent fusion tiering unattributed : PipelineStage

pub PipelineStage-discrete : Discrete PipelineStage
PipelineStage-discrete = hlevel

-- PIPELINE_STAGE_ORDER
abbrev pub pipeline_stage_order : List PipelineStage
pipeline_stage_order =
    scheduler ∷ gas_risk_agent ∷ equipment_status_agent ∷ worker_exposure_agent
    ∷ permit_intelligence_agent ∷ fusion ∷ tiering ∷ unattributed ∷ []

abbrev pub stage_index : PipelineStage → ℕ
stage_index scheduler = 0
stage_index gas_risk_agent = 1
stage_index equipment_status_agent = 2
stage_index worker_exposure_agent = 3
stage_index permit_intelligence_agent = 4
stage_index fusion = 5
stage_index tiering = 6
stage_index unattributed = 7

-- `a === b` on stages
pub same_stage : PipelineStage → PipelineStage → Bool
same_stage a b = nat_beq (stage_index a) (stage_index b)

-- RULE_STAGE
abbrev rule_stages : List (String × PipelineStage)
rule_stages =
    ("agent_unavailable_using_last_known", scheduler)
    ∷ ("missing_data_fail_safe", gas_risk_agent)
    ∷ ("stale_data_fail_safe", gas_risk_agent)
    ∷ ("saturating_threshold_function", gas_risk_agent)
    ∷ ("insufficient_history", gas_risk_agent)
    ∷ ("missing_equipment_context", equipment_status_agent)
    ∷ ("confirmed_empty_inventory", equipment_status_agent)
    ∷ ("no_degradation", equipment_status_agent)
    ∷ ("common_cause_grouped_degradation_count", equipment_status_agent)
    ∷ ("missing_location_fail_safe", worker_exposure_agent)
    ∷ ("exposure_weighted_headcount", worker_exposure_agent)
    ∷ ("unauthorized_presence", worker_exposure_agent)
    ∷ ("fail_open_never", permit_intelligence_agent)
    ∷ ("no_open_permits", permit_intelligence_agent)
    ∷ ("permit_status_escalated", permit_intelligence_agent)
    ∷ ("permits_within_policy", permit_intelligence_agent)
    ∷ ("weighted_sum_fusion", fusion)
    ∷ ("interaction_bonus_applied", fusion)
    ∷ ("tier_stable", tiering)
    ∷ ("tier_escalated", tiering)
    ∷ ("tier_de_escalated", tiering)
    ∷ []

-- AGENT_NAME_TO_STAGE
abbrev agent_stages : List (String × PipelineStage)
agent_stages =
    ("gas_risk", gas_risk_agent)
    ∷ ("equipment_status", equipment_status_agent)
    ∷ ("worker_exposure", worker_exposure_agent)
    ∷ ("permit_intelligence", permit_intelligence_agent)
    ∷ []

abbrev lookup_stage : List (String × PipelineStage) → String → Option PipelineStage
lookup_stage [] key = none
lookup_stage ((k, stage) ∷ rest) key =
    let later = lookup_stage rest key in if k == key then some stage else later

-- `RULE_STAGE[rule] ?? "Unattributed"`
unfoldable pub rule_stage : String → PipelineStage
rule_stage rule = or_else (lookup_stage rule_stages rule) unattributed

unfoldable pub agent_stage : String → PipelineStage
agent_stage name = or_else (lookup_stage agent_stages name) unattributed

pub record StageRules : Type 0 where
  pub stage : PipelineStage
  pub rules : List String

pub same_stage_iff : (a b : PipelineStage) → (same_stage a b ≡ true) ↔ (a ≡ b)
unfolding same_stage
same_stage_iff a b = ground arith

instance abbrev pub stage_eq : Eq PipelineStage
stage_eq = record { same = same_stage; same_iff = same_stage_iff }

-- The buckets, a `Map` from stages to rules.
abbrev pub Buckets : Type 0
Buckets = List (PipelineStage × List String)

-- One round of the loop over `rulesFired`.
pub add_rule : Buckets → String → Buckets
unfolding same_stage
add_rule buckets rule =
    let stage = rule_stage rule in
    let bucket = or_else (get stage buckets) [] in set stage (bucket ++ rule ∷ []) buckets

pub fill_buckets : Buckets → List String → Buckets
fill_buckets buckets [] = buckets
fill_buckets buckets (rule ∷ rules) = fill_buckets (add_rule buckets rule) rules

-- The stages of the order that have a bucket, each with its bucket: `filter` and `map` in one pass.
abbrev pub collect : Buckets → List PipelineStage → List StageRules
collect buckets [] = []
collect buckets (stage ∷ stages) = elim (get stage buckets) [
  | none ↦ collect buckets stages
  | some rules ↦ record { stage = stage; rules = rules } ∷ collect buckets stages
]

unfoldable pub group_rules_by_stage : List String → List StageRules
unfolding add_rule fill_buckets get set
group_rules_by_stage rules_fired = collect (fill_buckets [] rules_fired) pipeline_stage_order
