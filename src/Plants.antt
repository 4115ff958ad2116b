-- ===== src/Plants.antt =====
-- frontend/src/lib/multiPlant.ts: a summary for each plant, and the roll-up over the plants.
pub mod Rollup
use industrial_safety_intell.Prelude.{
  ℕ, String, Bool, List, [], ◌∷◌, ◌++◌, Option, none, some, foldl, map, ◌+◌, ltb, if◌then◌else◌,
}
use industrial_safety_intell.Prelude.Double.{Double}
use industrial_safety_intell.Prelude.Lists.{filter, length}
use industrial_safety_intell.Api.Risk.{
  RiskAssessment, ScenarioSummary, ReplayData, ZoneReplayTimeline, tier_text,
}
use industrial_safety_intell.Tier.{worst_tier}
use industrial_safety_intell.Kpis.{
  PlantReadiness, ready, degraded, not_ready, plant_readiness, average_compound_score,
  is_escalation,
}

pub record PlantSummary (N : Type 0) : Type 0 where
  pub scenario_key : String
  pub title : String
  pub description : String
  pub zone_count : ℕ
  pub tick_count : N
  pub duration_minutes : N
  pub worst_tier : Option String
  pub average_compound_score : N
  pub incident_count : ℕ
  pub readiness : PlantReadiness

-- `timelines.flatMap((timeline) => timeline.assessments)`
abbrev pub flatten_timelines : {N : Type 0} → List (ZoneReplayTimeline N) → List (RiskAssessment N)
flatten_timelines [] = []
flatten_timelines (t ∷ ts) = t.assessments ++ flatten_timelines ts

abbrev pub all_assessments : {N : Type 0} → ReplayData N → List (RiskAssessment N)
all_assessments replay = flatten_timelines replay.zone_timelines

abbrev pub tiers_of : {N : Type 0} → List (RiskAssessment N) → List String
tiers_of = map (λ a. tier_text a.tier)

unfoldable pub build_plant_summary :
    {N : Type 0} ⦃d : Double N⦄ → ScenarioSummary N → ReplayData N → PlantSummary N
build_plant_summary scenario replay =
    let assessments = all_assessments replay in
    record {
      scenario_key = scenario.key;
      title = scenario.title;
      description = scenario.description;
      zone_count = length replay.zone_ids;
      tick_count = replay.tick_count;
      duration_minutes = replay.duration_minutes;
      worst_tier = worst_tier (tiers_of assessments);
      average_compound_score = average_compound_score assessments;
      incident_count = length (filter is_escalation assessments);
      readiness = plant_readiness assessments;
    }

pub record CorporateOverview (N : Type 0) : Type 0 where
  pub plant_count : ℕ
  pub total_zones : ℕ
  pub worst_tier : Option String
  pub average_compound_score : N
  pub total_incidents : ℕ
  pub readiness : PlantReadiness

-- `READINESS_ORDER.indexOf(readiness)`
abbrev pub readiness_index : PlantReadiness → ℕ
readiness_index ready = 0
readiness_index degraded = 1
readiness_index not_ready = 2

abbrev pub worse_of : PlantReadiness → PlantReadiness → PlantReadiness
worse_of worst next = if ltb (readiness_index worst) (readiness_index next) then next else worst

-- `tiers.filter((tier) => tier !== null)`
abbrev pub non_null : List (Option String) → List String
non_null [] = []
non_null (none ∷ ts) = non_null ts
non_null (some t ∷ ts) = t ∷ non_null ts

module _ {N : Type 0} ⦃d : Double N⦄ where
  abbrev pub roll_up : List (PlantSummary N) → CorporateOverview N
  roll_up summaries = record {
    plant_count = length summaries;
    total_zones = foldl (λ sum s. sum + s.zone_count) 0 summaries;
    worst_tier = worst_tier (non_null (map (λ s. s.worst_tier) summaries));
    average_compound_score =
        d.div (foldl (λ sum s. d.add sum s.average_compound_score) (d.of_ℕ 0) summaries)
          (d.of_ℕ (length summaries));
    total_incidents = foldl (λ sum s. sum + s.incident_count) 0 summaries;
    readiness = foldl (λ worst s. worse_of worst s.readiness) ready summaries;
  }

  unfoldable pub build_corporate_overview : List (PlantSummary N) → CorporateOverview N
  build_corporate_overview [] = record {
    plant_count = 0;
    total_zones = 0;
    worst_tier = none;
    average_compound_score = d.of_ℕ 0;
    total_incidents = 0;
    readiness = ready;
  }
  build_corporate_overview (s ∷ ss) = roll_up (s ∷ ss)
