-- ===== src/Presentation.antt =====
-- frontend/src/lib/presentationScript.ts: the scenes of the guided presentation, and the ticks and
-- shares that they show.
pub mod Timing
pub mod Peak
use industrial_safety_intell.Prelude.{
  ℕ, zero, suc, ◌+◌, ◌-◌, String, Bool, List, [], ◌∷◌, Option, none, some, map, foldl, or_else, not,
  ◌||◌, if◌then◌else◌,
}
use industrial_safety_intell.Prelude.Double.{Double}
use industrial_safety_intell.Prelude.Lists.{take, find, get_elem?}
use industrial_safety_intell.Prelude.Sort.{sort}
use industrial_safety_intell.Api.Risk.{Tier, RiskAssessment, ScenarioSummary, is_tier}
use industrial_safety_intell.Justification.{AgentContribution, RiskJustification}

pub record PresentationScene : Type 0 where
  pub index : ℕ
  pub key : String
  pub title : String
  pub duration_ms : ℕ

abbrev scene : ℕ → String → String → ℕ → PresentationScene
scene index key title duration_ms = record {
  index = index;
  key = key;
  title = title;
  duration_ms = duration_ms;
}

-- PRESENTATION_SCENES
abbrev pub presentation_scenes : List PresentationScene
presentation_scenes =
    scene 0 "introduction" "Introduction" 3000
    ∷ scene 1 "plant-overview" "Plant Overview" 8000
    ∷ scene 2 "incident-begins" "Incident Begins" 10000
    ∷ scene 3 "multi-agent-reasoning" "Multi-Agent Reasoning" 14000
    ∷ scene 4 "counterfactual" "Alternative Decision" 10000
    ∷ scene 5 "executive-dashboard" "Executive Dashboard" 8000
    ∷ scene 6 "mission-control" "Mission Control" 10000
    ∷ scene 7 "final-recommendation" "Final Recommendation" 8000
    ∷ scene 8 "business-impact" "Business Impact" 8000
    ∷ scene 9 "closing" "Closing" 8000
    ∷ []

-- `scenes.reduce((sum, scene) => sum + scene.durationMs, 0)`
abbrev pub sum_durations : List PresentationScene → ℕ
sum_durations scenes = foldl (λ sum s. sum + s.duration_ms) 0 scenes

-- TOTAL_PRESENTATION_DURATION_MS
abbrev pub total_presentation_duration_ms : ℕ
total_presentation_duration_ms = sum_durations presentation_scenes

pub record SceneTalkingPoints : Type 0 where
  pub presenter_notes : String
  pub judge_takeaway : String
  pub technical_detail : String
  pub business_value : String

abbrev points : String → String → String → String → SceneTalkingPoints
points presenter_notes judge_takeaway technical_detail business_value = record {
  presenter_notes = presenter_notes;
  judge_takeaway = judge_takeaway;
  technical_detail = technical_detail;
  business_value = business_value;
}

-- SCENE_TALKING_POINTS
abbrev pub scene_talking_points : List (String × SceneTalkingPoints)
scene_talking_points =
    (
      "introduction",
      points
          "\"This is Industrial Safety Intelligence - a deterministic, explainable early-warning platform.\""
          "Every number on this slide is live - nothing scripted."
          "Sourced from GET /zones, GET /risk/current, GET /permits."
          "A plant manager sees operational status at a glance, no training required.",
    )
    ∷ (
      "plant-overview",
      points "\"Here's the plant as a digital twin - not a static diagram.\""
          "Permit icons are shape-coded by real permit type - point at one if active."
          "Site-plan layout is a fixed table of five named zones - a disclosed limitation, not hidden."
          "One screen replaces walking the plant floor to check status.",
    )
    ∷ (
      "incident-begins",
      points "\"Watch what happens when a real incident starts.\""
          "This tick is the first real index whose tier isn't normal - never hand-picked."
          "lib/presentationScript.ts::findFirstEscalationIndex over real replay history."
          "Early detection is the entire point of an early-warning system.",
    )
    ∷ (
      "multi-agent-reasoning",
      points
          "\"Four independent deterministic agents combine through Fusion - here's why the score is what it is.\""
          "The percentage is a relative share of real numbers, not the literal Fusion weight."
          "Every score is a documented closed-form formula; computeRelativeShares: risk_i / sum(risk_j) x 100."
          "No AI/ML in the decision path means no unexplainable false positives, and an auditor can trace exactly which factor drove the decision.",
    )
    ∷ (
      "counterfactual",
      points "\"The naive baseline - a single-sensor threshold alarm.\""
          "\"Without Permit\"/\"Equipment Restored\" are qualitative-only, disclosed, never a computed score."
          "explainComparison reused unchanged from the Decision Comparison milestone."
          "This is the concrete case for replacing a legacy single-sensor alarm system.",
    )
    ∷ (
      "executive-dashboard",
      points "\"For a plant manager, one screen: is the plant ready to operate?\""
          "Business impact is a categorical label over the real tier, not a dollar estimate."
          "Reuses plantReadiness/averageCompoundScore, already computed for every other page."
          "Answers the one question a plant manager actually has time to ask.",
    )
    ∷ (
      "mission-control",
      points
          "\"And here's everything at once - plant status, the twin, live alerts, and why, on one screen.\""
          "Every panel reuses a hook/derivation already proven on another page - nothing new is computed here."
          "MissionControlPage.tsx composes useCurrentRisk, parseJustification, and buildActionQueue."
          "This is the screen an operator actually keeps open all shift.",
    )
    ∷ (
      "final-recommendation",
      points
          "\"Of everything the platform could tell you to do right now, here's the one thing that matters most.\""
          "Priority is positional over deriveRecommendations' own severity ordering - not a new ranking model."
          "buildActionQueue attaches ETA/dependencies/personnel from a config table, not a model."
          "An operator gets one prioritized next step, not just an alarm.",
    )
    ∷ (
      "business-impact",
      points "\"Here's what a plant actually gains by running this.\""
          "The advance-warning window is a real duration between two real persisted timestamps, not an estimate."
          "Minutes between findFirstEscalationIndex and findPeakIndex's real timestamps in this replay."
          "Earlier warning, an audit trail by default, and no added headcount to watch a dashboard.",
    )
    ∷ (
      "closing",
      points "\"Deterministic. Explainable. Production ready.\""
          "Every stat is grep-verified against this repository, not estimated."
          "See PLATFORM_STATS's own docstring for the exact verification method per number."
          "A demonstrably real, tested system - not a slide deck.",
    )
    ∷ []

-- For an index of a scene, or the number of scenes.
unfoldable pub elapsed_before_scene : ℕ → ℕ
elapsed_before_scene scene_index = sum_durations (take scene_index presentation_scenes)

abbrev duration_of : Option PresentationScene → Option ℕ
duration_of none = none
duration_of (some s) = some s.duration_ms

abbrev remaining : ℕ → Option ℕ → Option ℕ
remaining left none = none
remaining left (some d) = some (left - d)

-- `none` is the error of an index that is no scene's. The counts that are subtracted are never
-- greater.
unfoldable pub remaining_after_scene : ℕ → Option ℕ
unfolding elapsed_before_scene
remaining_after_scene scene_index =
    remaining (total_presentation_duration_ms - elapsed_before_scene scene_index)
      (duration_of (get_elem? presentation_scenes scene_index))

module _ {N : Type 0} (dramatic_text : String → Bool) where
  abbrev pub first_of :
      List (ScenarioSummary N) → Option (ScenarioSummary N) → Option (ScenarioSummary N)
  first_of scenarios (some s) = some s
  first_of scenarios none = get_elem? scenarios 0

  -- `dramatic_text` is the test of the pattern /simops|critical/i.
  unfoldable pub select_presentation_scenario :
      List (ScenarioSummary N) → Option (ScenarioSummary N)
  unfolding find
  select_presentation_scenario [] = none
  select_presentation_scenario (s ∷ rest) =
      first_of (s ∷ rest) (find (λ x. dramatic_text x.key || dramatic_text x.title) (s ∷ rest))

module _ {N : Type 0} where
  -- `assessments.findIndex(...)`, with `none` for -1
  unfoldable pub find_escalation : ℕ → List (RiskAssessment N) → Option ℕ
  find_escalation index [] = none
  find_escalation index (a ∷ rest) =
      let later = find_escalation (suc index) rest in
      if not (is_tier a.tier Tier.normal) then some index else later

  unfoldable pub find_first_escalation_index : List (RiskAssessment N) → ℕ
  unfolding find_escalation
  find_first_escalation_index assessments = or_else (find_escalation 0 assessments) 0

pub record RelativeShare (N : Type 0) : Type 0 where
  pub agent_name : String
  pub display_name : String
  pub risk : N
  pub share_percent : N

module _ {N : Type 0} ⦃d : Double N⦄ where
  -- `assessments.forEach`, from the position `index` on, with `bestIndex` and `bestScore`.
  unfoldable pub peak_from : ℕ → N → ℕ → List (RiskAssessment N) → ℕ
  peak_from best_index best_score index [] = best_index
  peak_from best_index best_score index (a ∷ rest) =
      let better = d.lt best_score a.compound_risk_score in
      peak_from (if better then index else best_index)
        (if better then a.compound_risk_score else best_score) (suc index) rest

  unfoldable pub find_peak_index : List (RiskAssessment N) → ℕ
  unfolding peak_from
  find_peak_index [] = 0
  find_peak_index (a ∷ rest) = peak_from 0 a.compound_risk_score 0 (a ∷ rest)

  abbrev total_risk : List (String × AgentContribution N) → N
  total_risk entries = foldl (λ sum e. d.add sum e.1.risk) (d.of_ℕ 0) entries

  abbrev share_of : (String → String) → N → String × AgentContribution N → RelativeShare N
  share_of agent_display_name total (agent_name, c) = record {
    agent_name = agent_name;
    display_name = agent_display_name agent_name;
    risk = c.risk;
    share_percent =
        if d.lt (d.of_ℕ 0) total then d.mul (d.div c.risk total) (d.of_ℕ 100) else d.of_ℕ 0;
  }

  -- `b.risk - a.risk`
  abbrev pub less_risk : RelativeShare N → RelativeShare N → Bool
  less_risk a b = d.lt a.risk b.risk

  unfoldable pub compute_relative_shares :
      (String → String) → Option (RiskJustification N) → List (RelativeShare N)
  unfolding sort
  compute_relative_shares agent_display_name none = []
  compute_relative_shares agent_display_name (some j) =
      sort less_risk
        (map (share_of agent_display_name (total_risk j.agent_contributions)) j.agent_contributions)

pub record PlatformStat : Type 0 where
  pub label : String
  pub value : ℕ
  pub suffix : Option String

abbrev stat : String → ℕ → PlatformStat
stat label value = record { label = label; value = value; suffix = none }

-- PLATFORM_STATS
abbrev pub platform_stats : List PlatformStat
platform_stats =
    stat "Deterministic agents" 4
    ∷ stat "Deterministic rule identifiers" 21
    ∷ stat "REST API endpoints" 19
    ∷ stat "Frontend pages" 21
    ∷ stat "Automated tests" 467
    ∷ []

-- PLATFORM_CAPABILITIES
abbrev pub platform_capabilities : List String
platform_capabilities =
    "Docker deployment" ∷ "Prometheus monitoring" ∷ "OpenAPI documentation"
    ∷ "PostgreSQL persistence" ∷ "Structured logging" ∷ []
