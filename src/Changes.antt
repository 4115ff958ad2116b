-- ===== src/Changes.antt =====
-- frontend/src/lib/changeSummary.ts: what changed between two consecutive ticks.
pub mod Telling
pub mod Told
pub mod Steady
pub mod Labels
use industrial_safety_intell.Prelude.{
  String, Bool, true, false, List, [], ◌∷◌, ◌++◌, Option, none, some, not, ◌||◌, if◌then◌else◌,
}
use industrial_safety_intell.Prelude.Double.{Double, le}
use industrial_safety_intell.Prelude.Text.{◌⧺◌}
use industrial_safety_intell.Api.Risk.{RiskAssessment, is_tier, tier_upper}
use industrial_safety_intell.Api.Insight.{IncidentMatch, ForesightResult, category_text}
use industrial_safety_intell.Justification.{
  AgentContribution, RiskJustification, parse_justification, contribution_of, fired,
}
use industrial_safety_intell.Recommendations.{Recommendation, derive_recommendations}
use industrial_safety_intell.Stability.{first_id, same_id}

pub record ChangeSummaryEntry : Type 0 where
  pub label : String
  pub before : String
  pub after : String

pub record ChangeSummaryInput (N : Type 0) : Type 0 where
  pub previous_assessment : Option (RiskAssessment N)
  pub current_assessment : RiskAssessment N
  pub previous_best_match : Option (IncidentMatch N)
  pub current_best_match : Option (IncidentMatch N)
  pub previous_foresight : Option (ForesightResult N)
  pub current_foresight : Option (ForesightResult N)

abbrev pub entry : String → String → String → ChangeSummaryEntry
entry label before after = record { label = label; before = before; after = after }

-- `if (changed) entries.push(e)`
abbrev pub entry_if : Bool → ChangeSummaryEntry → List ChangeSummaryEntry
entry_if changed e = if changed then e ∷ [] else []

-- `recommendations[0]?.text ?? "No recommended action"`
abbrev pub first_text : List Recommendation → String
first_text [] = "No recommended action"
first_text (r ∷ rs) = r.text

abbrev pub permit_text : Bool → String
permit_text flagged = if flagged then "Escalation flagged" else "No escalation"

-- `a !== b` on flags
abbrev pub flags_differ : Bool → Bool → Bool
flags_differ true b = not b
flags_differ false b = b

unfoldable pub recommendation_change :
    List Recommendation → List Recommendation → List ChangeSummaryEntry
recommendation_change p c =
    entry_if (not (same_id (first_id p) (first_id c)))
      (entry "Recommendation" (first_text p) (first_text c))

module _ {N : Type 0} where
  abbrev pub name_of : Option (IncidentMatch N) → Option String
  name_of none = none
  name_of (some m) = some m.incident_name

  abbrev pub warning_of : Option (ForesightResult N) → Option String
  warning_of none = none
  warning_of (some f) = some (category_text f.early_warning.category)

  abbrev pub forecast_text : Option (ForesightResult N) → String
  forecast_text none = "No forecast"
  forecast_text (some f) = category_text f.early_warning.category

  -- permit_status_escalated
  unfoldable pub permit_change :
      Option (RiskJustification N) → Option (RiskJustification N) → List ChangeSummaryEntry
  permit_change p c =
      entry_if
        (flags_differ (fired p "permit_status_escalated") (fired c "permit_status_escalated"))
        (entry "Permit" (permit_text (fired p "permit_status_escalated"))
          (permit_text (fired c "permit_status_escalated")))

  unfoldable pub forecast_change :
      Option (ForesightResult N) → Option (ForesightResult N) → List ChangeSummaryEntry
  forecast_change p c =
      entry_if (not (same_id (warning_of p) (warning_of c)))
        (entry "Forecast" (forecast_text p) (forecast_text c))

module _ {N : Type 0} ⦃d : Double N⦄ where
  -- MEANINGFUL_SCORE_DELTA and MEANINGFUL_AGENT_RISK_DELTA are 5, MEANINGFUL_SIMILARITY_DELTA is 0.05.
  abbrev pub moved_by : N → N → N → Bool
  moved_by delta p c = le delta (d.abs (d.sub c p))

  abbrev pub score_text : RiskAssessment N → String
  score_text a = tier_upper a.tier ⧺ " (" ⧺ d.to_fixed a.compound_risk_score 1 ⧺ ")"

  unfoldable pub risk_change : RiskAssessment N → RiskAssessment N → List ChangeSummaryEntry
  risk_change p c =
      entry_if
        (not (is_tier p.tier c.tier)
          || moved_by (d.of_ℕ 5) p.compound_risk_score c.compound_risk_score)
        (entry "Risk" (score_text p) (score_text c))

  unfoldable pub worker_change :
      Option (AgentContribution N) → Option (AgentContribution N) → List ChangeSummaryEntry
  worker_change (some p) (some c) =
      entry_if (moved_by (d.of_ℕ 5) p.risk c.risk)
        (entry "Worker Exposure" (d.to_fixed p.risk 1) (d.to_fixed c.risk 1))
  worker_change _ _ = []

  abbrev pub similarity_moved : Option (IncidentMatch N) → Option (IncidentMatch N) → Bool
  similarity_moved (some p) (some c) =
      moved_by (d.div (d.of_ℕ 5) (d.of_ℕ 100)) p.similarity c.similarity
  similarity_moved _ _ = false

  abbrev pub match_text : Option (IncidentMatch N) → String
  match_text none = "No comparable incident"
  match_text (some m) =
      m.incident_name ⧺ " (" ⧺ d.to_fixed (d.mul m.similarity (d.of_ℕ 100)) 0 ⧺ "%)"

  unfoldable pub historical_change :
      Option (IncidentMatch N) → Option (IncidentMatch N) → List ChangeSummaryEntry
  historical_change p c =
      entry_if (not (same_id (name_of p) (name_of c)) || similarity_moved p c)
        (entry "Historical" (match_text p) (match_text c))

  -- The entries with a previous assessment, from both assessments and their parsed justifications.
  unfoldable pub changes_between :
      RiskAssessment N
      → RiskAssessment N
      → Option (RiskJustification N)
      → Option (RiskJustification N)
      → ChangeSummaryInput N
      → List ChangeSummaryEntry
  changes_between p c pj cj input =
      risk_change p c
      ++ recommendation_change (derive_recommendations p.tier pj) (derive_recommendations c.tier cj)
      ++ worker_change (contribution_of pj "worker_exposure") (contribution_of cj "worker_exposure")
      ++ permit_change pj cj
      ++ historical_change input.previous_best_match input.current_best_match
      ++ forecast_change input.previous_foresight input.current_foresight

  abbrev pub changes_from :
      Option (RiskAssessment N) → ChangeSummaryInput N → List ChangeSummaryEntry
  changes_from none input = []
  changes_from (some p) input =
      changes_between p input.current_assessment (parse_justification p.justification)
        (parse_justification input.current_assessment.justification) input

  unfoldable pub build_change_summary : ChangeSummaryInput N → List ChangeSummaryEntry
  build_change_summary input = changes_from input.previous_assessment input
