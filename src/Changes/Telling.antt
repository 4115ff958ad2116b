-- ===== src/Changes/Telling.antt =====
-- What the entries of frontend/src/lib/changeSummary.ts are to tell of two ticks.
use industrial_safety_intell.Prelude.{
  String, Bool, false, List, [], ◌∷◌, ◌++◌, Option, none, some, or_else, ◌≡◌, ◌≢◌, ◌⊎◌,
  if◌then◌else◌,
}
use industrial_safety_intell.Prelude.Double.{Double}
use industrial_safety_intell.Prelude.Eq.{string_eq}
use industrial_safety_intell.Prelude.Text.{◌⧺◌}
use industrial_safety_intell.Api.Risk.{RiskAssessment, tier_upper}
use industrial_safety_intell.Api.Insight.{IncidentMatch, ForesightResult, category_text}
use industrial_safety_intell.Justification.{
  AgentContribution, RiskJustification, parse_justification, contribution_of, fired,
}
use industrial_safety_intell.Recommendations.{Recommendation, derive_recommendations}
use industrial_safety_intell.Changes.{ChangeSummaryEntry, ChangeSummaryInput}

-- One entry, which is there just where the values moved.
pub data Tells (Moved : Type 0) (label before after : String)
    : List ChangeSummaryEntry → Type 0 where
  moved :
      Moved
      → Tells Moved label before after
          (record { label = label; before = before; after = after } ∷ [])
  kept : ¬ Moved → Tells Moved label before after []

-- Something of what is there, if it is there.
abbrev pub of {ℓ} : {A : Type ℓ} → (A → String) → Option A → Option String
of f none = none
of f (some a) = some (f a)

abbrev pub first : List Recommendation → Option Recommendation
first [] = none
first (r ∷ rs) = some r

-- The recommendation that is on top.
abbrev pub TellsRecommendation :
    List Recommendation → List Recommendation → List ChangeSummaryEntry → Type 0
TellsRecommendation p c =
    Tells (of (λ r. r.id) (first p) ≢ of (λ r. r.id) (first c)) "Recommendation"
      (or_else (of (λ r. r.text) (first p)) "No recommended action")
      (or_else (of (λ r. r.text) (first c)) "No recommended action")

module _ {N : Type 0} where
  -- Whether the permit's escalation is among the rules.
  abbrev pub escalated : Option (RiskJustification N) → Bool
  escalated j = fired j "permit_status_escalated"

  abbrev pub TellsPermit :
      Option (RiskJustification N) → Option (RiskJustification N) → List ChangeSummaryEntry → Type 0
  TellsPermit p c =
      Tells (escalated p ≢ escalated c) "Permit"
        (if escalated p then "Escalation flagged" else "No escalation")
        (if escalated c then "Escalation flagged" else "No escalation")

  abbrev pub category : ForesightResult N → String
  category f = category_text f.early_warning.category

  abbrev pub TellsForecast :
      Option (ForesightResult N) → Option (ForesightResult N) → List ChangeSummaryEntry → Type 0
  TellsForecast p c =
      Tells (of category p ≢ of category c) "Forecast" (or_else (of category p) "No forecast")
        (or_else (of category c) "No forecast")

module _ {N : Type 0} ⦃d : Double N⦄ where
  -- The distance of two numbers is not below `delta`.
  abbrev pub IsFar : N → N → N → Type 0
  IsFar delta p c = d.lt (d.abs (d.sub c p)) delta ≡ false

  -- Both are there, and far from one another.
  abbrev pub AreFar : {A : Type 0} → N → (A → N) → Option A → Option A → Type 0
  AreFar delta f (some p) (some c) = IsFar delta (f p) (f c)
  AreFar delta f _ _ = ⊥

  abbrev pub TellsRisk : RiskAssessment N → RiskAssessment N → List ChangeSummaryEntry → Type 0
  TellsRisk p c =
      Tells ((p.tier ≢ c.tier) ⊎ IsFar (d.of_ℕ 5) p.compound_risk_score c.compound_risk_score)
        "Risk" (tier_upper p.tier ⧺ " (" ⧺ d.to_fixed p.compound_risk_score 1 ⧺ ")")
        (tier_upper c.tier ⧺ " (" ⧺ d.to_fixed c.compound_risk_score 1 ⧺ ")")

  abbrev pub TellsWorker :
      Option (AgentContribution N) → Option (AgentContribution N) → List ChangeSummaryEntry → Type 0
  TellsWorker p c =
      Tells (AreFar (d.of_ℕ 5) (λ a. a.risk) p c) "Worker Exposure"
        (or_else (of (λ a. d.to_fixed a.risk 1) p) "")
        (or_else (of (λ a. d.to_fixed a.risk 1) c) "")

  -- A match with its similarity in percent.
  abbrev pub match_in_percent : IncidentMatch N → String
  match_in_percent m =
      m.incident_name ⧺ " (" ⧺ d.to_fixed (d.mul m.similarity (d.of_ℕ 100)) 0 ⧺ "%)"

  abbrev pub TellsHistorical :
      Option (IncidentMatch N) → Option (IncidentMatch N) → List ChangeSummaryEntry → Type 0
  TellsHistorical p c =
      Tells
        ((of (λ m. m.incident_name) p ≢ of (λ m. m.incident_name) c)
          ⊎ AreFar (d.div (d.of_ℕ 5) (d.of_ℕ 100)) (λ m. m.similarity) p c)
        "Historical" (or_else (of match_in_percent p) "No comparable incident")
        (or_else (of match_in_percent c) "No comparable incident")

  -- The six dimensions in turn, and nothing without an earlier assessment.
  pub data TellsChanges (input : ChangeSummaryInput N) : List ChangeSummaryEntry → Type 0 where
    no_earlier : input.previous_assessment ≡ none → TellsChanges input []
    since :
        (p : RiskAssessment N)
        {risk recommendation worker permit historical forecast : List ChangeSummaryEntry}
        → input.previous_assessment ≡ some p
        → (let c = input.current_assessment in
            let pj = parse_justification p.justification in
            let cj = parse_justification c.justification in
            TellsRisk p c risk
            × TellsRecommendation
                (derive_recommendations p.tier pj)
                (derive_recommendations c.tier cj)
                recommendation
            × TellsWorker
                (contribution_of pj "worker_exposure")
                (contribution_of cj "worker_exposure")
                worker
            × TellsPermit pj cj permit)
        → TellsHistorical input.previous_best_match input.current_best_match historical
        → TellsForecast input.previous_foresight input.current_foresight forecast
        → TellsChanges input (risk ++ recommendation ++ worker ++ permit ++ historical ++ forecast)
