-- ===== src/Changes/Labels.antt =====
-- The labels that `buildChangeSummary` of frontend/src/lib/changeSummary.ts gives.
use industrial_safety_intell.Prelude.{
  String, Bool, true, false, List, [], ◌∷◌, ◌++◌, Option, none, some, map, not, sym,
}
use mathlib.Core.List.{map-append, Sublistᴰ}
use mathlib.Core.List.Sublistᴰ
use mathlib.Core.Path.{subst}
use industrial_safety_intell.Prelude.Double.{Double}
use industrial_safety_intell.Prelude.Eq.{string_eq}
use industrial_safety_intell.Api.Risk.{RiskAssessment}
use industrial_safety_intell.Api.Insight.{IncidentMatch, ForesightResult}
use industrial_safety_intell.Justification.{
  AgentContribution, RiskJustification, contribution_of, parse_justification,
}
use industrial_safety_intell.Recommendations.{Recommendation, derive_recommendations}
use industrial_safety_intell.Stability.{first_id, same_id}
use industrial_safety_intell.Changes.{
  first_text, score_text, match_text, ChangeSummaryEntry, ChangeSummaryInput, entry, entry_if,
  risk_change, recommendation_change, worker_change, permit_change, historical_change,
  forecast_change, changes_between, changes_from, build_change_summary,
}

abbrev pub labels_of : List ChangeSummaryEntry → List String
labels_of = map (λ e. e.label)

abbrev pub dimensions : List String
dimensions =
    "Risk" ∷ "Recommendation" ∷ "Worker Exposure" ∷ "Permit" ∷ "Historical" ∷ "Forecast" ∷ []

entry_if-labels :
    (b : Bool) (e : ChangeSummaryEntry) → Sublistᴰ (labels_of (entry_if b e)) (e.label ∷ [])
entry_if-labels true e = Sublistᴰ.refl (e.label ∷ [])
entry_if-labels false e = Sublistᴰ.nil-sublist (e.label ∷ [])

append-labels :
    (x y : List ChangeSummaryEntry) (l m : List String)
    → Sublistᴰ (labels_of x) l
    → Sublistᴰ (labels_of y) m
    → Sublistᴰ (labels_of (x ++ y)) (l ++ m)
append-labels x y l m h k =
    subst (λ z. Sublistᴰ z (l ++ m)) (sym (map-append (λ e. e.label) x y)) (Sublistᴰ.append h k)

recommendation_change-labels :
    (p c : List Recommendation)
    → Sublistᴰ (labels_of (recommendation_change p c)) ("Recommendation" ∷ [])
unfolding recommendation_change
recommendation_change-labels p c =
    entry_if-labels (not (same_id (first_id p) (first_id c)))
      (entry "Recommendation" (first_text p) (first_text c))

module _ {N : Type 0} where
  permit_change-labels :
      (p c : Option (RiskJustification N))
      → Sublistᴰ (labels_of (permit_change p c)) ("Permit" ∷ [])
  unfolding permit_change
  permit_change-labels p c = entry_if-labels _ (entry "Permit" _ _)

  forecast_change-labels :
      (p c : Option (ForesightResult N))
      → Sublistᴰ (labels_of (forecast_change p c)) ("Forecast" ∷ [])
  unfolding forecast_change
  forecast_change-labels p c = entry_if-labels _ (entry "Forecast" _ _)

module _ {N : Type 0} ⦃d : Double N⦄ where
  risk_change-labels :
      (p c : RiskAssessment N) → Sublistᴰ (labels_of (risk_change p c)) ("Risk" ∷ [])
  unfolding risk_change
  risk_change-labels p c = entry_if-labels _ (entry "Risk" (score_text p) (score_text c))

  worker_change-labels :
      (p c : Option (AgentContribution N))
      → Sublistᴰ (labels_of (worker_change p c)) ("Worker Exposure" ∷ [])
  unfolding worker_change
  worker_change-labels none c = Sublistᴰ.nil-sublist _
  worker_change-labels (some p) none = Sublistᴰ.nil-sublist _
  worker_change-labels (some p) (some c) = entry_if-labels _ (entry "Worker Exposure" _ _)

  historical_change-labels :
      (p c : Option (IncidentMatch N))
      → Sublistᴰ (labels_of (historical_change p c)) ("Historical" ∷ [])
  unfolding historical_change
  historical_change-labels p c =
      entry_if-labels _ (entry "Historical" (match_text p) (match_text c))

  changes_between-labels :
      (p c : RiskAssessment N) (pj cj : Option (RiskJustification N)) (input : ChangeSummaryInput N)
      → Sublistᴰ (labels_of (changes_between p c pj cj input)) dimensions
  unfolding changes_between
  changes_between-labels p c pj cj input =
      append-labels _ _ _ _
        (append-labels _ _ _ _
          (append-labels _ _ _ _
            (append-labels _ _ _ _
              (append-labels _ _ _ _ (risk_change-labels p c) (
                recommendation_change-labels (derive_recommendations p.tier pj)
                  (derive_recommendations c.tier cj)))
              (worker_change-labels (contribution_of pj "worker_exposure")
                (contribution_of cj "worker_exposure")))
            (permit_change-labels pj cj))
          (historical_change-labels input.previous_best_match input.current_best_match))
        (forecast_change-labels input.previous_foresight input.current_foresight)

  changes_from-labels :
      (p : Option (RiskAssessment N)) (input : ChangeSummaryInput N)
      → Sublistᴰ (labels_of (changes_from p input)) dimensions
  changes_from-labels none input = Sublistᴰ.nil-sublist dimensions
  changes_from-labels (some p) input =
      changes_between-labels p input.current_assessment (parse_justification p.justification)
        (parse_justification input.current_assessment.justification) input

  -- A summary reports each of the six dimensions at most once, in this order, and nothing else.
  pub build_change_summary-labels :
      (input : ChangeSummaryInput N) → Sublistᴰ (labels_of (build_change_summary input)) dimensions
  unfolding build_change_summary
  build_change_summary-labels input = changes_from-labels input.previous_assessment input
