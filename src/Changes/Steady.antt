-- ===== src/Changes/Steady.antt =====
-- `buildChangeSummary` of frontend/src/lib/changeSummary.ts on ticks that agree.
use industrial_safety_intell.Prelude.{
  String, Bool, true, false, List, [], Option, none, some, ◌≡◌, refl, ap, ◌∙◌, arith,
}
use industrial_safety_intell.Prelude.Double.{Double}
use industrial_safety_intell.Prelude.Eq.{==-refl, string_eq}
use industrial_safety_intell.Api.Risk.{RiskAssessment}
use industrial_safety_intell.Api.Insight.{IncidentMatch, ForesightResult}
use industrial_safety_intell.Justification.{
  AgentContribution, RiskJustification, contribution_of, parse_justification,
}
use industrial_safety_intell.Recommendations.{Recommendation, derive_recommendations}
use industrial_safety_intell.Stability.{first_id, same_id}
use industrial_safety_intell.Changes.{
  ChangeSummaryEntry, ChangeSummaryInput, entry_if, risk_change, recommendation_change,
  worker_change, permit_change, historical_change, forecast_change, changes_between, changes_from,
  build_change_summary, warning_of,
}

entry_if-false : {b : Bool} (e : ChangeSummaryEntry) → b ≡ false → entry_if b e ≡ []
entry_if-false e h = rw h refl

pub same_id_refl : (a : Option String) → same_id a a ≡ true
same_id_refl none = refl
same_id_refl (some a) = ==-refl a

recommendation_change_same : (rs : List Recommendation) → recommendation_change rs rs ≡ []
unfolding recommendation_change
recommendation_change_same rs = rw (same_id_refl (first_id rs)) refl

module _ {N : Type 0} where
  permit_change_same : (j : Option (RiskJustification N)) → permit_change j j ≡ []
  unfolding permit_change
  permit_change_same j = ground arith

  forecast_change_same : (f : Option (ForesightResult N)) → forecast_change f f ≡ []
  unfolding forecast_change
  forecast_change_same f = rw (same_id_refl (warning_of f)) refl

module _ {N : Type 0} ⦃d : Double N⦄ (still : (a : N) → d.lt (d.abs (d.sub a a)) (d.of_ℕ 5) ≡ true)
    (alike : (a : N) → d.lt (d.abs (d.sub a a)) (d.div (d.of_ℕ 5) (d.of_ℕ 100)) ≡ true) where
  risk_change_same : (a : RiskAssessment N) → risk_change a a ≡ []
  unfolding risk_change
  risk_change_same a = ground (arith, still a.compound_risk_score)

  worker_change_same : (c : Option (AgentContribution N)) → worker_change c c ≡ []
  unfolding worker_change
  worker_change_same none = refl
  worker_change_same (some c) = rw (still c.risk) refl

  historical_change_same : (m : Option (IncidentMatch N)) → historical_change m m ≡ []
  unfolding historical_change
  historical_change_same none = refl
  historical_change_same (some m) = rw (==-refl m.incident_name) (rw (alike m.similarity) refl)

  changes_between_same :
      (a : RiskAssessment N) (j : Option (RiskJustification N)) (input : ChangeSummaryInput N)
      → input.previous_best_match ≡ input.current_best_match
      → input.previous_foresight ≡ input.current_foresight
      → changes_between a a j j input ≡ []
  unfolding changes_between
  changes_between_same a j input h k =
      rw
        (
          h,
          k,
          risk_change_same a,
          recommendation_change_same (derive_recommendations a.tier j),
          worker_change_same (contribution_of j "worker_exposure"),
          permit_change_same j,
          historical_change_same input.current_best_match,
          forecast_change_same input.current_foresight,
        )
        refl

  -- Where a number is within the thresholds of itself, a tick with the same assessment, match and
  -- forecast as the one before has an empty summary.
  pub build_change_summary_same :
      (input : ChangeSummaryInput N)
      → input.previous_assessment ≡ some input.current_assessment
      → input.previous_best_match ≡ input.current_best_match
      → input.previous_foresight ≡ input.current_foresight
      → build_change_summary input ≡ []
  unfolding build_change_summary
  build_change_summary_same input e h k =
      ap (λ o. changes_from o input) e
      ∙ changes_between_same input.current_assessment
          (parse_justification input.current_assessment.justification) input h k
