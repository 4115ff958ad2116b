-- ===== src/Confidence/Factors.antt =====
-- `buildConfidenceBreakdown` of frontend/src/lib/confidenceBreakdown.ts and its numbers.
use industrial_safety_intell.Prelude.{
  String, false, Option, none, some, ◌≡◌, refl, inl, inr, Bool-cases,
}
use industrial_safety_intell.Prelude.Double.{Double}
use industrial_safety_intell.Prelude.Lists.{All}
use industrial_safety_intell.Api.Risk.{RiskAssessment}
use industrial_safety_intell.Api.Insight.{IncidentMatch, ForesightResult}
use industrial_safety_intell.Justification.{AgentContribution, RiskJustification, contribution_of}
use industrial_safety_intell.Confidence.{
  ConfidenceFactor, percentage, categorical, unavailable, missing_or_stale, historical_factor,
  sensor_factor, fail_safe_factor, completeness_factor, forecast_factor, stability_factor,
  build_confidence_breakdown,
}

abbrev pub label_of : {N : Type 0} → ConfidenceFactor N → String
label_of (percentage l v s) = l
label_of (categorical l c s) = l
label_of (unavailable l r) = l

-- Where a number of the breakdown may come from: a field of one of the inputs, or the 1 that stands
-- for a tick on which no missing-data or stale-data rule fired.
pub data Source {N : Type 0} ⦃d : Double N⦄ (a : RiskAssessment N)
    (j : Option (RiskJustification N)) (m : Option (IncidentMatch N))
    (f : Option (ForesightResult N)) (v : N) : Type 0 where
  assessed : v ≡ a.confidence → Source a j m f v
  matched : (x : IncidentMatch N) → f ≡ none → m ≡ some x → v ≡ x.similarity → Source a j m f v
  agreement :
      (x : ForesightResult N)
      → f ≡ some x
      → v ≡ x.confidence.historical_agreement
      → Source a j m f v
  completeness :
      (x : ForesightResult N) → f ≡ some x → v ≡ x.confidence.data_completeness → Source a j m f v
  trajectory :
      (x : ForesightResult N)
      → f ≡ some x
      → v ≡ x.confidence.trajectory_similarity
      → Source a j m f v
  gas_agent :
      (c : AgentContribution N)
      → contribution_of j "gas_risk" ≡ some c
      → v ≡ c.confidence
      → Source a j m f v
  nothing_missing :
      (x : RiskJustification N)
      → j ≡ some x
      → missing_or_stale x ≡ false
      → v ≡ d.of_ℕ 1
      → Source a j m f v

abbrev pub IsTraced : {N : Type 0} → (N → Type 0) → ConfidenceFactor N → Type 0
IsTraced P (percentage l v s) = P v
IsTraced P (categorical l c s) = Unit
IsTraced P (unavailable l r) = Unit

module _ {N : Type 0} ⦃d : Double N⦄ (a : RiskAssessment N) (j : Option (RiskJustification N)) where
  sensor_factor-IsTraced :
      (m : Option (IncidentMatch N)) (f : Option (ForesightResult N))
      (o : Option (AgentContribution N))
      → contribution_of j "gas_risk" ≡ o
      → IsTraced (Source a j m f) (sensor_factor o)
  sensor_factor-IsTraced m f none e = tt
  sensor_factor-IsTraced m f (some c) e = gas_agent c e refl

  historical_factor-IsTraced :
      (m : Option (IncidentMatch N)) (f : Option (ForesightResult N))
      → IsTraced (Source a j m f) (historical_factor f m)
  historical_factor-IsTraced m (some x) = agreement x refl refl
  historical_factor-IsTraced (some x) none = matched x refl refl refl
  historical_factor-IsTraced none none = tt

  forecast_factor-IsTraced :
      (m : Option (IncidentMatch N)) (f : Option (ForesightResult N))
      → IsTraced (Source a j m f) (forecast_factor f)
  forecast_factor-IsTraced m (some x) = trajectory x refl refl
  forecast_factor-IsTraced m none = tt

  stability_factor-IsTraced :
      (m : Option (IncidentMatch N)) (f : Option (ForesightResult N))
      → IsTraced (Source a j m f) (stability_factor f)
  stability_factor-IsTraced m (some x) = tt
  stability_factor-IsTraced m none = tt

  fail_safe_factor-IsTraced :
      (m : Option (IncidentMatch N)) (f : Option (ForesightResult N))
      (o : Option (AgentContribution N))
      → contribution_of j "gas_risk" ≡ o
      → IsTraced (Source a j m f) (fail_safe_factor o)
  fail_safe_factor-IsTraced m f none e = tt
  fail_safe_factor-IsTraced m f (some c) e = gas_agent c e refl

module _ {N : Type 0} ⦃d : Double N⦄ (a : RiskAssessment N) (m : Option (IncidentMatch N)) where
  completeness_factor-IsTraced :
      (j : Option (RiskJustification N)) (f : Option (ForesightResult N))
      → IsTraced (Source a j m f) (completeness_factor f j (contribution_of j "gas_risk"))
  completeness_factor-IsTraced j (some x) = completeness x refl refl
  completeness_factor-IsTraced none none = tt
  completeness_factor-IsTraced (some x) none = elim (Bool-cases (missing_or_stale x)) [
    | inl p ↦ rw p (fail_safe_factor-IsTraced a (some x) m none _ refl)
    | inr p ↦ rw p (nothing_missing x refl p refl)
  ]

-- Every percentage of a breakdown is a number that stands in one of its inputs, copied as it is.
pub build_confidence_breakdown-IsTraced :
    {N : Type 0} ⦃d : Double N⦄ (a : RiskAssessment N) (j : Option (RiskJustification N))
    (m : Option (IncidentMatch N)) (f : Option (ForesightResult N))
    → All (IsTraced (Source a j m f)) (build_confidence_breakdown a j m f)
build_confidence_breakdown-IsTraced a j m f =
    unfold build_confidence_breakdown in
    (
      assessed refl,
      (
        historical_factor-IsTraced a j m f,
        (
          sensor_factor-IsTraced a j m f _ refl,
          (
            completeness_factor-IsTraced a m j f,
            (forecast_factor-IsTraced a j m f, (stability_factor-IsTraced a j m f, tt)),
          ),
        ),
      ),
    )
