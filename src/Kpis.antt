-- ===== src/Kpis.antt =====
-- frontend/src/lib/executiveKpis.ts: the figures of the executive view.
pub mod Summary
use industrial_safety_intell.Prelude.{
  ℕ, String, Bool, false, List, [], ◌∷◌, Option, none, some, foldl, map, not, ◌&&◌, ◌||◌,
  if◌then◌else◌,
}
use industrial_safety_intell.Prelude.Eq.{◌==◌, nat_eq}
use industrial_safety_intell.Prelude.Int.{ℤ, pos, negsuc, ltb_ℤ}
use industrial_safety_intell.Prelude.Double.{Double}
use industrial_safety_intell.Prelude.Lists.{any, filter, length}
use industrial_safety_intell.Prelude.Select.{select?}
use industrial_safety_intell.Api.Risk.{Tier, RiskAssessment, is_tier}
use industrial_safety_intell.Justification.{RiskJustification, parse_justification}
use industrial_safety_intell.Tier.{tier_rank}

-- `index !== -1`
abbrev found : ℤ → Bool
found (pos n) = Bool.true
found (negsuc n) = false

abbrev pub rose : {N : Type 0} → Option (RiskJustification N) → Bool
rose none = false
rose (some j) =
    let before = tier_rank j.tier_before in
    let after = tier_rank j.tier_after in found before && found after && ltb_ℤ before after

unfoldable pub is_escalation : {N : Type 0} → RiskAssessment N → Bool
unfolding parse_justification tier_rank
is_escalation a = rose (parse_justification a.justification)

-- The local calendar day of an instant, which the host's time zone decides: a parameter.
pub record CalendarDay : Type 0 where
  pub year : ℕ
  pub month : ℕ
  pub date : ℕ

module _ (local_day : String → CalendarDay) where
  unfoldable pub is_same_calendar_day : String → CalendarDay → Bool
  is_same_calendar_day iso_timestamp reference =
      let d = local_day iso_timestamp in
      d.year == reference.year && d.month == reference.month && d.date == reference.date

  unfoldable pub count_todays_incidents : {N : Type 0} → List (RiskAssessment N) → CalendarDay → ℕ
  unfolding is_same_calendar_day is_escalation filter
  count_todays_incidents assessments today =
      length (filter (λ a. is_same_calendar_day a.timestamp today && is_escalation a) assessments)

pub data PlantReadiness : Type 0 where
  ready degraded not_ready : PlantReadiness

unfoldable pub plant_readiness : {N : Type 0} → List (RiskAssessment N) → PlantReadiness
unfolding any
plant_readiness assessments =
    if any (λ a. is_tier a.tier Tier.critical) assessments
    then not_ready
    else if any (λ a. is_tier a.tier Tier.watch || is_tier a.tier Tier.elevated) assessments
    then degraded
    else ready

module _ {N : Type 0} ⦃d : Double N⦄ where
  abbrev sum_scores : N → List (RiskAssessment N) → N
  sum_scores = foldl (λ sum a. d.add sum a.compound_risk_score)

  unfoldable pub average_compound_score : List (RiskAssessment N) → N
  average_compound_score [] = d.of_ℕ 0
  average_compound_score (a ∷ as') =
      d.div (sum_scores (d.of_ℕ 0) (a ∷ as')) (d.of_ℕ (length (a ∷ as')))

  unfoldable pub percent_zones_normal : List (RiskAssessment N) → N
  unfolding filter
  percent_zones_normal [] = d.of_ℕ 100
  percent_zones_normal (a ∷ as') =
      let normal_count = length (filter (λ x. is_tier x.tier Tier.normal) (a ∷ as')) in
      d.mul (d.div (d.of_ℕ normal_count) (d.of_ℕ (length (a ∷ as')))) (d.of_ℕ 100)

pub record ZoneAssessment (N : Type 0) : Type 0 where
  pub zone_id : String
  pub assessment : RiskAssessment N

module _ {N : Type 0} ⦃d : Double N⦄ where
  abbrev pub score_of : ZoneAssessment N → N
  score_of z = z.assessment.compound_risk_score

  unfoldable pub highest_risk_zone : List (ZoneAssessment N) → Option (ZoneAssessment N)
  unfolding select?
  highest_risk_zone = select? d.lt score_of
