-- ===== src/Kpis/Summary.antt =====
-- `plantReadiness` and `highestRiskZone` of frontend/src/lib/executiveKpis.ts.
use industrial_safety_intell.Prelude.{
  true, List, [], ◌∷◌, ◌++◌, some, Memᴰ, ◌≡◌, ◌↔◌, refl, arith, ◌||◌,
}
use industrial_safety_intell.Prelude.Double.{Double, IsOrdered}
use industrial_safety_intell.Prelude.Lists.{All, any, any-append, any-Memᴰ, Memᴰ-any}
use industrial_safety_intell.Prelude.Select.{select?-IsGreatest, IsGreatest}
use industrial_safety_intell.Api.Risk.{Tier, RiskAssessment, is_tier, is_tier_eq}
use industrial_safety_intell.Kpis.{
  PlantReadiness, ready, degraded, not_ready, plant_readiness, ZoneAssessment, score_of,
  highest_risk_zone,
}

-- The greater of two labels in READINESS_ORDER, the first one where they are equal.
abbrev pub worse : PlantReadiness → PlantReadiness → PlantReadiness
worse ready r = r
worse degraded not_ready = not_ready
worse degraded _ = degraded
worse not_ready _ = not_ready

abbrev pub tier_readiness : Tier → PlantReadiness
tier_readiness Tier.normal = ready
tier_readiness Tier.critical = not_ready
tier_readiness _ = degraded

module _ {N : Type 0} where
  plant_readiness-cons :
      (a : RiskAssessment N) (zones : List (RiskAssessment N))
      → plant_readiness (a ∷ zones) ≡ worse (tier_readiness a.tier) (plant_readiness zones)
  unfolding plant_readiness
  plant_readiness-cons a zones = ground arith

  ready-All :
      (zones : List (RiskAssessment N))
      → plant_readiness zones ≡ ready
      → All (λ a. a.tier ≡ Tier.normal) zones
  ready-All [] h = tt
  ready-All (a ∷ zones) h = ground (arith, plant_readiness-cons a zones, ready-All zones)

  All-ready :
      (zones : List (RiskAssessment N))
      → All (λ a. a.tier ≡ Tier.normal) zones
      → plant_readiness zones ≡ ready
  unfolding plant_readiness
  All-ready [] h = refl
  All-ready (a ∷ zones) h = ground (arith, plant_readiness-cons a zones, All-ready zones)

  -- A plant is not ready exactly when it has a critical zone, and ready exactly when all of its
  -- zones are normal; otherwise it is degraded, the third label there is.
  pub plant_readiness_iff :
      (zones : List (RiskAssessment N))
      → ((plant_readiness zones ≡ not_ready)
          ↔ ((a : RiskAssessment N) × Memᴰ a zones × (a.tier ≡ Tier.critical)))
        × ((plant_readiness zones ≡ ready) ↔ All (λ a. a.tier ≡ Tier.normal) zones)
  plant_readiness_iff zones = ((critical_zone, down), (ready-All zones, All-ready zones))
    where
      has_critical :
          plant_readiness zones ≡ not_ready → any (λ a. is_tier a.tier Tier.critical) zones ≡ true
      has_critical h = unfold plant_readiness in ground arith

      critical_zone :
          plant_readiness zones ≡ not_ready
          → (a : RiskAssessment N) × Memᴰ a zones × (a.tier ≡ Tier.critical)
      critical_zone h =
          let (a, m, r) =
            any-Memᴰ (λ (a : RiskAssessment N). is_tier a.tier Tier.critical) zones
              (has_critical h) in
          (a, m, is_tier_eq a.tier Tier.critical r)

      down :
          (a : RiskAssessment N) × Memᴰ a zones × (a.tier ≡ Tier.critical)
          → plant_readiness zones ≡ not_ready
      down (a, m, e) =
          unfold plant_readiness in
          rw (Memᴰ-any (λ (x : RiskAssessment N). is_tier x.tier Tier.critical) zones m (rw e))

-- The readiness of two groups of zones is the worse of the two.
pub plant_readiness-append :
    {N : Type 0} (xs ys : List (RiskAssessment N))
    → plant_readiness (xs ++ ys) ≡ worse (plant_readiness xs) (plant_readiness ys)
unfolding plant_readiness
plant_readiness-append xs ys = ground (
  arith,
  any-append (λ a. is_tier a.tier Tier.critical) xs ys,
  any-append (λ a. is_tier a.tier Tier.watch || is_tier a.tier Tier.elevated) xs ys,
)

-- The zone shown as the one of highest risk is one of the zones, and no zone has a greater score.
pub highest_risk_zone-IsGreatest :
    {N : Type 0} ⦃d : Double N⦄ (zones : List (ZoneAssessment N)) (z : ZoneAssessment N)
    → IsOrdered d
    → highest_risk_zone zones ≡ some z
    → Memᴰ z zones × IsGreatest d.lt score_of z zones
highest_risk_zone-IsGreatest ⦃d⦄ zones z laws h =
    select?-IsGreatest d.lt score_of laws.lt_asym laws.not_lt_trans zones z
      (unfold highest_risk_zone in h)
