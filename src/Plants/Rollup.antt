-- ===== src/Plants/Rollup.antt =====
-- `buildCorporateOverview` of frontend/src/lib/multiPlant.ts beside the union of the assessments.
use mathlib.Core.List.{map-append}
use native.Mathlib.Nat.{zero-add}
use industrial_safety_intell.Prelude.{
  ℕ, String, List, [], ◌∷◌, ◌++◌, Option, none, some, foldl, map, ◌+◌, ◌≡◌, refl, sym, ap, ◌∙◌,
  arith,
}
use industrial_safety_intell.Prelude.Double.{Double}
use industrial_safety_intell.Prelude.Int.{ltb_ℤ}
use industrial_safety_intell.Prelude.Lists.{
  filter, length, filter-append, length-append, length-map,
}
use industrial_safety_intell.Prelude.Select.{pick?, select?-append}
use industrial_safety_intell.Api.Risk.{RiskAssessment, ScenarioSummary, ReplayData, tier_text}
use industrial_safety_intell.Tier.{worst_tier, tier_rank}
use industrial_safety_intell.Tier.Worst.{ltb_ℤ_asym, ltb_ℤ_trans}
use industrial_safety_intell.Kpis.{PlantReadiness, ready, plant_readiness, is_escalation}
use industrial_safety_intell.Kpis.Summary.{worse, plant_readiness-append}
use industrial_safety_intell.Plants.{
  PlantSummary, all_assessments, tiers_of, build_plant_summary, build_corporate_overview, worse_of,
  non_null,
}

-- A plant of the roll-up: a cataloged scenario with its replay.
abbrev pub Plant : Type 0 → Type 0
Plant N = ScenarioSummary N × ReplayData N

worse_of-worse : (a b c : PlantReadiness) → worse (worse_of a b) c ≡ worse a (worse b c)
worse_of-worse a b c = ground arith

incidents-append :
    {N : Type 0} (xs ys : List (RiskAssessment N))
    → length (filter is_escalation (xs ++ ys))
      ≡ length (filter is_escalation xs) + length (filter is_escalation ys)
incidents-append xs ys =
    rw (filter-append is_escalation xs ys)
      (length-append (filter is_escalation xs) (filter is_escalation ys))

worst_tier-append :
    (xs ys : List String)
    → worst_tier (xs ++ ys) ≡ pick? ltb_ℤ tier_rank (worst_tier xs) (worst_tier ys)
unfolding worst_tier
worst_tier-append xs ys = select?-append ltb_ℤ tier_rank ltb_ℤ_asym ltb_ℤ_trans xs ys

worst_tier-non_null :
    (o : Option String) (os : List (Option String))
    → worst_tier (non_null (o ∷ os)) ≡ pick? ltb_ℤ tier_rank o (worst_tier (non_null os))
worst_tier-non_null none os = refl
worst_tier-non_null (some t) os =
    worst_tier-append (t ∷ []) (non_null os) ∙ unfold worst_tier in refl

module _ {N : Type 0} where
  -- Every assessment of every plant.
  abbrev pub everything : List (Plant N) → List (RiskAssessment N)
  everything [] = []
  everything (p ∷ ps) = all_assessments p.1 ++ everything ps

  -- Every zone of every replay.
  abbrev pub all_zones : List (Plant N) → List String
  all_zones [] = []
  all_zones (p ∷ ps) = p.1.zone_ids ++ all_zones ps

module _ {N : Type 0} ⦃d : Double N⦄ where
  abbrev pub summaries : List (Plant N) → List (PlantSummary N)
  summaries = map (λ p. build_plant_summary p.0 p.1)

  readiness-from :
      (worst : PlantReadiness) (ps : List (Plant N))
      → foldl (λ w s. worse_of w s.readiness) worst (summaries ps)
        ≡ worse worst (plant_readiness (everything ps))
  readiness-from worst [] = unfold plant_readiness in ground arith
  readiness-from worst (p ∷ ps) =
      readiness-from (worse_of worst (build_plant_summary p.0 p.1).readiness) ps
      ∙ unfold build_plant_summary in
        (worse_of-worse worst (plant_readiness (all_assessments p.1))
            (plant_readiness (everything ps))
          ∙ ap (worse worst) (sym (plant_readiness-append (all_assessments p.1) (everything ps))))

  incidents-from :
      (n : ℕ) (ps : List (Plant N))
      → foldl (λ sum s. sum + s.incident_count) n (summaries ps)
        ≡ n + length (filter is_escalation (everything ps))
  incidents-from n [] = unfold filter in omega arith
  incidents-from n (p ∷ ps) =
      incidents-from (n + (build_plant_summary p.0 p.1).incident_count) ps
      ∙ unfold build_plant_summary in
        omega (arith, incidents-append (all_assessments p.1) (everything ps))

  worst-of_worst :
      (ps : List (Plant N))
      → worst_tier (non_null (map (λ s. s.worst_tier) (summaries ps)))
        ≡ worst_tier (tiers_of (everything ps))
  worst-of_worst [] = refl
  worst-of_worst (p ∷ ps) =
      worst_tier-non_null (build_plant_summary p.0 p.1).worst_tier
        (map (λ s. s.worst_tier) (summaries ps))
      ∙ ap (pick? ltb_ℤ tier_rank (build_plant_summary p.0 p.1).worst_tier) (worst-of_worst ps)
      ∙ unfold build_plant_summary in
        (sym (worst_tier-append (tiers_of (all_assessments p.1)) (tiers_of (everything ps)))
          ∙ ap worst_tier
              (sym (map-append (λ a. tier_text a.tier) (all_assessments p.1) (everything ps))))

  zones-from :
      (n : ℕ) (ps : List (Plant N))
      → foldl (λ sum s. sum + s.zone_count) n (summaries ps) ≡ n + length (all_zones ps)
  zones-from n [] = omega arith
  zones-from n (p ∷ ps) =
      zones-from (n + (build_plant_summary p.0 p.1).zone_count) ps
      ∙ unfold build_plant_summary in omega (arith, length-append p.1.zone_ids (all_zones ps))

  -- The readiness, the worst tier and the number of incidents of the roll-up are those of the one
  -- plant that would have all the assessments; the roll-up counts the plants, and the zones of all
  -- their replays. Nothing is said of the average score, which is a mean of the plants' means.
  pub build_corporate_overview-everything :
      (ps : List (Plant N))
      → let overview = build_corporate_overview (summaries ps) in
        (overview.readiness ≡ plant_readiness (everything ps))
        × (overview.worst_tier ≡ worst_tier (tiers_of (everything ps)))
        × (overview.total_incidents ≡ length (filter is_escalation (everything ps)))
        × (overview.plant_count ≡ length ps)
        × (overview.total_zones ≡ length (all_zones ps))
  unfolding build_corporate_overview
  build_corporate_overview-everything [] =
      unfold plant_readiness worst_tier filter in (refl, refl, refl, refl, refl)
  build_corporate_overview-everything (p ∷ ps) = (
    readiness-from ready (p ∷ ps),
    worst-of_worst (p ∷ ps),
    incidents-from 0 (p ∷ ps) ∙ zero-add _,
    length-map (λ (q : Plant N). build_plant_summary q.0 q.1) (p ∷ ps),
    zones-from 0 (p ∷ ps) ∙ zero-add _,
  )
