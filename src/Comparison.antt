-- ===== src/Comparison.antt =====
-- frontend/src/lib/decisionComparison.ts: the moment to compare, and why the two systems differ.
pub mod Choice
use industrial_safety_intell.Prelude.{
  String, Bool, true, false, List, [], ◌∷◌, Option, none, some, not, ◌&&◌, if◌then◌else◌,
}
use industrial_safety_intell.Prelude.Double.{Double}
use industrial_safety_intell.Prelude.Lists.{filter}
use industrial_safety_intell.Prelude.Select.{select?}
use industrial_safety_intell.Prelude.Text.{◌⧺◌}
use industrial_safety_intell.Api.Risk.{Tier, CompoundVerdict, CounterfactualVerdict, is_tier}
use industrial_safety_intell.Justification.{RiskJustification, fired}

pub record ComparisonMoment (N : Type 0) : Type 0 where
  pub zone_id : String
  pub timestamp : String
  pub compound : Option (CompoundVerdict N)
  pub counterfactual : CounterfactualVerdict N

-- A moment with the compound verdict that the type guard found in it.
abbrev pub Compared : Type 0 → Type 0
Compared N = ComparisonMoment N × CompoundVerdict N

module _ {N : Type 0} where
  abbrev pub put_compared :
      ComparisonMoment N → Option (CompoundVerdict N) → List (Compared N) → List (Compared N)
  put_compared m none rest = rest
  put_compared m (some c) rest = (m, c) ∷ rest

  -- `moments.filter((moment) => moment.compound !== null)`
  unfoldable pub with_compound : List (ComparisonMoment N) → List (Compared N)
  with_compound [] = []
  with_compound (m ∷ ms) = put_compared m m.compound (with_compound ms)

  -- `compound.tier !== "normal" && !counterfactual.alert`
  abbrev pub is_divergent : CompoundVerdict N → CounterfactualVerdict N → Bool
  is_divergent c v = not (is_tier c.tier Tier.normal) && not v.alert

  abbrev pub is_miss : Compared N → Bool
  is_miss (m, c) = is_divergent c m.counterfactual

  -- `misses.length > 0 ? misses : withCompound`
  abbrev pub pool_of : List (Compared N) → List (Compared N) → List (Compared N)
  pool_of [] candidates = candidates
  pool_of (m ∷ misses) candidates = m ∷ misses

  abbrev pub compared_score : Compared N → N
  compared_score (m, c) = c.compound_risk_score

module _ {N : Type 0} ⦃d : Double N⦄ where
  abbrev pub pick_compared : List (Compared N) → Option (Compared N)
  pick_compared candidates =
      select? d.lt compared_score (pool_of (filter is_miss candidates) candidates)

  abbrev pub moment_of : Option (Compared N) → Option (ComparisonMoment N)
  moment_of none = none
  moment_of (some (m, c)) = some m

  -- With no candidate the early return and the selection from an empty pool are one.
  unfoldable pub pick_comparison_moment : List (ComparisonMoment N) → Option (ComparisonMoment N)
  pick_comparison_moment moments = moment_of (pick_compared (with_compound moments))

  abbrev explain_ratio : Option N → String
  explain_ratio (some ratio) =
      "The naive baseline's highest sensor reading was still only "
      ⧺ d.to_fixed (d.mul ratio (d.of_ℕ 100)) 0
      ⧺ "% of its hard alarm threshold, so it stays clear. The compound engine's saturating risk curve, cross-agent fusion, and tiering hysteresis together already classify this as elevated - it doesn't need a sensor to cross 100% of one threshold to recognize danger."
  explain_ratio none =
      "The naive baseline has no sensor data to evaluate, so it defaults to clear by construction."

  abbrev explain_divergence : CounterfactualVerdict N → Option (RiskJustification N) → String
  explain_divergence v (some j) =
      if fired (some j) "interaction_bonus_applied"
      then "Fusion multiplied the base risk by a "
        ⧺ d.to_fixed j.interaction_bonus_applied 2
        ⧺ "x interaction bonus - multiple independent risk factors (e.g. a live permit alongside a rising sensor reading) are active at once, something a single-sensor threshold has no concept of."
      else explain_ratio v.highest_ratio
  explain_divergence v none = explain_ratio v.highest_ratio

  unfoldable pub explain_comparison :
      Option (CompoundVerdict N) → CounterfactualVerdict N → Option (RiskJustification N) → String
  explain_comparison none v j = "No persisted compound assessment exists for this exact tick."
  explain_comparison (some c) v j =
      if is_divergent c v
      then explain_divergence v j
      else "Both systems agree at this tick - no divergence to explain."
