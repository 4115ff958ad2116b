-- ===== src/Stability.antt =====
-- frontend/src/lib/decisionStability.ts: how steady the top recommendation and the tier were.
pub mod Unchanged
pub mod Reversals
use Prim.Native.Nat.{suc}
use mathlib.Core.List.{reverse}
use industrial_safety_intell.Prelude.{
  ℕ, String, Bool, true, false, List, [], ◌∷◌, Option, none, some, map, ltb, leb, ◌+◌, ◌&&◌, ◌||◌,
  if◌then◌else◌,
}
use industrial_safety_intell.Prelude.Decimal.{decimal}
use industrial_safety_intell.Prelude.Double.{Double}
use industrial_safety_intell.Prelude.Eq.{Eq, ◌==◌, string_eq}
use industrial_safety_intell.Prelude.Int.{ℤ, pos, negsuc, ◌-ℤ◌, ltb_ℤ}
use industrial_safety_intell.Prelude.Lists.{find}
use industrial_safety_intell.Prelude.Text.{◌⧺◌}
use industrial_safety_intell.Api.Risk.{Tier, RiskAssessment, tier_text}
use industrial_safety_intell.Justification.{parse_justification}
use industrial_safety_intell.Recommendations.{Recommendation, derive_recommendations}
use industrial_safety_intell.Tier.{tier_rank}
use industrial_safety_intell.Confidence.{ConfidenceFactor, percentage, categorical, unavailable}
use industrial_safety_intell.Confidence.Factors.{label_of}

-- `recommendations[0]?.id ?? null`
abbrev pub first_id : List Recommendation → Option String
first_id [] = none
first_id (r ∷ rs) = some r.id

-- `a === b` on ids that may be null
abbrev pub same_id : Option String → Option String → Bool
same_id none none = true
same_id (some a) (some b) = a == b
same_id _ _ = false

module _ {N : Type 0} where
  unfoldable pub top_recommendation_id : RiskAssessment N → Option String
  top_recommendation_id a =
      first_id (derive_recommendations a.tier (parse_justification a.justification))

  -- The loop with its `break`, from the count so far.
  unfoldable pub count_while : Option String → ℕ → List (RiskAssessment N) → ℕ
  count_while latest_id count [] = count
  count_while latest_id count (a ∷ rest) =
      let more = count_while latest_id (suc count) rest in
      if same_id (top_recommendation_id a) latest_id then more else count

  unfoldable pub count_unchanged_recommendation_ticks : List (RiskAssessment N) → ℕ
  unfolding count_while
  count_unchanged_recommendation_ticks [] = 0
  count_unchanged_recommendation_ticks (a ∷ rest) =
      count_while (top_recommendation_id a) 0 (a ∷ rest)

-- `diff > 0 ? 1 : diff < 0 ? -1 : 0`
unfoldable pub direction_of : ℤ → ℤ
direction_of diff =
    if ltb_ℤ (pos 0) diff then pos 1 else if ltb_ℤ diff (pos 0) then negsuc 0 else pos 0

-- `a !== b`
abbrev pub differ : ℤ → ℤ → Bool
differ a b = ltb_ℤ a b || ltb_ℤ b a

abbrev pub count_if : Bool → ℕ → ℕ
count_if true n = suc n
count_if false n = n

-- The loop of `detectOscillation`, with the rank before: reversals and last direction so far.
unfoldable pub count_reversals : ℕ → ℤ → ℤ → List ℤ → ℕ
count_reversals reversals last_direction previous [] = reversals
count_reversals reversals last_direction previous (rank ∷ ranks) =
    let direction = direction_of (rank -ℤ previous) in
    let turned = differ last_direction (pos 0) && differ direction last_direction in
    let moved = differ direction (pos 0) in
    count_reversals (count_if (moved && turned) reversals)
      (if moved then direction else last_direction) rank ranks

unfoldable pub reversals_of : List ℤ → ℕ
unfolding count_reversals
reversals_of [] = 0
reversals_of (rank ∷ ranks) = count_reversals 0 (pos 0) rank ranks

pub record Oscillation : Type 0 where
  pub detected : Bool
  pub reversals : ℕ

-- The ranks of the ticks, the oldest one first.
abbrev pub ascending_ranks : {N : Type 0} → List (RiskAssessment N) → List ℤ
ascending_ranks newest_first = map (λ a. tier_rank (tier_text a.tier)) (reverse newest_first)

unfoldable pub detect_oscillation : {N : Type 0} → List (RiskAssessment N) → Oscillation
unfolding reversals_of direction_of ◌-ℤ◌
detect_oscillation newest_first =
    let reversals = reversals_of (ascending_ranks newest_first) in
    record { detected = leb 2 reversals; reversals = reversals }

module _ {N : Type 0} where
  unfoldable pub find_factor : List (ConfidenceFactor N) → String → Option (ConfidenceFactor N)
  unfolding find
  find_factor factors label = find (λ f. label_of f == label) factors

module _ {N : Type 0} ⦃d : Double N⦄ where
  unfoldable pub describe_factor : Option (ConfidenceFactor N) → String
  describe_factor none = "unavailable"
  describe_factor (some (percentage label value source)) =
      d.to_fixed (d.mul value (d.of_ℕ 100)) 0 ⧺ "%"
  describe_factor (some (categorical label category source)) = category
  describe_factor (some (unavailable label reason)) = "unavailable"

pub record RecommendationStability (N : Type 0) : Type 0 where
  pub unchanged_for_ticks : ℕ
  pub oscillation_detected : Bool
  pub oscillation_reversals : ℕ
  pub historical_agreement : Option (ConfidenceFactor N)
  pub forecast_agreement : Option (ConfidenceFactor N)
  pub reason : String

module _ {N : Type 0} ⦃d : Double N⦄ where
  abbrev steady_reason :
      ℕ → Option (ConfidenceFactor N) → Option (ConfidenceFactor N) → Bool → String
  steady_reason ticks historical forecast detected =
      "The tier and top recommendation have held steady for "
      ⧺ decimal ticks
      ⧺ " consecutive ticks, with "
      ⧺ describe_factor historical
      ⧺ " historical agreement and "
      ⧺ describe_factor forecast
      ⧺ " forecast agreement over that window"
      ⧺ (if detected then ", despite some back-and-forth in severity" else " and no oscillation")
      ⧺ "."

  unfoldable pub build_recommendation_stability :
      List (RiskAssessment N) → List (ConfidenceFactor N) → RecommendationStability N
  build_recommendation_stability newest_first factors =
      let unchanged = count_unchanged_recommendation_ticks newest_first in
      let oscillation = detect_oscillation newest_first in
      let historical = find_factor factors "Historical Agreement" in
      let forecast = find_factor factors "Forecast Agreement" in
      record {
        unchanged_for_ticks = unchanged;
        oscillation_detected = oscillation.detected;
        oscillation_reversals = oscillation.reversals;
        historical_agreement = historical;
        forecast_agreement = forecast;
        reason =
            if ltb 1 unchanged
            then steady_reason unchanged historical forecast oscillation.detected
            else "This is the first tick at this recommendation - no stability history yet.";
      }
