-- ===== src/Insights.antt =====
-- frontend/src/lib/foresightExplanation.ts and frontend/src/lib/historicalExplanation.ts: the lines for
-- a forecast and for the incidents that a moment resembles.
use industrial_safety_intell.Prelude.{
  ℕ, ◌+◌, String, Bool, List, [], ◌∷◌, ◌++◌, Option, none, some, map, is_some, not, ◌&&◌,
  if◌then◌else◌,
}
use industrial_safety_intell.Prelude.Decimal.{decimal}
use industrial_safety_intell.Prelude.Double.{Double}
use industrial_safety_intell.Prelude.Eq.{◌==◌, string_eq, nat_eq, dedup_from}
use industrial_safety_intell.Prelude.Lists.{length, find, take}
use industrial_safety_intell.Prelude.Text.{◌⧺◌, join}
use industrial_safety_intell.Api.Risk.{Tier, is_tier, tier_text, tier_upper}
use industrial_safety_intell.Api.Insight.{
  ForesightResult, ForecastPoint, IncidentMatch, IncidentProgression, HistoricalLesson,
}

abbrev trajectories : ℕ → String
trajectories n = if n == 1 then "y" else "ies"

-- `tier === "normal"`
abbrev is_normal : Option Tier → Bool
is_normal none = Bool.false
is_normal (some t) = is_tier t Tier.normal

abbrev lesson_lines : List HistoricalLesson → List String
lesson_lines [] = []
lesson_lines (l ∷ rest) = ("In that incident: " ⧺ l.lesson) ∷ []

abbrev feature_lines : List String → List String → List String
feature_lines [] differing = []
feature_lines (f ∷ fs) differing =
    let matching = f ∷ fs in
    ("Matches on "
      ⧺ decimal (length matching)
      ⧺ " of "
      ⧺ decimal (length matching + length differing)
      ⧺ " compared features, including "
      ⧺ join ", " (take 3 matching)
      ⧺ ".")
    ∷ []

module _ {N : Type 0} ⦃d : Double N⦄ where
  abbrev is_available : ForecastPoint N → Bool
  is_available point = is_some point.projected_risk && is_some point.projected_tier

  abbrev direction : N → String
  direction delta =
      if d.lt (d.of_ℕ 0) delta
      then "increased"
      else if d.lt delta (d.of_ℕ 0)
      then "decreased"
      else "held steady"

  -- Nothing for a delta of 0.
  abbrev by_points : N → String
  by_points delta =
      if not (d.lt (d.of_ℕ 0) delta) && not (d.lt delta (d.of_ℕ 0))
      then ""
      else " by " ⧺ d.to_fixed (d.abs delta) 0 ⧺ " points"

  abbrev outlook : ℕ → N → N → N → Tier → String
  outlook match_count current horizon risk tier =
      let delta = d.sub risk current in
      "Based on "
      ⧺ decimal match_count
      ⧺ " similar historical trajector"
      ⧺ trajectories match_count
      ⧺ ", risk typically "
      ⧺ direction delta
      ⧺ by_points delta
      ⧺ " within the next "
      ⧺ d.to_string horizon
      ⧺ " minutes, reaching "
      ⧺ tier_upper tier
      ⧺ "."

  abbrev outlook_of : ℕ → N → N → Option N → Option Tier → List String
  outlook_of match_count current horizon (some risk) (some tier) =
      outlook match_count current horizon risk tier ∷ []
  outlook_of match_count current horizon _ _ = []

  abbrev outlook_lines : ℕ → N → Option (ForecastPoint N) → List String
  outlook_lines match_count current none = []
  outlook_lines match_count current (some p) =
      outlook_of match_count current p.horizon_minutes p.projected_risk p.projected_tier

  abbrev next_stage_lines : IncidentProgression N → List String
  next_stage_lines p =
      if is_some p.likely_next_stage.tier
      then ("Historically, " ⧺ p.current_stage.label ⧺ " most often leads to "
          ⧺ p.likely_next_stage.label ⧺ " next.")
        ∷ []
      else []

  abbrev resolution_lines : IncidentProgression N → List String
  resolution_lines p =
      if is_normal p.expected_resolution.tier then p.expected_resolution.evidence ∷ [] else []

  unfoldable pub foresight_executive_insights : ForesightResult N → List String
  unfolding find decimal
  foresight_executive_insights result =
      let match_count = length result.matches in
      if match_count == 0
      then "No similar historical trajectories were found to forecast from yet." ∷ []
      else outlook_lines match_count result.current_risk_score (find is_available result.forecast)
        ++ result.early_warning.why ∷ []
        ++ next_stage_lines result.progression
        ++ resolution_lines result.progression

  abbrev resembles : IncidentMatch N → String
  resembles top =
      "This assessment closely resembles "
      ⧺ top.incident_name
      ⧺ " ("
      ⧺ d.to_fixed (d.mul top.similarity (d.of_ℕ 100)) 0
      ⧺ "% similarity, "
      ⧺ tier_upper top.outcome_tier
      ⧺ " outcome)."

  -- The incidents after the first one; `upper_case` is `toUpperCase`. With one of them there is an
  -- outcome.
  abbrev other_lines : (String → String) → List (IncidentMatch N) → List String
  other_lines upper_case [] = []
  other_lines upper_case (m ∷ ms) =
      let others = m ∷ ms in
      (decimal (length others)
        ⧺ " other similar incident"
        ⧺ (if length others == 1 then "" else "s")
        ⧺ " on record, reaching "
        ⧺ upper_case (join ", " (dedup_from [] (map (λ o. tier_text o.outcome_tier) others)))
        ⧺ ".")
      ∷ []

  unfoldable pub historical_executive_insights :
      (String → String) → List (IncidentMatch N) → List String
  unfolding decimal dedup_from
  historical_executive_insights upper_case [] = []
  historical_executive_insights upper_case (top ∷ others) =
      resembles top ∷ []
      ++ lesson_lines top.lessons_learned
      ++ feature_lines top.matching_features top.differing_features
      ++ other_lines upper_case others
