-- ===== src/Tests/Decisions.antt =====
-- Runs on one decision: its justification, recommendations, ranking, stages, actions, confidence,
-- stability, comparison and changes.
use industrial_safety_intell.Prelude.{
  ◌+◌, ◌≤◌, true, [], ◌∷◌, ◌++◌, some, map, Memᴰ, ◌≡◌, ◌⊎◌, ◌↔◌, refl,
}
use mathlib.Core.List.{Perm}
use industrial_safety_intell.Prelude.Double.{int_double, int_double-IsOrdered}
use industrial_safety_intell.Prelude.Eq.{dedup_from, string_eq}
use industrial_safety_intell.Prelude.Int.{pos}
use industrial_safety_intell.Prelude.Lists.{filter}
use industrial_safety_intell.Prelude.Select.{select?}
use industrial_safety_intell.Api.Risk.{Tier}
use industrial_safety_intell.Justification.{parse_justification}
use industrial_safety_intell.Justification.Parsing.{row_of, IsRowOf, parse_justification_iff}
use industrial_safety_intell.Recommendations.{derive_recommendations, baseline_list, tier_baseline}
use industrial_safety_intell.Recommendations.Derived.{recognised, derive_recommendations-recognised}
use industrial_safety_intell.RootCause.{rank_contributing_factors, has_interaction_bonus}
use industrial_safety_intell.RootCause.Ranking.{
  factor_of, FallsInRisk, rank_contributing_factors-ranked,
}
use industrial_safety_intell.Stages.{pipeline_stage_order, group_rules_by_stage}
use industrial_safety_intell.Stages.Grouping.{groups, group_rules_by_stage-groups}
use industrial_safety_intell.Actions.{top_two, compute_impact_level}
use industrial_safety_intell.Actions.Playbook.{impact_index, get_action_metadata}
use industrial_safety_intell.Actions.Queue.{compute_impact_level_bounds}
use industrial_safety_intell.Stability.{reversals_of}
use industrial_safety_intell.Stability.Reversals.{changes, moves, reversals_of-changes}
use industrial_safety_intell.Comparison.{pick_comparison_moment, with_compound}
use industrial_safety_intell.Comparison.Choice.{IsChosen, pick_comparison_moment-IsChosen}
use industrial_safety_intell.Tests.Data.{alarm, moment}

parse_justification_iff_example :
    (parse_justification (row_of alarm) ≡ some alarm) ↔ IsRowOf (row_of alarm) alarm
parse_justification_iff_example = parse_justification_iff (row_of alarm) alarm

derive_recommendations-recognised_example :
    derive_recommendations Tier.critical (some alarm)
    ≡ baseline_list (tier_baseline Tier.critical) ++ recognised (dedup_from [] alarm.rules_fired)
derive_recommendations-recognised_example = derive_recommendations-recognised Tier.critical alarm

rank_contributing_factors-ranked_example :
    Perm
      (rank_contributing_factors ⦃d = int_double⦄ (λ s. s) (some alarm))
      (map (factor_of ⦃d = int_double⦄ (λ s. s)) alarm.agent_contributions)
    × FallsInRisk ⦃d = int_double⦄
        (rank_contributing_factors ⦃d = int_double⦄ (λ s. s) (some alarm))
rank_contributing_factors-ranked_example =
    rank_contributing_factors-ranked ⦃d = int_double⦄ (λ s. s) alarm int_double-IsOrdered

group_rules_by_stage-groups_example :
    group_rules_by_stage alarm.rules_fired ≡ groups pipeline_stage_order alarm.rules_fired
group_rules_by_stage-groups_example = group_rules_by_stage-groups alarm.rules_fired

compute_impact_level_bounds_example :
    let entry = get_action_metadata "tier_elevated" in
    let level = compute_impact_level ⦃d = int_double⦄ (λ s. s) entry (some alarm) in
    (impact_index entry.base_impact ≤ impact_index level)
    × (impact_index level ≤ impact_index entry.base_impact + 1)
    × ((level ≡ entry.base_impact)
        ⊎ ((has_interaction_bonus (some alarm) ≡ true)
            × ((entry.targeted_factor ≡ "interaction_bonus")
                ⊎ Memᴰ entry.targeted_factor (top_two ⦃d = int_double⦄ (λ s. s) (some alarm)))))
compute_impact_level_bounds_example =
    compute_impact_level_bounds ⦃d = int_double⦄ (λ s. s) (get_action_metadata "tier_elevated")
      (some alarm)

reversals_of-changes_example :
    reversals_of (pos 0 ∷ pos 3 ∷ pos 1 ∷ pos 2 ∷ [])
    ≡ changes (moves (pos 0 ∷ pos 3 ∷ pos 1 ∷ pos 2 ∷ []))
reversals_of-changes_example = reversals_of-changes (pos 0 ∷ pos 3 ∷ pos 1 ∷ pos 2 ∷ [])

picked_moment :
    pick_comparison_moment ⦃d = int_double⦄
      (moment "10:00" (pos 95) Tier.normal ∷ moment "10:05" (pos 70) Tier.elevated ∷ [])
    ≡ some (moment "10:05" (pos 70) Tier.elevated)
unfolding pick_comparison_moment with_compound select? filter
picked_moment = refl

pick_comparison_moment-IsChosen_example :
    IsChosen ⦃d = int_double⦄
      (moment "10:00" (pos 95) Tier.normal ∷ moment "10:05" (pos 70) Tier.elevated ∷ [])
      (moment "10:05" (pos 70) Tier.elevated)
pick_comparison_moment-IsChosen_example =
    pick_comparison_moment-IsChosen ⦃d = int_double⦄
      (moment "10:00" (pos 95) Tier.normal ∷ moment "10:05" (pos 70) Tier.elevated ∷ [])
      (moment "10:05" (pos 70) Tier.elevated) int_double-IsOrdered picked_moment
