-- ===== src/Actions.antt =====
-- frontend/src/lib/actionPlaybook.ts: the queue of prioritised actions.
pub mod Playbook
pub mod Queue
use Prim.Native.Nat.{min, suc}
use industrial_safety_intell.Prelude.{
  ℕ, String, Bool, List, [], ◌∷◌, Option, none, some, map, ◌+◌, ◌-◌, or_else, if◌then◌else◌,
}
use industrial_safety_intell.Prelude.Eq.{◌==◌, string_eq, includes}
use industrial_safety_intell.Prelude.Lists.{get_elem?, take, filter, length}
use industrial_safety_intell.Prelude.Double.{Double}
use industrial_safety_intell.Justification.{RiskJustification}
use industrial_safety_intell.Recommendations.{Recommendation}
use industrial_safety_intell.RootCause.{rank_contributing_factors, has_interaction_bonus}
use industrial_safety_intell.Actions.Playbook.{
  ImpactLevel, ActionPlaybookEntry, impact_order, impact_index, get_action_metadata,
}

unfoldable pub escalate : ImpactLevel → ImpactLevel
escalate level =
    or_else (get_elem? impact_order (min (impact_index level + 1) (length impact_order - 1))) level

pub record PrioritizedAction : Type 0 where
  pub recommendation : Recommendation
  pub open recommendation use *
  pub priority : ℕ
  pub metadata : ActionPlaybookEntry
  pub impact_level : ImpactLevel
  pub dependency_labels : List String

module _ {N : Type 0} ⦃d : Double N⦄ (agent_display_name : String → String) where
  -- the names of the two highest-ranked factors
  abbrev pub top_two : Option (RiskJustification N) → List String
  top_two o = map (λ f. f.agent_name) (take 2 (rank_contributing_factors agent_display_name o))

  unfoldable pub compute_impact_level :
      ActionPlaybookEntry → Option (RiskJustification N) → ImpactLevel
  compute_impact_level entry justification =
      if has_interaction_bonus justification
      then if entry.targeted_factor == "interaction_bonus"
        then escalate entry.base_impact
        else if includes (top_two justification) entry.targeted_factor
        then escalate entry.base_impact
        else entry.base_impact
      else entry.base_impact

  abbrev pub prioritize :
      List String → Option (RiskJustification N) → ℕ → Recommendation → PrioritizedAction
  prioritize present justification index r =
      let metadata = get_action_metadata r.id in
      record {
        recommendation = r;
        priority = index + 1;
        metadata = metadata;
        impact_level = compute_impact_level metadata justification;
        dependency_labels = filter (includes present) metadata.depends_on;
      }

  -- The callback of `recommendations.map`, from the position `index` on.
  unfoldable pub prioritize_from :
      List String → Option (RiskJustification N) → ℕ → List Recommendation → List PrioritizedAction
  prioritize_from present justification index [] = []
  prioritize_from present justification index (r ∷ rs) =
      prioritize present justification index r
      ∷ prioritize_from present justification (suc index) rs

  unfoldable pub build_action_queue :
      List Recommendation → Option (RiskJustification N) → List PrioritizedAction
  unfolding prioritize_from compute_impact_level filter includes escalate has_interaction_bonus
      get_action_metadata rank_contributing_factors
  build_action_queue recommendations justification =
      prioritize_from (map (λ r. r.id) recommendations) justification 0 recommendations
