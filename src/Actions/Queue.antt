-- ===== src/Actions/Queue.antt =====
-- `computeImpactLevel` and `buildActionQueue` of frontend/src/lib/actionPlaybook.ts.
use Prim.Native.Nat.{suc, zero}
use text.Mathlib.TextEquality.{eq_iff}
use native.Mathlib.Nat.{add-zero, zero-add}
use mathlib.Core.Option
use industrial_safety_intell.Prelude.{
  ℕ, String, true, List, [], ◌∷◌, Option, map, ◌+◌, ◌≤◌, ◌≡◌, ◌⊎◌, refl, ◌∙◌, ap, arith, Memᴰ,
}
use industrial_safety_intell.Prelude.Eq.{string_eq, includes, includes-Memᴰ}
use industrial_safety_intell.Prelude.Lists.{All, All-imp, get_elem?, filter-All}
use industrial_safety_intell.Prelude.Double.{Double}
use industrial_safety_intell.Justification.{RiskJustification}
use industrial_safety_intell.Recommendations.{Recommendation}
use industrial_safety_intell.RootCause.{has_interaction_bonus}
use industrial_safety_intell.Actions.{
  escalate, top_two, compute_impact_level, prioritize_from, build_action_queue, prioritize,
}
use industrial_safety_intell.Actions.Playbook.{
  ImpactLevel, ActionPlaybookEntry, impact_index, get_action_metadata,
}

escalate_index :
    (l : ImpactLevel)
    → (impact_index l ≤ impact_index (escalate l))
      × (impact_index (escalate l) ≤ impact_index l + 1)
unfolding escalate
escalate_index ImpactLevel.low = omega arith
escalate_index _ = omega arith

module _ {N : Type 0} ⦃d : Double N⦄ (agent_display_name : String → String) where
  -- The urgency of an action is its base impact or one rung above it; it is above only if the
  -- interaction bonus was applied and the action's factor is the bonus or one of the top two agents.
  pub compute_impact_level_bounds :
      (entry : ActionPlaybookEntry) (o : Option (RiskJustification N))
      → let level = compute_impact_level agent_display_name entry o in
        (impact_index entry.base_impact ≤ impact_index level)
        × (impact_index level ≤ impact_index entry.base_impact + 1)
        × ((level ≡ entry.base_impact)
            ⊎ ((has_interaction_bonus o ≡ true)
                × ((entry.targeted_factor ≡ "interaction_bonus")
                    ⊎ Memᴰ entry.targeted_factor (top_two agent_display_name o))))
  unfolding compute_impact_level
  compute_impact_level_bounds entry o = ground (
    arith,
    escalate_index entry.base_impact,
    eq_iff entry.targeted_factor "interaction_bonus",
    includes-Memᴰ (top_two agent_display_name o) entry.targeted_factor,
  )

  module _ (present : List String) (o : Option (RiskJustification N)) where
    prioritize_from-get_elem? :
        (start : ℕ) (rs : List Recommendation) (i : ℕ)
        → get_elem? (prioritize_from agent_display_name present o start rs) i
          ≡ Option.map (prioritize agent_display_name present o (start + i)) (get_elem? rs i)
    unfolding prioritize_from
    prioritize_from-get_elem? start [] i = refl
    prioritize_from-get_elem? start (r ∷ rs) zero = rw add-zero
    prioritize_from-get_elem? start (r ∷ rs) (suc i) =
        let shift : suc start + i ≡ start + suc i = omega arith in
        prioritize_from-get_elem? (suc start) rs i
        ∙ ap (λ k. Option.map (prioritize agent_display_name present o k) (get_elem? rs i)) shift

    prioritize_from-labels :
        (start : ℕ) (rs : List Recommendation)
        → All
            (λ a. All (λ label. includes present label ≡ true) a.dependency_labels)
            (prioritize_from agent_display_name present o start rs)
    unfolding prioritize_from
    prioritize_from-labels start [] = tt
    prioritize_from-labels start (r ∷ rs) = (
      filter-All (includes present) (get_action_metadata r.id).depends_on,
      prioritize_from-labels (suc start) rs,
    )

  -- The action at each position is the recommendation of that position, with its rank counted from
  -- one, its playbook entry, and the urgency of that entry on this tick; there is none further on.
  pub build_action_queue-get_elem? :
      (rs : List Recommendation) (o : Option (RiskJustification N)) (i : ℕ)
      → get_elem? (build_action_queue agent_display_name rs o) i
        ≡ Option.map (prioritize agent_display_name (map (λ r. r.id) rs) o i) (get_elem? rs i)
  unfolding build_action_queue
  build_action_queue-get_elem? rs o i =
      rw zero-add at (prioritize_from-get_elem? (map (λ r. r.id) rs) o 0 rs i)

  -- Every dependency that the queue shows is the id of an action in the queue.
  pub build_action_queue-labels :
      (rs : List Recommendation) (o : Option (RiskJustification N))
      → All
          (λ a. All (λ label. Memᴰ label (map (λ r. r.id) rs)) a.dependency_labels)
          (build_action_queue agent_display_name rs o)
  unfolding build_action_queue
  build_action_queue-labels rs o =
      All-imp _ _ (build_action_queue agent_display_name rs o)
        (λ a h. All-imp _ _ a.dependency_labels (λ l. includes-Memᴰ (map (λ r. r.id) rs) l) h)
        (prioritize_from-labels (map (λ r. r.id) rs) o 0 rs)
