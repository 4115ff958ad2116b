-- ===== src/RootCause.antt =====
-- frontend/src/lib/rootCause.ts: the agents of a tick by their contribution.
pub mod Ranking
use Prim.Native.Char.{Char}
use industrial_safety_intell.Prelude.{String, Bool, List, [], ◌∷◌, Option, none, some, map}
use industrial_safety_intell.Prelude.Eq.{includes, string_eq}
use industrial_safety_intell.Prelude.Double.{Double}
use industrial_safety_intell.Prelude.Sort.{sort}
use industrial_safety_intell.Justification.{AgentContribution, RiskJustification, fired}

pub record RankedFactor (N : Type 0) : Type 0 where
  pub agent_name : String
  pub display_name : String
  pub risk : N
  pub confidence : N

-- `agentDisplayName` is cosmetic, and its text functions are a parameter.
module _ {N : Type 0} ⦃d : Double N⦄ (agent_display_name : String → String) where
  abbrev pub ranked_factor : String × AgentContribution N → RankedFactor N
  ranked_factor (agent, c) = record {
    agent_name = agent;
    display_name = agent_display_name agent;
    risk = c.risk;
    confidence = c.confidence;
  }

  -- `(a, b) => b.risk - a.risk` puts `a` behind `b` where its risk is the smaller one
  abbrev pub ranks_after : RankedFactor N → RankedFactor N → Bool
  ranks_after a b = d.lt a.risk b.risk

  unfoldable pub rank_contributing_factors : Option (RiskJustification N) → List (RankedFactor N)
  unfolding sort
  rank_contributing_factors none = []
  rank_contributing_factors (some j) = sort ranks_after (map ranked_factor j.agent_contributions)

unfoldable pub is_ignored_by_threshold_engine : String → Bool
unfolding includes
is_ignored_by_threshold_engine =
    includes ("worker_exposure" ∷ "equipment_status" ∷ "permit_intelligence" ∷ [])

unfoldable pub has_interaction_bonus : {N : Type 0} → Option (RiskJustification N) → Bool
unfolding fired
has_interaction_bonus justification = fired justification "interaction_bonus_applied"
