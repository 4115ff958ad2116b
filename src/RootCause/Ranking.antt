-- ===== src/RootCause/Ranking.antt =====
-- `rankContributingFactors` of frontend/src/lib/rootCause.ts.
use mathlib.Core.List.{Perm}
use industrial_safety_intell.Prelude.{String, List, [], ◌∷◌, some, map, false, ◌≡◌}
use industrial_safety_intell.Prelude.Lists.{All}
use industrial_safety_intell.Prelude.Double.{Double, IsOrdered}
use industrial_safety_intell.Prelude.Sort.{sort, sort-perm, sort-IsSorted, IsSorted}
use industrial_safety_intell.Justification.{AgentContribution, RiskJustification}
use industrial_safety_intell.RootCause.{
  RankedFactor, ranked_factor, ranks_after, rank_contributing_factors,
}

-- No factor stands behind one of smaller risk.
abbrev pub FallsInRisk : {N : Type 0} ⦃d : Double N⦄ → List (RankedFactor N) → Type 0
FallsInRisk [] = Unit
FallsInRisk ⦃d⦄ (f ∷ rest) = All (λ g. d.lt f.risk g.risk ≡ false) rest × FallsInRisk rest

module _ {N : Type 0} ⦃d : Double N⦄ (agent_display_name : String → String) where
  FallsInRisk-IsSorted :
      (fs : List (RankedFactor N)) → IsSorted (ranks_after agent_display_name) fs → FallsInRisk fs
  FallsInRisk-IsSorted [] s = tt
  FallsInRisk-IsSorted (f ∷ rest) s = (s.0, FallsInRisk-IsSorted rest s.1)

  -- The factor that an agent's contribution gives.
  abbrev pub factor_of : String × AgentContribution N → RankedFactor N
  factor_of c = record {
    agent_name = c.0;
    display_name = agent_display_name c.0;
    risk = c.1.risk;
    confidence = c.1.confidence;
  }

  -- The ranked factors of a justification are its contributions, each once with its agent, risk and
  -- confidence, and no factor stands behind one of smaller risk.
  pub rank_contributing_factors-ranked :
      (j : RiskJustification N)
      → IsOrdered d
      → Perm
          (rank_contributing_factors agent_display_name (some j))
          (map factor_of j.agent_contributions)
        × FallsInRisk (rank_contributing_factors agent_display_name (some j))
  unfolding rank_contributing_factors
  rank_contributing_factors-ranked j laws =
      let factors = map (ranked_factor agent_display_name) j.agent_contributions in
      (
        sort-perm (ranks_after agent_display_name) factors,
        FallsInRisk-IsSorted (sort (ranks_after agent_display_name) factors) (
            sort-IsSorted (ranks_after agent_display_name) (λ a b h. laws.lt_asym a.risk b.risk h)
              (λ a b c h k. laws.not_lt_trans a.risk b.risk c.risk h k) factors),
      )
