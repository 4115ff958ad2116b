-- ===== src/Judge.antt =====
-- frontend/src/lib/judgeModePath.ts: the steps of the judge mode through the knowledge graph.
pub mod Player
pub mod Playing
use industrial_safety_intell.Prelude.{String, Bool, List, [], ◌∷◌, ◌++◌, Option, none, some, ◌&&◌}
use industrial_safety_intell.Prelude.Eq.{◌==◌, string_eq}
use industrial_safety_intell.Prelude.Lists.{find}
use industrial_safety_intell.Api.Graph.{
  GraphEntityKind, GraphEntity, GraphEdge, GraphNeighbor, kind_text,
}

-- `edge` is `none` for the assessment itself.
pub record JudgeModeStep (N : Type 0) : Type 0 where
  pub label : String
  pub entity : GraphEntity N
  pub edge : Option GraphEdge

module _ {N : Type 0} where
  abbrev pub joined_by : String → GraphEntityKind → GraphNeighbor N → Bool
  joined_by relation kind n =
      n.edge.relation == relation && kind_text n.entity.kind == kind_text kind

  -- `if (neighbor) steps.push(...)`
  abbrev pub neighbor_step : String → Option (GraphNeighbor N) → List (JudgeModeStep N)
  neighbor_step label none = []
  neighbor_step label (some n) =
      record { label = label; entity = n.entity; edge = some n.edge } ∷ []

  abbrev agent_steps : List (GraphNeighbor N) → Option (GraphNeighbor N) → List (JudgeModeStep N)
  agent_steps agent_neighbors none = []
  agent_steps agent_neighbors (some agent) =
      neighbor_step "Sensor evidence"
        (find (joined_by "evidence" GraphEntityKind.sensor) agent_neighbors)
      ++ neighbor_step "Contributing agent" (some agent)

  unfoldable pub build_judge_mode_steps :
      GraphEntity N → List (GraphNeighbor N) → List (GraphNeighbor N) → List (JudgeModeStep N)
  unfolding find kind_text
  build_judge_mode_steps assessment assessment_neighbors agent_neighbors =
      agent_steps agent_neighbors
        (find (joined_by "triggered" GraphEntityKind.triggered_agent) assessment_neighbors)
      ++ record { label = "Risk assessment"; entity = assessment; edge = none } ∷ []
      ++ neighbor_step "Historical match"
          (find (joined_by "matched" GraphEntityKind.historical_incident) assessment_neighbors)
      ++ neighbor_step "Forecast"
          (find (joined_by "projects_for" GraphEntityKind.forecast) assessment_neighbors)
      ++ neighbor_step "Recommendation"
          (find (joined_by "generated" GraphEntityKind.recommendation) assessment_neighbors)
