-- ===== src/Trail.antt =====
-- frontend/src/components/graph/RootCauseNavigator.tsx: a drill-down through the neighbours of an entity.
use industrial_safety_intell.Prelude.{ℕ, suc, String, List, [], ◌∷◌, ◌++◌, or_else}
use industrial_safety_intell.Prelude.Dict.{get, set}
use industrial_safety_intell.Prelude.Eq.{string_eq}
use industrial_safety_intell.Prelude.Lists.{take}
use industrial_safety_intell.Api.Graph.{GraphEntity, GraphNeighbor}

-- `Map<string, GraphNeighbor[]>`
abbrev pub Groups : Type 0 → Type 0
Groups N = List (String × List (GraphNeighbor N))

module _ {N : Type 0} where
  unfoldable pub group_from : Groups N → List (GraphNeighbor N) → Groups N
  unfolding get set
  group_from groups [] = groups
  group_from groups (n ∷ rest) =
      group_from (set n.edge.relation (or_else (get n.edge.relation groups) [] ++ n ∷ []) groups)
        rest

  unfoldable pub group_by_relation : List (GraphNeighbor N) → Groups N
  unfolding group_from
  group_by_relation neighbors = group_from [] neighbors

  -- The trail, from the start to the focused entity.
  abbrev pub start_trail : GraphEntity N → List (GraphEntity N)
  start_trail start = start ∷ []

  unfoldable pub drill_into : List (GraphEntity N) → GraphEntity N → List (GraphEntity N)
  drill_into trail entity = trail ++ entity ∷ []

  unfoldable pub jump_to : List (GraphEntity N) → ℕ → List (GraphEntity N)
  jump_to trail index = take (suc index) trail
