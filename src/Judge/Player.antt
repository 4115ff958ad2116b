-- ===== src/Judge/Player.antt =====
-- frontend/src/components/graph/JudgeModePlayer.tsx: the playback of the judge mode's steps.
use industrial_safety_intell.Prelude.{
  ℕ, suc, ◌+◌, ◌-◌, String, Bool, true, false, List, [], ◌∷◌, Option, none, some, not, leb, ◌&&◌,
  if◌then◌else◌,
}
use industrial_safety_intell.Prelude.Eq.{string_eq, dedup_from}
use industrial_safety_intell.Prelude.Lists.{length, get_elem?, take}
use industrial_safety_intell.Api.Graph.{GraphEntity, GraphEdge, GraphNeighbor}
use industrial_safety_intell.Judge.{JudgeModeStep, build_judge_mode_steps}
use industrial_safety_intell.Layout.{edge_key}

-- STEP_INTERVAL_MS
abbrev pub step_interval_ms : ℕ
step_interval_ms = 2200

pub record Player : Type 0 where
  pub step_index : ℕ
  pub is_playing : Bool

-- The buttons, the timer, a click on a step, and an assessment other than before.
pub data PlayerEvent : Type 0 where
  previous toggle_play next timer other_assessment : PlayerEvent
  pick : ℕ → PlayerEvent

abbrev put_edge : Option GraphEdge → List String → List String
put_edge none keys = keys
put_edge (some e) keys = edge_key e ∷ keys

module _ {N : Type 0} where
  abbrev neighbors_or_none : Option (List (GraphNeighbor N)) → List (GraphNeighbor N)
  neighbors_or_none none = []
  neighbors_or_none (some ns) = ns

  -- The steps, for the two queries' data so far.
  unfoldable pub player_steps :
      GraphEntity N
      → Option (List (GraphNeighbor N))
      → Option (List (GraphNeighbor N))
      → List (JudgeModeStep N)
  unfolding build_judge_mode_steps
  player_steps assessment none agent_neighbors = []
  player_steps assessment (some neighbors) agent_neighbors =
      build_judge_mode_steps assessment neighbors (neighbors_or_none agent_neighbors)

  -- `stepIndex >= steps.length - 1`, which holds for no steps
  abbrev pub is_at_end : List (JudgeModeStep N) → ℕ → Bool
  is_at_end steps index = leb (length steps) (suc index)

  abbrev pub has_steps : List (JudgeModeStep N) → Bool
  has_steps [] = false
  has_steps (s ∷ rest) = true

  -- The effect of the playback, but for its timer.
  unfoldable pub stop_at_end : List (JudgeModeStep N) → Player → Player
  stop_at_end steps p =
      if p.is_playing && has_steps steps && is_at_end steps p.step_index
      then record p { is_playing = false }
      else p

  -- A button that is disabled does nothing; the timer is set while the playback is on and before the
  -- end.
  abbrev pub react : List (JudgeModeStep N) → PlayerEvent → Player → Player
  react steps previous p = record p { step_index = p.step_index - 1 }
  react steps toggle_play p =
      if is_at_end steps p.step_index then p else record p { is_playing = not p.is_playing }
  react steps next p =
      if is_at_end steps p.step_index then p else record p { step_index = suc p.step_index }
  react steps timer p =
      if p.is_playing && not (is_at_end steps p.step_index)
      then record p { step_index = suc p.step_index }
      else p
  react steps other_assessment p = record { step_index = 0; is_playing = false }
  react steps (pick index) p = record p { step_index = index }

  unfoldable pub handle : List (JudgeModeStep N) → PlayerEvent → Player → Player
  unfolding stop_at_end
  handle steps e p = stop_at_end steps (react steps e p)

  -- `flatMap((step) => ...)`
  unfoldable pub edges_of : List (JudgeModeStep N) → List String
  unfolding edge_key
  edges_of [] = []
  edges_of (s ∷ rest) = put_edge s.edge (edges_of rest)

  -- The edges of the steps so far, each once, and the entity of the current one.
  unfoldable pub highlighted_edges : List (JudgeModeStep N) → ℕ → List String
  unfolding edges_of dedup_from
  highlighted_edges steps step_index = dedup_from [] (edges_of (take (step_index + 1) steps))

  abbrev entity_of : Option (JudgeModeStep N) → Option (GraphEntity N)
  entity_of none = none
  entity_of (some s) = some s.entity

  unfoldable pub focused_entity : List (JudgeModeStep N) → ℕ → Option (GraphEntity N)
  focused_entity steps step_index = entity_of (get_elem? steps step_index)
