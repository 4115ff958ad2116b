-- ===== src/QuickView.antt =====
-- frontend/src/context/JudgeQuickViewContext.tsx: one button that starts a replay, jumps to its last
-- tick, and enters the presentation mode.
pub mod Launch
use industrial_safety_intell.Prelude.{
  String, Bool, true, false, List, [], ◌∷◌, Option, none, some, not, or_else, ◌&&◌, ◌||◌,
  if◌then◌else◌,
}
use industrial_safety_intell.Prelude.Double.{Double}
use industrial_safety_intell.Prelude.Lists.{find}
use industrial_safety_intell.Api.Risk.{ReplayData, ScenarioSummary}
use industrial_safety_intell.FullScreen.{enter}
use industrial_safety_intell.Replay.Engine.{
  ReplayState, ReplayTarget, Event, step, render, begin_if, changes_target, all_timestamps,
  last_index,
}

-- The provider's cells, `scrubbed` its reference; and of its surroundings the replay, whether the
-- presentation mode is on, and the paths that were navigated to, the last one first.
pub record QuickView (N : Type 0) : Type 0 where
  pub talking_points_visible : Bool
  pub launch_triggered : Bool
  pub pending_activation : Bool
  pub scrubbed : Bool
  pub replay : ReplayState N
  pub presenting : Bool
  pub visited : List String

-- The button, with what the cache holds for the scenario it starts, the cross on the talking points, and what happens to the replay.
pub data QuickEvent (N : Type 0) : Type 0 where
  activate : Option (List (ScenarioSummary N)) → Option (ReplayData N) → QuickEvent N
  dismiss_talking_points : QuickEvent N
  replayed : Event N → QuickEvent N

-- `{ scenarioKey: key }`
abbrev pub scenario_target : String → ReplayTarget
scenario_target key = record { scenario_key = some key; zone_ids = none; start = none; end = none }

-- `dramatic_text` is the test of the pattern /simops|critical/i.
module _ {N : Type 0} (dramatic_text : String → Bool) where
  abbrev pub dramatic : ScenarioSummary N → List (ScenarioSummary N) → ScenarioSummary N
  dramatic first rest =
      or_else (find (λ s. dramatic_text s.key || dramatic_text s.title) (first ∷ rest)) first

module _ {N : Type 0} ⦃d : Double N⦄ (time_of : String → N) (dramatic_text : String → Bool) where
  -- Nothing where there is a target, or no scenario.
  abbrev pub start_dramatic :
      Option ReplayTarget
      → Option (List (ScenarioSummary N))
      → Option (ReplayData N)
      → QuickView N
      → QuickView N
  start_dramatic none (some (first ∷ rest)) cached s = record s {
    scrubbed = false;
    replay =
        render time_of
          (Event.start_replay (scenario_target (dramatic dramatic_text first rest).key) cached)
          s.replay;
  }
  start_dramatic _ _ _ s = s

  abbrev starts_dramatic : Option ReplayTarget → Option (List (ScenarioSummary N)) → Bool
  starts_dramatic none (some (first ∷ rest)) = true
  starts_dramatic _ _ = false

  -- The effect, which runs after each change of the replay or of `pendingActivation`.
  abbrev jump : List String → QuickView N → QuickView N
  jump [] s = s
  jump (t ∷ ts) s =
      if s.pending_activation && not s.scrubbed
      then record s {
        replay = step time_of (Event.scrub_to_index (last_index s.replay)) s.replay;
        scrubbed = true;
        pending_activation = false;
      }
      else s

  unfoldable pub run_jump : QuickView N → QuickView N
  unfolding step all_timestamps last_index
  run_jump s = jump (all_timestamps s.replay) s

  unfoldable pub press :
      Option (List (ScenarioSummary N)) → Option (ReplayData N) → QuickView N → QuickView N
  unfolding render find
  press scenarios cached s =
      let started =
        start_dramatic s.replay.target scenarios cached (record s { launch_triggered = true }) in
      record started {
        pending_activation = true;
        presenting = enter.active;
        talking_points_visible = true;
        visited = "/mission-control" ∷ started.visited;
      }

  -- The effect of the provider around this one, which comes after the jump.
  abbrev pub retarget_if : Bool → QuickView N → QuickView N
  retarget_if changed s = record s { replay = begin_if changed s.replay }

  unfoldable pub handle : QuickEvent N → QuickView N → QuickView N
  unfolding run_jump press render
  handle (activate scenarios cached) s =
      retarget_if (starts_dramatic s.replay.target scenarios) (run_jump (press scenarios cached s))
  handle dismiss_talking_points s = record s {
    talking_points_visible = false;
    launch_triggered = false;
  }
  handle (replayed e) s =
      retarget_if (changes_target e s.replay)
        (run_jump (record s { replay = render time_of e s.replay }))
