-- ===== src/Tour.antt =====
-- frontend/src/pages/PresentationModePage.tsx: the guided tour through the scenes, its timers and
-- keys, and the replay that it moves.
pub mod Ending
use industrial_safety_intell.Prelude.{
  ℕ, suc, ◌+◌, ◌-◌, String, Bool, true, false, List, [], ◌∷◌, Option, none, some, is_some, not, leb,
  ltb, ◌&&◌, ◌||◌, if◌then◌else◌,
}
use industrial_safety_intell.Prelude.Double.{Double}
use industrial_safety_intell.Prelude.Eq.{◌==◌, string_eq, nat_eq, includes}
use industrial_safety_intell.Prelude.Lists.{length, get_elem?}
use industrial_safety_intell.Api.Risk.{RiskAssessment, ReplayData, ScenarioSummary}
use industrial_safety_intell.Presentation.{
  PresentationScene, presentation_scenes, elapsed_before_scene, select_presentation_scenario,
  find_first_escalation_index, find_peak_index,
}
use industrial_safety_intell.QuickView.{scenario_target}
use industrial_safety_intell.Replay.Engine.{
  ReplayState, ReplayTarget, Event, step, render, begin_if, changes_target, zone_timeline,
}

-- PEAK_TICK_SCENES
abbrev pub peak_tick_scenes : List String
peak_tick_scenes =
    "multi-agent-reasoning" ∷ "counterfactual" ∷ "executive-dashboard" ∷ "mission-control"
    ∷ "final-recommendation" ∷ []

abbrev pub tick_ms : ℕ
tick_ms = 250

-- The page's cells, and of its surroundings the replay and whether the presentation mode is on.
-- `elapsed_in_scene` is the reference, too.
pub record Tour (N : Type 0) : Type 0 where
  pub scene_index : ℕ
  pub playing : Bool
  pub started : Bool
  pub hud_visible : Bool
  pub judge_mode : Bool
  pub elapsed_in_scene : ℕ
  pub replay : ReplayState N
  pub presenting : Bool

-- The buttons, the start with what the cache holds for the scenario that it picks, a key, the two timers, and what else happens to the replay.
pub data TourEvent (N : Type 0) : Type 0 where
  start : Option (List (ScenarioSummary N)) → Option (ReplayData N) → TourEvent N
  restart toggle_judge_mode interval timeout : TourEvent N
  key : String → TourEvent N
  replayed : Event N → TourEvent N

-- `PRESENTATION_SCENES.length - 1`
abbrev pub last_scene : ℕ
last_scene = length presentation_scenes - 1

abbrev key_of : Option PresentationScene → String
key_of none = ""
key_of (some s) = s.key

abbrev pub scene_key : ℕ → String
scene_key index = key_of (get_elem? presentation_scenes index)

-- `a === b`
abbrev same_flag : Bool → Bool → Bool
same_flag true b = b
same_flag false b = not b

abbrev same_zone : Option String → Option String → Bool
same_zone none none = true
same_zone (some a) (some b) = a == b
same_zone _ _ = false

-- `Math.min(PRESENTATION_SCENES.length - 1, index + 1)`
abbrev pub next_index : ℕ → ℕ
next_index index = if ltb last_scene (suc index) then last_scene else suc index

module _ {N : Type 0} where
  abbrev zone_ids : Option (ReplayData N) → List String
  zone_ids none = []
  zone_ids (some payload) = payload.zone_ids

  -- `replay.zoneIds[0] ?? null`
  abbrev focus_zone_id : ReplayState N → Option String
  focus_zone_id r = get_elem? (zone_ids r.payload) 0

  -- An empty id counts as none.
  abbrev timeline_for : ReplayState N → Option String → List (RiskAssessment N)
  timeline_for r none = []
  timeline_for r (some zone_id) = if zone_id == "" then [] else zone_timeline r zone_id

  unfoldable pub focus_timeline : ReplayState N → List (RiskAssessment N)
  unfolding zone_timeline
  focus_timeline r = timeline_for r (focus_zone_id r)

  -- `setSceneIndex`: the first effect resets the time where the index changes.
  abbrev pub show_scene : ℕ → Tour N → Tour N
  show_scene index s = record s {
    scene_index = index;
    elapsed_in_scene = if index == s.scene_index then s.elapsed_in_scene else 0;
  }

  -- The timeout of the scene.
  abbrev pub expire : Tour N → Tour N
  expire s =
      if leb last_scene s.scene_index
      then record s { playing = false }
      else show_scene (suc s.scene_index) s

  abbrev hud_key : String → Tour N → Tour N
  hud_key k s = if k == "d" || k == "D" then record s { hud_visible = not s.hud_visible } else s

  -- The keys while the tour is on.
  abbrev pub tour_key : String → Tour N → Tour N
  tour_key k s =
      if not s.started
      then s
      else if k == "ArrowRight"
      then show_scene (next_index s.scene_index) s
      else if k == "ArrowLeft"
      then show_scene (s.scene_index - 1) s
      else if k == " "
      then record s { playing = not s.playing }
      else if k == "Escape"
      then record s { playing = false; started = false }
      else s

module _ {N : Type 0} ⦃d : Double N⦄ (time_of : String → N) where
  abbrev jump_to : Option (RiskAssessment N) → ReplayState N → ReplayState N
  jump_to none r = r
  jump_to (some a) r = step time_of (Event.jump_to_timestamp a.timestamp) r

  abbrev jump_for_scene : String → List (RiskAssessment N) → ReplayState N → ReplayState N
  jump_for_scene k [] r = r
  jump_for_scene k (a ∷ rest) r =
      if k == "incident-begins"
      then jump_to (get_elem? (a ∷ rest) (find_first_escalation_index (a ∷ rest))) r
      else if includes peak_tick_scenes k
      then jump_to (get_elem? (a ∷ rest) (find_peak_index (a ∷ rest))) r
      else r

  abbrev pause_if : Bool → ReplayState N → ReplayState N
  pause_if was_playing r = if was_playing then step time_of Event.pause r else r

  -- The effect that moves the replay for the scene.
  unfoldable pub move_replay : Tour N → Tour N
  unfolding step focus_timeline find_first_escalation_index find_peak_index includes
  move_replay s = if not s.started || not (is_some s.replay.target) then s else record s {
    replay =
        pause_if s.replay.playing
          (jump_for_scene (scene_key s.scene_index) (focus_timeline s.replay) s.replay);
  }

  -- It runs where the scene, `started`, or the focused zone or its timeline has changed.
  unfoldable pub settle : Tour N → Tour N → Tour N
  unfolding move_replay focus_timeline
  settle before s =
      if scene_key s.scene_index == scene_key before.scene_index
        && same_flag s.started before.started
        && same_zone (focus_zone_id s.replay) (focus_zone_id before.replay)
        && length (focus_timeline s.replay) == length (focus_timeline before.replay)
      then s
      else move_replay s

-- `dramatic_text` is the test of the pattern /simops|critical/i.
module _ {N : Type 0} ⦃d : Double N⦄ (time_of : String → N) (dramatic_text : String → Bool) where
  abbrev pub start_picked :
      Option (ScenarioSummary N) → Option (ReplayData N) → ReplayState N → ReplayState N
  start_picked none cached r = r
  start_picked (some picked) cached r =
      render time_of (Event.start_replay (scenario_target picked.key) cached) r

  -- Only where the tour is off and there is no target.
  abbrev pub start_replay :
      Bool
      → Option ReplayTarget
      → Option (List (ScenarioSummary N))
      → Option (ReplayData N)
      → ReplayState N
      → ReplayState N
  start_replay false none (some scenarios) cached r =
      start_picked (select_presentation_scenario dramatic_text scenarios) cached r
  start_replay _ _ _ _ r = r

  abbrev starts_replay : Bool → Option ReplayTarget → Option (List (ScenarioSummary N)) → Bool
  starts_replay false none (some scenarios) =
      is_some (select_presentation_scenario dramatic_text scenarios)
  starts_replay _ _ _ = false

  abbrev pub handle_start :
      Option (List (ScenarioSummary N)) → Option (ReplayData N) → Tour N → Tour N
  handle_start scenarios cached s = show_scene 0 (record s {
    replay = start_replay s.started s.replay.target scenarios cached s.replay;
    started = true;
    playing = true;
  })

  abbrev pub handle_restart : Tour N → Tour N
  handle_restart s =
      show_scene 0 (record s { replay = step time_of Event.reset s.replay; playing = true })

  -- `presentationMode.exit()` and `presentationMode.enter()`
  abbrev pub handle_toggle_judge_mode : Tour N → Tour N
  handle_toggle_judge_mode s = record s {
    presenting = not s.judge_mode;
    judge_mode = not s.judge_mode;
  }

  abbrev pub react : TourEvent N → Tour N → Tour N
  react (start scenarios cached) s = handle_start scenarios cached s
  react restart s = handle_restart s
  react toggle_judge_mode s = handle_toggle_judge_mode s
  react interval s =
      if s.playing then record s { elapsed_in_scene = s.elapsed_in_scene + tick_ms } else s
  react timeout s = if s.playing then expire s else s
  react (key k) s = tour_key k (hud_key k s)
  react (replayed e) s = record s { replay = render time_of e s.replay }

  -- Whether the event gives the replay's effect on its target something to do.
  abbrev pub retargets : TourEvent N → Tour N → Bool
  retargets (start scenarios cached) s = starts_replay s.started s.replay.target scenarios
  retargets (replayed e) s = changes_target e s.replay
  retargets _ s = false

  -- The replay's provider is around the page, so its effect comes after the page's.
  abbrev pub retarget_if : Bool → Tour N → Tour N
  retarget_if changed s = record s { replay = begin_if changed s.replay }

  unfoldable pub handle : TourEvent N → Tour N → Tour N
  unfolding settle step render select_presentation_scenario
  handle e s = retarget_if (retargets e s) (settle time_of s (react e s))
