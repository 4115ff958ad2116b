-- ===== src/Tests/Launches.antt =====
-- Runs of the launch, of the tour and of the judge mode's playback.
use industrial_safety_intell.Prelude.{
  ℕ, suc, ◌≤◌, String, Bool, true, false, [], ◌∷◌, none, some, ◌≡◌, refl,
}
use industrial_safety_intell.Prelude.Double.{int_double}
use industrial_safety_intell.Prelude.Eq.{◌==◌, string_eq}
use industrial_safety_intell.Prelude.Int.{ℤ, pos}
use industrial_safety_intell.Prelude.Lists.{get_elem?}
use industrial_safety_intell.Api.Graph.{GraphEntity, GraphEntityKind}
use industrial_safety_intell.Api.Json.{end}
use industrial_safety_intell.Judge.{JudgeModeStep}
use industrial_safety_intell.Judge.Playing.{playing_at, timers, timers_end}
use industrial_safety_intell.Api.Risk.{ReplayData, ScenarioSummary}
use industrial_safety_intell.QuickView.{QuickView}
use industrial_safety_intell.QuickView.Launch.{launched, pressed, IsLaunched, handle-launched}
use industrial_safety_intell.Replay.{merge_timestamps}
use industrial_safety_intell.Replay.Engine.{initial_state}
use industrial_safety_intell.Tour.{Tour, TourEvent, last_scene, handle}
use industrial_safety_intell.Tour.Ending.{Shows, timeouts, tour_course}
use industrial_safety_intell.Tests.Data.{calm_tick, alarm_tick}

abbrev night_shift : ScenarioSummary ℤ
night_shift = record {
  key = "night_shift";
  title = "Night shift";
  description = "";
  start_time = "10:00";
  end_time = "10:10";
  zone_ids = "coke_oven_1" ∷ [];
  seed = pos 1;
}

abbrev conflict : ScenarioSummary ℤ
conflict = record night_shift { key = "scenario_simops_conflict"; title = "SIMOPS conflict" }

abbrev is_conflict : String → Bool
is_conflict text = text == "scenario_simops_conflict"

abbrev clock : String → ℤ
clock text = pos 1

abbrev history : ReplayData ℤ
history = record {
  zone_ids = "coke_oven_1" ∷ [];
  start_time = "10:00";
  end_time = "10:10";
  duration_minutes = pos 10;
  tick_count = pos 2;
  zone_timelines =
      record { zone_id = "coke_oven_1"; assessments = calm_tick ∷ alarm_tick ∷ [] } ∷ [];
  bookmarks = [];
}

abbrev at_rest : QuickView ℤ
at_rest = record {
  talking_points_visible = false;
  launch_triggered = false;
  pending_activation = false;
  scrubbed = false;
  replay = initial_state (pos 1);
  presenting = false;
  visited = [];
}

abbrev landed : QuickView ℤ
landed = launched ⦃d = int_double⦄ clock is_conflict night_shift (conflict ∷ []) history at_rest

abbrev landed_from_cache : QuickView ℤ
landed_from_cache =
    pressed ⦃d = int_double⦄ clock is_conflict night_shift (conflict ∷ []) (some history) at_rest

handle-launched_example :
    IsLaunched ⦃d = int_double⦄ clock is_conflict
      (get_elem? (calm_tick.timestamp ∷ alarm_tick.timestamp ∷ []) 1)
      (night_shift ∷ conflict ∷ [])
      at_rest
      landed
    × IsLaunched ⦃d = int_double⦄ clock is_conflict
        (some calm_tick.timestamp)
        (night_shift ∷ conflict ∷ [])
        at_rest
        landed_from_cache
unfolding merge_timestamps
handle-launched_example =
    handle-launched ⦃d = int_double⦄ clock is_conflict night_shift (conflict ∷ []) history at_rest
      calm_tick.timestamp (alarm_tick.timestamp ∷ []) refl refl

abbrev launcher : Tour ℤ
launcher = record {
  scene_index = 4;
  playing = false;
  started = false;
  hud_visible = false;
  judge_mode = false;
  elapsed_in_scene = 500;
  replay = initial_state (pos 1);
  presenting = false;
}

abbrev begun : Tour ℤ
begun =
    handle ⦃d = int_double⦄ clock is_conflict
      (TourEvent.start (some (night_shift ∷ conflict ∷ [])) none) launcher

tour_course_example :
    ((n : ℕ) → n ≤ last_scene → Shows n true (timeouts ⦃d = int_double⦄ clock is_conflict n begun))
    × Shows last_scene false (timeouts ⦃d = int_double⦄ clock is_conflict (suc last_scene) begun)
tour_course_example =
    tour_course ⦃d = int_double⦄ clock is_conflict launcher (some (night_shift ∷ conflict ∷ []))
      none

abbrev conflict_zone : GraphEntity ℤ
conflict_zone = record { kind = GraphEntityKind.zone; id = "1"; label = "Zone 1"; attributes = end }

abbrev first_step : JudgeModeStep ℤ
first_step = record { label = "Sensor evidence"; entity = conflict_zone; edge = none }

abbrev last_step : JudgeModeStep ℤ
last_step = record { label = "Risk assessment"; entity = conflict_zone; edge = none }

timers_end_example :
    timers (first_step ∷ last_step ∷ []) 1 (playing_at (first_step ∷ last_step ∷ []) 0)
    ≡ record { step_index = 1; is_playing = false }
timers_end_example = timers_end (first_step ∷ last_step ∷ []) 0 0 refl
