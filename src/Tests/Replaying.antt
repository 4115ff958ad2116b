-- ===== src/Tests/Replaying.antt =====
-- Runs of the replay: a target is started, its two ticks are loaded, and it is played.
use industrial_safety_intell.Prelude.{
  String, true, false, List, [], ◌∷◌, none, some, Memᴰ, ◌≡◌, ◌≢◌, ◌⊎◌, refl, arith, if◌then◌else◌,
}
use industrial_safety_intell.Prelude.Double.{int_double, int_double-IsOrdered}
use industrial_safety_intell.Prelude.Eq.{◌==◌, string_eq, includes, IsDistinct}
use industrial_safety_intell.Prelude.Int.{ℤ, pos, negsuc, ltb_ℤ}
use industrial_safety_intell.Prelude.Lists.{All, any, length, get_elem?}
use industrial_safety_intell.Prelude.Sort.{IsSorted}
use industrial_safety_intell.Prelude.Text.{text_gt}
use industrial_safety_intell.Api.Risk.{RiskAssessment, ReplayData}
use industrial_safety_intell.Replay.{
  assessment_at_or_before, at_or_before, delta, find_nearest_timestamp_index, merge_timestamps,
  time_at,
}
use industrial_safety_intell.Replay.Engine.{
  ReplayTarget, ReplayState, Event, step, initial_state, all_timestamps, current_timestamp,
}
use industrial_safety_intell.Replay.Lookups.{
  is_past, assessment_at_or_before-latest, find_nearest_timestamp_index-nearest,
  merge_timestamps-IsAxis,
}
use industrial_safety_intell.Replay.Cursor.{
  Run, Anything, Run-current_index_bounds, Run-current_timestamp,
}
use industrial_safety_intell.Replay.Bookmarks.{AreOn, Run-bookmarks}
use industrial_safety_intell.Replay.Playback.{ticks, HasEnded, ticks-HasEnded}
use industrial_safety_intell.Tests.Data.{calm_tick, alarm_tick}

-- Minutes after ten.
abbrev clock : String → ℤ
clock t = if t == "10:05" then pos 5 else pos 0

found_tick :
    assessment_at_or_before ⦃d = int_double⦄ clock (calm_tick ∷ alarm_tick ∷ []) (pos 3)
    ≡ some calm_tick
unfolding assessment_at_or_before at_or_before
found_tick = refl

assessment_at_or_before-latest_example :
    Memᴰ calm_tick (calm_tick ∷ alarm_tick ∷ [])
    × (is_past ⦃d = int_double⦄ clock (pos 3) calm_tick ≡ true)
    × ((a : RiskAssessment ℤ)
        → Memᴰ a (calm_tick ∷ alarm_tick ∷ [])
        → is_past ⦃d = int_double⦄ clock (pos 3) a ≡ true
        → ltb_ℤ (time_at ⦃d = int_double⦄ clock calm_tick) (time_at ⦃d = int_double⦄ clock a)
          ≡ false)
assessment_at_or_before-latest_example =
    assessment_at_or_before-latest ⦃d = int_double⦄ clock (calm_tick ∷ alarm_tick ∷ []) (pos 3)
      calm_tick int_double-IsOrdered found_tick

find_nearest_timestamp_index-nearest_example :
    (t : String) × (get_elem?
        ("10:00" ∷ "10:05" ∷ [])
        (find_nearest_timestamp_index ⦃d = int_double⦄ clock ("10:00" ∷ "10:05" ∷ []) "10:05")
      ≡ some t)
    × All
        (λ s.
          ltb_ℤ
            (delta ⦃d = int_double⦄ clock (clock "10:05") s)
            (delta ⦃d = int_double⦄ clock (clock "10:05") t)
          ≡ false)
        ("10:00" ∷ "10:05" ∷ [])
find_nearest_timestamp_index-nearest_example =
    find_nearest_timestamp_index-nearest ⦃d = int_double⦄ clock ("10:00" ∷ "10:05" ∷ []) "10:05"
      int_double-IsOrdered (λ e. cc)

abbrev two_axes : List (List String)
two_axes = ("10:05" ∷ "10:00" ∷ []) ∷ ("10:05" ∷ []) ∷ []

merge_timestamps-IsAxis_example :
    IsSorted text_gt (merge_timestamps two_axes)
    × IsDistinct (merge_timestamps two_axes)
    × ((t : String) → includes (merge_timestamps two_axes) t ≡ any (λ ts. includes ts t) two_axes)
merge_timestamps-IsAxis_example = merge_timestamps-IsAxis two_axes

abbrev target : ReplayTarget
target = record { scenario_key = some "visakh"; zone_ids = none; start = none; end = none }

abbrev payload : ReplayData ℤ
payload = record {
  zone_ids = "coke_oven_1" ∷ [];
  start_time = "10:00";
  end_time = "10:05";
  duration_minutes = pos 5;
  tick_count = pos 2;
  zone_timelines =
      record { zone_id = "coke_oven_1"; assessments = calm_tick ∷ alarm_tick ∷ [] } ∷ [];
  bookmarks = [];
}

abbrev started : ReplayState ℤ
started = step ⦃d = int_double⦄ clock (Event.start_replay target none) (initial_state (pos 1))

abbrev ready : ReplayState ℤ
ready = step ⦃d = int_double⦄ clock (Event.loaded payload) started

abbrev playing : ReplayState ℤ
playing = step ⦃d = int_double⦄ clock Event.play ready

abbrev bookmarked : ReplayState ℤ
bookmarked = step ⦃d = int_double⦄ clock (Event.add_custom_bookmark "custom-1" "look here") ready

bookmarked-Run : Run ⦃d = int_double⦄ clock Anything bookmarked
bookmarked-Run = Run.then (Event.add_custom_bookmark "custom-1" "look here") tt (
    Run.then (Event.loaded payload) tt
      (Run.then (Event.start_replay target none) tt (Run.begin (pos 1))))

Run-bookmarks_example : AreOn (all_timestamps bookmarked) bookmarked.custom_bookmarks
Run-bookmarks_example = Run-bookmarks ⦃d = int_double⦄ clock bookmarked bookmarked-Run

-- `next` before the ticks are loaded, and nothing is shown once they are.
abbrev early : ReplayState ℤ
early =
    step ⦃d = int_double⦄ clock (Event.loaded payload)
      (step ⦃d = int_double⦄ clock Event.next started)

Run-current_index_bounds_example :
    (ltb_ℤ early.current_index (negsuc 0) ≡ false)
    × ((ltb_ℤ early.current_index (pos (length (all_timestamps early))) ≡ true)
        ⊎ (early.current_index ≡ pos 0))
Run-current_index_bounds_example =
    Run-current_index_bounds ⦃d = int_double⦄ clock early int_double-IsOrdered (
      Run.then (Event.loaded payload) tt
        (Run.then Event.next tt (Run.then (Event.start_replay target none) tt (Run.begin (pos 1)))))

moved_axis : all_timestamps ready ≢ []
unfolding all_timestamps step merge_timestamps
moved_axis e = cc

abbrev moved : ReplayState ℤ
moved = step ⦃d = int_double⦄ clock Event.next ready

moved_axis_too : all_timestamps moved ≢ []
unfolding all_timestamps step merge_timestamps
moved_axis_too e = cc

Run-current_timestamp_example : current_timestamp moved ≢ none
Run-current_timestamp_example =
    Run-current_timestamp ⦃d = int_double⦄ clock moved int_double-IsOrdered
      (Run.then Event.next moved_axis (
        Run.then (Event.loaded payload) tt
          (Run.then (Event.start_replay target none) tt (Run.begin (pos 1)))))
      moved_axis_too

playing_is :
    (playing.playing ≡ true)
    × (playing.current_index ≡ pos 0)
    × (length (all_timestamps playing) ≡ 2)
unfolding all_timestamps step merge_timestamps
playing_is = (refl, refl, refl)

ticks-HasEnded_example :
    HasEnded (length (all_timestamps playing)) (ticks ⦃d = int_double⦄ clock 2 playing)
ticks-HasEnded_example =
    ticks-HasEnded ⦃d = int_double⦄ clock 2 playing 0 playing_is.0 playing_is.1
      (omega (arith, playing_is.2)) (omega (arith, playing_is.2))
