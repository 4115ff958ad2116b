-- ===== src/Replay/Engine.antt =====
-- frontend/src/context/ReplayContext.tsx: the replay's state and every operation on it.
use industrial_safety_intell.Prelude.{
  String, Bool, true, false, List, [], ◌∷◌, ◌++◌, Option, none, some, is_some, map, if◌then◌else◌,
}
use industrial_safety_intell.Prelude.Double.{Double}
use industrial_safety_intell.Prelude.Eq.{◌==◌, string_eq}
use industrial_safety_intell.Prelude.Int.{ℤ, pos, negsuc, ◌+ℤ◌, ◌-ℤ◌, ltb_ℤ}
use industrial_safety_intell.Prelude.Lists.{length, get_elem?, find}
use industrial_safety_intell.Api.Risk.{RiskAssessment, ZoneReplayTimeline, ReplayData}
use industrial_safety_intell.Replay.{
  merge_timestamps, find_nearest_timestamp_index, assessment_at_or_before,
}

pub record ReplayTarget : Type 0 where
  pub scenario_key : Option String
  pub zone_ids : Option (List String)
  pub start : Option String
  pub end : Option String

pub record CustomBookmark : Type 0 where
  pub id : String
  pub timestamp : String
  pub label : String

-- The five `useState` cells, and the payload of the query for the target, `none` until it is loaded.
pub record ReplayState (N : Type 0) : Type 0 where
  pub target : Option ReplayTarget
  pub current_index : ℤ
  pub playing : Bool
  pub speed : N
  pub custom_bookmarks : List CustomBookmark
  pub payload : Option (ReplayData N)

-- `Math.min` and `Math.max`
abbrev pub min_ℤ : ℤ → ℤ → ℤ
min_ℤ a b = if ltb_ℤ b a then b else a

abbrev pub max_ℤ : ℤ → ℤ → ℤ
max_ℤ a b = if ltb_ℤ a b then b else a

-- `xs[i]` for an integer `i`
abbrev pub at : List String → ℤ → Option String
at xs (pos i) = get_elem? xs i
at xs (negsuc i) = none

-- What the user, the timer or the query can do. A bookmark's id is made of the clock and a random
-- number, so it is given with the event; and so is what the query's cache holds for a new target.
pub data Event (N : Type 0) : Type 0 where
  start_replay : ReplayTarget → Option (ReplayData N) → Event N
  exit_replay play pause reset next previous tick : Event N
  scrub_to_index : ℤ → Event N
  jump_to_timestamp : String → Event N
  set_speed : N → Event N
  add_custom_bookmark : String → String → Event N
  loaded : ReplayData N → Event N

module _ {N : Type 0} where
  abbrev pub axis_of : Option (ReplayData N) → List String
  axis_of none = []
  axis_of (some payload) =
      merge_timestamps (map (λ t. map (λ a. a.timestamp) t.assessments) payload.zone_timelines)

  unfoldable pub all_timestamps : ReplayState N → List String
  all_timestamps s = axis_of s.payload

  -- `allTimestamps.length - 1`
  unfoldable pub last_index : ReplayState N → ℤ
  last_index s = pos (length (all_timestamps s)) -ℤ pos 1

  unfoldable pub current_timestamp : ReplayState N → Option String
  current_timestamp s = at (all_timestamps s) s.current_index

  -- `setPlaying(false)` and `setCurrentIndex(i)`
  abbrev pub move_to : ℤ → ReplayState N → ReplayState N
  move_to i s = record s { current_index = i; playing = false }

  -- `setTarget(t)`, and the render that follows: the query's data is what its cache holds.
  abbrev pub turn_to : Option ReplayTarget → Option (ReplayData N) → ReplayState N → ReplayState N
  turn_to t cached s = record s { target = t; payload = cached }

  -- The effect on a new target. It runs after the effects of the components inside the provider.
  abbrev pub begin_target : ReplayState N → ReplayState N
  begin_target s = record s { current_index = pos 0; playing = false; custom_bookmarks = [] }

  -- `setTarget(null)`, which changes nothing when there is no target
  abbrev pub turn_off : Option ReplayTarget → ReplayState N → ReplayState N
  turn_off none s = s
  turn_off (some t) s = turn_to none none s

  abbrev pub begin_if : Bool → ReplayState N → ReplayState N
  begin_if changed s = if changed then begin_target s else s

  -- Whether the event gives the effect on the target something to do.
  abbrev pub changes_target : Event N → ReplayState N → Bool
  changes_target (Event.start_replay t cached) s = true
  changes_target Event.exit_replay s = is_some s.target
  changes_target _ s = false

  -- The interval's callback; the interval only runs while playing over a non-empty axis.
  abbrev pub advance : ReplayState N → ReplayState N
  advance s =
      if ltb_ℤ s.current_index (last_index s)
      then record s { current_index = s.current_index +ℤ pos 1 }
      else record s { playing = false }

  abbrev pub on_tick : Bool → List String → ReplayState N → ReplayState N
  on_tick false axis s = s
  on_tick true [] s = s
  on_tick true (t ∷ ts) s = advance s

  abbrev pub put_bookmark : Option String → String → String → ReplayState N → ReplayState N
  put_bookmark none id label s = s
  put_bookmark (some t) id label s = if t == "" then s else record s {
    custom_bookmarks = s.custom_bookmarks ++ record { id = id; timestamp = t; label = label } ∷ [];
  }

  -- The query is enabled by a target, and its data never goes stale.
  abbrev pub receive :
      Option ReplayTarget → Option (ReplayData N) → ReplayData N → ReplayState N → ReplayState N
  receive none old payload s = s
  receive (some t) (some old) payload s = s
  receive (some t) none payload s = record s { payload = some payload }

  -- The initial values of the cells; `one` is the speed 1.
  abbrev pub initial_state : N → ReplayState N
  initial_state one = record {
    target = none;
    current_index = pos 0;
    playing = false;
    speed = one;
    custom_bookmarks = [];
    payload = none;
  }

  abbrev pub has_zone_id : String → ZoneReplayTimeline N → Bool
  has_zone_id zone_id t = t.zone_id == zone_id

  abbrev pub assessments_of : Option (ZoneReplayTimeline N) → List (RiskAssessment N)
  assessments_of none = []
  assessments_of (some t) = t.assessments

  abbrev pub timeline_of : Option (ReplayData N) → String → List (RiskAssessment N)
  timeline_of none zone_id = []
  timeline_of (some payload) zone_id =
      assessments_of (find (has_zone_id zone_id) payload.zone_timelines)

  unfoldable pub zone_timeline : ReplayState N → String → List (RiskAssessment N)
  zone_timeline s zone_id = timeline_of s.payload zone_id

module _ {N : Type 0} ⦃d : Double N⦄ (time_of : String → N) where
  -- What an event is rendered as, before the effect on the target.
  unfoldable pub render : Event N → ReplayState N → ReplayState N
  render (Event.start_replay t cached) s = turn_to (some t) cached s
  render Event.exit_replay s = turn_off s.target s
  render Event.play s = record s { playing = true }
  render Event.pause s = record s { playing = false }
  render Event.reset s = move_to (pos 0) s
  render Event.next s = move_to (min_ℤ (s.current_index +ℤ pos 1) (last_index s)) s
  render Event.previous s = move_to (max_ℤ (s.current_index -ℤ pos 1) (pos 0)) s
  render Event.tick s = on_tick s.playing (all_timestamps s) s
  render (Event.scrub_to_index i) s = move_to (max_ℤ (pos 0) (min_ℤ i (last_index s))) s
  render (Event.jump_to_timestamp t) s =
      move_to (pos (find_nearest_timestamp_index time_of (all_timestamps s) t)) s
  render (Event.set_speed x) s = record s { speed = x }
  render (Event.add_custom_bookmark id label) s = put_bookmark (current_timestamp s) id label s
  render (Event.loaded payload) s = receive s.target s.payload payload s

  -- An event as a whole, where no component inside the provider has an effect of its own on it.
  unfoldable pub step : Event N → ReplayState N → ReplayState N
  unfolding render
  step e s = begin_if (changes_target e s) (render e s)

  abbrev pub assessment_from : Option String → List (RiskAssessment N) → Option (RiskAssessment N)
  assessment_from none timeline = none
  assessment_from (some t) timeline = assessment_at_or_before time_of timeline (time_of t)

  unfoldable pub assessment_at : ReplayState N → String → Option (RiskAssessment N)
  assessment_at s zone_id = assessment_from (current_timestamp s) (zone_timeline s zone_id)
