-- ===== src/Moments.antt =====
-- frontend/src/lib/scenarioResolution.ts, frontend/src/lib/replayComparison.ts and frontend/src/hooks/
-- useSmartSearchExtensions.ts: the scenario of a tick, a time between two others, and the highest
-- tick of each scenario.
pub mod Resolved
use industrial_safety_intell.Prelude.{
  ℕ, String, Bool, List, [], ◌∷◌, ◌++◌, Option, none, some, map, ◌&&◌, ◌||◌, and_then,
  if◌then◌else◌,
}
use industrial_safety_intell.Prelude.Double.{Double, le}
use industrial_safety_intell.Prelude.Eq.{◌==◌, string_eq, includes}
use industrial_safety_intell.Prelude.Lists.{find, get_elem?}
use industrial_safety_intell.Prelude.Select.{select?}
use industrial_safety_intell.Api.Risk.{
  ScenarioSummary, RiskAssessment, ReplayData, ReplayBookmark, ZoneReplayTimeline,
  CounterfactualComparison,
}
use industrial_safety_intell.Api.Insight.{IncidentMatch, ForesightResult}
use industrial_safety_intell.Search.Moments.{ScenarioMoment}

module _ {N : Type 0} ⦃d : Double N⦄ (time_of : String → N) where
  abbrev pub covers : String → N → ScenarioSummary N → Bool
  covers zone_id tick_time s =
      includes s.zone_ids zone_id
      && le (time_of s.start_time) tick_time
      && le tick_time (time_of s.end_time)

  abbrev key_of_scenario : ScenarioSummary N → Option String
  key_of_scenario s = some s.key

  -- `none` is `undefined`; an empty text counts as that too.
  unfoldable pub resolve_scenario_key :
      Option (List (ScenarioSummary N)) → Option String → Option String → Option String
  unfolding find includes
  resolve_scenario_key scenarios zone_id timestamp = and_then scenarios (λ all.
      and_then zone_id (λ zone. and_then timestamp (λ tick.
        if zone == "" || tick == ""
        then none
        else and_then (find (covers zone (time_of tick)) all) key_of_scenario)))

  -- `Math.min(a, b)` and `Math.max(a, b)`
  abbrev pub min : N → N → N
  min a b = if d.lt b a then b else a

  abbrev pub max : N → N → N
  max a b = if d.lt a b then b else a

  unfoldable pub time_at_fraction : String → String → N → N
  time_at_fraction start_iso end_iso fraction =
      let start = time_of start_iso in
      let clamped = min (d.of_ℕ 1) (max (d.of_ℕ 0) fraction) in
      d.add start (d.mul clamped (d.sub (time_of end_iso) start))

-- A tick of a replay, with its zone.
pub record ZoneTick (N : Type 0) : Type 0 where
  pub zone_id : String
  pub assessment : RiskAssessment N

-- What the queries of one scenario have so far, where `none` is no data yet.
pub record MomentData (N : Type 0) : Type 0 where
  pub counterfactual : Option (CounterfactualComparison N)
  pub matches : Option (List (IncidentMatch N))
  pub foresight : Option (ForesightResult N)

module _ {N : Type 0} ⦃d : Double N⦄ where
  -- `replay.zone_timelines.flatMap(...)`
  unfoldable pub all_ticks : List (ZoneReplayTimeline N) → List (ZoneTick N)
  all_ticks [] = []
  all_ticks (t ∷ rest) =
      map (λ a. record { zone_id = t.zone_id; assessment = a }) t.assessments ++ all_ticks rest

  abbrev pub tick_score : ZoneTick N → N
  tick_score t = t.assessment.compound_risk_score

  abbrev best_of : MomentData N → Option (IncidentMatch N)
  best_of queried = and_then queried.matches (λ ms. get_elem? ms 0)

  abbrev moment_at :
      ScenarioSummary N
      → List ReplayBookmark
      → MomentData N
      → Option (ZoneTick N)
      → Option (ScenarioMoment N)
  moment_at s events queried none = none
  moment_at s events queried (some top) = some (record {
    scenario_key = s.key;
    scenario_title = s.title;
    zone_id = top.zone_id;
    timestamp = top.assessment.timestamp;
    assessment_id = top.assessment.assessment_id;
    events = events;
    counterfactual = queried.counterfactual;
    foresight = queried.foresight;
    best_match = best_of queried;
  })

  -- The moment of one scenario, from its replay and the queries for that moment.
  unfoldable pub scenario_moment :
      ScenarioSummary N → Option (ReplayData N) → MomentData N → Option (ScenarioMoment N)
  unfolding all_ticks select?
  scenario_moment s none queried = none
  scenario_moment s (some replay) queried =
      moment_at s replay.bookmarks queried
        (select? d.lt tick_score (all_ticks replay.zone_timelines))
