-- ===== src/Demo.antt =====
-- The demo: frontend/src/lib/demoMode.ts, which picks its moment, and frontend/src/context/
-- DemoModeContext.tsx, which walks through its steps on a timer.
pub mod Course
pub mod Moment
use industrial_safety_intell.Prelude.{
  ℕ, zero, suc, String, Bool, true, false, List, [], ◌∷◌, ◌++◌, Option, none, some, map, leb, not,
  ◌&&◌, ◌||◌, and_then, if◌then◌else◌,
}
use industrial_safety_intell.Prelude.Double.{Double, le}
use industrial_safety_intell.Prelude.Eq.{◌==◌, string_eq}
use industrial_safety_intell.Prelude.Lists.{filter, find, length, get_elem?}
use industrial_safety_intell.Prelude.Text.{◌⧺◌}
use industrial_safety_intell.Api.Risk.{ScenarioSummary, RiskAssessment, CounterfactualComparison}
use industrial_safety_intell.Comparison.{ComparisonMoment, pick_comparison_moment}

pub record DemoKeyMoment : Type 0 where
  pub zone_id : String
  pub timestamp : String
  pub assessment_id : String

-- The three endpoints, where `none` is a request that fails.
pub record DemoApi (N : Type 0) : Type 0 where
  pub get_scenario : String → Option (ScenarioSummary N)
  pub get_risk_history : String → ℕ → Option (List (RiskAssessment N))
  pub get_counterfactual_comparison : String → String → Option (CounterfactualComparison N)

-- `Promise.all(xs.map(f))`
unfoldable pub load_all {ℓ κ} :
    {A : Type ℓ} {B : Type κ} → (A → Option B) → List A → Option (List B)
load_all f [] = some []
load_all f (x ∷ xs) = and_then (f x) (λ y. and_then (load_all f xs) (λ ys. some (y ∷ ys)))

module _ {N : Type 0} ⦃d : Double N⦄ (time_of : String → N) (api : DemoApi N) where
  abbrev pub in_window : ScenarioSummary N → RiskAssessment N → Bool
  in_window scenario item =
      le (time_of scenario.start_time) (time_of item.timestamp)
      && le (time_of item.timestamp) (time_of scenario.end_time)

  abbrev pub pair_of : String → RiskAssessment N → DemoKeyMoment
  pair_of zone_id item = record {
    zone_id = zone_id;
    timestamp = item.timestamp;
    assessment_id = item.assessment_id;
  }

  -- `zoneHistories.flatMap(...)`
  unfoldable pub tick_pairs :
      ScenarioSummary N → List (String × List (RiskAssessment N)) → List DemoKeyMoment
  tick_pairs scenario [] = []
  tick_pairs scenario ((zone_id, items) ∷ rest) =
      map (pair_of zone_id) (filter (in_window scenario) items) ++ tick_pairs scenario rest

  abbrev pub load_history : String → Option (String × List (RiskAssessment N))
  load_history zone_id =
      and_then (api.get_risk_history zone_id 500) (λ items. some (zone_id, items))

  abbrev pub load_moment : DemoKeyMoment → Option (ComparisonMoment N)
  load_moment pair = and_then (api.get_counterfactual_comparison pair.zone_id pair.timestamp) (λ c.
      some (record {
        zone_id = pair.zone_id;
        timestamp = pair.timestamp;
        compound = c.compound;
        counterfactual = c.counterfactual;
      }))

  abbrev pub is_pair_of : ComparisonMoment N → DemoKeyMoment → Bool
  is_pair_of chosen pair = pair.zone_id == chosen.zone_id && pair.timestamp == chosen.timestamp

  -- `tickPairs.find(...)?.assessmentId`, where an empty id counts as none
  abbrev pub key_moment : ComparisonMoment N → Option DemoKeyMoment → Option DemoKeyMoment
  key_moment chosen none = none
  key_moment chosen (some pair) =
      if pair.assessment_id == ""
      then none
      else some (record {
        zone_id = chosen.zone_id;
        timestamp = chosen.timestamp;
        assessment_id = pair.assessment_id;
      })

  unfoldable pub choose_moment :
      List DemoKeyMoment → List (ComparisonMoment N) → Option DemoKeyMoment
  unfolding pick_comparison_moment find
  choose_moment pairs moments =
      and_then (pick_comparison_moment moments)
        (λ chosen. key_moment chosen (find (is_pair_of chosen) pairs))

  -- `none` where a request fails, and so the call is rejected.
  unfoldable pub find_scenario_key_moment : String → Option (Option DemoKeyMoment)
  unfolding choose_moment load_all
  find_scenario_key_moment scenario_key = and_then (api.get_scenario scenario_key) (λ scenario.
      and_then (load_all load_history scenario.zone_ids) (λ histories.
        let pairs = tick_pairs scenario histories in
        and_then (load_all load_moment pairs) (λ moments. some (choose_moment pairs moments))))

abbrev pub flagship_scenario_key : String
flagship_scenario_key = "scenario_simops_conflict"

pub record DemoStep : Type 0 where
  pub path : String
  pub label : String
  pub duration_ms : ℕ

abbrev pub step : String → String → ℕ → DemoStep
step path label duration_ms = record { path = path; label = label; duration_ms = duration_ms }

-- The steps of a moment; `encode` is `encodeURIComponent`.
abbrev pub moment_steps : (String → String) → Option DemoKeyMoment → List DemoStep
moment_steps encode none = []
moment_steps encode (some m) =
    step ("/explain/" ⧺ m.assessment_id) "Explainability - why the engine reached this verdict" 6000
    ∷ step ("/research/" ⧺ m.assessment_id) "Research Mode - every pipeline stage, in order" 6000
    ∷ step ("/counterfactual/" ⧺ m.zone_id ⧺ "?timestamp=" ⧺ encode m.timestamp)
        "Counterfactual - the naive baseline, side by side" 6000
    ∷ []

abbrev pub first_step : DemoStep
first_step =
    step ("/scenarios/" ⧺ flagship_scenario_key ⧺ "?autoplay=1")
      "Loading the flagship scenario and playing its replay" 7000

abbrev pub later_steps : (String → String) → Option DemoKeyMoment → List DemoStep
later_steps encode moment =
    moment_steps encode moment
    ++ step "/executive" "Executive Overview - the plant-wide summary" 6000 ∷ []

unfoldable pub build_steps : (String → String) → Option DemoKeyMoment → List DemoStep
build_steps encode moment = first_step ∷ later_steps encode moment

-- The provider's state; the timer with its duration while one is pending; and the paths that were
-- navigated to, the last one first.
pub record Demo : Type 0 where
  pub active : Bool
  pub loading : Bool
  pub step_index : ℕ
  pub steps : List DemoStep
  pub timer : Option ℕ
  pub visited : List String

abbrev pub idle : List String → Demo
idle visited = record {
  active = false;
  loading = false;
  step_index = 0;
  steps = [];
  timer = none;
  visited = visited;
}

unfoldable pub stop_demo : Demo → Demo
stop_demo s = idle s.visited

abbrev pub go_to : Demo → Option DemoStep → Demo
go_to s none = stop_demo s
go_to s (some step) = record s { timer = some step.duration_ms; visited = step.path ∷ s.visited }

-- Nothing for no steps, or else the step of the index.
abbrev pub act : Demo → List DemoStep → Option DemoStep → Demo
act s [] o = s
act s (x ∷ xs) o = go_to s o

-- The effect, after its own `clearTimer`: it runs where one of `active`, `steps` and `stepIndex`
-- has changed.
unfoldable pub run_effect : Demo → Demo
run_effect s =
    let cleared = record s { timer = none } in
    if s.active then act cleared s.steps (get_elem? s.steps s.step_index) else cleared

-- What happens to the provider.
pub data DemoEvent : Type 0 where
  start : DemoEvent
  loaded : List DemoStep → DemoEvent
  stop : DemoEvent
  tick : DemoEvent

-- The first part of `startDemo`: with the demo at its first step already, the effect does not run.
unfoldable pub start_demo : Demo → Demo
unfolding run_effect
start_demo s =
    let started = record s { active = true; loading = true; step_index = 0; timer = none } in
    if s.active && leb s.step_index 0 then started else run_effect started

-- The rest of `startDemo`, once the moment is there.
unfoldable pub finish_loading : Demo → List DemoStep → Demo
unfolding run_effect
finish_loading s built_steps = run_effect (record s { loading = false; steps = built_steps })

abbrev pub fire : Demo → Option ℕ → Demo
fire s none = s
fire s (some ms) = run_effect (record s { step_index = suc s.step_index; timer = none })

unfoldable pub handle : Demo → DemoEvent → Demo
unfolding run_effect start_demo finish_loading stop_demo
handle s start = start_demo s
handle s (loaded built_steps) = finish_loading s built_steps
handle s stop = stop_demo s
handle s tick = fire s s.timer
