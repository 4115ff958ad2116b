-- ===== src/Tests/Graphs.antt =====
-- Runs of the layout of the knowledge graph, of the dependency levels and of the demo.
use industrial_safety_intell.Prelude.{
  ℕ, String, true, false, List, [], ◌∷◌, none, some, map, ◌&&◌, ◌≡◌, refl, ◌↔◌, Memᴰ,
}
use industrial_safety_intell.Prelude.Dict.{get}
use industrial_safety_intell.Prelude.Double.{int_double}
use industrial_safety_intell.Prelude.Eq.{includes, string_eq}
use industrial_safety_intell.Prelude.Int.{ℤ, pos}
use industrial_safety_intell.Prelude.Lists.{All, any, filter, length}
use industrial_safety_intell.Prelude.Select.{select?}
use industrial_safety_intell.Prelude.Sort.{IsSorted}
use industrial_safety_intell.Api.Graph.{GraphEntityKind, GraphEntity, GraphEdge, kind_text}
use industrial_safety_intell.Api.Json.{end}
use industrial_safety_intell.Api.Risk.{Tier, ScenarioSummary}
use industrial_safety_intell.Actions.{PrioritizedAction}
use industrial_safety_intell.Actions.Playbook.{ImpactLevel, get_action_metadata}
use industrial_safety_intell.Comparison.{with_compound}
use industrial_safety_intell.Recommendations.{Severity}
use industrial_safety_intell.Dependencies.{DependencyGraphLevel, build_dependency_levels}
use industrial_safety_intell.Dependencies.Levels.{by_level, HasDepth, build_dependency_levels-lem}
use industrial_safety_intell.Layout.{
  Circle, Distances, LaidOutNode, node_key, key_of, neighbours, adjacency_of, distances_from,
  layout_radial,
}
use industrial_safety_intell.Layout.Links.{joins, includes-adjacency_of}
use industrial_safety_intell.Layout.Rings.{Reached, laid, layout_radial-Reached}
use industrial_safety_intell.Layout.Shortest.{linked, distances_from-IsShortest}
use industrial_safety_intell.Layout.Walks.{IsShortest}
use industrial_safety_intell.Demo.{
  DemoApi, DemoEvent, DemoKeyMoment, idle, build_steps, tick_pairs, find_scenario_key_moment,
}
use industrial_safety_intell.Demo.Course.{
  run, ticks, visit_all, course_of_demo, IsConsistent, run-IsConsistent,
}
use industrial_safety_intell.Demo.Moment.{IsTickOf, find_scenario_key_moment-IsTickOf}
use industrial_safety_intell.Tests.Data.{alarm_tick, calm_tick}

abbrev node : GraphEntityKind → String → GraphEntity ℤ
node kind id = record { kind = kind; id = id; label = id; attributes = end }

-- A zone with a sensor, the sensor's reading, and a worker that no edge reaches.
abbrev nodes : List (GraphEntity ℤ)
nodes =
    node GraphEntityKind.zone "1"
    ∷ node GraphEntityKind.sensor "2"
    ∷ node GraphEntityKind.sensor_reading "3"
    ∷ node GraphEntityKind.worker "4"
    ∷ []

abbrev edge : GraphEntityKind → String → GraphEntityKind → String → GraphEdge
edge source_kind source_id target_kind target_id = record {
  source_kind = source_kind;
  source_id = source_id;
  relation = "has";
  target_kind = target_kind;
  target_id = target_id;
  label = "has";
}

abbrev edges : List GraphEdge
edges =
    edge GraphEntityKind.sensor "2" GraphEntityKind.zone "1"
    ∷ edge GraphEntityKind.sensor_reading "3" GraphEntityKind.sensor "2"
    ∷ edge GraphEntityKind.sensor "2" GraphEntityKind.permit "9"
    ∷ []

abbrev keys : List String
keys = map key_of nodes

distances_from-IsShortest_example :
    (m : Distances) × (distances_from "zone:1" keys edges ≡ some m)
    × ((v : String) (n : ℕ) → (get v m ≡ some n) ↔ IsShortest (linked keys edges) "zone:1" n v)
unfolding includes node_key kind_text
distances_from-IsShortest_example = distances_from-IsShortest "zone:1" keys edges refl

abbrev circle : Circle ℤ
circle = record { pi = pos 3; cos = λ a. pos 1; sin = λ a. pos 0 }

layout_radial-Reached_example :
    (r : List (LaidOutNode ℤ)) × (layout_radial ⦃d = int_double⦄ ⦃c = circle⦄ "zone:1" nodes edges
        none
      ≡ some r)
    × ((v : String)
        → (laid ⦃d = int_double⦄ ⦃c = circle⦄ r v ≡ true) ↔ Reached "zone:1" keys edges v)
unfolding includes node_key kind_text
layout_radial-Reached_example =
    layout_radial-Reached ⦃d = int_double⦄ ⦃c = circle⦄ "zone:1" nodes edges none refl

includes-adjacency_of_example :
    includes (neighbours (adjacency_of keys edges) "sensor:2") "zone:1"
    ≡ (includes keys "sensor:2" && includes keys "zone:1" && any (joins "sensor:2" "zone:1") edges)
includes-adjacency_of_example = includes-adjacency_of keys edges "sensor:2" "zone:1"

abbrev action : String → List String → PrioritizedAction
action id dependency_labels = record {
  recommendation = record { id = id; text = id; severity = Severity.high };
  priority = 1;
  metadata = get_action_metadata id;
  impact_level = ImpactLevel.low;
  dependency_labels = dependency_labels;
}

abbrev queue : List PrioritizedAction
queue =
    action "tier_critical" ("unauthorized_presence" ∷ []) ∷ action "unauthorized_presence" [] ∷ []

build_dependency_levels-lem_example :
    (r : List DependencyGraphLevel) × (build_dependency_levels queue ≡ some r)
    × IsSorted by_level r
    × ((a : PrioritizedAction) (n : ℕ)
        → Memᴰ a queue
        → HasDepth queue n a
        → ((e : DependencyGraphLevel) × Memᴰ e r × Memᴰ a e.actions)
          × All (λ e. Memᴰ a e.actions → e.level ≡ n) r)
build_dependency_levels-lem_example = build_dependency_levels-lem queue

abbrev key_moment : DemoKeyMoment
key_moment = record { zone_id = "coke_oven_1"; timestamp = "10:05"; assessment_id = "10:05" }

abbrev plain : String → String
plain s = s

course_of_demo_example :
    run (idle []) (
      DemoEvent.start
      ∷ DemoEvent.loaded (build_steps plain (some key_moment))
      ∷ ticks (length (build_steps plain (some key_moment))))
    ≡ idle (visit_all (build_steps plain (some key_moment)) [])
course_of_demo_example = course_of_demo plain (some key_moment) []

abbrev stray : List DemoEvent
stray =
    DemoEvent.start
    ∷ DemoEvent.stop
    ∷ DemoEvent.loaded (build_steps plain none)
    ∷ DemoEvent.start
    ∷ DemoEvent.tick
    ∷ []

run-IsConsistent_example : IsConsistent (run (idle []) stray)
run-IsConsistent_example = run-IsConsistent stray []

abbrev flagship : ScenarioSummary ℤ
flagship = record {
  key = "scenario_simops_conflict";
  title = "SIMOPS conflict";
  description = "";
  start_time = "10:00";
  end_time = "10:10";
  zone_ids = "coke_oven_1" ∷ [];
  seed = pos 1;
}

abbrev demo_api : DemoApi ℤ
demo_api = record {
  get_scenario = λ key. some flagship;
  get_risk_history = λ zone_id limit. some (calm_tick ∷ alarm_tick ∷ []);
  get_counterfactual_comparison = λ zone_id timestamp. some (record {
    zone_id = zone_id;
    timestamp = timestamp;
    counterfactual = record { alert = false; triggered_sensors = []; highest_ratio = none };
    compound =
        some (record { compound_risk_score = pos 90; confidence = pos 1; tier = Tier.critical });
  });
}

abbrev any_time : String → ℤ
any_time text = pos 1

abbrev first_moment : DemoKeyMoment
first_moment = record { zone_id = "coke_oven_1"; timestamp = "10:00"; assessment_id = "10:00" }

find_scenario_key_moment-IsTickOf_example :
    (scenario : ScenarioSummary ℤ) × (demo_api.get_scenario "scenario_simops_conflict"
      ≡ some scenario)
    × IsTickOf ⦃d = int_double⦄ any_time demo_api scenario first_moment
unfolding find_scenario_key_moment tick_pairs filter select? with_compound
find_scenario_key_moment-IsTickOf_example =
    find_scenario_key_moment-IsTickOf ⦃d = int_double⦄ any_time demo_api "scenario_simops_conflict"
      first_moment refl
