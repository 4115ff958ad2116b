-- ===== src/Client/Endpoints.antt =====
-- frontend/src/api: the endpoints, each one call of the client.
use industrial_safety_intell.Prelude.{
  String, List, [], ◌∷◌, Option, none, some, or_else, if◌then◌else◌,
}
use industrial_safety_intell.Prelude.Double.{Double}
use industrial_safety_intell.Prelude.Eq.{◌==◌, string_eq}
use industrial_safety_intell.Prelude.Text.{◌⧺◌, join}
use industrial_safety_intell.Api.Json.{Json}
use industrial_safety_intell.Client.{
  Platform, QueryValue, text, number, undefined, Result, api_get, api_post,
}
use industrial_safety_intell.Replay.Engine.{ReplayTarget}

-- A query as it is written: the parameters by name.
abbrev pub Query : Type 0 → Type 0
Query N = List (String × QueryValue N)

module _ {N : Type 0} where
  -- A property that is missing is `undefined`.
  abbrev pub number_or_undefined : Option N → QueryValue N
  number_or_undefined none = undefined
  number_or_undefined (some n) = number n

  abbrev pub text_or_undefined : Option String → QueryValue N
  text_or_undefined none = undefined
  text_or_undefined (some s) = text s

  -- The `zone_ids`, `start` and `end` of a target.
  abbrev window_query : ReplayTarget → Query N
  window_query t =
      ("zone_ids", text (join "," (or_else t.zone_ids [])))
      ∷ ("start", text_or_undefined t.start)
      ∷ ("end", text_or_undefined t.end)
      ∷ []

  -- An empty scenario key counts as none.
  abbrev replay_query_for : ReplayTarget → Option String → Query N
  replay_query_for t none = window_query t
  replay_query_for t (some key) =
      if key == "" then window_query t else ("scenario_key", text key) ∷ []

  unfoldable pub replay_query : ReplayTarget → Query N
  replay_query t = replay_query_for t t.scenario_key

module _ {N : Type 0} ⦃d : Double N⦄ (p : Platform N) (base_url : String) where
  abbrev get : String → Query N → Result N
  get path query = api_get p base_url path query

  -- audit.ts, permits.ts, zones.ts, scenarios.ts
  abbrev pub get_audit_log : Query N → Result N
  get_audit_log query = get "/api/v1/audit" query

  abbrev pub get_permits : Query N → Result N
  get_permits query = get "/api/v1/permits" query

  abbrev pub get_zones : Result N
  get_zones = get "/api/v1/zones" []

  abbrev pub get_zone_worker_count : String → Result N
  get_zone_worker_count zone_id = get ("/api/v1/zones/" ⧺ zone_id ⧺ "/workers/count") []

  abbrev pub get_scenarios : Result N
  get_scenarios = get "/api/v1/scenarios" []

  abbrev pub get_scenario : String → Result N
  get_scenario key = get ("/api/v1/scenarios/" ⧺ key) []

  -- risk.ts, counterfactual.ts, replay.ts
  abbrev pub get_current_risk : Result N
  get_current_risk = get "/api/v1/risk/current" []

  abbrev pub get_risk_history : String → Query N → Result N
  get_risk_history zone_id query = get ("/api/v1/risk/history/" ⧺ zone_id) query

  abbrev pub get_risk_assessment : String → Result N
  get_risk_assessment assessment_id = get ("/api/v1/risk/assessment/" ⧺ assessment_id) []

  abbrev pub get_counterfactual_comparison : String → String → Result N
  get_counterfactual_comparison zone_id timestamp =
      get ("/api/v1/counterfactual/" ⧺ zone_id) (("timestamp", text timestamp) ∷ [])

  unfoldable pub get_replay : ReplayTarget → Result N
  unfolding api_get replay_query
  get_replay target = get "/api/v1/replay" (replay_query target)

  -- historical.ts and foresight.ts, with their options
  abbrev pub get_historical_decks : Result N
  get_historical_decks = get "/api/v1/historical/decks" []

  abbrev pub get_historical_matches : String → String → Option N → Option String → Result N
  get_historical_matches zone_id timestamp top_n deck_key = get "/api/v1/historical/matches" (
      ("zone_id", text zone_id)
      ∷ ("timestamp", text timestamp)
      ∷ ("top_n", number_or_undefined top_n)
      ∷ ("deck_key", text_or_undefined deck_key)
      ∷ [])

  abbrev pub get_historical_analytics : Option String → Result N
  get_historical_analytics deck_key =
      get "/api/v1/historical/analytics" (("deck_key", text_or_undefined deck_key) ∷ [])

  abbrev pub get_foresight_forecast :
      String → String → String → Option N → Option N → Option String → Result N
  get_foresight_forecast zone_id timestamp scenario_key window_size top_n deck_key =
      get "/api/v1/foresight/forecast" (
        ("zone_id", text zone_id)
        ∷ ("timestamp", text timestamp)
        ∷ ("scenario_key", text scenario_key)
        ∷ ("window_size", number_or_undefined window_size)
        ∷ ("top_n", number_or_undefined top_n)
        ∷ ("deck_key", text_or_undefined deck_key)
        ∷ [])

  -- graph.ts
  abbrev pub get_graph_entity : String → String → Result N
  get_graph_entity kind id = get ("/api/v1/graph/entity/" ⧺ kind ⧺ "/" ⧺ id) []

  abbrev pub get_graph_neighbors : String → String → Result N
  get_graph_neighbors kind id = get ("/api/v1/graph/neighbors/" ⧺ kind ⧺ "/" ⧺ id) []

  abbrev pub get_graph_subgraph : String → String → Option N → Option N → Result N
  get_graph_subgraph kind id depth max_nodes =
      get ("/api/v1/graph/subgraph/" ⧺ kind ⧺ "/" ⧺ id)
        (("depth", number_or_undefined depth) ∷ ("max_nodes", number_or_undefined max_nodes) ∷ [])

  abbrev pub search_graph_entities : String → Option N → Result N
  search_graph_entities query limit =
      get "/api/v1/graph/search" (("q", text query) ∷ ("limit", number_or_undefined limit) ∷ [])

  abbrev pub get_graph_path : String × String → String × String → Option N → Result N
  get_graph_path source target max_depth = get "/api/v1/graph/path" (
      ("source_kind", text source.0)
      ∷ ("source_id", text source.1)
      ∷ ("target_kind", text target.0)
      ∷ ("target_id", text target.1)
      ∷ ("max_depth", number_or_undefined max_depth)
      ∷ [])

  -- health.ts, ingest.ts and scenarioBuilder.ts; a body is the JSON of the argument
  abbrev pub get_health : Result N
  get_health = get "/api/v1/health" []

  abbrev pub get_platform_health : Result N
  get_platform_health = get "/api/v1/health/platform" []

  abbrev pub get_connector_status : Result N
  get_connector_status = get "/api/v1/ingest/status" []

  abbrev pub poll_mock_connector : String → Json N → Result N
  poll_mock_connector protocol body = api_post p base_url ("/api/v1/ingest/mock/" ⧺ protocol) body

  abbrev pub ingest_reading : Json N → Result N
  ingest_reading body = api_post p base_url "/api/v1/ingest/reading" body

  abbrev pub get_workers : Result N
  get_workers = get "/api/v1/workers" []

  abbrev pub get_zone_sensors : String → Result N
  get_zone_sensors zone_id = get ("/api/v1/zones/" ⧺ zone_id ⧺ "/sensors") []

  abbrev pub get_zone_equipment : String → Result N
  get_zone_equipment zone_id = get ("/api/v1/zones/" ⧺ zone_id ⧺ "/equipment") []

  abbrev pub get_builder_options : Result N
  get_builder_options = get "/api/v1/scenario-builder/options" []

  abbrev pub validate_scenario : Json N → Result N
  validate_scenario draft = api_post p base_url "/api/v1/scenario-builder/validate" draft

  abbrev pub execute_scenario : Json N → Result N
  execute_scenario draft = api_post p base_url "/api/v1/scenario-builder/execute" draft
