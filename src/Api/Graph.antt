-- ===== src/Api/Graph.antt =====
-- The knowledge graph's payloads in api/types.ts.
use industrial_safety_intell.Prelude.{String}
use industrial_safety_intell.Api.Json.{Fields}

pub data GraphEntityKind : Type 0 where
  plant zone sensor sensor_reading worker equipment permit risk_assessment triggered_agent :
      GraphEntityKind
  recommendation historical_incident forecast lesson_learned counterfactual business_impact :
      GraphEntityKind

-- A kind as the string that it is in the payload.
unfoldable pub kind_text : GraphEntityKind → String
kind_text plant = "plant"
kind_text zone = "zone"
kind_text sensor = "sensor"
kind_text sensor_reading = "sensor_reading"
kind_text worker = "worker"
kind_text equipment = "equipment"
kind_text permit = "permit"
kind_text risk_assessment = "risk_assessment"
kind_text triggered_agent = "triggered_agent"
kind_text recommendation = "recommendation"
kind_text historical_incident = "historical_incident"
kind_text forecast = "forecast"
kind_text lesson_learned = "lesson_learned"
kind_text counterfactual = "counterfactual"
kind_text business_impact = "business_impact"

pub record GraphEntity (N : Type 0) : Type 0 where
  pub kind : GraphEntityKind
  pub id : String
  pub label : String
  pub attributes : Fields N

pub record GraphEdge : Type 0 where
  pub source_kind : GraphEntityKind
  pub source_id : String
  pub relation : String
  pub target_kind : GraphEntityKind
  pub target_id : String
  pub label : String

pub record GraphNeighbor (N : Type 0) : Type 0 where
  pub edge : GraphEdge
  pub entity : GraphEntity N
