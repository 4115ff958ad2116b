-- ===== src/Search.antt =====
-- frontend/src/lib/enterpriseSearch.ts: the search over everything that the platform shows.
pub mod Moments
pub mod Matches
pub mod Vocabulary
use industrial_safety_intell.Prelude.{
  String, Bool, true, false, List, [], ◌∷◌, ◌++◌, Option, none, some, map, is_some, ◌||◌,
  if◌then◌else◌,
}
use industrial_safety_intell.Prelude.Dict.{get, set}
use industrial_safety_intell.Prelude.Double.{Double}
use industrial_safety_intell.Prelude.Eq.{◌==◌, string_eq}
use industrial_safety_intell.Prelude.Lists.{filter}
use industrial_safety_intell.Prelude.Text.{◌⧺◌}
use industrial_safety_intell.Prelude.Words.{Words, contains}
use industrial_safety_intell.Api.Graph.{GraphEntityKind, GraphEntity, kind_text}
use industrial_safety_intell.Api.Insight.{RuleFrequency, CrossScenarioAnalytics}
use industrial_safety_intell.Api.Risk.{Permit, Zone, status_text}
use industrial_safety_intell.Format.{zone_label}
use industrial_safety_intell.Recommendations.{
  Recommendation, Severity, all_recommendation_templates,
}
use industrial_safety_intell.Standards.{StandardReference, standards_for_recommendation_table}

pub data SearchCategory : Type 0 where
  zone sensor worker equipment historical_incident permit recommendation standard : SearchCategory
  lesson hazard event counterfactual forecast business_impact : SearchCategory

-- A category as the string that it is in the source.
abbrev pub category_name : SearchCategory → String
category_name zone = "Zone"
category_name sensor = "Sensor"
category_name worker = "Worker"
category_name equipment = "Equipment"
category_name historical_incident = "Historical Incident"
category_name permit = "Permit"
category_name recommendation = "Recommendation"
category_name standard = "Standard"
category_name lesson = "Lesson"
category_name hazard = "Hazard"
category_name event = "Event"
category_name counterfactual = "Counterfactual"
category_name forecast = "Forecast"
category_name business_impact = "Business Impact"

pub record EnterpriseSearchResult : Type 0 where
  pub category : SearchCategory
  pub id : String
  pub label : String
  pub detail : String
  pub deep_link : String

-- GRAPH_CATEGORY
abbrev pub graph_category : GraphEntityKind → Option SearchCategory
graph_category GraphEntityKind.zone = some zone
graph_category GraphEntityKind.sensor = some sensor
graph_category GraphEntityKind.worker = some worker
graph_category GraphEntityKind.equipment = some equipment
graph_category GraphEntityKind.historical_incident = some historical_incident
graph_category _ = none

abbrev pub severity_text : Severity → String
severity_text Severity.critical = "critical"
severity_text Severity.high = "high"
severity_text Severity.medium = "medium"

module _ (w : Words) where
  -- `query.trim().toLowerCase()`
  abbrev pub needle_of : String → String
  needle_of query = w.lower (w.trim query)

  -- The early return for a query of blanks.
  abbrev pub for_needle :
      String → (String → List EnterpriseSearchResult) → List EnterpriseSearchResult
  for_needle query search =
      let needle = needle_of query in if needle == "" then [] else search needle

  -- `text.toLowerCase().includes(needle)`
  abbrev pub mentions : String → String → Bool
  mentions needle text = contains (w.lower text) needle

  abbrev entity_link : GraphEntityKind → String → String
  entity_link GraphEntityKind.zone id = "/zones/" ⧺ id
  entity_link kind id = "/knowledge-graph?focus=" ⧺ w.encode (kind_text kind ⧺ ":" ⧺ id)

  abbrev entity_result :
      {N : Type 0} → GraphEntity N → Option SearchCategory → Option EnterpriseSearchResult
  entity_result entity none = none
  entity_result entity (some category) = some (record {
    category = category;
    id = kind_text entity.kind ⧺ ":" ⧺ entity.id;
    label = entity.label;
    detail = category_name category;
    deep_link = entity_link entity.kind entity.id;
  })

  unfoldable pub graph_entity_to_search_result :
      {N : Type 0} → GraphEntity N → Option EnterpriseSearchResult
  unfolding kind_text
  graph_entity_to_search_result entity = entity_result entity (graph_category entity.kind)

  module _ {N : Type 0} where
    abbrev pub permit_matches : Option (List Zone) → String → Permit N → Bool
    permit_matches zones needle p =
        mentions needle p.permit_type
        || mentions needle (status_text p.status)
        || mentions needle (zone_label p.zone_id zones)

    abbrev pub permit_result : Option (List Zone) → Permit N → EnterpriseSearchResult
    permit_result zones p = record {
      category = permit;
      id = p.permit_id;
      label = p.permit_type ⧺ " - " ⧺ zone_label p.zone_id zones;
      detail = "Status: " ⧺ status_text p.status;
      deep_link = "/permits";
    }

    unfoldable pub search_permits :
        List (Permit N) → Option (List Zone) → String → List EnterpriseSearchResult
    unfolding zone_label filter contains
    search_permits permits zones query =
        for_needle query
          (λ needle. map (permit_result zones) (filter (permit_matches zones needle) permits))

  abbrev pub template_result : Recommendation → EnterpriseSearchResult
  template_result t = record {
    category = recommendation;
    id = t.id;
    label = t.text;
    detail =
        "Severity: " ⧺ severity_text t.severity ⧺ " (vocabulary reference, not a specific tick)";
    deep_link = "/knowledge-graph";
  }

  unfoldable pub search_recommendation_templates : String → List EnterpriseSearchResult
  unfolding filter contains all_recommendation_templates
  search_recommendation_templates query = for_needle query (λ needle.
      map template_result (filter (λ t. mentions needle t.text) all_recommendation_templates))

  -- `Map<string, EnterpriseSearchResult>`
  abbrev pub Seen : Type 0
  Seen = List (String × EnterpriseSearchResult)

  abbrev pub standard_key : StandardReference → String
  standard_key s = s.code ⧺ s.title

  abbrev pub standard_matches : String → StandardReference → Bool
  standard_matches needle s = mentions needle (s.code ⧺ " " ⧺ s.title ⧺ " " ⧺ s.summary)

  abbrev pub standard_result : StandardReference → EnterpriseSearchResult
  standard_result s = record {
    category = standard;
    id = standard_key s;
    label = s.code ⧺ " - " ⧺ s.title;
    detail = s.summary;
    deep_link = "/knowledge-graph";
  }

  -- The body of the loop over the standards.
  abbrev pub see_standard : String → Seen → StandardReference → Seen
  see_standard needle seen s =
      if is_some (get (standard_key s) seen)
      then seen
      else if standard_matches needle s
      then set (standard_key s) (standard_result s) seen
      else seen

  unfoldable pub see_standards : String → Seen → List StandardReference → Seen
  unfolding contains
  see_standards needle seen [] = seen
  see_standards needle seen (s ∷ rest) = see_standards needle (see_standard needle seen s) rest

  unfoldable pub see_table : String → Seen → List (String × List StandardReference) → Seen
  unfolding see_standards
  see_table needle seen [] = seen
  see_table needle seen ((id, standards) ∷ rest) =
      see_table needle (see_standards needle seen standards) rest

  unfoldable pub search_standards : String → List EnterpriseSearchResult
  unfolding see_table
  search_standards query =
      for_needle query
        (λ needle. map (λ e. e.1) (see_table needle [] standards_for_recommendation_table))

  module _ {N : Type 0} ⦃d : Double N⦄ where
    abbrev rule_result : SearchCategory → RuleFrequency N → EnterpriseSearchResult
    rule_result category entry = record {
      category = category;
      id = category_name category ⧺ ":" ⧺ entry.rule;
      label = entry.lesson;
      detail =
          "Rule: "
          ⧺ entry.rule
          ⧺ " ("
          ⧺ d.to_string entry.incident_count
          ⧺ " incident(s), cross-scenario)";
      deep_link = "/knowledge-graph";
    }

    unfoldable pub to_results :
        String → List (RuleFrequency N) → SearchCategory → List EnterpriseSearchResult
    unfolding filter contains
    to_results needle entries category =
        map (rule_result category)
          (filter (λ e. mentions needle e.lesson || mentions needle e.rule) entries)

    abbrev analytics_results :
        Option (CrossScenarioAnalytics N) → String → List EnterpriseSearchResult
    analytics_results none needle = []
    analytics_results (some a) needle =
        to_results needle a.most_common_causes lesson
        ++ to_results needle a.most_common_equipment_issues lesson
        ++ to_results needle a.most_common_permit_conflicts lesson
        ++ to_results needle a.most_common_worker_hazards hazard

    unfoldable pub search_analytics_lessons_and_hazards :
        Option (CrossScenarioAnalytics N) → String → List EnterpriseSearchResult
    unfolding to_results
    search_analytics_lessons_and_hazards analytics query =
        for_needle query (analytics_results analytics)
