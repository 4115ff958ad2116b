-- ===== src/Search/Moments.antt =====
-- frontend/src/lib/enterpriseSearch.ts: the search over one moment for each scenario.
use industrial_safety_intell.Prelude.{
  String, Bool, true, false, List, [], ◌∷◌, ◌++◌, Option, none, some, map, ◌||◌, if◌then◌else◌,
}
use industrial_safety_intell.Prelude.Lists.{filter}
use industrial_safety_intell.Prelude.Text.{◌⧺◌}
use industrial_safety_intell.Prelude.Words.{Words, contains}
use industrial_safety_intell.Api.Insight.{ForesightResult, IncidentMatch, category_text}
use industrial_safety_intell.Api.Risk.{
  Zone, ReplayBookmark, CounterfactualComparison, bookmark_text,
}
use industrial_safety_intell.Format.{zone_label}
use industrial_safety_intell.Search.{EnterpriseSearchResult, SearchCategory, for_needle, mentions}

pub record ScenarioMoment (N : Type 0) : Type 0 where
  pub scenario_key : String
  pub scenario_title : String
  pub zone_id : String
  pub timestamp : String
  pub assessment_id : String
  pub events : List ReplayBookmark
  pub counterfactual : Option (CounterfactualComparison N)
  pub foresight : Option (ForesightResult N)
  pub best_match : Option (IncidentMatch N)

abbrev put_result :
    Option EnterpriseSearchResult → List EnterpriseSearchResult → List EnterpriseSearchResult
put_result none rest = rest
put_result (some r) rest = r ∷ rest

abbrev alert_label : Bool → String
alert_label true = "Traditional threshold system would have alerted"
alert_label false = "Traditional threshold system stayed silent"

abbrev event_matches : Words → String → ReplayBookmark → Bool
event_matches w needle e = mentions w needle e.label || mentions w needle (bookmark_text e.kind)

module _ (w : Words) {N : Type 0} where
  abbrev moment_id : ScenarioMoment N → String
  moment_id m = m.scenario_key ⧺ ":" ⧺ m.zone_id ⧺ ":" ⧺ m.timestamp

  abbrev event_result :
      Option (List Zone) → ScenarioMoment N → ReplayBookmark → EnterpriseSearchResult
  event_result zones m e = record {
    category = SearchCategory.event;
    id = m.scenario_key ⧺ ":" ⧺ e.zone_id ⧺ ":" ⧺ e.timestamp;
    label = e.label;
    detail = zone_label e.zone_id zones ⧺ " - " ⧺ m.scenario_title;
    deep_link = "/scenarios/" ⧺ m.scenario_key;
  }

  -- `moments.flatMap(...)`
  unfoldable pub events_of :
      Option (List Zone) → String → List (ScenarioMoment N) → List EnterpriseSearchResult
  unfolding filter contains zone_label
  events_of zones needle [] = []
  events_of zones needle (m ∷ ms) =
      map (event_result zones m) (filter (event_matches w needle) m.events)
      ++ events_of zones needle ms

  unfoldable pub search_events :
      List (ScenarioMoment N) → Option (List Zone) → String → List EnterpriseSearchResult
  unfolding events_of
  search_events moments zones query = for_needle w query (λ needle. events_of zones needle moments)

  -- A moment without a counterfactual is filtered out first.
  abbrev counterfactual_result :
      Option (List Zone)
      → String
      → ScenarioMoment N
      → Option (CounterfactualComparison N)
      → Option EnterpriseSearchResult
  counterfactual_result zones needle m none = none
  counterfactual_result zones needle m (some cf) =
      let label = alert_label cf.counterfactual.alert in
      if mentions w needle (label ⧺ " " ⧺ m.scenario_title ⧺ " counterfactual")
      then some (record {
        category = SearchCategory.counterfactual;
        id = moment_id m;
        label = label;
        detail =
            zone_label m.zone_id zones ⧺ " - " ⧺ m.scenario_title ⧺ " (most notable divergence)";
        deep_link = "/counterfactual/" ⧺ m.zone_id ⧺ "?timestamp=" ⧺ w.encode m.timestamp;
      })
      else none

  unfoldable pub counterfactuals_of :
      Option (List Zone) → String → List (ScenarioMoment N) → List EnterpriseSearchResult
  unfolding contains zone_label
  counterfactuals_of zones needle [] = []
  counterfactuals_of zones needle (m ∷ ms) =
      put_result (counterfactual_result zones needle m m.counterfactual)
        (counterfactuals_of zones needle ms)

  unfoldable pub search_counterfactuals :
      List (ScenarioMoment N) → Option (List Zone) → String → List EnterpriseSearchResult
  unfolding counterfactuals_of
  search_counterfactuals moments zones query =
      for_needle w query (λ needle. counterfactuals_of zones needle moments)

  abbrev forecast_result :
      Option (List Zone)
      → String
      → ScenarioMoment N
      → Option (ForesightResult N)
      → Option EnterpriseSearchResult
  forecast_result zones needle m none = none
  forecast_result zones needle m (some f) =
      let category = category_text f.early_warning.category in
      if mentions w needle
        (category ⧺ " " ⧺ f.early_warning.why ⧺ " " ⧺ m.scenario_title ⧺ " forecast")
      then some (record {
        category = SearchCategory.forecast;
        id = moment_id m;
        label = category ⧺ " - " ⧺ zone_label m.zone_id zones;
        detail = f.early_warning.why ⧺ " (" ⧺ m.scenario_title ⧺ ", highest-risk tick)";
        deep_link = "/decision-workspace/" ⧺ m.assessment_id ⧺ "?stage=forecast";
      })
      else none

  unfoldable pub forecasts_of :
      Option (List Zone) → String → List (ScenarioMoment N) → List EnterpriseSearchResult
  unfolding contains zone_label
  forecasts_of zones needle [] = []
  forecasts_of zones needle (m ∷ ms) =
      put_result (forecast_result zones needle m m.foresight) (forecasts_of zones needle ms)

  unfoldable pub search_forecasts :
      List (ScenarioMoment N) → Option (List Zone) → String → List EnterpriseSearchResult
  unfolding forecasts_of
  search_forecasts moments zones query =
      for_needle w query (λ needle. forecasts_of zones needle moments)

  abbrev impact_result :
      Option (List Zone)
      → String
      → ScenarioMoment N
      → Option (IncidentMatch N)
      → Option EnterpriseSearchResult
  impact_result zones needle m none = none
  impact_result zones needle m (some match) =
      if mentions w needle match.business_impact
      then some (record {
        category = SearchCategory.business_impact;
        id = moment_id m;
        label = match.business_impact;
        detail = zone_label m.zone_id zones ⧺ " - " ⧺ m.scenario_title ⧺ " (highest-risk tick)";
        deep_link = "/decision-workspace/" ⧺ m.assessment_id ⧺ "?stage=business_impact";
      })
      else none

  unfoldable pub impacts_of :
      Option (List Zone) → String → List (ScenarioMoment N) → List EnterpriseSearchResult
  unfolding contains zone_label
  impacts_of zones needle [] = []
  impacts_of zones needle (m ∷ ms) =
      put_result (impact_result zones needle m m.best_match) (impacts_of zones needle ms)

  unfoldable pub search_business_impacts :
      List (ScenarioMoment N) → Option (List Zone) → String → List EnterpriseSearchResult
  unfolding impacts_of
  search_business_impacts moments zones query =
      for_needle w query (λ needle. impacts_of zones needle moments)
