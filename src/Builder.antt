-- ===== src/Builder.antt =====
-- frontend/src/lib/scenarioBuilderValidation.ts: every error of a drafted scenario.
pub mod Preview
pub mod Sampling
pub mod Checks
pub mod Validity
pub mod Sequence
use industrial_safety_intell.Prelude.Dict
use industrial_safety_intell.Prelude.{
  ℕ, zero, suc, String, Bool, List, [], ◌∷◌, ◌++◌, Option, none, some, map, not, is_some, or_else,
  ◌&&◌, if◌then◌else◌,
}
use industrial_safety_intell.Prelude.Double.{Double, le}
use industrial_safety_intell.Prelude.Eq.{◌==◌, includes, string_eq}
use industrial_safety_intell.Prelude.Lists.{filter}
use industrial_safety_intell.Prelude.Text.{◌⧺◌, join}
use industrial_safety_intell.Api.Drafts.{
  SensorEventDraft, PermitEventDraft, ScenarioDefinitionDraft,
}
use industrial_safety_intell.Justification.{◌>>=◌}

-- The sets and the map, as their members and entries.
pub record ScenarioValidationContext : Type 0 where
  pub known_zone_ids : List String
  pub known_worker_ids : List String
  pub unassigned_worker_ids : List String
  pub zone_gas_types : List (String × List String)

-- CURVE_REQUIRED_PARAMS, on its own keys
unfoldable pub curve_required_params : String → Option (List String)
curve_required_params curve =
    if curve == "linear_ramp"
    then some ("start_value" ∷ "slope" ∷ [])
    else if curve == "exponential_rise"
    then some ("start_value" ∷ "rate" ∷ [])
    else if curve == "step"
    then some ("baseline" ∷ "step_value" ∷ "step_time" ∷ [])
    else none

-- `if (b) errors.push(message)`
abbrev pub error_if : Bool → String → List String
error_if b message = if b then message ∷ [] else []

abbrev pub event_error : String → String → String
event_error name problem = "event \"" ⧺ name ⧺ "\": " ⧺ problem

-- `!ctx.zoneGasTypes.get(zone)?.has(gas)`
abbrev pub has_sensor : ScenarioValidationContext → String → String → Bool
has_sensor ctx zone_id gas_type =
    includes (or_else (Dict.get zone_id ctx.zone_gas_types) []) gas_type

unfoldable pub zone_errors : ScenarioValidationContext → String → String → List String
zone_errors ctx name zone_id =
    error_if (not (includes ctx.known_zone_ids zone_id))
      (event_error name ("unknown zone \"" ⧺ zone_id ⧺ "\""))

unfoldable pub sensor_zone_errors :
    ScenarioValidationContext → String → String → String → List String
sensor_zone_errors ctx name zone_id gas_type =
    if includes ctx.known_zone_ids zone_id
    then error_if (not (has_sensor ctx zone_id gas_type))
        (event_error name ("no sensor for zone=\"" ⧺ zone_id ⧺ "\" gas_type=\"" ⧺ gas_type ⧺ "\""))
    else event_error name ("unknown zone \"" ⧺ zone_id ⧺ "\"") ∷ []

unfoldable pub officer_errors : ScenarioValidationContext → String → String → List String
officer_errors ctx name officer =
    if includes ctx.known_worker_ids officer
    then error_if (includes ctx.unassigned_worker_ids officer) (
        event_error name
          ("authorizing officer \"" ⧺ officer ⧺ "\" is not currently assigned to any zone"))
    else event_error name ("unknown authorizing officer \"" ⧺ officer ⧺ "\"") ∷ []

-- The loop over the names, with those seen so far.
unfoldable pub duplicate_errors : List String → List String → List String
duplicate_errors seen [] = []
duplicate_errors seen (name ∷ names) =
    error_if (includes seen name) ("duplicate event name: \"" ⧺ name ⧺ "\"")
    ++ duplicate_errors (name ∷ seen) names

module _ {N : Type 0} where
  -- `requiredParams.filter((p) => !(p in event.params))`
  abbrev pub missing_params : List (String × N) → List String → List String
  missing_params params = filter (λ p. not (is_some (Dict.get p params)))

module _ {N : Type 0} ⦃d : Double N⦄ where
  -- `none` is NaN: the sum or product with a parameter that is not there, and an unknown curve.
  unfoldable pub evaluate_curve : String → N → List (String × N) → Option N
  evaluate_curve curve t params =
      if curve == "linear_ramp"
      then (do
        start_value ← Dict.get "start_value" params
        slope ← Dict.get "slope" params
        some (d.add start_value (d.mul slope t)))
      else if curve == "exponential_rise"
      then (do
        start_value ← Dict.get "start_value" params
        rate ← Dict.get "rate" params
        some (d.mul start_value (d.exp (d.mul rate t))))
      else if curve == "step"
      then (do
        step_time ← Dict.get "step_time" params
        if le step_time t then Dict.get "step_value" params else Dict.get "baseline" params)
      else none

  -- `value < 0`
  abbrev pub is_negative : Option N → Bool
  is_negative none = Bool.false
  is_negative (some value) = d.lt value (d.of_ℕ 0)

  abbrev pub value_text : Option N → String
  value_text none = "NaN"
  value_text (some value) = d.to_fixed value 3

  -- The value of sample `i`, and the time it is taken at.
  abbrev pub sample_time : SensorEventDraft N → ℕ → N
  sample_time e i = d.mul (d.of_ℕ i) e.sample_interval_minutes

  abbrev pub sample : SensorEventDraft N → ℕ → Option N
  sample e i = evaluate_curve e.curve (sample_time e i) e.params

  abbrev pub negative_error : SensorEventDraft N → ℕ → String
  negative_error e i = event_error e.name (
      "produces a negative concentration ("
      ⧺ value_text (sample e i)
      ⧺ ") at t="
      ⧺ d.to_string (sample_time e i))

  -- The sampling loop with its `break`, for `rounds` rounds from `i` on.
  unfoldable pub sample_errors : SensorEventDraft N → ℕ → ℕ → List String
  sample_errors e i zero = []
  sample_errors e i (suc rounds) =
      let later = sample_errors e (suc i) rounds in
      if is_negative (sample e i) then negative_error e i ∷ [] else later

  -- `Math.floor(duration / interval)`
  abbrev pub last_step : SensorEventDraft N → ℕ
  last_step e = d.floor_ℕ (d.div e.duration_minutes e.sample_interval_minutes)

  abbrev pub is_positive : N → Bool
  is_positive x = d.lt (d.of_ℕ 0) x

  -- `i <= steps` runs `steps + 1` times.
  abbrev pub sampling_errors : SensorEventDraft N → List String
  sampling_errors e =
      if is_positive e.duration_minutes && is_positive e.sample_interval_minutes
      then sample_errors e 0 (suc (last_step e))
      else []

  abbrev pub missing_errors : SensorEventDraft N → List String → List String
  missing_errors e [] = sampling_errors e
  missing_errors e (p ∷ ps) =
      event_error e.name ("curve \"" ⧺ e.curve ⧺ "\" missing params " ⧺ join ", " (p ∷ ps)) ∷ []

  abbrev pub curve_errors_for : SensorEventDraft N → Option (List String) → List String
  curve_errors_for e none =
      event_error e.name
        ("unknown curve type \"" ⧺ e.curve ⧺ "\" (known: exponential_rise, linear_ramp, step)")
      ∷ []
  curve_errors_for e (some required) = missing_errors e (missing_params e.params required)

  unfoldable pub curve_errors : SensorEventDraft N → List String
  curve_errors e = curve_errors_for e (curve_required_params e.curve)

  -- `simTime < 0` and `x <= 0`
  unfoldable pub sim_time_errors : String → N → List String
  sim_time_errors name sim_time =
      error_if (d.lt sim_time (d.of_ℕ 0)) (event_error name "sim_time must be >= 0")

  unfoldable pub positive_errors : String → String → N → List String
  positive_errors name field x =
      error_if (le x (d.of_ℕ 0)) (event_error name (field ⧺ " must be > 0"))

  unfoldable pub validate_sensor_event :
      ScenarioValidationContext → SensorEventDraft N → List String
  validate_sensor_event ctx e =
      sim_time_errors e.name e.sim_time
      ++ positive_errors e.name "duration_minutes" e.duration_minutes
      ++ positive_errors e.name "sample_interval_minutes" e.sample_interval_minutes
      ++ curve_errors e
      ++ sensor_zone_errors ctx e.name e.zone_id e.gas_type

  unfoldable pub validate_permit_event :
      ScenarioValidationContext → PermitEventDraft N → List String
  validate_permit_event ctx e =
      sim_time_errors e.name e.sim_time
      ++ positive_errors e.name "duration_minutes" e.duration_minutes
      ++ zone_errors ctx e.name e.zone_id
      ++ officer_errors ctx e.name e.authorizing_officer_id

  unfoldable pub sensor_errors : ScenarioValidationContext → List (SensorEventDraft N) → List String
  sensor_errors ctx [] = []
  sensor_errors ctx (e ∷ es) = validate_sensor_event ctx e ++ sensor_errors ctx es

  unfoldable pub permit_errors : ScenarioValidationContext → List (PermitEventDraft N) → List String
  permit_errors ctx [] = []
  permit_errors ctx (e ∷ es) = validate_permit_event ctx e ++ permit_errors ctx es

  abbrev pub event_names : ScenarioDefinitionDraft N → List String
  event_names draft = map (λ e. e.name) draft.sensor_events ++ map (λ e. e.name) draft.permit_events

  unfoldable pub validate_scenario_draft :
      ScenarioDefinitionDraft N → ScenarioValidationContext → List String
  validate_scenario_draft draft ctx =
      duplicate_errors [] (event_names draft)
      ++ sensor_errors ctx draft.sensor_events
      ++ permit_errors ctx draft.permit_events
