-- ===== src/Builder/Validity.antt =====
-- `validateScenarioDraft` of frontend/src/lib/scenarioBuilderValidation.ts beside valid events.
use industrial_safety_intell.Prelude.Dict
use industrial_safety_intell.Prelude.{
  suc, String, true, false, List, [], ◌∷◌, Option, none, some, is_some, ◌≡◌, ◌↔◌, refl, sym, arith,
  Bool-cases, inl, inr,
}
use mathlib.Core.Path.{subst}
use industrial_safety_intell.Prelude.Double.{Double}
use industrial_safety_intell.Prelude.Eq.{includes, IsDistinct, string_eq}
use industrial_safety_intell.Prelude.Lists.{All, filter}
use industrial_safety_intell.Api.Drafts.{
  SensorEventDraft, PermitEventDraft, ScenarioDefinitionDraft,
}
use industrial_safety_intell.Builder.Checks.{
  both_nil, then_nil, sensor_zone_errors_iff, zone_errors_iff, officer_errors_iff,
  IsDistinct-names_iff,
}
use industrial_safety_intell.Builder.Sampling.{AllSampled, sample_errors_iff}
use industrial_safety_intell.Builder.{
  ScenarioValidationContext, curve_required_params, has_sensor, missing_params, sampling_errors,
  last_step, is_positive, missing_errors, curve_errors_for, curve_errors, sim_time_errors,
  positive_errors, validate_sensor_event, validate_permit_event, sensor_errors, permit_errors,
  event_names, validate_scenario_draft,
}

module _ {N : Type 0} ⦃d : Double N⦄ where
  sim_time_errors_iff :
      (name : String) (t : N) → (sim_time_errors name t ≡ []) ↔ (d.lt t (d.of_ℕ 0) ≡ false)
  unfolding sim_time_errors
  sim_time_errors_iff name t = ground arith

  positive_errors_iff :
      (name field : String) (x : N) → (positive_errors name field x ≡ []) ↔ (is_positive x ≡ true)
  unfolding positive_errors
  positive_errors_iff name field x = ground arith

  missing_params_iff :
      (params : List (String × N)) (required : List String)
      → (missing_params params required ≡ [])
        ↔ All (λ p. is_some (Dict.get p params) ≡ true) required
  unfolding filter
  missing_params_iff params [] = (λ h. tt, λ h. refl)
  missing_params_iff params (p ∷ ps) = elim (Bool-cases (is_some (Dict.get p params))) [
    | inl q ↦ (
      λ h. (q, (missing_params_iff params ps).0 (rw q at h)),
      λ h. rw q ((missing_params_iff params ps).1 h.1),
    )
    | inr q ↦ (λ h. absurd (let e = rw q at h in cc), λ h. absurd (let e = h.0 in cc))
  ]

  -- The curve is known, has its parameters, and is nowhere negative where it is sampled.
  abbrev pub HasCurve : SensorEventDraft N → Type 0
  HasCurve e =
      (required : List String) × (curve_required_params e.curve ≡ some required)
      × All (λ p. is_some (Dict.get p e.params) ≡ true) required
      × AllSampled e 0 (suc (last_step e))

  module _ (e : SensorEventDraft N) (long : is_positive e.duration_minutes ≡ true)
      (often : is_positive e.sample_interval_minutes ≡ true) where
    sampling_errors_iff : (sampling_errors e ≡ []) ↔ AllSampled e 0 (suc (last_step e))
    sampling_errors_iff = rw (long, often) (sample_errors_iff e 0 (suc (last_step e)))

    missing_errors_iff :
        (missing : List String)
        → (missing_errors e missing ≡ []) ↔ ((missing ≡ []) × AllSampled e 0 (suc (last_step e)))
    missing_errors_iff [] = (λ h. (refl, sampling_errors_iff.0 h), λ h. sampling_errors_iff.1 h.1)
    missing_errors_iff (p ∷ ps) = (λ h. absurd (cc), λ h. absurd (let e = h.0 in cc))

    curve_errors_for_iff :
        (o : Option (List String))
        → (curve_errors_for e o ≡ []) ↔ (
            (required : List String) × (o ≡ some required)
            × All (λ p. is_some (Dict.get p e.params) ≡ true) required
            × AllSampled e 0 (suc (last_step e)))
    curve_errors_for_iff none = (λ h. absurd (cc), λ h. absurd (let (r, q, p, s) = h in cc))
    curve_errors_for_iff (some required) =
        let missing = missing_errors_iff (missing_params e.params required) in
        let params = missing_params_iff e.params required in
        (
          λ h. let (p, q) = missing.0 h in (required, refl, params.0 p, q),
          λ h.
              let (r, q, p, s) = h in
              missing.1 (
                params.1
                    (subst (All (λ p. is_some (Dict.get p e.params) ≡ true)) (some_inj (sym q)) p),
                s,
              ),
        )
      where
        some_inj : {x y : List String} → some x ≡ some y → x ≡ y
        some_inj h = cc

  -- A sensor event is valid: its numbers, its curve, and its zone and gas.
  abbrev pub IsValidSensor : ScenarioValidationContext → SensorEventDraft N → Type 0
  IsValidSensor ctx e =
      ((((d.lt e.sim_time (d.of_ℕ 0) ≡ false) × (is_positive e.duration_minutes ≡ true))
          × (is_positive e.sample_interval_minutes ≡ true))
        × HasCurve e)
      × ((includes ctx.known_zone_ids e.zone_id ≡ true)
          × (has_sensor ctx e.zone_id e.gas_type ≡ true))

  abbrev pub IsValidPermit : ScenarioValidationContext → PermitEventDraft N → Type 0
  IsValidPermit ctx e =
      (((d.lt e.sim_time (d.of_ℕ 0) ≡ false) × (is_positive e.duration_minutes ≡ true))
        × (includes ctx.known_zone_ids e.zone_id ≡ true))
      × ((includes ctx.known_worker_ids e.authorizing_officer_id ≡ true)
          × (includes ctx.unassigned_worker_ids e.authorizing_officer_id ≡ false))

  curve_errors_iff :
      (e : SensorEventDraft N)
      → is_positive e.duration_minutes ≡ true
      → is_positive e.sample_interval_minutes ≡ true
      → (curve_errors e ≡ []) ↔ HasCurve e
  unfolding curve_errors
  curve_errors_iff e long often = curve_errors_for_iff e long often (curve_required_params e.curve)

  validate_sensor_event_iff :
      (ctx : ScenarioValidationContext) (e : SensorEventDraft N)
      → (validate_sensor_event ctx e ≡ []) ↔ IsValidSensor ctx e
  unfolding validate_sensor_event
  validate_sensor_event_iff ctx e =
      both_nil _ _
        (then_nil _ _
          (both_nil _ _
            (both_nil _ _ (sim_time_errors_iff e.name e.sim_time)
              (positive_errors_iff e.name "duration_minutes" e.duration_minutes))
            (positive_errors_iff e.name "sample_interval_minutes" e.sample_interval_minutes))
          (λ h. curve_errors_iff e h.0.1 h.1))
        (sensor_zone_errors_iff ctx e.name e.zone_id e.gas_type)

  validate_permit_event_iff :
      (ctx : ScenarioValidationContext) (e : PermitEventDraft N)
      → (validate_permit_event ctx e ≡ []) ↔ IsValidPermit ctx e
  unfolding validate_permit_event
  validate_permit_event_iff ctx e =
      both_nil _ _
        (both_nil _ _
          (both_nil _ _ (sim_time_errors_iff e.name e.sim_time)
            (positive_errors_iff e.name "duration_minutes" e.duration_minutes))
          (zone_errors_iff ctx e.name e.zone_id))
        (officer_errors_iff ctx e.name e.authorizing_officer_id)

  sensor_errors_iff :
      (ctx : ScenarioValidationContext) (es : List (SensorEventDraft N))
      → (sensor_errors ctx es ≡ []) ↔ All (IsValidSensor ctx) es
  unfolding sensor_errors
  sensor_errors_iff ctx [] = (λ h. tt, λ h. refl)
  sensor_errors_iff ctx (e ∷ es) =
      both_nil _ _ (validate_sensor_event_iff ctx e) (sensor_errors_iff ctx es)

  permit_errors_iff :
      (ctx : ScenarioValidationContext) (es : List (PermitEventDraft N))
      → (permit_errors ctx es ≡ []) ↔ All (IsValidPermit ctx) es
  unfolding permit_errors
  permit_errors_iff ctx [] = (λ h. tt, λ h. refl)
  permit_errors_iff ctx (e ∷ es) =
      both_nil _ _ (validate_permit_event_iff ctx e) (permit_errors_iff ctx es)

  -- A draft has no error exactly if no two events have the same name, and every sensor event and
  -- every permit event is valid: a time that is not negative, positive durations, a known curve with
  -- all its parameters and no negative sample, a known zone with a sensor for the gas, and a known
  -- officer who is assigned to a zone.
  pub validate_scenario_draft_iff :
      (draft : ScenarioDefinitionDraft N) (ctx : ScenarioValidationContext)
      → (validate_scenario_draft draft ctx ≡ []) ↔ (
          (IsDistinct (event_names draft) × All (IsValidSensor ctx) draft.sensor_events)
          × All (IsValidPermit ctx) draft.permit_events)
  unfolding validate_scenario_draft
  validate_scenario_draft_iff draft ctx =
      both_nil _ _
        (both_nil _ _ (IsDistinct-names_iff (event_names draft))
          (sensor_errors_iff ctx draft.sensor_events))
        (permit_errors_iff ctx draft.permit_events)
