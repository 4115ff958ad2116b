-- ===== src/Builder/Checks.antt =====
-- The checks of names, zones and officers in frontend/src/lib/scenarioBuilderValidation.ts.
use industrial_safety_intell.Prelude.{
  String, Bool, true, false, List, [], ◌∷◌, ◌++◌, ◌≡◌, ◌↔◌, refl, arith,
}
use industrial_safety_intell.Prelude.Eq.{includes, IsDistinct, string_eq}
use industrial_safety_intell.Prelude.Lists.{All}
use industrial_safety_intell.Builder.{
  ScenarioValidationContext, error_if, has_sensor, zone_errors, sensor_zone_errors, officer_errors,
  duplicate_errors,
}

-- Two statements about lists of errors, as one about their concatenation.
pub both_nil :
    (xs ys : List String) {P Q : Type 0} → (xs ≡ []) ↔ P → (ys ≡ []) ↔ Q → (xs ++ ys ≡ []) ↔ (P × Q)
both_nil [] ys p q = (λ h. (p.0 refl, q.0 h), λ h. q.1 h.1)
both_nil (x ∷ xs) ys p q = (λ h. absurd (cc), λ h. absurd (let e = p.1 h.0 in cc))

-- The second statement may need the first.
pub then_nil :
    (xs ys : List String) {P Q : Type 0}
    → (xs ≡ []) ↔ P
    → (P → (ys ≡ []) ↔ Q)
    → (xs ++ ys ≡ []) ↔ (P × Q)
then_nil [] ys p q = (λ h. let v = p.0 refl in (v, (q v).0 h), λ h. (q h.0).1 h.1)
then_nil (x ∷ xs) ys p q = (λ h. absurd (cc), λ h. absurd (let e = p.1 h.0 in cc))

error_if_iff : (b : Bool) (m : String) → (error_if b m ≡ []) ↔ (b ≡ false)
error_if_iff true m = (λ h. absurd (cc), λ h. absurd (cc))
error_if_iff false m = (λ h. refl, λ h. refl)

pub sensor_zone_errors_iff :
    (ctx : ScenarioValidationContext) (name zone_id gas_type : String)
    → (sensor_zone_errors ctx name zone_id gas_type ≡ [])
      ↔ ((includes ctx.known_zone_ids zone_id ≡ true) × (has_sensor ctx zone_id gas_type ≡ true))
unfolding sensor_zone_errors
sensor_zone_errors_iff ctx name zone_id gas_type = ground arith

pub zone_errors_iff :
    (ctx : ScenarioValidationContext) (name zone_id : String)
    → (zone_errors ctx name zone_id ≡ []) ↔ (includes ctx.known_zone_ids zone_id ≡ true)
unfolding zone_errors
zone_errors_iff ctx name zone_id = ground arith

pub officer_errors_iff :
    (ctx : ScenarioValidationContext) (name officer : String)
    → (officer_errors ctx name officer ≡ []) ↔ (
        (includes ctx.known_worker_ids officer ≡ true)
        × (includes ctx.unassigned_worker_ids officer ≡ false))
unfolding officer_errors
officer_errors_iff ctx name officer = ground arith

unseen_by :
    (seen : List String) (n : String) (names : List String)
    → All (λ m. includes (n ∷ seen) m ≡ false) names
      ↔ ((includes names n ≡ false) × All (λ m. includes seen m ≡ false) names)
unfolding includes
unseen_by seen n [] = (λ h. (refl, tt), λ h. tt)
unseen_by seen n (m ∷ names) =
    ground (arith, unseen_by seen n names, string_eq.same_iff n m, string_eq.same_iff m n)

duplicate_errors_iff :
    (seen names : List String)
    → (duplicate_errors seen names ≡ [])
      ↔ (All (λ m. includes seen m ≡ false) names × IsDistinct names)
unfolding duplicate_errors
duplicate_errors_iff seen [] = (λ h. (tt, tt), λ h. refl)
duplicate_errors_iff seen (n ∷ names) =
    let split =
      both_nil (error_if (includes seen n) _) (duplicate_errors (n ∷ seen) names)
        (error_if_iff (includes seen n) _) (duplicate_errors_iff (n ∷ seen) names) in
    let unseen = unseen_by seen n names in
    (
      λ h. let (p, qr) = split.0 h in let (s, t) = unseen.0 qr.0 in ((p, t), (s, qr.1)),
      λ h. split.1 (h.0.0, (unseen.1 (h.1.0, h.0.1), h.1.1)),
    )

All-unseen : (names : List String) → All (λ m. includes [] m ≡ false) names
unfolding includes
All-unseen [] = tt
All-unseen (n ∷ names) = (refl, All-unseen names)

pub IsDistinct-names_iff :
    (names : List String) → (duplicate_errors [] names ≡ []) ↔ IsDistinct names
IsDistinct-names_iff names =
    let iff = duplicate_errors_iff [] names in (λ h. (iff.0 h).1, λ h. iff.1 (All-unseen names, h))
