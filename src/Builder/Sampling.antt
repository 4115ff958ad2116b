-- ===== src/Builder/Sampling.antt =====
-- The sampling loop of `validateSensorEvent`, frontend/src/lib/scenarioBuilderValidation.ts.
use industrial_safety_intell.Prelude.{
  ℕ, zero, suc, ◌+◌, ◌≤◌, ◌<◌, true, false, [], ◌∷◌, ◌≡◌, ◌⊎◌, ◌↔◌, refl, sym, arith, Bool-cases,
  inl, inr, String, List, Option, none, some,
}
use mathlib.Core.Path.{subst}
use industrial_safety_intell.Prelude.Double.{Double}
use industrial_safety_intell.Api.Drafts.{SensorEventDraft}
use industrial_safety_intell.Builder.{
  evaluate_curve, sample, is_negative, negative_error, sample_errors,
}

start_or_later : (i j : ℕ) → i ≤ j → (j ≡ i) ⊎ (suc i ≤ j)
start_or_later i j h = ground arith

module _ {N : Type 0} ⦃d : Double N⦄ (e : SensorEventDraft N) where
  -- No sample from `i` on, for `rounds` samples, is negative.
  abbrev pub AllSampled : ℕ → ℕ → Type 0
  AllSampled i rounds = (j : ℕ) → i ≤ j → j < i + rounds → is_negative (sample e j) ≡ false

  sample_errors-AllSampled : (i rounds : ℕ) → sample_errors e i rounds ≡ [] → AllSampled i rounds
  unfolding sample_errors
  sample_errors-AllSampled i zero h j low high = absurd (omega (arith, low, high))
  sample_errors-AllSampled i (suc rounds) h j low high =
      elim (Bool-cases (is_negative (sample e i))) [
        | inl q ↦ absurd (let bad = rw q at h in cc)
        | inr q ↦ elim (start_or_later i j low) [
          | inl same ↦ subst (λ k. is_negative (sample e k) ≡ false) (sym same) q
          | inr later ↦
              sample_errors-AllSampled (suc i) rounds (rw q at h) j later (omega (arith, high))
        ]
      ]

  AllSampled-sample_errors : (i rounds : ℕ) → AllSampled i rounds → sample_errors e i rounds ≡ []
  unfolding sample_errors
  AllSampled-sample_errors i zero h = refl
  AllSampled-sample_errors i (suc rounds) h = rw (h i (omega arith) (omega arith)) (
      AllSampled-sample_errors (suc i) rounds
        (λ j low high. h j (omega (arith, low)) (omega (arith, high))))

  pub sample_errors_iff : (i rounds : ℕ) → (sample_errors e i rounds ≡ []) ↔ AllSampled i rounds
  sample_errors_iff i rounds =
      (sample_errors-AllSampled i rounds, AllSampled-sample_errors i rounds)

  -- The curve has a value below 0 at sample `j`.
  abbrev pub IsNegativeAt : ℕ → Type 0
  IsNegativeAt j =
      (v : N) × (evaluate_curve e.curve (d.mul (d.of_ℕ j) e.sample_interval_minutes) e.params
        ≡ some v)
      × (d.lt v (d.of_ℕ 0) ≡ true)

  -- What the loop reports from `i` on, for `rounds` samples: nothing where no sample is negative, or
  -- the error of the first one that is.
  abbrev pub ReportsFirst : ℕ → ℕ → List String → Type 0
  ReportsFirst i rounds errors =
      ((errors ≡ []) × ((j : ℕ) → i ≤ j → j < i + rounds → ¬ IsNegativeAt j))
      ⊎ ((j : ℕ) × (i ≤ j)
          × (j < i + rounds)
          × IsNegativeAt j
          × ((k : ℕ) → i ≤ k → k < j → ¬ IsNegativeAt k)
          × (errors ≡ negative_error e j ∷ []))

  negative_value :
      (o : Option N) → is_negative o ≡ true → (v : N) × (o ≡ some v) × (d.lt v (d.of_ℕ 0) ≡ true)
  negative_value none h = cc
  negative_value (some v) h = (v, refl, h)

  not_negative : (j : ℕ) → is_negative (sample e j) ≡ false → ¬ IsNegativeAt j
  not_negative j h (v, q, low) = let bad = rw q at h in cc

  -- The sampling loop reports nothing exactly where no sample of its range is negative, and otherwise
  -- exactly one error, that of the first negative sample.
  pub sample_errors-first : (i rounds : ℕ) → ReportsFirst i rounds (sample_errors e i rounds)
  unfolding sample_errors
  sample_errors-first i zero = inl (refl, λ j low high. absurd (omega (arith, low, high)))
  sample_errors-first i (suc rounds) = elim (Bool-cases (is_negative (sample e i))) [
    | inl q ↦ inr (
      i,
      omega arith,
      omega arith,
      negative_value (sample e i) q,
      λ k low high. absurd (omega (arith, low, high)),
      rw q refl,
    )
    | inr q ↦ elim (sample_errors-first (suc i) rounds) [
      | inl (none_told, clear) ↦ inl (
        rw q none_told,
        λ j low high. earlier q (i + suc rounds) (λ k l h. clear k l (omega (arith, h))) j low high,
      )
      | inr (j, low, high, bad, before, eq) ↦
          inr (j, omega (arith, low), omega (arith, high), bad, earlier q j before, rw q eq)
    ]
  ]
    where
      earlier :
          is_negative (sample e i) ≡ false
          → (j : ℕ) → ((k : ℕ) → suc i ≤ k → k < j → ¬ IsNegativeAt k)
          → (k : ℕ) → i ≤ k
          → k < j
          → ¬ IsNegativeAt k
      earlier q j before k low high = elim (start_or_later i k low) [
        | inl same ↦ subst (λ m. ¬ IsNegativeAt m) (sym same) (not_negative i q)
        | inr later ↦ before k later high
      ]
