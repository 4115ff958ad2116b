-- ===== src/Presentation/Peak.antt =====
-- The ticks that the guided presentation picks, frontend/src/lib/presentationScript.ts.
use industrial_safety_intell.Prelude.{
  ℕ, zero, suc, ◌+◌, ◌≡◌, refl, sym, ap, ◌∙◌, ◌⊎◌, true, false, none, some, or_else, List, [], ◌∷◌,
  arith, Bool-cases, inl, inr,
}
use mathlib.Core.Path.{subst}
use industrial_safety_intell.Prelude.Double.{Double, IsOrdered}
use industrial_safety_intell.Prelude.Lists.{All, get_elem?}
use industrial_safety_intell.Prelude.Select.{select, IsGreatest, select-IsGreatest}
use industrial_safety_intell.Api.Risk.{Tier, RiskAssessment, is_tier}
use industrial_safety_intell.Presentation.{
  peak_from, find_peak_index, find_escalation, find_first_escalation_index,
}

module _ {N : Type 0} ⦃d : Double N⦄ where
  abbrev pub score : RiskAssessment N → N
  score a = a.compound_risk_score

  get_elem?-peak_from :
      (all rest : List (RiskAssessment N)) (best_index index : ℕ) (best : RiskAssessment N)
      → get_elem? all best_index ≡ some best
      → ((j : ℕ) (a : RiskAssessment N)
          → get_elem? rest j ≡ some a
          → get_elem? all (index + j) ≡ some a)
      → get_elem? all (peak_from best_index best.compound_risk_score index rest)
        ≡ some (select d.lt score best rest)
  unfolding peak_from select
  get_elem?-peak_from all [] best_index index best h k = h
  get_elem?-peak_from all (a ∷ rest) best_index index best h k =
      let shift : (j : ℕ) (x : RiskAssessment N)
          → get_elem? rest j ≡ some x
          → get_elem? all (suc index + j) ≡ some x =
        λ j x e. ap (get_elem? all) (omega arith) ∙ k (suc j) x e in
      let here : get_elem? all index ≡ some a = ap (get_elem? all) (omega arith) ∙ k 0 a refl in
      elim (Bool-cases (d.lt best.compound_risk_score a.compound_risk_score)) [
        | inl p ↦ rw p (get_elem?-peak_from all rest index (suc index) a here shift)
        | inr p ↦ rw p (get_elem?-peak_from all rest best_index (suc index) best h shift)
      ]

  -- In a history that is not empty, the peak is the index of an assessment of the history, and no
  -- assessment has a higher score.
  pub find_peak_index-IsGreatest :
      (a : RiskAssessment N) (rest : List (RiskAssessment N))
      → IsOrdered d
      → (peak : RiskAssessment N) × (get_elem? (a ∷ rest) (find_peak_index (a ∷ rest)) ≡ some peak)
        × IsGreatest d.lt score peak (a ∷ rest)
  unfolding find_peak_index
  find_peak_index-IsGreatest a rest o =
      let (first, others) = select-IsGreatest d.lt score o.lt_asym o.not_lt_trans a (a ∷ rest) in
      (
        select d.lt score a (a ∷ rest),
        get_elem?-peak_from (a ∷ rest) (a ∷ rest) 0 0 a refl
            (λ j x e. ap (get_elem? (a ∷ rest)) (omega arith) ∙ e),
        others,
      )

module _ {N : Type 0} where
  -- The tick of an index, and the ticks before it.
  abbrev IsFirst : List (RiskAssessment N) → ℕ → Type 0
  IsFirst [] i = ⊥
  IsFirst (a ∷ rest) zero = is_tier a.tier Tier.normal ≡ false
  IsFirst (a ∷ rest) (suc i) = (is_tier a.tier Tier.normal ≡ true) × IsFirst rest i

  -- What the index of the first tick that is not normal is.
  abbrev pub IsEscalation : List (RiskAssessment N) → ℕ → Type 0
  IsEscalation assessments i =
      IsFirst assessments i ⊎ (All (λ a. is_tier a.tier Tier.normal ≡ true) assessments × (i ≡ 0))

  IsFirst-or_none :
      (index : ℕ) (rest : List (RiskAssessment N))
      → ((i : ℕ) × (find_escalation index rest ≡ some (index + i)) × IsFirst rest i)
        ⊎ ((find_escalation index rest ≡ none) × All (λ a. is_tier a.tier Tier.normal ≡ true) rest)
  unfolding find_escalation
  IsFirst-or_none index [] = inr (refl, tt)
  IsFirst-or_none index (a ∷ rest) = elim (Bool-cases (is_tier a.tier Tier.normal)) [
    | inl p ↦ elim (IsFirst-or_none (suc index) rest) [
      | inl (i, e, f) ↦ inl (suc i, rw p (e ∙ ap some (omega arith)), (p, f))
      | inr (e, all) ↦ inr (rw p e, (p, all))
    ]
    | inr p ↦ inl (0, rw p (ap some (omega arith)), p)
  ]

  -- The escalation is the first tick whose tier is not normal, and 0 when there is none.
  pub find_first_escalation_index-IsEscalation :
      (assessments : List (RiskAssessment N))
      → IsEscalation assessments (find_first_escalation_index assessments)
  unfolding find_first_escalation_index
  find_first_escalation_index-IsEscalation assessments = elim (IsFirst-or_none 0 assessments) [
    | inl (i, e, f) ↦
        inl (subst (IsFirst assessments) (sym (ap (λ o. or_else o 0) e ∙ omega arith)) f)
    | inr (e, all) ↦ inr (all, ap (λ o. or_else o 0) e)
  ]
