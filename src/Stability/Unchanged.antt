-- ===== src/Stability/Unchanged.antt =====
-- `countUnchangedRecommendationTicks` of frontend/src/lib/decisionStability.ts and runs of ticks.
use Prim.Native.Nat.{suc}
use text.Mathlib.TextEquality.{eq_iff}
use industrial_safety_intell.Prelude.{
  ℕ, String, true, false, List, [], ◌∷◌, Option, none, some, ◌≡◌, ◌≢◌, ◌↔◌, refl, ◌∙◌, ◌+◌, ◌≤◌,
  arith, Bool-cases, inl, inr, if◌then◌else◌,
}
use industrial_safety_intell.Prelude.Lists.{All, length, take, get_elem?}
use industrial_safety_intell.Api.Risk.{RiskAssessment}
use industrial_safety_intell.Stability.{
  top_recommendation_id, same_id, count_while, count_unchanged_recommendation_ticks,
}

same_id_iff : (a b : Option String) → (same_id a b ≡ true) ↔ (a ≡ b)
same_id_iff none none = (λ h. refl, λ h. refl)
same_id_iff none (some b) = ground arith
same_id_iff (some a) none = ground arith
same_id_iff (some a) (some b) = ground (arith, eq_iff a b)

module _ {N : Type 0} where
  -- The number of ticks at the head of the list that have the given id.
  abbrev run : Option String → List (RiskAssessment N) → ℕ
  run id [] = 0
  run id (a ∷ rest) =
      let more = run id rest in if same_id (top_recommendation_id a) id then suc more else 0

  count_while-run :
      (id : Option String) (n : ℕ) (ticks : List (RiskAssessment N))
      → count_while id n ticks ≡ n + run id ticks
  unfolding count_while
  count_while-run id n [] = omega arith
  count_while-run id n (a ∷ rest) = ground (arith, count_while-run id (suc n) rest)

  -- `n` ticks have the given id, and then the list ends or a tick has another id.
  pub record IsRun (id : Option String) (n : ℕ) (ticks : List (RiskAssessment N)) : Type 0 where
    pub same : All (λ a. top_recommendation_id a ≡ id) (take n ticks)
    pub within : n ≤ length ticks
    pub next : (a : RiskAssessment N) → get_elem? ticks n ≡ some a → top_recommendation_id a ≢ id

  run-IsRun : (id : Option String) (ticks : List (RiskAssessment N)) → IsRun id (run id ticks) ticks
  run-IsRun id [] = record { same = tt; within = omega arith; next = λ a h. cc }
  run-IsRun id (a ∷ rest) = elim (Bool-cases (same_id (top_recommendation_id a) id)) [
    | inl p ↦ rw p (step ((same_id_iff _ _).0 p) (run-IsRun id rest))
    | inr p ↦ rw p (stop p)
  ]
    where
      step :
          top_recommendation_id a ≡ id
          → IsRun id (run id rest) rest
          → IsRun id (suc (run id rest)) (a ∷ rest)
      step e r = record { same = (e, r.same); within = omega (arith, r.within); next = r.next }

      stop : same_id (top_recommendation_id a) id ≡ false → IsRun id 0 (a ∷ rest)
      stop p = record {
        same = tt;
        within = omega arith;
        next = λ b h e. ground (arith, same_id_iff (top_recommendation_id a) id);
      }

  -- The count is that of the longest run of ticks from the newest one on that share its top
  -- recommendation, or share that they have none; it counts the newest tick at least.
  pub count_unchanged_recommendation_ticks-IsRun :
      (a : RiskAssessment N) (rest : List (RiskAssessment N))
      → IsRun (top_recommendation_id a) (count_unchanged_recommendation_ticks (a ∷ rest)) (a ∷ rest)
        × (1 ≤ count_unchanged_recommendation_ticks (a ∷ rest))
  count_unchanged_recommendation_ticks-IsRun a rest =
      let id = top_recommendation_id a in
      let e : count_unchanged_recommendation_ticks (a ∷ rest) ≡ run id (a ∷ rest) =
        unfold count_unchanged_recommendation_ticks in
        count_while-run id 0 (a ∷ rest) ∙ omega arith in
      rw e (run-IsRun id (a ∷ rest), ground (arith, same_id_iff id id))
