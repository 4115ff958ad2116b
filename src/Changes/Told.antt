-- ===== src/Changes/Told.antt =====
-- `buildChangeSummary` of frontend/src/lib/changeSummary.ts beside what it is to tell.
use industrial_safety_intell.Prelude.{
  String, Bool, true, false, List, [], ◌∷◌, Option, none, some, not, or_else, ◌||◌, ◌≡◌, ◌≢◌, ◌⊎◌,
  refl, sym, ap, arith, inl, inr,
}
use industrial_safety_intell.Prelude.Double.{Double}
use industrial_safety_intell.Prelude.Eq.{string_eq}
use industrial_safety_intell.Api.Risk.{RiskAssessment, is_tier, is_tier_eq, is_tier_refl}
use industrial_safety_intell.Api.Insight.{IncidentMatch, ForesightResult}
use industrial_safety_intell.Justification.{AgentContribution, RiskJustification}
use industrial_safety_intell.Recommendations.{Recommendation}
use industrial_safety_intell.Stability.{first_id, same_id}
use industrial_safety_intell.Changes.Steady.{same_id_refl}
use industrial_safety_intell.Changes.{
  ChangeSummaryEntry, ChangeSummaryInput, entry, entry_if, first_text, score_text, match_text,
  flags_differ, risk_change, recommendation_change, worker_change, permit_change, historical_change,
  forecast_change, changes_between, changes_from, build_change_summary,
}
use industrial_safety_intell.Changes.Telling.{
  Tells, of, first, TellsRecommendation, escalated, TellsPermit, TellsForecast, TellsRisk,
  TellsWorker, TellsHistorical, TellsChanges,
}

false_ne_true : false ≢ true
false_ne_true e = cc

tells_if :
    {Moved : Type 0} (b : Bool) (e : ChangeSummaryEntry)
    → (b ≡ true → Moved)
    → (b ≡ false → ¬ Moved)
    → Tells Moved e.label e.before e.after (entry_if b e)
tells_if true e h k = Tells.moved (h refl)
tells_if false e h k = Tells.kept (k refl)

same_id_eq : (a b : Option String) → same_id a b ≡ true → a ≡ b
same_id_eq none none h = refl
same_id_eq none (some b) h = cc
same_id_eq (some a) none h = cc
same_id_eq (some a) (some b) h = ap some ((string_eq.same_iff a b).0 h)

not-false : (b : Bool) → not b ≡ false → b ≡ true
not-false b h = ground (arith, h)

differ : (a b : Option String) → not (same_id a b) ≡ true → a ≢ b
differ a b h e = cc (h, ap (same_id a) (sym e), same_id_refl a)

agree : (a b : Option String) → not (same_id a b) ≡ false → ¬ (a ≢ b)
agree a b h n = n (same_id_eq a b (not-false (same_id a b) h))

either : {A B : Type 0} (b c : Bool) → (b ≡ true → A) → (c ≡ true → B) → (b || c) ≡ true → A ⊎ B
either true c h k e = inl (h refl)
either false c h k e = inr (k e)

neither :
    {A B : Type 0} (b c : Bool)
    → (b ≡ false → ¬ A)
    → (c ≡ false → ¬ B)
    → (b || c) ≡ false
    → ¬ (A ⊎ B)
neither true c h k e x = cc
neither false c h k e (inl a) = h refl a
neither false c h k e (inr b) = k e b

far : (b : Bool) → not b ≡ true → b ≡ false
far b h = ground (arith, h)

near : (b : Bool) → not b ≡ false → ¬ (b ≡ false)
near b h k = cc (h, k)

flags_true : (a b : Bool) → flags_differ a b ≡ true → a ≢ b
flags_true a b h e = ground (arith, h, e)

flags_false : (a b : Bool) → flags_differ a b ≡ false → ¬ (a ≢ b)
flags_false a b h n = n (ground (arith, h))

no_far : {A : Type 0} → ¬ A → ¬ (A ⊎ ⊥)
no_far n (inl a) = n a
no_far n (inr b) = b

first_id_of : (rs : List Recommendation) → first_id rs ≡ of (λ r. r.id) (first rs)
first_id_of [] = refl
first_id_of (r ∷ rs) = refl

first_text_of :
    (rs : List Recommendation)
    → first_text rs ≡ or_else (of (λ r. r.text) (first rs)) "No recommended action"
first_text_of [] = refl
first_text_of (r ∷ rs) = refl

recommendation_change-TellsRecommendation :
    (p c : List Recommendation) → TellsRecommendation p c (recommendation_change p c)
unfolding recommendation_change
recommendation_change-TellsRecommendation p c =
    rw⁻¹ (first_id_of p, first_id_of c, first_text_of p, first_text_of c)
      (tells_if _ (entry "Recommendation" (first_text p) (first_text c))
        (differ (first_id p) (first_id c)) (agree (first_id p) (first_id c)))

module _ {N : Type 0} where
  permit_change-TellsPermit :
      (p c : Option (RiskJustification N)) → TellsPermit p c (permit_change p c)
  unfolding permit_change
  permit_change-TellsPermit p c =
      tells_if _ (entry "Permit" _ _) (flags_true (escalated p) (escalated c))
        (flags_false (escalated p) (escalated c))

  forecast_change-TellsForecast :
      (p c : Option (ForesightResult N)) → TellsForecast p c (forecast_change p c)
  unfolding forecast_change
  forecast_change-TellsForecast none none = tells_if _ (entry _ _ _) (differ _ _) (agree _ _)
  forecast_change-TellsForecast none (some c) = tells_if _ (entry _ _ _) (differ _ _) (agree _ _)
  forecast_change-TellsForecast (some p) none = tells_if _ (entry _ _ _) (differ _ _) (agree _ _)
  forecast_change-TellsForecast (some p) (some c) =
      tells_if _ (entry _ _ _) (differ _ _) (agree _ _)

module _ {N : Type 0} ⦃d : Double N⦄ where
  risk_change-TellsRisk : (p c : RiskAssessment N) → TellsRisk p c (risk_change p c)
  unfolding risk_change
  risk_change-TellsRisk p c =
      let same = is_tier p.tier c.tier in
      let close = d.lt (d.abs (d.sub c.compound_risk_score p.compound_risk_score)) (d.of_ℕ 5) in
      tells_if _ (entry "Risk" (score_text p) (score_text c))
        (either (not same) (not close)
          (λ h e. cc (h, ap (is_tier p.tier) (sym e), is_tier_refl p.tier)) (far close))
        (neither (not same) (not close) (λ h n. n (is_tier_eq p.tier c.tier (not-false same h)))
          (near close))

  worker_change-TellsWorker :
      (p c : Option (AgentContribution N)) → TellsWorker p c (worker_change p c)
  unfolding worker_change
  worker_change-TellsWorker none c = Tells.kept (λ h. h)
  worker_change-TellsWorker (some p) none = Tells.kept (λ h. h)
  worker_change-TellsWorker (some p) (some c) =
      tells_if _ (entry "Worker Exposure" _ _) (far _) (near _)

  historical_change-TellsHistorical :
      (p c : Option (IncidentMatch N)) → TellsHistorical p c (historical_change p c)
  unfolding historical_change
  historical_change-TellsHistorical none none = Tells.kept (λ h. no_far (λ n. n refl) h)
  historical_change-TellsHistorical none (some c) = Tells.moved (inl (λ e. cc))
  historical_change-TellsHistorical (some p) none = Tells.moved (inl (λ e. cc))
  historical_change-TellsHistorical (some p) (some c) =
      let same = same_id (some p.incident_name) (some c.incident_name) in
      tells_if _ (entry "Historical" (match_text (some p)) (match_text (some c)))
        (either (not same) _ (differ (some p.incident_name) (some c.incident_name)) (far _))
        (neither (not same) _ (agree (some p.incident_name) (some c.incident_name)) (near _))

  changes_from-TellsChanges :
      (o : Option (RiskAssessment N)) (input : ChangeSummaryInput N)
      → input.previous_assessment ≡ o
      → TellsChanges input (changes_from o input)
  unfolding changes_between
  changes_from-TellsChanges none input h = TellsChanges.no_earlier h
  changes_from-TellsChanges (some p) input h =
      TellsChanges.since p h
        (
          risk_change-TellsRisk p input.current_assessment,
          recommendation_change-TellsRecommendation _ _,
          worker_change-TellsWorker _ _,
          permit_change-TellsPermit _ _,
        )
        (historical_change-TellsHistorical input.previous_best_match input.current_best_match)
        (forecast_change-TellsForecast input.previous_foresight input.current_foresight)

  -- Without an earlier assessment the summary is empty. Else it has, in this order and with the earlier
  -- and the later value written out, an entry for the risk just where the tier differs or the score
  -- moved by 5 or more; for the recommendation where the id of the top one differs; for the worker
  -- exposure where both have it and it moved by 5 or more; for the permit where the escalation flag
  -- differs; for the historical match where its name differs or the similarity of the two moved
  -- by 0.05 or more; and for the forecast where its category differs.
  pub build_change_summary-told :
      (input : ChangeSummaryInput N) → TellsChanges input (build_change_summary input)
  unfolding build_change_summary
  build_change_summary-told input = changes_from-TellsChanges input.previous_assessment input refl
