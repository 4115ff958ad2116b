-- ===== src/Moments/Resolved.antt =====
-- Which scenario `resolveScenarioKey`, frontend/src/lib/scenarioResolution.ts, finds, and which moment
-- frontend/src/hooks/useSmartSearchExtensions.ts takes of it.
use industrial_safety_intell.Prelude.{
  none, some, ◌≡◌, sym, ap, Memᴰ, Option-cases, some_injective, inl, inr,
}
use industrial_safety_intell.Prelude.Double.{Double, IsOrdered}
use industrial_safety_intell.Prelude.Select.{select?, IsGreatest, select?-IsGreatest}
use industrial_safety_intell.Api.Risk.{ScenarioSummary, ReplayData}
use industrial_safety_intell.Search.Moments.{ScenarioMoment}
use industrial_safety_intell.Moments.{MomentData, ZoneTick, all_ticks, tick_score, scenario_moment}

module _ {N : Type 0} ⦃d : Double N⦄ where
  -- The moment of a scenario is a tick of its replay, and no tick of the replay has a higher score.
  pub scenario_moment-IsGreatest :
      (s : ScenarioSummary N) (replay : ReplayData N) (queried : MomentData N)
      (m : ScenarioMoment N)
      → IsOrdered d
      → scenario_moment s (some replay) queried ≡ some m
      → (top : ZoneTick N) × (Memᴰ top (all_ticks replay.zone_timelines)
          × IsGreatest d.lt tick_score top (all_ticks replay.zone_timelines))
        × (m.zone_id ≡ top.zone_id)
        × (m.assessment_id ≡ top.assessment.assessment_id)
  unfolding scenario_moment
  scenario_moment-IsGreatest s replay queried m o h =
      elim (Option-cases (select? d.lt tick_score (all_ticks replay.zone_timelines))) [
        | inl p ↦ absurd (none_some (rw p at h))
        | inr (top, p) ↦
            let e = some_injective (rw p at h) in
            (
              top,
              select?-IsGreatest d.lt tick_score o.lt_asym o.not_lt_trans
                  (all_ticks replay.zone_timelines) top p,
              ap (λ x. x.zone_id) (sym e),
              ap (λ x. x.assessment_id) (sym e),
            )
      ]
    where
      none_some : none ≡ some m → ⊥
      none_some q = cc
