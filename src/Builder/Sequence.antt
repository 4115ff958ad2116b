-- ===== src/Builder/Sequence.antt =====
-- The preview of frontend/src/lib/scenarioBuilderPreview.ts and the events of its draft.
use industrial_safety_intell.Prelude.{String, false, List, [], ◌∷◌, ◌≡◌, ◌≢◌, refl, Memᴰ}
use mathlib.Core.List.{Perm}
use industrial_safety_intell.Prelude.Double.{Double, IsOrdered}
use industrial_safety_intell.Prelude.Eq.{
  includes, IsDistinct, dedup_from-IsDistinct, includes-dedup_from, string_eq,
}
use industrial_safety_intell.Prelude.Lists.{All}
use industrial_safety_intell.Prelude.Select.{select-Memᴰ, select-IsGreatest}
use industrial_safety_intell.Prelude.Sort.{IsSorted, sort-perm, sort-IsSorted}
use industrial_safety_intell.Api.Drafts.{ScenarioDefinitionDraft}
use industrial_safety_intell.Builder.Preview.{
  starts_after, steps_of, build_expected_sequence, summarize_scenario, latest_end, ends_of,
  zone_ids_of,
}

module _ {N : Type 0} ⦃d : Double N⦄ where
  -- The expected sequence has exactly the draft's events, and none of them comes before one that
  -- starts earlier.
  pub build_expected_sequence-IsSorted :
      (draft : ScenarioDefinitionDraft N)
      → IsOrdered d
      → Perm (build_expected_sequence draft) (steps_of draft)
        × IsSorted starts_after (build_expected_sequence draft)
  unfolding build_expected_sequence
  build_expected_sequence-IsSorted draft laws = (
    sort-perm starts_after (steps_of draft),
    sort-IsSorted starts_after (λ a b h. laws.lt_asym b.sim_time a.sim_time h)
        (λ a b c h k. laws.not_lt_trans c.sim_time b.sim_time a.sim_time k h) (steps_of draft),
  )

  latest_end-greatest :
      (ends : List N)
      → IsOrdered d
      → ends ≢ []
      → Memᴰ (latest_end ends) ends × All (λ t. d.lt (latest_end ends) t ≡ false) ends
  unfolding latest_end
  latest_end-greatest [] laws n = absurd (n refl)
  latest_end-greatest (x ∷ xs) laws n = (
    select-Memᴰ d.lt (λ y. y) x xs,
    select-IsGreatest d.lt (λ y. y) laws.lt_asym laws.not_lt_trans x xs,
  )

  -- For a draft with an event, the total duration is the end of one of its events and no event ends
  -- later; the affected zones are the zones of the events, each once.
  pub summarize_scenario-covers :
      (draft : ScenarioDefinitionDraft N)
      → IsOrdered d
      → ends_of draft ≢ []
      → Memᴰ ((summarize_scenario draft).total_duration_minutes) (ends_of draft)
        × All
            (λ t. d.lt ((summarize_scenario draft).total_duration_minutes) t ≡ false)
            (ends_of draft)
        × IsDistinct ((summarize_scenario draft).affected_zone_ids)
        × ((z : String)
            → includes ((summarize_scenario draft).affected_zone_ids) z
              ≡ includes (zone_ids_of draft) z)
  unfolding summarize_scenario includes
  summarize_scenario-covers draft laws n =
      let (m, top) = latest_end-greatest (ends_of draft) laws n in
      (
        m,
        top,
        dedup_from-IsDistinct [] (zone_ids_of draft) tt,
        λ z. includes-dedup_from [] (zone_ids_of draft) z,
      )
