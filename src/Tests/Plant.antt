-- ===== src/Tests/Plant.antt =====
-- Runs on the figures of plants.
use industrial_safety_intell.Prelude.{[], ◌∷◌, ◌≡◌}
use industrial_safety_intell.Prelude.Double.{int_double}
use industrial_safety_intell.Prelude.Int.{ℤ, pos}
use industrial_safety_intell.Prelude.Lists.{filter, length}
use industrial_safety_intell.Tier.{worst_tier}
use industrial_safety_intell.Kpis.{plant_readiness, is_escalation}
use industrial_safety_intell.Plants.{build_corporate_overview, tiers_of}
use industrial_safety_intell.Plants.Rollup.{
  all_zones, Plant, summaries, everything, build_corporate_overview-everything,
}
use industrial_safety_intell.Tests.Data.{calm_tick, alarm_tick}

abbrev visakh : Plant ℤ
visakh = (
  record {
    key = "visakh";
    title = "Visakh";
    description = "";
    start_time = "10:00";
    end_time = "10:05";
    zone_ids = "coke_oven_1" ∷ [];
    seed = pos 1;
  },
  record {
    zone_ids = "coke_oven_1" ∷ [];
    start_time = "10:00";
    end_time = "10:05";
    duration_minutes = pos 5;
    tick_count = pos 2;
    zone_timelines =
        record { zone_id = "coke_oven_1"; assessments = calm_tick ∷ alarm_tick ∷ [] } ∷ [];
    bookmarks = [];
  },
)

build_corporate_overview-everything_example :
    let overview =
      build_corporate_overview ⦃d = int_double⦄ (summaries ⦃d = int_double⦄ (visakh ∷ [])) in
    (overview.readiness ≡ plant_readiness (everything (visakh ∷ [])))
    × (overview.worst_tier ≡ worst_tier (tiers_of (everything (visakh ∷ []))))
    × (overview.total_incidents ≡ length (filter is_escalation (everything (visakh ∷ []))))
    × (overview.plant_count ≡ length (visakh ∷ []))
    × (overview.total_zones ≡ length (all_zones (visakh ∷ [])))
build_corporate_overview-everything_example =
    build_corporate_overview-everything ⦃d = int_double⦄ (visakh ∷ [])
