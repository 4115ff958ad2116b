-- ===== src/Actions/Playbook.antt =====
-- ACTION_PLAYBOOK of frontend/src/lib/actionPlaybook.ts: what each recommendation takes to carry out.
use industrial_safety_intell.Prelude.{
  ℕ, String, List, [], ◌∷◌, Option, none, some, or_else, if◌then◌else◌,
}
use industrial_safety_intell.Prelude.Eq.{◌==◌, string_eq}

pub data ImpactLevel : Type 0 where
  informational low moderate high very_high critical : ImpactLevel

-- IMPACT_ORDER
abbrev pub impact_order : List ImpactLevel
impact_order = informational ∷ low ∷ moderate ∷ high ∷ very_high ∷ critical ∷ []

-- `IMPACT_ORDER.indexOf(level)`, which finds every level
abbrev pub impact_index : ImpactLevel → ℕ
impact_index informational = 0
impact_index low = 1
impact_index moderate = 2
impact_index high = 3
impact_index very_high = 4
impact_index critical = 5

pub record ActionPlaybookEntry : Type 0 where
  pub eta : String
  pub depends_on : List String
  pub required_personnel : String
  pub required_equipment : Option String
  pub targeted_factor : String
  pub base_impact : ImpactLevel

abbrev tier_critical : ActionPlaybookEntry
tier_critical = record {
  eta = "2 minutes";
  depends_on = [];
  required_personnel = "Shift Supervisor, Safety Officer";
  required_equipment = none;
  targeted_factor = "tier";
  base_impact = critical;
}

abbrev tier_elevated : ActionPlaybookEntry
tier_elevated = record {
  eta = "1 minute";
  depends_on = [];
  required_personnel = "Control Room Operator";
  required_equipment = none;
  targeted_factor = "tier";
  base_impact = high;
}

abbrev tier_watch : ActionPlaybookEntry
tier_watch = record {
  eta = "immediate";
  depends_on = [];
  required_personnel = "Control Room Operator";
  required_equipment = none;
  targeted_factor = "tier";
  base_impact = low;
}

abbrev permit_status_escalated : ActionPlaybookEntry
permit_status_escalated = record {
  eta = "30 seconds";
  depends_on = [];
  required_personnel = "Permit Authorizing Officer";
  required_equipment = none;
  targeted_factor = "permit_intelligence";
  base_impact = high;
}

abbrev unauthorized_presence : ActionPlaybookEntry
unauthorized_presence = record {
  eta = "3 minutes";
  depends_on = "permit_status_escalated" ∷ [];
  required_personnel = "Safety Officer";
  required_equipment = none;
  targeted_factor = "worker_exposure";
  base_impact = high;
}

abbrev interaction_bonus_applied : ActionPlaybookEntry
interaction_bonus_applied = record {
  eta = "1 minute";
  depends_on = "permit_status_escalated" ∷ [];
  required_personnel = "Shift Supervisor";
  required_equipment = none;
  targeted_factor = "interaction_bonus";
  base_impact = very_high;
}

abbrev common_cause_grouped_degradation_count : ActionPlaybookEntry
common_cause_grouped_degradation_count = record {
  eta = "10 minutes";
  depends_on = "unauthorized_presence" ∷ [];
  required_personnel = "Maintenance Technician";
  required_equipment = some "Isolation tools";
  targeted_factor = "equipment_status";
  base_impact = moderate;
}

abbrev stale_data_fail_safe : ActionPlaybookEntry
stale_data_fail_safe = record {
  eta = "5 minutes";
  depends_on = [];
  required_personnel = "Instrumentation Technician";
  required_equipment = some "Calibration kit";
  targeted_factor = "gas_risk";
  base_impact = informational;
}

abbrev missing_data_fail_safe : ActionPlaybookEntry
missing_data_fail_safe = record {
  eta = "5 minutes";
  depends_on = [];
  required_personnel = "Instrumentation Technician";
  required_equipment = some "Calibration kit";
  targeted_factor = "gas_risk";
  base_impact = moderate;
}

abbrev missing_location_fail_safe : ActionPlaybookEntry
missing_location_fail_safe = record {
  eta = "5 minutes";
  depends_on = [];
  required_personnel = "Safety Officer";
  required_equipment = none;
  targeted_factor = "worker_exposure";
  base_impact = moderate;
}

abbrev missing_equipment_context : ActionPlaybookEntry
missing_equipment_context = record {
  eta = "5 minutes";
  depends_on = "common_cause_grouped_degradation_count" ∷ [];
  required_personnel = "Maintenance Technician";
  required_equipment = none;
  targeted_factor = "equipment_status";
  base_impact = informational;
}

abbrev agent_unavailable_using_last_known : ActionPlaybookEntry
agent_unavailable_using_last_known = record {
  eta = "5 minutes";
  depends_on = [];
  required_personnel = "Control Room Operator";
  required_equipment = none;
  targeted_factor = "tier";
  base_impact = informational;
}

-- FALLBACK_ENTRY
abbrev pub fallback_entry : ActionPlaybookEntry
fallback_entry = record {
  eta = "unspecified";
  depends_on = [];
  required_personnel = "Shift Supervisor";
  required_equipment = none;
  targeted_factor = "tier";
  base_impact = moderate;
}

abbrev pub action_playbook : List (String × ActionPlaybookEntry)
action_playbook =
    ("tier_critical", tier_critical)
    ∷ ("tier_elevated", tier_elevated)
    ∷ ("tier_watch", tier_watch)
    ∷ ("permit_status_escalated", permit_status_escalated)
    ∷ ("unauthorized_presence", unauthorized_presence)
    ∷ ("interaction_bonus_applied", interaction_bonus_applied)
    ∷ ("common_cause_grouped_degradation_count", common_cause_grouped_degradation_count)
    ∷ ("stale_data_fail_safe", stale_data_fail_safe)
    ∷ ("missing_data_fail_safe", missing_data_fail_safe)
    ∷ ("missing_location_fail_safe", missing_location_fail_safe)
    ∷ ("missing_equipment_context", missing_equipment_context)
    ∷ ("agent_unavailable_using_last_known", agent_unavailable_using_last_known)
    ∷ []

abbrev pub lookup_entry : List (String × ActionPlaybookEntry) → String → Option ActionPlaybookEntry
lookup_entry [] key = none
lookup_entry ((k, entry) ∷ rest) key =
    let later = lookup_entry rest key in if k == key then some entry else later

unfoldable pub get_action_metadata : String → ActionPlaybookEntry
get_action_metadata recommendation_id =
    or_else (lookup_entry action_playbook recommendation_id) fallback_entry
