-- ===== src/Standards.antt =====
-- frontend/src/lib/complianceStandards.ts: the standards that a recommendation aligns with.
use industrial_safety_intell.Prelude.{String, List, [], ◌∷◌, or_else}
use industrial_safety_intell.Prelude.Dict.{get}
use industrial_safety_intell.Prelude.Eq.{string_eq}
use industrial_safety_intell.Prelude.Text.{◌⧺◌}

pub record StandardReference : Type 0 where
  pub code : String
  pub title : String
  pub summary : String
  pub applicability : String
  pub external_reference : String

abbrev pub company_sop : String → String → StandardReference
company_sop topic summary = record {
  code = "Company SOP";
  title = "Company SOP - " ⧺ topic;
  summary = summary;
  applicability = "Internal to this facility.";
  external_reference = "Internal document control system (not modeled in this demo).";
}

abbrev pub osha_general_duty : StandardReference
osha_general_duty = record {
  code = "OSHA General Duty Clause";
  title = "Occupational Safety and Health Act, Section 5(a)(1)";
  summary =
      "Requires employers to furnish a workplace free from recognized hazards likely to cause death or serious physical harm.";
  applicability =
      "Applies whenever a zone's risk tier indicates a recognized, uncontrolled hazard.";
  external_reference = "29 U.S.C. §654(a)(1)";
}

abbrev pub osha_confined_space : StandardReference
osha_confined_space = record {
  code = "OSHA 1910.146";
  title = "Permit-Required Confined Spaces";
  summary =
      "Governs entry authorization, attendant duties, and headcount verification for permit-required confined spaces.";
  applicability =
      "Applies when personnel presence or permit status in a confined-space zone is in question.";
  external_reference = "29 CFR 1910.146";
}

abbrev pub osha_loto : StandardReference
osha_loto = record {
  code = "OSHA 1910.147";
  title = "The Control of Hazardous Energy (Lockout/Tagout)";
  summary = "Governs isolation of hazardous energy sources during servicing and maintenance.";
  applicability = "Applies when a permit status change affects equipment isolation.";
  external_reference = "29 CFR 1910.147";
}

abbrev pub osha_psm : StandardReference
osha_psm = record {
  code = "OSHA 1910.119";
  title = "Process Safety Management of Highly Hazardous Chemicals";
  summary =
      "Requires management-of-change review and documented authorization for process modifications.";
  applicability =
      "Applies when a permit or work-authorization escalation affects a covered process.";
  external_reference = "29 CFR 1910.119";
}

abbrev pub iec_61511 : StandardReference
iec_61511 = record {
  code = "IEC 61511";
  title = "Functional Safety - Safety Instrumented Systems for the Process Industry Sector";
  summary =
      "Defines fail-safe behavior, common-cause-failure considerations, and diagnostic/proof-testing requirements for safety instrumented systems.";
  applicability =
      "Applies whenever sensor or agent data is missing, stale, or a common-cause failure is suspected.";
  external_reference = "IEC 61511-1:2016";
}

abbrev pub api_rp_754 : StandardReference
api_rp_754 = record {
  code = "API RP 754";
  title = "Process Safety Performance Indicators for the Refining and Petrochemical Industries";
  summary =
      "Defines Tier 1-4 process safety event indicators and leading indicators for escalating operational risk.";
  applicability =
      "Applies to tier escalations and simultaneous-operations (SIMOPS) risk compounding.";
  external_reference = "API Recommended Practice 754, 2nd Edition";
}

abbrev pub nfpa_326 : StandardReference
nfpa_326 = record {
  code = "NFPA 326";
  title = "Standard for the Safeguarding of Tanks and Containers for Entry, Cleaning, or Repair";
  summary = "Governs atmospheric monitoring and safeguards for tank/container entry work.";
  applicability = "Applies to gas-monitoring zones with tank or vessel entry activity.";
  external_reference = "NFPA 326";
}

-- STANDARDS_FOR_RECOMMENDATION
abbrev pub standards_for_recommendation_table : List (String × List StandardReference)
standards_for_recommendation_table =
    (
      "tier_critical",
      osha_general_duty
          ∷ api_rp_754
          ∷ company_sop "Emergency Response"
              "Evacuation and notification procedure for a critical-tier zone."
          ∷ [],
    )
    ∷ (
      "tier_elevated",
      api_rp_754
          ∷ company_sop "Enhanced Monitoring"
              "Increased observation cadence for an elevated-tier zone."
          ∷ [],
    )
    ∷ (
      "tier_watch",
      company_sop "Routine Observation" "Standing watch-tier logging and review cadence." ∷ [],
    )
    ∷ (
      "unauthorized_presence",
      osha_confined_space
          ∷ company_sop "Access Control" "Headcount verification and unauthorized-entry response."
          ∷ [],
    )
    ∷ (
      "permit_status_escalated",
      osha_loto
          ∷ osha_psm
          ∷ company_sop "Permit to Work" "Permit review and suspension/revocation procedure."
          ∷ [],
    )
    ∷ (
      "common_cause_grouped_degradation_count",
      iec_61511
          ∷ api_rp_754
          ∷ company_sop "Equipment Reliability"
              "Inspection procedure for common-cause equipment degradation."
          ∷ [],
    )
    ∷ (
      "stale_data_fail_safe",
      iec_61511
          ∷ company_sop "Instrumentation Maintenance"
              "Technician dispatch procedure for stale sensor data."
          ∷ [],
    )
    ∷ (
      "missing_data_fail_safe",
      iec_61511
          ∷ company_sop "Instrumentation Maintenance" "Instrumentation-failure response procedure."
          ∷ [],
    )
    ∷ (
      "missing_location_fail_safe",
      osha_confined_space
          ∷ company_sop "Personnel Tracking" "Manual headcount confirmation procedure."
          ∷ [],
    )
    ∷ (
      "missing_equipment_context",
      nfpa_326
          ∷ company_sop "Equipment Status Verification"
              "Manual equipment status confirmation procedure."
          ∷ [],
    )
    ∷ (
      "agent_unavailable_using_last_known",
      iec_61511
          ∷ company_sop "System Health Monitoring"
              "Upstream system availability confirmation procedure."
          ∷ [],
    )
    ∷ (
      "interaction_bonus_applied",
      api_rp_754
          ∷ company_sop "Simultaneous Operations (SIMOPS) Management"
              "Concurrent-activity review procedure."
          ∷ [],
    )
    ∷ []

unfoldable pub standards_for_recommendation : String → List StandardReference
unfolding get
standards_for_recommendation recommendation_id =
    or_else (get recommendation_id standards_for_recommendation_table) []
