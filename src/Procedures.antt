-- ===== src/Procedures.antt =====
-- frontend/src/lib/sopReferences.ts and frontend/src/lib/permitIcons.ts: the plant's procedures, and
-- the labels and glyphs of permit types.
pub mod Choice
use industrial_safety_intell.Prelude.{
  String, Bool, List, [], ◌∷◌, Option, none, some, map, or_else, if◌then◌else◌,
}
use industrial_safety_intell.Prelude.Dict.{get}
use industrial_safety_intell.Prelude.Eq.{◌==◌, string_eq}
use industrial_safety_intell.Prelude.Lists.{filter}
use industrial_safety_intell.Prelude.Words.{Words, contains}
use industrial_safety_intell.Api.Risk.{Permit}

-- `externalUrl`: `none` is null
pub record SopReference : Type 0 where
  pub title : String
  pub standard : String
  pub section : String
  pub summary : String
  pub external_url : Option String

abbrev sop : String → String → String → String → SopReference
sop title standard section summary = record {
  title = title;
  standard = standard;
  section = section;
  summary = summary;
  external_url = none;
}

-- SOP_BY_PERMIT_TYPE
abbrev pub sop_by_permit_type : List (String × SopReference)
sop_by_permit_type =
    (
      "hot_work",
      sop "Hot Work Authorization Procedure" "OISD-STD-105" "Section 7.2"
          "Requirements for suspending or revoking an active hot work authorization when gas or exposure risk rises.",
    )
    ∷ (
      "confined_space",
      sop "Confined Space Entry Procedure" "OISD-STD-192" "Section 4.1"
          "Entry suspension and emergency withdrawal requirements for confined space work.",
    )
    ∷ (
      "electrical_isolation",
      sop "Electrical Isolation Procedure" "Plant Procedure IS-14" "Section 2"
          "Lockout/tagout and isolation-verification steps before electrical work may proceed or must halt.",
    )
    ∷ (
      "line_break",
      sop "Line Break Work Authorization Procedure" "OISD-STD-244" "Section 5.3"
          "Depressurization and isolation confirmation requirements before and during a line break.",
    )
    ∷ []

-- SOP_BY_RECOMMENDATION_ID
abbrev pub sop_by_recommendation_id : List (String × SopReference)
sop_by_recommendation_id =
    (
      "tier_critical",
      sop "Emergency Evacuation Procedure" "Emergency Response Plan" "Section 3.1"
          "Non-essential personnel evacuation and shift supervisor notification at CRITICAL tier.",
    )
    ∷ (
      "tier_elevated",
      sop "Elevated Monitoring Procedure" "Emergency Response Plan" "Section 2.4"
          "Increased monitoring cadence and response-readiness confirmation at ELEVATED tier.",
    )
    ∷ (
      "unauthorized_presence",
      sop "Headcount Verification Procedure" "OISD-STD-192" "Section 6"
          "Headcount reconciliation and removal of personnel operating without an active permit.",
    )
    ∷ (
      "common_cause_grouped_degradation_count",
      sop "Common-Cause Equipment Inspection" "Maintenance Procedure MP-22" "Section 1"
          "Inspection sequence when multiple equipment items degrade under a shared cause.",
    )
    ∷ (
      "missing_equipment_context",
      sop "Equipment Telemetry Fallback Procedure" "Maintenance Procedure MP-22" "Section 3"
          "Manual equipment status confirmation when telemetry is unavailable.",
    )
    ∷ (
      "interaction_bonus_applied",
      sop "SIMOPS Concurrent Activity Review" "Plant SIMOPS Guideline" "Section 1.2"
          "Review procedure when multiple independent risk factors are compounding simultaneously.",
    )
    ∷ []

abbrev pub sop_or : Option SopReference → Option SopReference → Option SopReference
sop_or none later = later
sop_or (some s) later = some s

unfoldable pub get_sop_reference : String → List String → Option SopReference
unfolding get
get_sop_reference recommendation_id [] = get recommendation_id sop_by_recommendation_id
get_sop_reference recommendation_id (permit_type ∷ rest) =
    sop_or (get permit_type sop_by_permit_type) (get_sop_reference recommendation_id rest)

pub data PermitGlyph : Type 0 where
  hot_work confined_space isolation line_break generic : PermitGlyph

-- PERMIT_TYPE_LABELS
abbrev pub permit_type_labels : List (String × String)
permit_type_labels =
    ("hot_work", "Hot Work")
    ∷ ("confined_space", "Confined Space")
    ∷ ("electrical_isolation", "Isolation (Electrical)")
    ∷ ("line_break", "Line Break")
    ∷ []

unfoldable pub format_permit_type : String → String
unfolding get
format_permit_type permit_type = or_else (get permit_type permit_type_labels) permit_type

unfoldable pub permit_type_glyph : Words → String → PermitGlyph
unfolding contains
permit_type_glyph w permit_type =
    let normalized = w.lower permit_type in
    if normalized == "hot_work"
    then hot_work
    else if normalized == "confined_space"
    then confined_space
    else if contains normalized "isolation"
    then isolation
    else if normalized == "line_break"
    then line_break
    else generic

unfoldable pub active_permit_types_for_zone : {N : Type 0} → List (Permit N) → String → List String
unfolding filter
active_permit_types_for_zone permits zone_id =
    map (λ p. p.permit_type) (filter (λ p. p.zone_id == zone_id) permits)
