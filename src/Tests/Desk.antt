-- ===== src/Tests/Desk.antt =====
-- Runs of the requests, the search, the reports, the procedures, the timeline, the acknowledgment,
-- the journal and the presentation.
use mathlib.Core.List.{Perm}
use industrial_safety_intell.Prelude.{
  ◌++◌, ℕ, ◌+◌, String, true, false, List, [], ◌∷◌, none, some, map, if◌then◌else◌, ◌≡◌, refl, ◌↔◌,
  Memᴰ, arith,
}
use industrial_safety_intell.Prelude.Double.{int_double, int_double-IsOrdered}
use industrial_safety_intell.Prelude.Eq.{◌==◌, string_eq, includes, IsDistinct}
use industrial_safety_intell.Prelude.Int.{ℤ, pos, ltb_ℤ}
use industrial_safety_intell.Prelude.Lists.{All, any, filter, get_elem?}
use industrial_safety_intell.Prelude.Select.{IsGreatest}
use industrial_safety_intell.Prelude.Text.{◌⧺◌}
use industrial_safety_intell.Prelude.Words.{Words}
use industrial_safety_intell.Api.Json.{Json, Fields}
use industrial_safety_intell.Api.Risk.{Tier, RiskAssessment}
use industrial_safety_intell.Approval.{
  DecisionAcknowledgment, JsonText, entry_json, get_local_acknowledgment, set_local_acknowledgment,
  clear_local_acknowledgment,
}
use industrial_safety_intell.Approval.Storing.{acknowledgment_kept}
use industrial_safety_intell.Client.{
  Body, Fetched, Platform, QueryValue, Request, Result, Thrown, api_get, api_post,
  build_query_string,
}
use industrial_safety_intell.Client.Errors.{
  IsReadable, IsNullRefusal, api_get-returned, api_post-type_error,
}
use industrial_safety_intell.Journal.{JournalEntry, JournalFilters, filter_journal_entries}
use industrial_safety_intell.Journal.Sifting.{Fits, Memᴰ-filter_journal_entries}
use industrial_safety_intell.Presentation.{
  PresentationScene, elapsed_before_scene, remaining_after_scene, total_presentation_duration_ms,
  find_peak_index,
}
use industrial_safety_intell.Presentation.Peak.{score, find_peak_index-IsGreatest}
use industrial_safety_intell.Presentation.Timing.{scene_time}
use industrial_safety_intell.Procedures.{SopReference, get_sop_reference}
use industrial_safety_intell.Procedures.Choice.{IsChoice, get_sop_reference-IsChoice}
use industrial_safety_intell.Recommendations.{derive_recommendations}
use industrial_safety_intell.ReportPdf.{page_margin, DecisionReportData, build_decision_report_pdf}
use industrial_safety_intell.ReportPdf.Flow.{Flows}
use industrial_safety_intell.ReportPdf.Pages.{
  IsWithin, report_texts, build_decision_report_pdf-IsWithin,
}
use industrial_safety_intell.Reports.{
  DecisionReportSection, ReportTemplateKind, get_report_template, select_report_sections,
}
use industrial_safety_intell.Reports.Selection.{has_heading, select_report_sections-lem}
use industrial_safety_intell.Search.{needle_of, search_standards}
use industrial_safety_intell.Search.Matches.{row_answers, search_standards-lem}
use industrial_safety_intell.Search.Vocabulary.{IsReferenced, derive_recommendations-IsReferenced}
use industrial_safety_intell.Standards.{standards_for_recommendation_table}
use industrial_safety_intell.Timeline.{TimelineEvent, derive_timeline_events}
use industrial_safety_intell.Timeline.Telling.{IsInOrder, Tells, TellsPeak}
use industrial_safety_intell.Timeline.Told.{derive_timeline_events-told}
use industrial_safety_intell.Tests.Data.{alarm, alarm_tick, calm_tick}

abbrev plain_words : Words
plain_words = record { trim = λ s. s; lower = λ s. s; upper = λ s. s; encode = λ s. s }

abbrev no_fields : Json ℤ
no_fields = Json.obj Fields.end

-- A backend that answers each GET with an object and each POST with a null error.
abbrev answer : Request → Fetched ℤ
answer r = elim r.post [
  | none ↦ Fetched.answered (record { ok = true; status = 200; body = Body.parsed no_fields })
  | some text ↦ Fetched.answered (record {
    ok = false;
    status = 500;
    body = Body.parsed (Json.obj (Fields.field "error" Json.null Fields.end));
  })
]

abbrev backend : Platform ℤ
backend = record { search_text = λ params. ""; stringify = λ value. "{}"; fetch = answer }

abbrev recent : List (String × QueryValue ℤ)
recent = ("limit", QueryValue.number (pos 5)) ∷ ("before", QueryValue.undefined) ∷ []

api_get-returned_example :
    (api_get ⦃d = int_double⦄ backend "http://localhost:8000" "/zones" recent
      ≡ Result.returned no_fields)
    ↔ IsReadable
        (answer (record {
          url =
              "http://localhost:8000"
              ⧺ "/zones"
              ⧺ build_query_string ⦃d = int_double⦄ backend "http://localhost:8000" recent;
          post = none;
        }))
        no_fields
api_get-returned_example =
    api_get-returned ⦃d = int_double⦄ backend "http://localhost:8000" "/zones" recent no_fields

api_post-type_error_example :
    (api_post ⦃d = int_double⦄ backend "http://localhost:8000" "/ingest" no_fields
      ≡ Result.threw Thrown.type_error)
    ↔ IsNullRefusal
        (answer (record { url = "http://localhost:8000" ⧺ "/ingest"; post = some "{}" }))
api_post-type_error_example =
    api_post-type_error ⦃d = int_double⦄ backend "http://localhost:8000" "/ingest" no_fields

abbrev found : List String
found = map (λ r. r.id) (search_standards plain_words "IEC")

search_standards-lem_example :
    IsDistinct found
    × ((id : String)
        → includes found id
          ≡ any
              (row_answers plain_words (needle_of plain_words "IEC") id)
              standards_for_recommendation_table)
search_standards-lem_example = search_standards-lem plain_words "IEC" refl

derive_recommendations-IsReferenced_example :
    All IsReferenced (derive_recommendations Tier.critical (some alarm))
derive_recommendations-IsReferenced_example =
    derive_recommendations-IsReferenced Tier.critical (some alarm)

abbrev sections : List DecisionReportSection
sections =
    record { heading = "Audit Trail"; lines = "Verified." ∷ [] }
    ∷ record { heading = "Executive Summary"; lines = "Critical." ∷ "" ∷ "Evacuate." ∷ [] }
    ∷ []

select_report_sections-lem_example :
    (map (λ s. s.heading) (select_report_sections ReportTemplateKind.audit sections)
      ≡ filter
          (has_heading sections)
          (get_report_template ReportTemplateKind.audit).section_headings)
    × All (λ s. Memᴰ s sections) (select_report_sections ReportTemplateKind.audit sections)
select_report_sections-lem_example = select_report_sections-lem ReportTemplateKind.audit sections

abbrev report : DecisionReportData
report = record {
  title = "Decision";
  subtitle = "Zone 1";
  generated_at = "10:06";
  sections = sections;
}

abbrev one_line : String → List String
one_line text = text ∷ []

build_decision_report_pdf-IsWithin_example :
    All (IsWithin 2970 one_line) (build_decision_report_pdf 2970 one_line report)
    × Flows 1 page_margin (build_decision_report_pdf 2970 one_line report)
    × (map (λ t. t.text) (build_decision_report_pdf 2970 one_line report)
        ≡ report_texts one_line report)
build_decision_report_pdf-IsWithin_example =
    build_decision_report_pdf-IsWithin 2970 one_line report (omega arith)

abbrev hot_work : SopReference
hot_work = record {
  title = "Hot Work Authorization Procedure";
  standard = "OISD-STD-105";
  section = "Section 7.2";
  summary =
      "Requirements for suspending or revoking an active hot work authorization when gas or exposure risk rises.";
  external_url = none;
}

get_sop_reference-IsChoice_example :
    (get_sop_reference "tier_critical" ("crane" ∷ "hot_work" ∷ []) ≡ some hot_work)
    ↔ IsChoice "tier_critical" ("crane" ∷ "hot_work" ∷ []) hot_work
get_sop_reference-IsChoice_example =
    get_sop_reference-IsChoice "tier_critical" ("crane" ∷ "hot_work" ∷ []) hot_work

abbrev history : List (RiskAssessment ℤ)
history = calm_tick ∷ alarm_tick ∷ []

abbrev any_time : String → ℤ
any_time text = pos 1

abbrev events : List TimelineEvent
events = derive_timeline_events ⦃d = int_double⦄ any_time history

derive_timeline_events-told_example :
    IsInOrder ⦃d = int_double⦄ any_time events
    × ((told : List TimelineEvent) × (peaks : List TimelineEvent) × Tells ⦃d = int_double⦄ history
          told
        × TellsPeak ⦃d = int_double⦄ history peaks
        × Perm events (told ++ peaks))
derive_timeline_events-told_example =
    derive_timeline_events-told ⦃d = int_double⦄ any_time history int_double-IsOrdered

abbrev seen : DecisionAcknowledgment
seen = record { acknowledged_at_iso = "10:06"; note = "seen" }

-- Enough of `JSON` for one acknowledgment: its text, and null for every other.
abbrev seen_text : Json ℤ → String
seen_text Json.null = "null"
seen_text _ = "seen at 10:06"

abbrev texts : JsonText ℤ
texts = record {
  stringify = seen_text;
  parse = λ text. if text == "seen at 10:06" then some (entry_json seen) else some Json.null;
}

acknowledgment_kept_example :
    ((set_local_acknowledgment texts [] "a1" "seen" "10:06").0 ≡ seen)
    × (get_local_acknowledgment texts (set_local_acknowledgment texts [] "a1" "seen" "10:06").1 "a1"
        ≡ some seen)
    × (get_local_acknowledgment texts
          (clear_local_acknowledgment texts
            (set_local_acknowledgment texts [] "a1" "seen" "10:06").1
            "a1")
          "a1"
        ≡ none)
acknowledgment_kept_example =
    acknowledgment_kept texts [] "a1" "seen" "10:06"
      (record { parse-stringify = refl; stringify_some = refl })

find_peak_index-IsGreatest_example :
    (peak : RiskAssessment ℤ) × (get_elem? history (find_peak_index ⦃d = int_double⦄ history)
      ≡ some peak)
    × IsGreatest ltb_ℤ (score ⦃d = int_double⦄) peak history
find_peak_index-IsGreatest_example =
    find_peak_index-IsGreatest ⦃d = int_double⦄ calm_tick (alarm_tick ∷ []) int_double-IsOrdered

abbrev plant_overview : PresentationScene
plant_overview = record {
  index = 1;
  key = "plant-overview";
  title = "Plant Overview";
  duration_ms = 8000;
}

scene_time_example :
    (r : ℕ) × (remaining_after_scene 1 ≡ some r)
    × (elapsed_before_scene 1 + 8000 + r ≡ total_presentation_duration_ms)
    × (elapsed_before_scene 2 ≡ elapsed_before_scene 1 + 8000)
scene_time_example = scene_time 1 plant_overview refl

abbrev log : List (JournalEntry ℤ)
log =
    record { zone_id = "coke_oven_1"; assessment = calm_tick }
    ∷ record { zone_id = "coke_oven_1"; assessment = alarm_tick }
    ∷ []

abbrev alarm_entry : JournalEntry ℤ
alarm_entry = record { zone_id = "coke_oven_1"; assessment = alarm_tick }

abbrev criticals : JournalFilters
criticals = record { tier = some Tier.critical; zone_id = some ""; search = none }

Memᴰ-filter_journal_entries_example :
    Memᴰ alarm_entry (filter_journal_entries plain_words log none criticals)
    ↔ (Memᴰ alarm_entry log × Fits plain_words none criticals alarm_entry)
Memᴰ-filter_journal_entries_example =
    Memᴰ-filter_journal_entries plain_words log none criticals alarm_entry
