-- ===== src/Reports.antt =====
-- frontend/src/lib/reportTemplates.ts: the sections of a decision's report for each audience.
pub mod Selection
use industrial_safety_intell.Prelude.{
  String, Bool, true, false, List, [], ◌∷◌, Option, none, some, or_else, if◌then◌else◌,
}
use industrial_safety_intell.Prelude.Dict.{get, set}
use industrial_safety_intell.Prelude.Eq.{string_eq}
use industrial_safety_intell.Prelude.Lists.{find}

-- lib/decisionReportPdf.ts
pub record DecisionReportSection : Type 0 where
  pub heading : String
  pub lines : List String

pub data ReportTemplateKind : Type 0 where
  executive operator audit incident maintenance : ReportTemplateKind

pub record ReportTemplate : Type 0 where
  pub kind : ReportTemplateKind
  pub label : String
  pub description : String
  pub section_headings : List String

abbrev template : ReportTemplateKind → String → String → List String → ReportTemplate
template kind label description section_headings = record {
  kind = kind;
  label = label;
  description = description;
  section_headings = section_headings;
}

-- REPORT_TEMPLATES, of which the first is `executive_template`
abbrev pub executive_template : ReportTemplate
executive_template =
    template executive "Executive Report"
      "Business impact and outcome, without agent-level math - for leadership review."
      ("Executive Summary" ∷ "Decision Stability" ∷ "Recommended Actions & Business Impact"
        ∷ "Historical Matches" ∷ "Operational Foresight" ∷ "Compliance References" ∷ [])

abbrev pub report_templates : List ReportTemplate
report_templates =
    executive_template
    ∷ template operator "Operator Report"
        "Rationale, agent detail, and current plant state - for the person running the shift."
        ("Executive Summary" ∷ "Decision Rationale" ∷ "Agent Contributions"
          ∷ "Digital Twin Snapshot" ∷ "Recommended Actions & Business Impact"
          ∷ "Timeline (preceding ticks)" ∷ [])
    ∷ template audit "Audit Report"
        "Full rationale, confidence, compliance alignment, and audit trail - for compliance review."
        ("Executive Summary" ∷ "Decision Rationale" ∷ "Agent Contributions" ∷ "Confidence Breakdown"
          ∷ "Compliance References" ∷ "Counterfactual Comparison" ∷ "Audit Trail" ∷ [])
    ∷ template incident "Incident Report"
        "What happened, over what timeline, and how it compares to precedent - for post-incident review."
        ("Executive Summary" ∷ "Decision Rationale" ∷ "Timeline (preceding ticks)"
          ∷ "Historical Matches" ∷ "Counterfactual Comparison"
          ∷ "Recommended Actions & Business Impact" ∷ "Audit Trail" ∷ [])
    ∷ template maintenance "Maintenance Report"
        "Equipment state and related risk - for the maintenance team, without business or compliance detail."
        ("Executive Summary" ∷ "Digital Twin Snapshot" ∷ "Agent Contributions"
          ∷ "Recommended Actions & Business Impact" ∷ "Timeline (preceding ticks)" ∷ [])
    ∷ []

-- `t.kind === kind`
abbrev pub same_kind : ReportTemplateKind → ReportTemplateKind → Bool
same_kind executive executive = true
same_kind operator operator = true
same_kind audit audit = true
same_kind incident incident = true
same_kind maintenance maintenance = true
same_kind _ _ = false

unfoldable pub get_report_template : ReportTemplateKind → ReportTemplate
unfolding find
get_report_template kind =
    or_else (find (λ t. same_kind t.kind kind) report_templates) executive_template

-- `new Map(allSections.map(...))`
unfoldable pub sections_by_heading :
    List (String × DecisionReportSection)
    → List DecisionReportSection
    → List (String × DecisionReportSection)
sections_by_heading by_heading [] = by_heading
sections_by_heading by_heading (s ∷ rest) = sections_by_heading (set s.heading s by_heading) rest

abbrev pub put_section :
    Option DecisionReportSection → List DecisionReportSection → List DecisionReportSection
put_section none rest = rest
put_section (some s) rest = s ∷ rest

-- `headings.map((heading) => byHeading.get(heading)).filter(...)`
unfoldable pub select_headings :
    List (String × DecisionReportSection) → List String → List DecisionReportSection
unfolding get
select_headings by_heading [] = []
select_headings by_heading (h ∷ rest) =
    put_section (get h by_heading) (select_headings by_heading rest)

unfoldable pub select_report_sections :
    ReportTemplateKind → List DecisionReportSection → List DecisionReportSection
unfolding select_headings
select_report_sections kind all_sections =
    select_headings (sections_by_heading [] all_sections)
      (get_report_template kind).section_headings
