-- ===== src/ReportPdf.antt =====
-- frontend/src/lib/decisionReportPdf.ts: the lines of a report on its pages. A length is a count of
-- tenths of a millimetre, and so exact; fonts and colours are left out.
pub mod Flow
pub mod Pages
use industrial_safety_intell.Prelude.{
  ℕ, suc, ◌+◌, ◌-◌, ◌*◌, String, Bool, List, [], ◌∷◌, ◌++◌, ltb, if◌then◌else◌,
}
use industrial_safety_intell.Prelude.Eq.{◌==◌, string_eq}
use industrial_safety_intell.Prelude.Text.{◌⧺◌}
use industrial_safety_intell.Reports.{DecisionReportSection}

pub record DecisionReportData : Type 0 where
  pub title : String
  pub subtitle : String
  pub generated_at : String
  pub sections : List DecisionReportSection

-- PAGE_MARGIN, LINE_HEIGHT, HEADING_GAP_BEFORE, HEADING_GAP_AFTER
abbrev pub page_margin : ℕ
page_margin = 140

abbrev pub line_height : ℕ
line_height = 52

abbrev pub half_line : ℕ
half_line = 26

abbrev pub heading_gap_before : ℕ
heading_gap_before = 80

abbrev pub heading_gap_after : ℕ
heading_gap_after = 30

-- A call of `doc.text`, at the left margin.
pub record Placed : Type 0 where
  pub text : String
  pub page : ℕ
  pub at : ℕ

-- The document so far, with `y`.
pub record Doc : Type 0 where
  pub drawn : List Placed
  pub page : ℕ
  pub y : ℕ

abbrev pub draw : String → Doc → Doc
draw text doc = record doc {
  drawn = doc.drawn ++ record { text = text; page = doc.page; at = doc.y } ∷ [];
}

abbrev pub move : ℕ → Doc → Doc
move n doc = record doc { y = doc.y + n }

unfoldable pub ensure_space : ℕ → ℕ → Doc → Doc
ensure_space page_height next_line_height doc =
    if ltb (page_height - page_margin) (doc.y + next_line_height)
    then record doc { page = suc doc.page; y = page_margin }
    else doc

-- The library's page height, and its `splitTextToSize` for the width of the content.
module _ (page_height : ℕ) (split_text : String → List String) where
  unfoldable pub put_wrapped : Doc → List String → Doc
  unfolding ensure_space
  put_wrapped doc [] = doc
  put_wrapped doc (w ∷ rest) =
      put_wrapped (move line_height (draw w (ensure_space page_height line_height doc))) rest

  unfoldable pub put_line : Doc → String → Doc
  put_line doc line = if line == "" then move half_line doc else put_wrapped doc (split_text line)

  unfoldable pub put_lines : Doc → List String → Doc
  unfolding put_wrapped put_line
  put_lines doc [] = doc
  put_lines doc (line ∷ rest) = put_lines (put_line doc line) rest

  unfoldable pub put_heading : Doc → String → Doc
  unfolding ensure_space
  put_heading doc heading = move (heading_gap_after + 20) (
      draw heading (
        move heading_gap_before
          (ensure_space page_height (heading_gap_before + line_height + heading_gap_after) doc)))

  unfoldable pub put_sections : Doc → List DecisionReportSection → Doc
  unfolding put_heading put_lines
  put_sections doc [] = doc
  put_sections doc (s ∷ rest) = put_sections (put_lines (put_heading doc s.heading) s.lines) rest

  abbrev pub front_matter : DecisionReportData → Doc
  front_matter d = move 100 (
      draw ("Generated " ⧺ d.generated_at) (
        move 60 (
          draw d.subtitle
            (move 80 (draw d.title (record { drawn = []; page = 1; y = page_margin }))))))

  unfoldable pub build_decision_report_pdf : DecisionReportData → List Placed
  unfolding put_sections
  build_decision_report_pdf d = (put_sections (front_matter d) d.sections).drawn
