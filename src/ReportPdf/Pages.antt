-- ===== src/ReportPdf/Pages.antt =====
-- Where frontend/src/lib/decisionReportPdf.ts puts the lines of a report.
use industrial_safety_intell.Prelude.{
  ℕ, ◌+◌, ◌-◌, ◌≤◌, String, true, false, List, [], ◌∷◌, ◌++◌, map, ltb, ◌≡◌, sym, ap, ◌∙◌, arith,
  Bool-cases, inl, inr, if◌then◌else◌,
}
use mathlib.Core.Path.{subst}
use mathlib.Core.List.{append-nil, append_assoc, map-append}
use industrial_safety_intell.Prelude.Eq.{◌==◌, string_eq}
use industrial_safety_intell.Prelude.Lists.{All, All-append}
use industrial_safety_intell.Prelude.Text.{◌⧺◌}
use industrial_safety_intell.Reports.{DecisionReportSection}
use industrial_safety_intell.ReportPdf.{
  DecisionReportData, Placed, Doc, draw, move, page_margin, line_height, half_line, ensure_space,
  put_wrapped, put_line, put_lines, put_heading, put_sections, front_matter,
  build_decision_report_pdf,
}
use industrial_safety_intell.ReportPdf.Flow.{
  Flows, Flows-of_Ends, put_sections-IsLaid, front_matter-IsLaid,
}

-- The texts of the report, in their order.
abbrev line_texts : (String → List String) → List String → List String
line_texts split [] = []
line_texts split (l ∷ rest) = (if l == "" then [] else split l) ++ line_texts split rest

abbrev section_texts : (String → List String) → List DecisionReportSection → List String
section_texts split [] = []
section_texts split (s ∷ rest) = (s.heading ∷ line_texts split s.lines) ++ section_texts split rest

abbrev pub report_texts : (String → List String) → DecisionReportData → List String
report_texts split d =
    d.title ∷ d.subtitle ∷ ("Generated " ⧺ d.generated_at) ∷ section_texts split d.sections

module _ (page_height : ℕ) (split_text : String → List String) where
  -- Within the margins of its page.
  abbrev pub IsWithin : Placed → Type 0
  IsWithin t = (page_margin ≤ t.at) × (t.at ≤ page_height - page_margin)

  abbrev AreWithin : Doc → Type 0
  AreWithin doc = (page_margin ≤ doc.y) × All IsWithin doc.drawn

  draw-AreWithin :
      (text : String) (doc : Doc)
      → AreWithin doc
      → doc.y ≤ page_height - page_margin
      → AreWithin (draw text doc)
  draw-AreWithin text doc h le = (h.0, All-append IsWithin doc.drawn _ h.1 ((h.0, le), tt))

  move-AreWithin : (n : ℕ) (doc : Doc) → AreWithin doc → AreWithin (move n doc)
  move-AreWithin n doc h = (omega (arith, h.0), h.1)

  put_line_blank :
      (doc : Doc) (l : String)
      → (l == "") ≡ true
      → put_line page_height split_text doc l ≡ move half_line doc
  unfolding put_line
  put_line_blank doc l p = rw p

  put_line_text :
      (doc : Doc) (l : String)
      → (l == "") ≡ false
      → put_line page_height split_text doc l
        ≡ put_wrapped page_height split_text doc (split_text l)
  unfolding put_line
  put_line_text doc l p = rw p

  module _ (tall : 442 ≤ page_height) where
    ensure_space-AreWithin :
        (n : ℕ) (doc : Doc)
        → n ≤ 162
        → AreWithin doc
        → AreWithin (ensure_space page_height n doc)
          × ((ensure_space page_height n doc).y + n ≤ page_height - page_margin)
    unfolding ensure_space
    ensure_space-AreWithin n doc small h =
        elim (Bool-cases (ltb (page_height - page_margin) (doc.y + n))) [
          | inl p ↦ rw p ((omega arith, h.1), omega (arith, tall, small))
          | inr p ↦ rw p (h, ground (arith, p))
        ]

    put_wrapped-AreWithin :
        (doc : Doc) (ws : List String)
        → AreWithin doc
        → AreWithin (put_wrapped page_height split_text doc ws)
    unfolding put_wrapped
    put_wrapped-AreWithin doc [] h = h
    put_wrapped-AreWithin doc (w ∷ rest) h =
        let (ok, le) = ensure_space-AreWithin line_height doc (omega arith) h in
        let top = ensure_space page_height line_height doc in
        put_wrapped-AreWithin (move line_height (draw w top)) rest
          (move-AreWithin line_height (draw w top) (draw-AreWithin w top ok (omega (arith, le))))

    put_line-AreWithin :
        (doc : Doc) (l : String) → AreWithin doc → AreWithin (put_line page_height split_text doc l)
    put_line-AreWithin doc l h = elim (Bool-cases (l == "")) [
      | inl p ↦ subst AreWithin (sym (put_line_blank doc l p)) (move-AreWithin half_line doc h)
      | inr p ↦
          subst AreWithin (sym (put_line_text doc l p)) (put_wrapped-AreWithin doc (split_text l) h)
    ]

    put_lines-AreWithin :
        (doc : Doc) (ls : List String)
        → AreWithin doc
        → AreWithin (put_lines page_height split_text doc ls)
    unfolding put_lines
    put_lines-AreWithin doc [] h = h
    put_lines-AreWithin doc (l ∷ rest) h =
        put_lines-AreWithin (put_line page_height split_text doc l) rest
          (put_line-AreWithin doc l h)

    put_heading-AreWithin :
        (doc : Doc) (heading : String)
        → AreWithin doc
        → AreWithin (put_heading page_height split_text doc heading)
    unfolding put_heading
    put_heading-AreWithin doc heading h =
        let (ok, le) = ensure_space-AreWithin 162 doc (omega arith) h in
        let top = move 80 (ensure_space page_height 162 doc) in
        move-AreWithin 50 (draw heading top) (
          draw-AreWithin heading top (move-AreWithin 80 (ensure_space page_height 162 doc) ok)
            (omega (arith, le)))

    put_sections-AreWithin :
        (doc : Doc) (sections : List DecisionReportSection)
        → AreWithin doc
        → AreWithin (put_sections page_height split_text doc sections)
    unfolding put_sections
    put_sections-AreWithin doc [] h = h
    put_sections-AreWithin doc (s ∷ rest) h =
        let headed = put_heading page_height split_text doc s.heading in
        put_sections-AreWithin (put_lines page_height split_text headed s.lines) rest
          (put_lines-AreWithin headed s.lines (put_heading-AreWithin doc s.heading h))

    front_matter-AreWithin :
        (d : DecisionReportData) → AreWithin (front_matter page_height split_text d)
    front_matter-AreWithin d = (
      omega arith,
      (
        (omega arith, omega (arith, tall)),
        ((omega arith, omega (arith, tall)), ((omega arith, omega (arith, tall)), tt)),
      ),
    )

  -- The texts that a document has.
  abbrev texts : Doc → List String
  texts doc = map (λ t. t.text) doc.drawn

  texts-ensure_space : (n : ℕ) (doc : Doc) → texts (ensure_space page_height n doc) ≡ texts doc
  unfolding ensure_space
  texts-ensure_space n doc = elim (Bool-cases (ltb (page_height - page_margin) (doc.y + n))) [
    | inl p ↦ rw p
    | inr p ↦ rw p
  ]

  texts-put_wrapped :
      (doc : Doc) (ws : List String)
      → texts (put_wrapped page_height split_text doc ws) ≡ texts doc ++ ws
  unfolding put_wrapped
  texts-put_wrapped doc [] = sym (append-nil (texts doc))
  texts-put_wrapped doc (w ∷ rest) =
      let top = ensure_space page_height line_height doc in
      texts-put_wrapped (move line_height (draw w top)) rest
      ∙ ap (λ l. l ++ rest) (map-append (λ t. t.text) top.drawn _)
      ∙ append_assoc (texts top) (w ∷ []) rest
      ∙ ap (λ l. l ++ w ∷ rest) (texts-ensure_space line_height doc)

  abbrev texts_of_line : String → List String
  texts_of_line l = if l == "" then [] else split_text l

  texts-put_line :
      (doc : Doc) (l : String)
      → texts (put_line page_height split_text doc l) ≡ texts doc ++ texts_of_line l
  texts-put_line doc l = elim (Bool-cases (l == "")) [
    | inl p ↦ ap texts (put_line_blank doc l p) ∙ rw p (sym (append-nil (texts doc)))
    | inr p ↦ ap texts (put_line_text doc l p) ∙ rw p (texts-put_wrapped doc (split_text l))
  ]

  texts-put_lines :
      (doc : Doc) (ls : List String)
      → texts (put_lines page_height split_text doc ls) ≡ texts doc ++ line_texts split_text ls
  unfolding put_lines
  texts-put_lines doc [] = sym (append-nil (texts doc))
  texts-put_lines doc (l ∷ rest) =
      texts-put_lines (put_line page_height split_text doc l) rest
      ∙ ap (λ t. t ++ line_texts split_text rest) (texts-put_line doc l)
      ∙ append_assoc (texts doc) (texts_of_line l) (line_texts split_text rest)

  texts-put_heading :
      (doc : Doc) (heading : String)
      → texts (put_heading page_height split_text doc heading) ≡ texts doc ++ heading ∷ []
  unfolding put_heading
  texts-put_heading doc heading =
      map-append (λ t. t.text) (ensure_space page_height 162 doc).drawn _
      ∙ ap (λ l. l ++ heading ∷ []) (texts-ensure_space 162 doc)

  texts-put_sections :
      (doc : Doc) (sections : List DecisionReportSection)
      → texts (put_sections page_height split_text doc sections)
        ≡ texts doc ++ section_texts split_text sections
  unfolding put_sections
  texts-put_sections doc [] = sym (append-nil (texts doc))
  texts-put_sections doc (s ∷ rest) =
      let headed = put_heading page_height split_text doc s.heading in
      let later = section_texts split_text rest in
      texts-put_sections (put_lines page_height split_text headed s.lines) rest
      ∙ ap (λ l. l ++ later) (texts-put_lines headed s.lines)
      ∙ ap (λ l. (l ++ line_texts split_text s.lines) ++ later) (texts-put_heading doc s.heading)
      ∙ ap (λ l. l ++ later)
          (append_assoc (texts doc) (s.heading ∷ []) (line_texts split_text s.lines))
      ∙ append_assoc (texts doc) (s.heading ∷ line_texts split_text s.lines) later

  -- On a page of more than 44.2 mm every text of the report is between the top and the bottom margin
  -- of its page. The first is on the first page, and each of the others is on the page of the one
  -- before it, at least 5 mm below that one, or else on the page after it. The texts are those of
  -- the report, each once and in their order.
  pub build_decision_report_pdf-IsWithin :
      (d : DecisionReportData)
      → 442 ≤ page_height
      → All IsWithin (build_decision_report_pdf page_height split_text d)
        × Flows 1 page_margin (build_decision_report_pdf page_height split_text d)
        × (map (λ t. t.text) (build_decision_report_pdf page_height split_text d)
            ≡ report_texts split_text d)
  unfolding build_decision_report_pdf
  build_decision_report_pdf-IsWithin d tall = (
    (put_sections-AreWithin tall (front_matter page_height split_text d) d.sections
        (front_matter-AreWithin tall d)).1,
    Flows-of_Ends 1 page_margin _ _ _ (
        put_sections-IsLaid page_height split_text (front_matter page_height split_text d)
          d.sections (front_matter-IsLaid page_height split_text d)),
    texts-put_sections (front_matter page_height split_text d) d.sections,
  )
