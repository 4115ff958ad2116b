-- ===== src/Reports/Selection.antt =====
-- `selectReportSections`, frontend/src/lib/reportTemplates.ts: what an audience's document has.
use industrial_safety_intell.Prelude.{
  String, Bool, List, [], ◌∷◌, some, map, is_some, ◌||◌, ◌≡◌, refl, sym, ap, ◌∙◌, Memᴰ, inl, inr,
  arith, Bool-cases, Option-cases, some_injective,
}
use mathlib.Core.Path.{subst}
use industrial_safety_intell.Prelude.Dict.{get, set, get-set, is_some-set}
use industrial_safety_intell.Prelude.Eq.{◌==◌, string_eq}
use industrial_safety_intell.Prelude.Lists.{All, All_of_Memᴰ, any, filter}
use industrial_safety_intell.Reports.{
  DecisionReportSection, ReportTemplateKind, get_report_template, sections_by_heading,
  select_headings, select_report_sections,
}

abbrev ByHeading : Type 0
ByHeading = List (String × DecisionReportSection)

abbrev pub has_heading : List DecisionReportSection → String → Bool
has_heading sections h = any (λ s. s.heading == h) sections

known-sections_by_heading :
    (by_heading : ByHeading) (sections : List DecisionReportSection) (h : String)
    → is_some (get h (sections_by_heading by_heading sections))
      ≡ (is_some (get h by_heading) || has_heading sections h)
unfolding sections_by_heading any
known-sections_by_heading by_heading [] h = ground arith
known-sections_by_heading by_heading (s ∷ rest) h =
    known-sections_by_heading (set s.heading s by_heading) rest h
    ∙ ground (arith, is_some-set s.heading h s by_heading)

-- What a heading leads to is a section that the list has under it.
Leads : ByHeading → List DecisionReportSection → Type 0
Leads by_heading all =
    (h : String) (s : DecisionReportSection)
    → get h by_heading ≡ some s
    → Memᴰ s all × (s.heading ≡ h)

Leads-set :
    (by_heading : ByHeading) (all : List DecisionReportSection) (s : DecisionReportSection)
    → Memᴰ s all
    → Leads by_heading all
    → Leads (set s.heading s by_heading) all
unfolding Leads
Leads-set by_heading all s m l h t e = elim (Bool-cases (s.heading == h)) [
  | inl p ↦
      let q : s ≡ t =
        some_injective (sym (rw p refl) ∙ sym (get-set s.heading h s by_heading) ∙ e) in
      (
        subst (λ x. Memᴰ x all) q m,
        ap (λ x. x.heading) (sym q) ∙ (string_eq.same_iff s.heading h).0 p,
      )
  | inr p ↦ l h t (sym (get-set s.heading h s by_heading ∙ rw p refl) ∙ e)
]

Leads-sections_by_heading :
    (by_heading : ByHeading) (all sections : List DecisionReportSection)
    → All (λ s. Memᴰ s all) sections
    → Leads by_heading all
    → Leads (sections_by_heading by_heading sections) all
unfolding sections_by_heading
Leads-sections_by_heading by_heading all [] h l = l
Leads-sections_by_heading by_heading all (s ∷ rest) h l =
    Leads-sections_by_heading (set s.heading s by_heading) all rest h.1
      (Leads-set by_heading all s h.0 l)

select_headings-lem :
    (by_heading : ByHeading) (all : List DecisionReportSection) (headings : List String)
    → Leads by_heading all
    → (map (λ s. s.heading) (select_headings by_heading headings)
        ≡ filter (λ h. is_some (get h by_heading)) headings)
      × All (λ s. Memᴰ s all) (select_headings by_heading headings)
unfolding select_headings filter Leads
select_headings-lem by_heading all [] l = (refl, tt)
select_headings-lem by_heading all (h ∷ rest) l =
    let (same, inside) = select_headings-lem by_heading all rest l in
    elim (Option-cases (get h by_heading)) [
      | inl p ↦ rw p (same, inside)
      | inr (s, p) ↦ let (m, e) = l h s p in rw p (λ i. e i ∷ same i, (m, inside))
    ]

no-Leads : (all : List DecisionReportSection) → Leads [] all
unfolding Leads get
no-Leads all h s e = absurd (cc)

filter_same :
    (p q : String → Bool) (xs : List String)
    → ((x : String) → p x ≡ q x)
    → filter p xs ≡ filter q xs
unfolding filter
filter_same p q [] h = refl
filter_same p q (x ∷ xs) h = ground (arith, h x, filter_same p q xs h)

-- The document of an audience has, in the order of its template, each heading of the template that
-- the report has, and no other; and its sections are sections of the report.
pub select_report_sections-lem :
    (kind : ReportTemplateKind) (all_sections : List DecisionReportSection)
    → (map (λ s. s.heading) (select_report_sections kind all_sections)
        ≡ filter (has_heading all_sections) (get_report_template kind).section_headings)
      × All (λ s. Memᴰ s all_sections) (select_report_sections kind all_sections)
unfolding select_report_sections
select_report_sections-lem kind all_sections =
    let by_heading = sections_by_heading [] all_sections in
    let headings = (get_report_template kind).section_headings in
    let leads =
      Leads-sections_by_heading [] all_sections all_sections (All_of_Memᴰ all_sections (λ s m. m))
        (no-Leads all_sections) in
    let (same, inside) = select_headings-lem by_heading all_sections headings leads in
    (
      same
          ∙ filter_same _ _ headings
              (λ h. known-sections_by_heading [] all_sections h ∙ unfold get in refl),
      inside,
    )
