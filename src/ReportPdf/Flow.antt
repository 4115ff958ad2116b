-- ===== src/ReportPdf/Flow.antt =====
-- The pages of frontend/src/lib/decisionReportPdf.ts, from each text to the next one.
use industrial_safety_intell.Prelude.{
  ℕ, suc, ◌+◌, ◌-◌, ◌≤◌, String, List, [], ◌∷◌, ◌++◌, ltb, ◌≡◌, ◌⊎◌, refl, arith, Bool-cases, inl,
  inr,
}
use mathlib.Core.Path.{subst}
use industrial_safety_intell.Prelude.Eq.{◌==◌, string_eq}
use industrial_safety_intell.Reports.{DecisionReportSection}
use industrial_safety_intell.ReportPdf.{
  DecisionReportData, Placed, Doc, draw, move, page_margin, line_height, half_line, ensure_space,
  put_wrapped, put_line, put_lines, put_heading, put_sections, front_matter,
}

-- A text on the page `page`, at `y` or further down, or else on the page after it.
abbrev pub Follows : ℕ → ℕ → Placed → Type 0
Follows page y t = ((t.page ≡ page) × (y ≤ t.at)) ⊎ (t.page ≡ suc page)

-- Texts that follow each other from there, each at least 5 mm below the one before it, or on the
-- next page.
abbrev pub Flows : ℕ → ℕ → List Placed → Type 0
Flows page y [] = Unit
Flows page y (t ∷ ts) = Follows page y t × Flows t.page (t.at + 50) ts

-- Such texts, with the page of the last one, and a place below it.
abbrev pub Ends : ℕ → ℕ → List Placed → ℕ → ℕ → Type 0
Ends page y [] last below = (last ≡ page) × (y ≤ below)
Ends page y (t ∷ ts) last below = Follows page y t × Ends t.page (t.at + 50) ts last below

pub Flows-of_Ends :
    (page y : ℕ) (ts : List Placed) (last below : ℕ) → Ends page y ts last below → Flows page y ts
Flows-of_Ends page y [] last below h = tt
Flows-of_Ends page y (t ∷ ts) last below h =
    (h.0, Flows-of_Ends t.page (t.at + 50) ts last below h.1)

Ends-below :
    (page y : ℕ) (ts : List Placed) (last below n : ℕ)
    → Ends page y ts last below
    → Ends page y ts last (below + n)
Ends-below page y [] last below n h = (h.0, omega (arith, h.1))
Ends-below page y (t ∷ ts) last below n h = (h.0, Ends-below t.page (t.at + 50) ts last below n h.1)

Ends-append :
    (page y : ℕ) (ts : List Placed) (last below : ℕ) (t : Placed)
    → Ends page y ts last below
    → Follows last below t
    → Ends page y (ts ++ t ∷ []) t.page (t.at + 50)
Ends-append page y [] last below t h (inl f) =
    (inl (ground (arith, h.0, f.0), omega (arith, h.1, f.1)), (refl, omega arith))
Ends-append page y [] last below t h (inr f) = (inr (ground (arith, h.0, f)), (refl, omega arith))
Ends-append page y (u ∷ us) last below t h f =
    (h.0, Ends-append u.page (u.at + 50) us last below t h.1 f)

-- The texts of a document follow each other, down to where it stands.
abbrev pub IsLaid : Doc → Type 0
IsLaid doc = Ends 1 page_margin doc.drawn doc.page doc.y

move-IsLaid : (n : ℕ) (doc : Doc) → IsLaid doc → IsLaid (move n doc)
move-IsLaid n doc h = Ends-below 1 page_margin doc.drawn doc.page doc.y n h

-- A document that stands where it stood, or on the next page, with the same texts.
abbrev Continues : Doc → Doc → Type 0
Continues old doc =
    (doc.drawn ≡ old.drawn)
    × (((doc.page ≡ old.page) × (old.y ≤ doc.y)) ⊎ (doc.page ≡ suc old.page))

ensure_space-Continues :
    (page_height n : ℕ) (doc : Doc) → Continues doc (ensure_space page_height n doc)
unfolding ensure_space
ensure_space-Continues page_height n doc =
    elim (Bool-cases (ltb (page_height - page_margin) (doc.y + n))) [
      | inl p ↦ rw p (refl, inr refl)
      | inr p ↦ rw p (refl, inl (refl, omega arith))
    ]

draw-IsLaid :
    (text : String) (old doc : Doc) (n : ℕ)
    → IsLaid old
    → Continues old doc
    → IsLaid (move (50 + n) (draw text doc))
draw-IsLaid text old doc n h (same, follows) =
    let t : Placed = record { text = text; page = doc.page; at = doc.y } in
    subst (λ below. Ends 1 page_margin (doc.drawn ++ t ∷ []) doc.page below) (omega arith)
      (Ends-below 1 page_margin (doc.drawn ++ t ∷ []) doc.page (doc.y + 50) n
        (rw same (Ends-append 1 page_margin old.drawn old.page old.y t h follows)))

move-Continues : (n : ℕ) (old doc : Doc) → Continues old doc → Continues old (move n doc)
move-Continues n old doc (same, inl (p, le)) = (same, inl (p, omega (arith, le)))
move-Continues n old doc (same, inr p) = (same, inr p)

module _ (page_height : ℕ) (split_text : String → List String) where
  put_wrapped-IsLaid :
      (doc : Doc) (ws : List String)
      → IsLaid doc
      → IsLaid (put_wrapped page_height split_text doc ws)
  unfolding put_wrapped
  put_wrapped-IsLaid doc [] h = h
  put_wrapped-IsLaid doc (w ∷ rest) h =
      let top = ensure_space page_height line_height doc in
      put_wrapped-IsLaid (move line_height (draw w top)) rest
        (draw-IsLaid w doc top 2 h (ensure_space-Continues page_height line_height doc))

  put_line-IsLaid :
      (doc : Doc) (l : String) → IsLaid doc → IsLaid (put_line page_height split_text doc l)
  unfolding put_line
  put_line-IsLaid doc l h = elim (Bool-cases (l == "")) [
    | inl p ↦ rw p (move-IsLaid half_line doc h)
    | inr p ↦ rw p (put_wrapped-IsLaid doc (split_text l) h)
  ]

  put_lines-IsLaid :
      (doc : Doc) (ls : List String) → IsLaid doc → IsLaid (put_lines page_height split_text doc ls)
  unfolding put_lines
  put_lines-IsLaid doc [] h = h
  put_lines-IsLaid doc (l ∷ rest) h =
      put_lines-IsLaid (put_line page_height split_text doc l) rest (put_line-IsLaid doc l h)

  put_heading-IsLaid :
      (doc : Doc) (heading : String)
      → IsLaid doc
      → IsLaid (put_heading page_height split_text doc heading)
  unfolding put_heading
  put_heading-IsLaid doc heading h =
      let top = ensure_space page_height 162 doc in
      draw-IsLaid heading doc (move 80 top) 0 h
        (move-Continues 80 doc top (ensure_space-Continues page_height 162 doc))

  pub put_sections-IsLaid :
      (doc : Doc) (sections : List DecisionReportSection)
      → IsLaid doc
      → IsLaid (put_sections page_height split_text doc sections)
  unfolding put_sections
  put_sections-IsLaid doc [] h = h
  put_sections-IsLaid doc (s ∷ rest) h =
      let headed = put_heading page_height split_text doc s.heading in
      put_sections-IsLaid (put_lines page_height split_text headed s.lines) rest
        (put_lines-IsLaid headed s.lines (put_heading-IsLaid doc s.heading h))

  pub front_matter-IsLaid :
      (d : DecisionReportData) → IsLaid (front_matter page_height split_text d)
  front_matter-IsLaid d = (
    inl (refl, omega arith),
    (inl (refl, omega arith), (inl (refl, omega arith), (refl, omega arith))),
  )
