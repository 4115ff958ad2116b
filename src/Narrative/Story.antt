-- ===== src/Narrative/Story.antt =====
-- `buildOperationalNarrative` of frontend/src/lib/operationalNarrative.ts and the ticks it tells.
use industrial_safety_intell.Prelude.{
  String, true, false, List, [], ◌∷◌, Option, none, some, map, Memᴰ, ◌≡◌, ◌⊎◌, refl, sym, ap,
  Bool-cases, inl, inr,
}
use mathlib.Core.Path.{subst}
use industrial_safety_intell.Prelude.Double.{Double}
use industrial_safety_intell.Prelude.Eq.{string_eq}
use industrial_safety_intell.Prelude.Lists.{All, All-imp}
use industrial_safety_intell.Api.Risk.{RiskAssessment}
use industrial_safety_intell.Narrative.{
  NarrativeEntry, sentence_of, narrative_entry, is_repeated, narrate, build_operational_narrative,
}

abbrev pub sentences : List NarrativeEntry → List String
sentences = map (λ e. e.sentence)

-- No entry repeats the sentence before it.
abbrev pub IsVaried : Option String → List NarrativeEntry → Type 0
IsVaried last [] = Unit
IsVaried last (e ∷ es) = (is_repeated last e.sentence ≡ false) × IsVaried (some e.sentence) es

-- The sentence was the last one already, or is among the entries.
abbrev IsTold : Option String → List NarrativeEntry → String → Type 0
IsTold last es s = (last ≡ some s) ⊎ Memᴰ s (sentences es)

IsTold-later :
    (last : Option String) (e : NarrativeEntry) (es : List NarrativeEntry) (s : String)
    → IsTold (some e.sentence) es s
    → IsTold last (e ∷ es) s
IsTold-later last e es s (inl q) = inr (Memᴰ.head (cc))
IsTold-later last e es s (inr m) = inr (Memᴰ.tail m)

repeated_is : (last : Option String) (s : String) → is_repeated last s ≡ true → last ≡ some s
repeated_is none s h = cc
repeated_is (some l) s h = ap some (sym ((string_eq.same_iff s l).0 h))

module _ {N : Type 0} ⦃d : Double N⦄ (upper_case : String → String) where
  -- An entry of a tick of the timeline
  abbrev pub IsFrom : List (RiskAssessment N) → NarrativeEntry → Type 0
  IsFrom ts e = (a : RiskAssessment N) × Memᴰ a ts × (e ≡ narrative_entry upper_case a)

  IsFrom-later :
      (a : RiskAssessment N) (ts : List (RiskAssessment N)) (e : NarrativeEntry)
      → IsFrom ts e
      → IsFrom (a ∷ ts) e
  IsFrom-later a ts e (b, m, q) = (b, Memᴰ.tail m, q)

  narrate-IsVaried :
      (last : Option String) (ts : List (RiskAssessment N))
      → IsVaried last (narrate upper_case last ts)
  unfolding narrate
  narrate-IsVaried last [] = tt
  narrate-IsVaried last (a ∷ ts) = elim (Bool-cases (is_repeated last (sentence_of upper_case a))) [
    | inl q ↦ rw q (narrate-IsVaried last ts)
    | inr q ↦ rw q (q, narrate-IsVaried (some (sentence_of upper_case a)) ts)
  ]

  narrate_skips :
      (last : Option String) (a : RiskAssessment N) (ts : List (RiskAssessment N))
      → is_repeated last (sentence_of upper_case a) ≡ true
      → narrate upper_case last (a ∷ ts) ≡ narrate upper_case last ts
  unfolding narrate
  narrate_skips last a ts q = rw q refl

  narrate_pushes :
      (last : Option String) (a : RiskAssessment N) (ts : List (RiskAssessment N))
      → is_repeated last (sentence_of upper_case a) ≡ false
      → narrate upper_case last (a ∷ ts)
        ≡ narrative_entry upper_case a ∷ narrate upper_case (some (sentence_of upper_case a)) ts
  unfolding narrate
  narrate_pushes last a ts q = rw q refl

  abbrev AllTold : Option String → List (RiskAssessment N) → List NarrativeEntry → Type 0
  AllTold last ts es = All (λ a. IsTold last es (sentence_of upper_case a)) ts

  narrate-AllTold :
      (last : Option String) (ts : List (RiskAssessment N))
      → AllTold last ts (narrate upper_case last ts)
  narrate-AllTold last [] = tt
  narrate-AllTold last (a ∷ ts) =
      let said = sentence_of upper_case a in
      elim (Bool-cases (is_repeated last said)) [
        | inl q ↦
            subst (AllTold last (a ∷ ts)) (sym (narrate_skips last a ts q))
              (inl (repeated_is last said q), narrate-AllTold last ts)
        | inr q ↦
            let later = narrate upper_case (some said) ts in
            subst (AllTold last (a ∷ ts)) (sym (narrate_pushes last a ts q)) (
              inr (Memᴰ.head refl),
              All-imp _ _ ts
                  (λ b h.
                    IsTold-later last (narrative_entry upper_case a) later
                      (sentence_of upper_case b) h)
                  (narrate-AllTold (some said) ts),
            )
      ]

  narrate-IsFrom :
      (last : Option String) (ts : List (RiskAssessment N))
      → All (IsFrom ts) (narrate upper_case last ts)
  unfolding narrate
  narrate-IsFrom last [] = tt
  narrate-IsFrom last (a ∷ ts) = elim (Bool-cases (is_repeated last (sentence_of upper_case a))) [
    | inl q ↦ rw q (
        All-imp _ _ (narrate upper_case last ts) (λ e h. IsFrom-later a ts e h)
          (narrate-IsFrom last ts))
    | inr q ↦ rw q (
      (a, Memᴰ.head refl, refl),
      All-imp _ _ (narrate upper_case (some (sentence_of upper_case a)) ts)
          (λ e h. IsFrom-later a ts e h) (narrate-IsFrom (some (sentence_of upper_case a)) ts),
    )
  ]

  -- The narrative of a timeline has no sentence twice in a row, tells the sentence of every tick, and
  -- each of its entries is the sentence and the timestamp of one of the ticks.
  pub build_operational_narrative-tells :
      (timeline : List (RiskAssessment N))
      → IsVaried none (build_operational_narrative upper_case timeline)
        × All
            (λ a.
              Memᴰ
                (sentence_of upper_case a)
                (sentences (build_operational_narrative upper_case timeline)))
            timeline
        × All (IsFrom timeline) (build_operational_narrative upper_case timeline)
  unfolding build_operational_narrative
  build_operational_narrative-tells timeline = (
    narrate-IsVaried none timeline,
    All-imp _ _ timeline
        (λ a h. told_only (narrate upper_case none timeline) (sentence_of upper_case a) h)
        (narrate-AllTold none timeline),
    narrate-IsFrom none timeline,
  )
    where
      told_only : (es : List NarrativeEntry) (s : String) → IsTold none es s → Memᴰ s (sentences es)
      told_only es s (inl q) = cc
      told_only es s (inr m) = m
