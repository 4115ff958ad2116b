-- ===== src/Replay/Lookups.antt =====
-- The lookups of frontend/src/lib/timeline.ts and frontend/src/lib/replayTimeline.ts.
use industrial_safety_intell.Prelude.{
  ℕ, suc, ◌+◌, String, Bool, true, false, List, [], ◌∷◌, none, some, Memᴰ, ◌≡◌, ◌≢◌, ◌⊎◌, refl, sym,
  ap, ◌∙◌, arith, ◌||◌, Bool-cases, inl, inr,
}
use industrial_safety_intell.Prelude.Double.{Double, IsOrdered, le}
use industrial_safety_intell.Prelude.Eq.{
  includes, IsDistinct, dedup_from, includes-dedup_from, dedup_from-IsDistinct, string_eq,
}
use industrial_safety_intell.Prelude.Lists.{
  All, All-imp, All-Memᴰ, any, filter, filter-All, get_elem?, Memᴰ-filter, Memᴰ_of_filter,
}
use industrial_safety_intell.Prelude.Select.{
  select, select?, select_later, select_earlier, select?-IsGreatest,
}
use industrial_safety_intell.Prelude.Sort.{IsSorted, sort-IsSorted, includes-sort, sort-IsDistinct}
use industrial_safety_intell.Prelude.Text.{text_gt, text_gt_asym, text_le_trans}
use industrial_safety_intell.Api.Risk.{RiskAssessment}
use industrial_safety_intell.Replay.{
  time_at, at_or_before, assessment_at_or_before, delta, nearest_from, find_nearest_timestamp_index,
  add_all, merge_timestamps,
}

module _ {N : Type 0} ⦃d : Double N⦄ (time_of : String → N) where
  -- `item` is not after the time.
  abbrev pub is_past : N → RiskAssessment N → Bool
  is_past at_time item = le (time_at time_of item) at_time

  at_or_before-select :
      (at_time : N) (best : RiskAssessment N) (history : List (RiskAssessment N))
      → at_or_before time_of at_time (some best) history
        ≡ some (select d.lt (time_at time_of) best (filter (is_past at_time) history))
  unfolding at_or_before select filter
  at_or_before-select at_time best [] = refl
  at_or_before-select at_time best (x ∷ xs) = elim (Bool-cases (is_past at_time x)) [
    | inl p ↦ elim (Bool-cases (d.lt (time_at time_of best) (time_at time_of x))) [
      | inl q ↦ rw p (
          rw q (
            at_or_before-select at_time x xs
            ∙ ap some
                (sym (select_later d.lt (time_at time_of) best x (filter (is_past at_time) xs) q))))
      | inr q ↦ rw p (
          rw q (
            at_or_before-select at_time best xs
            ∙ ap some (
                sym
                  (select_earlier d.lt (time_at time_of) best x (filter (is_past at_time) xs) q))))
    ]
    | inr p ↦ rw p (at_or_before-select at_time best xs)
  ]

  -- The loop selects the latest of the assessments that are not after the time.
  assessment_at_or_before-select :
      (history : List (RiskAssessment N)) (at_time : N)
      → assessment_at_or_before time_of history at_time
        ≡ select? d.lt (time_at time_of) (filter (is_past at_time) history)
  unfolding assessment_at_or_before at_or_before select? filter
  assessment_at_or_before-select [] at_time = refl
  assessment_at_or_before-select (x ∷ xs) at_time = elim (Bool-cases (is_past at_time x)) [
    | inl p ↦ rw p (at_or_before-select at_time x xs)
    | inr p ↦ rw p (assessment_at_or_before-select xs at_time)
  ]

  past_of_filter :
      (at_time : N) (history : List (RiskAssessment N)) {a : RiskAssessment N}
      → Memᴰ a (filter (is_past at_time) history)
      → is_past at_time a ≡ true
  past_of_filter at_time history m =
      All-Memᴰ _ (filter (is_past at_time) history) (filter-All (is_past at_time) history) m

  -- The assessment found is one of the history, is not after the time, and no assessment of the
  -- history that is not after the time is later than it.
  pub assessment_at_or_before-latest :
      (history : List (RiskAssessment N)) (at_time : N) (best : RiskAssessment N)
      → IsOrdered d
      → assessment_at_or_before time_of history at_time ≡ some best
      → Memᴰ best history
        × (is_past at_time best ≡ true)
        × ((a : RiskAssessment N)
            → Memᴰ a history
            → is_past at_time a ≡ true
            → d.lt (time_at time_of best) (time_at time_of a) ≡ false)
  assessment_at_or_before-latest history at_time best laws h =
      let past = filter (is_past at_time) history in
      let (m, top) =
        select?-IsGreatest d.lt (time_at time_of) laws.lt_asym laws.not_lt_trans past best
          (sym (assessment_at_or_before-select history at_time) ∙ h) in
      (
        Memᴰ_of_filter (is_past at_time) history m,
        past_of_filter at_time history m,
        λ a k q. All-Memᴰ _ past top (Memᴰ-filter (is_past at_time) history k q),
      )

  select?-none : (xs : List (RiskAssessment N)) → select? d.lt (time_at time_of) xs ≡ none → xs ≡ []
  unfolding select?
  select?-none [] h = refl
  select?-none (x ∷ xs) h = cc

  filter_nil :
      (at_time : N) (xs : List (RiskAssessment N))
      → filter (is_past at_time) xs ≡ []
      → All (λ a. is_past at_time a ≡ false) xs
  unfolding filter
  filter_nil at_time [] h = tt
  filter_nil at_time (x ∷ xs) h = elim (Bool-cases (is_past at_time x)) [
    | inl p ↦ absurd (let e = rw p at h in cc)
    | inr p ↦ (p, filter_nil at_time xs (rw p at h))
  ]

  -- Nothing is found only if every assessment of the history is after the time.
  pub assessment_at_or_before-none :
      (history : List (RiskAssessment N)) (at_time : N)
      → assessment_at_or_before time_of history at_time ≡ none
      → All (λ a. d.lt at_time (time_at time_of a) ≡ true) history
  assessment_at_or_before-none history at_time h =
      All-imp _ _ history (λ a q. ground arith)
        (filter_nil at_time history (
          select?-none (filter (is_past at_time) history)
            (sym (assessment_at_or_before-select history at_time) ∙ h)))

  -- The loop keeps its best index, or moves it to a position of the list with a smaller delta.
  abbrev Nearest : N → ℕ → N → ℕ → List String → ℕ → Type 0
  Nearest target_ms i b best ts r =
      ((r ≡ best) × All (λ s. d.lt (delta time_of target_ms s) b ≡ false) ts)
      ⊎ ((j : ℕ) × (t : String) × (r ≡ i + j)
          × (get_elem? ts j ≡ some t)
          × (d.lt (delta time_of target_ms t) b ≡ true)
          × All (λ s. d.lt (delta time_of target_ms s) (delta time_of target_ms t) ≡ false) ts)

  module _ (laws : IsOrdered d) where
    lt_irrefl : (a : N) → d.lt a a ≡ false
    lt_irrefl a = ground (arith, laws.lt_asym a a)

    lt_trans : (a b c : N) → d.lt a b ≡ true → d.lt b c ≡ true → d.lt a c ≡ true
    lt_trans a b c h k = ground (arith, laws.lt_asym b c, laws.not_lt_trans a c b)

    nearest_from-Nearest :
        (target_ms : N) (i : ℕ) (b : N) (best : ℕ) (ts : List String)
        → Nearest target_ms i b best ts (nearest_from time_of target_ms i (some b) best ts)
    unfolding nearest_from
    nearest_from-Nearest target_ms i b best [] = inl (refl, tt)
    nearest_from-Nearest target_ms i b best (x ∷ xs) =
        let δ : String → N = delta time_of target_ms in
        elim (Bool-cases (d.lt (δ x) b)) [
          | inl q ↦ rw q (elim (nearest_from-Nearest target_ms (suc i) (δ x) i xs) [
            | inl (e, all) ↦ inr (0, x, omega (arith, e), refl, q, (lt_irrefl (δ x), all))
            | inr (j, t, e, g, l, all) ↦ inr (
              suc j,
              t,
              omega (arith, e),
              g,
              lt_trans (δ t) (δ x) b l q,
              (laws.lt_asym (δ t) (δ x) l, all),
            )
          ])
          | inr q ↦ rw q (elim (nearest_from-Nearest target_ms (suc i) b best xs) [
            | inl (e, all) ↦ inl (e, (refl, all))
            | inr (j, t, e, g, l, all) ↦ inr (
              suc j,
              t,
              omega (arith, e),
              g,
              l,
              (laws.not_lt_trans (δ x) b (δ t) q (laws.lt_asym (δ t) b l), all),
            )
          ])
        ]

  one_add : (j : ℕ) → 1 + j ≡ suc j
  one_add j = omega arith

  -- On an axis that is not empty, the index found is a position of the axis, and no timestamp of the
  -- axis is closer to the target than the one at that position.
  pub find_nearest_timestamp_index-nearest :
      (ts : List String) (target : String)
      → IsOrdered d
      → ts ≢ []
      → (t : String) × (get_elem? ts (find_nearest_timestamp_index time_of ts target) ≡ some t)
        × All
            (λ s.
              d.lt (delta time_of (time_of target) s) (delta time_of (time_of target) t) ≡ false)
            ts
  unfolding find_nearest_timestamp_index nearest_from
  find_nearest_timestamp_index-nearest [] target laws n = absurd (n refl)
  find_nearest_timestamp_index-nearest (x ∷ xs) target laws n =
      elim (nearest_from-Nearest laws (time_of target) 1 (delta time_of (time_of target) x) 0 xs) [
        | inl (e, all) ↦ (x, ap (get_elem? (x ∷ xs)) e, (lt_irrefl laws _, all))
        | inr (j, t, e, g, l, all) ↦
            (t, ap (get_elem? (x ∷ xs)) (e ∙ one_add j) ∙ g, (laws.lt_asym _ _ l, all))
      ]

includes-add_all :
    (seen : List String) (per_zone : List (List String)) (t : String)
    → includes (add_all seen per_zone) t ≡ (includes seen t || any (λ ts. includes ts t) per_zone)
unfolding add_all any
includes-add_all seen [] t = ground arith
includes-add_all seen (ts ∷ rest) t =
    includes-add_all (dedup_from seen ts) rest t ∙ ground (arith, includes-dedup_from seen ts t)

add_all-IsDistinct :
    (seen : List String) (per_zone : List (List String))
    → IsDistinct seen
    → IsDistinct (add_all seen per_zone)
unfolding add_all
add_all-IsDistinct seen [] h = h
add_all-IsDistinct seen (ts ∷ rest) h =
    add_all-IsDistinct (dedup_from seen ts) rest (dedup_from-IsDistinct seen ts h)

-- The shared axis is in ascending order and has no timestamp twice, and a timestamp is on it exactly
-- if some zone has it.
pub merge_timestamps-IsAxis :
    (per_zone : List (List String))
    → IsSorted text_gt (merge_timestamps per_zone)
      × IsDistinct (merge_timestamps per_zone)
      × ((t : String) → includes (merge_timestamps per_zone) t ≡ any (λ ts. includes ts t) per_zone)
unfolding merge_timestamps includes
merge_timestamps-IsAxis per_zone = (
  sort-IsSorted text_gt text_gt_asym (λ a b c h k. text_le_trans a b c h k) (add_all [] per_zone),
  sort-IsDistinct text_gt (add_all [] per_zone) (add_all-IsDistinct [] per_zone tt),
  λ t. includes-sort text_gt (add_all [] per_zone) t ∙ includes-add_all [] per_zone t,
)
