-- ===== src/Timeline/Told.antt =====
-- `deriveTimelineEvents` of frontend/src/lib/operatorTimeline.ts beside what it is to tell.
use mathlib.Core.List.{Perm}
use industrial_safety_intell.Prelude.{
  ℕ, suc, ◌+◌, String, Bool, true, false, List, [], ◌∷◌, ◌++◌, Option, none, some, ◌≡◌, ◌≢◌, refl,
  sym, ap, ◌∙◌, arith, Bool-cases, inl, inr,
}
use mathlib.Core.Path.{subst}
use mathlib.Core.List.{append_assoc, append-nil}
use industrial_safety_intell.Prelude.Double.{Double, IsOrdered}
use industrial_safety_intell.Prelude.Lists.{get_elem?}
use industrial_safety_intell.Prelude.Select.{select, pick, select-IsGreatest, select-Memᴰ}
use industrial_safety_intell.Prelude.Sort.{IsSorted, sort-IsSorted, sort-perm}
use industrial_safety_intell.Api.Risk.{Tier, RiskAssessment, is_tier, is_tier_eq, is_tier_refl}
use industrial_safety_intell.Justification.{RiskJustification, parse_justification, fired}
use industrial_safety_intell.Timeline.{
  TimelineEvent, Watch, tier_events, bonus_events, higher, watch, watch_all, unwatched, peak_events,
  later_event, derive_timeline_events,
}
use industrial_safety_intell.Timeline.Telling.{
  IsInOrder, TellsTier, has_bonus, TellsBonus, TellsAfter, Tells, TellsPeak,
}

false_ne_true : false ≢ true
false_ne_true e = cc

module _ {N : Type 0} ⦃d : Double N⦄ where
  tier_events-TellsTier :
      (before a : RiskAssessment N) → TellsTier before a (tier_events (some before.tier) a)
  tier_events-TellsTier before a = elim (Bool-cases (is_tier a.tier before.tier)) [
    | inl p ↦ rw p (TellsTier.same (sym (is_tier_eq a.tier before.tier p)))
    | inr p ↦
        let other : before.tier ≢ a.tier =
          λ e. false_ne_true (sym p ∙ ap (is_tier a.tier) e ∙ is_tier_refl a.tier) in
        elim (Bool-cases (is_tier a.tier Tier.critical)) [
          | inl q ↦ rw (p, q) (TellsTier.entered other (is_tier_eq a.tier Tier.critical q))
          | inr q ↦
              rw (p, q)
                (TellsTier.moved other
                  (λ e. false_ne_true (sym q ∙ ap (λ t. is_tier t Tier.critical) e)))
        ]
  ]

  bonus_events-TellsBonus :
      (was : Bool) (a : RiskAssessment N) (o : Option (RiskJustification N))
      → parse_justification a.justification ≡ o
      → TellsBonus was a (bonus_events was a o)
  unfolding fired
  bonus_events-TellsBonus was a none h = TellsBonus.nothing (inl (rw h refl))
  bonus_events-TellsBonus true a (some j) h =
      elim (Bool-cases (fired (some j) "interaction_bonus_applied")) [
        | inl p ↦ rw p (TellsBonus.nothing (inr refl))
        | inr p ↦ rw p (TellsBonus.nothing (inr refl))
      ]
  bonus_events-TellsBonus false a (some j) h =
      elim (Bool-cases (fired (some j) "interaction_bonus_applied")) [
        | inl p ↦ rw p (TellsBonus.applied j h (rw h p) refl)
        | inr p ↦ rw p (TellsBonus.nothing (inl (rw h p)))
      ]

  watch_all-TellsAfter :
      (before : RiskAssessment N) (w : Watch N) (index : ℕ) (rest : List (RiskAssessment N))
      → w.previous_tier ≡ some before.tier
      → w.previous_bonus_applied ≡ has_bonus before
      → (gs : List TimelineEvent) × ((watch_all w index rest).events ≡ w.events ++ gs)
        × TellsAfter before rest gs
  unfolding watch_all watch
  watch_all-TellsAfter before w index [] t b = ([], sym (append-nil w.events), TellsAfter.ended)
  watch_all-TellsAfter before w index (a ∷ rest) t b =
      let es = tier_events (some before.tier) a in
      let fs = bonus_events (has_bonus before) a (parse_justification a.justification) in
      let (gs, e, later) = watch_all-TellsAfter a (watch w index a) (suc index) rest refl refl in
      (
        (es ++ fs) ++ gs,
        e ∙ rw (t, b) (simp append_assoc),
        TellsAfter.then (tier_events-TellsTier before a)
            (bonus_events-TellsBonus (has_bonus before) a _ refl) later,
      )

  derive-Tells :
      (assessments : List (RiskAssessment N))
      → Tells assessments (watch_all unwatched 0 assessments).events
  unfolding watch_all watch
  derive-Tells [] = Tells.empty
  derive-Tells (a ∷ rest) =
      let (gs, e, later) = watch_all-TellsAfter a (watch unwatched 0 a) 1 rest refl refl in
      subst (Tells (a ∷ rest)) (sym e) (Tells.begun (bonus_events-TellsBonus false a _ refl) later)

  abbrev score : RiskAssessment N → N
  score a = a.compound_risk_score

  -- The highest score so far is that of `best`, at its index.
  abbrev PointsAt : List (RiskAssessment N) → RiskAssessment N → Option (N × ℕ) → Type 0
  PointsAt all best o = (i : ℕ) × (o ≡ some (score best, i)) × (get_elem? all i ≡ some best)

  higher-PointsAt :
      (all : List (RiskAssessment N)) (best a : RiskAssessment N) (index : ℕ) (o : Option (N × ℕ))
      → PointsAt all best o
      → get_elem? all index ≡ some a
      → PointsAt all (pick d.lt score best a) (higher (score a) index o)
  higher-PointsAt all best a index o (i, e, at) here =
      elim (Bool-cases (d.lt (score best) (score a))) [
        | inl p ↦ rw (e, p) (index, refl, here)
        | inr p ↦ rw (e, p) (i, refl, at)
      ]

  watch_all-PointsAt :
      (all rest : List (RiskAssessment N)) (best : RiskAssessment N) (w : Watch N) (index : ℕ)
      → PointsAt all best w.highest
      → ((j : ℕ) (a : RiskAssessment N)
          → get_elem? rest j ≡ some a
          → get_elem? all (index + j) ≡ some a)
      → PointsAt all (select d.lt score best rest) (watch_all w index rest).highest
  unfolding watch_all watch select
  watch_all-PointsAt all [] best w index h k = h
  watch_all-PointsAt all (a ∷ rest) best w index h k =
      watch_all-PointsAt all rest (pick d.lt score best a) (watch w index a) (suc index)
        (higher-PointsAt all best a index w.highest h
          (ap (get_elem? all) (omega arith) ∙ k 0 a refl))
        (λ j x e. ap (get_elem? all) (omega arith) ∙ k (suc j) x e)

  peak_events-TellsPeak :
      (assessments : List (RiskAssessment N))
      → IsOrdered d
      → TellsPeak assessments (peak_events assessments (watch_all unwatched 0 assessments).highest)
  unfolding watch_all watch
  peak_events-TellsPeak [] o = TellsPeak.no_peak
  peak_events-TellsPeak (a ∷ rest) o =
      let top = select d.lt score a rest in
      let (i, e, at) =
        watch_all-PointsAt (a ∷ rest) rest a (watch unwatched 0 a) 1 (0, refl, refl)
          (λ j x h. let q : 1 + j ≡ suc j = omega arith in ap (get_elem? (a ∷ rest)) q ∙ h) in
      rw (e, at)
        (TellsPeak.peak top (select-Memᴰ d.lt score a rest)
          (select-IsGreatest d.lt score o.lt_asym o.not_lt_trans a rest))

  sorted-IsInOrder :
      (time_of : String → N) (es : List TimelineEvent)
      → IsSorted (later_event time_of) es
      → IsInOrder time_of es
  sorted-IsInOrder time_of [] h = tt
  sorted-IsInOrder time_of (e ∷ es) (h, k) = (h, sorted-IsInOrder time_of es k)

  -- The events are in the order of time, and they are these and no others: at each assessment after
  -- the first, one of the change where the tier is not that of the assessment before, and one more
  -- where it is then critical; one where an assessment has the bonus and the one before it has
  -- not; and one of an assessment with the highest score, if there is any assessment. Each has its
  -- assessment's timestamp, and its label.
  pub derive_timeline_events-told :
      (time_of : String → N) (assessments : List (RiskAssessment N))
      → IsOrdered d
      → IsInOrder time_of (derive_timeline_events time_of assessments)
        × ((told : List TimelineEvent) × (peaks : List TimelineEvent) × Tells assessments told
            × TellsPeak assessments peaks
            × Perm (derive_timeline_events time_of assessments) (told ++ peaks))
  unfolding derive_timeline_events
  derive_timeline_events-told time_of assessments o =
      let after = later_event time_of in
      let w = watch_all unwatched 0 assessments in
      let peaks = peak_events assessments w.highest in
      (
        sorted-IsInOrder time_of _ (
            sort-IsSorted after (λ x y h. o.lt_asym _ _ h) (λ x y z h k. o.not_lt_trans _ _ _ k h)
              (w.events ++ peaks)),
        (
          w.events,
          peaks,
          derive-Tells assessments,
          peak_events-TellsPeak assessments o,
          sort-perm after (w.events ++ peaks),
        ),
      )
