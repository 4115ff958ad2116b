-- ===== src/Comparison/Choice.antt =====
-- `pickComparisonMoment` of frontend/src/lib/decisionComparison.ts.
use industrial_safety_intell.Prelude.{
  true, false, List, [], ◌∷◌, Option, none, some, Memᴰ, ◌≡◌, ◌≢◌, ◌↔◌, refl, sym, ap, ◌∙◌, arith,
  Option-cases, inl, inr,
}
use mathlib.Core.Path.{subst}
use industrial_safety_intell.Api.Risk.{CompoundVerdict}
use industrial_safety_intell.Prelude.Double.{Double, IsOrdered}
use industrial_safety_intell.Prelude.Lists.{
  All, All-Memᴰ, All-imp, filter, filter-All, Memᴰ-filter, Memᴰ_of_filter,
}
use industrial_safety_intell.Prelude.Select.{select?, select?-IsGreatest, IsGreatest}
use industrial_safety_intell.Comparison.{
  ComparisonMoment, Compared, put_compared, with_compound, is_divergent, moment_of, is_miss,
  pool_of, pick_compared, pick_comparison_moment, compared_score,
}

not_nil : {A : Type 0} {a : A} → Memᴰ a [] → ⊥
not_nil m = elim m [ ]

module _ {N : Type 0} where
  -- A candidate is one of the moments, with the verdict that the moment has.
  abbrev IsFrom : List (ComparisonMoment N) → Compared N → Type 0
  IsFrom ms p = Memᴰ p.0 ms × (p.0.compound ≡ some p.1)

  put_compared-IsFrom :
      (m : ComparisonMoment N) (ms : List (ComparisonMoment N)) (o : Option (CompoundVerdict N))
      (rest : List (Compared N))
      → m.compound ≡ o
      → All (IsFrom (m ∷ ms)) rest
      → All (IsFrom (m ∷ ms)) (put_compared m o rest)
  put_compared-IsFrom m ms none rest e h = h
  put_compared-IsFrom m ms (some c) rest e h = ((Memᴰ.head refl, e), h)

  with_compound-IsFrom : (ms : List (ComparisonMoment N)) → All (IsFrom ms) (with_compound ms)
  unfolding with_compound
  with_compound-IsFrom [] = tt
  with_compound-IsFrom (m ∷ ms) = put_compared-IsFrom m ms m.compound (with_compound ms) refl (
      All-imp (IsFrom ms) (IsFrom (m ∷ ms)) (with_compound ms) (λ p h. (Memᴰ.tail h.0, h.1))
        (with_compound-IsFrom ms))

  Memᴰ-put_compared :
      (m : ComparisonMoment N) (o : Option (CompoundVerdict N)) (rest : List (Compared N))
      {p : Compared N}
      → Memᴰ p rest
      → Memᴰ p (put_compared m o rest)
  Memᴰ-put_compared m none rest h = h
  Memᴰ-put_compared m (some c) rest h = Memᴰ.tail h

  put_compared_self :
      (x m : ComparisonMoment N) (o : Option (CompoundVerdict N)) (rest : List (Compared N))
      {c : CompoundVerdict N}
      → m ≡ x
      → o ≡ some c
      → Memᴰ (m, c) (put_compared x o rest)
  put_compared_self x m none rest q e = cc
  put_compared_self x m (some k) rest q e = Memᴰ.head (cc)

  with_compound-Memᴰ :
      (ms : List (ComparisonMoment N)) (m : ComparisonMoment N) (c : CompoundVerdict N)
      → Memᴰ m ms
      → m.compound ≡ some c
      → Memᴰ (m, c) (with_compound ms)
  unfolding with_compound
  with_compound-Memᴰ [] m c h e = elim h [ ]
  with_compound-Memᴰ (x ∷ ms) m c (Memᴰ.head q) e =
      put_compared_self x m x.compound (with_compound ms) q
        (ap (λ (y : ComparisonMoment N). y.compound) (sym q) ∙ e)
  with_compound-Memᴰ (x ∷ ms) m c (Memᴰ.tail h) e =
      Memᴰ-put_compared x x.compound (with_compound ms) (with_compound-Memᴰ ms m c h e)

module _ {N : Type 0} ⦃d : Double N⦄ where
  -- `m` is the choice from the moments `ms`.
  pub record IsChosen (ms : List (ComparisonMoment N)) (m : ComparisonMoment N) : Type 0 where
    pub compound : CompoundVerdict N
    pub persisted : m.compound ≡ some compound
    pub member : Memᴰ m ms
    pub miss_first :
        (x : ComparisonMoment N) (c : CompoundVerdict N)
        → Memᴰ x ms
        → x.compound ≡ some c
        → is_divergent c x.counterfactual ≡ true
        → is_divergent compound m.counterfactual ≡ true
    pub highest :
        (x : ComparisonMoment N) (c : CompoundVerdict N)
        → Memᴰ x ms
        → x.compound ≡ some c
        → (is_divergent compound m.counterfactual ≡ true → is_divergent c x.counterfactual ≡ true)
        → d.lt compound.compound_risk_score c.compound_risk_score ≡ false

  abbrev Chosen : List (ComparisonMoment N) → Compared N → Type 0
  Chosen ms p =
      Memᴰ p (with_compound ms)
      × ((x : Compared N) → Memᴰ x (with_compound ms) → is_miss x ≡ true → is_miss p ≡ true)
      × ((x : Compared N)
          → Memᴰ x (with_compound ms)
          → (is_miss p ≡ true → is_miss x ≡ true)
          → d.lt (compared_score p) (compared_score x) ≡ false)

  Chosen-from :
      (ms : List (ComparisonMoment N)) (misses : List (Compared N)) (p : Compared N)
      → filter is_miss (with_compound ms) ≡ misses
      → Memᴰ p (pool_of misses (with_compound ms))
      → IsGreatest d.lt compared_score p (pool_of misses (with_compound ms))
      → Chosen ms p
  Chosen-from ms [] p e m g = (
    m,
    λ x h q. absurd (not_nil (subst (Memᴰ x) e (Memᴰ-filter is_miss (with_compound ms) h q))),
    λ x h q. All-Memᴰ _ (with_compound ms) g h,
  )
  Chosen-from ms (y ∷ ys) p e m g =
      let back : Memᴰ p (filter is_miss (with_compound ms)) = subst (Memᴰ p) (sym e) m in
      let missed : is_miss p ≡ true =
        All-Memᴰ _ (filter is_miss (with_compound ms)) (filter-All is_miss (with_compound ms))
          back in
      (
        Memᴰ_of_filter is_miss (with_compound ms) back,
        λ x h q. missed,
        λ x h q.
            All-Memᴰ _ (y ∷ ys) g
              (subst (Memᴰ x) e (Memᴰ-filter is_miss (with_compound ms) h (q missed))),
      )

  IsChosen-of_Chosen :
      (ms : List (ComparisonMoment N)) (p : Compared N) → Chosen ms p → IsChosen ms p.0
  IsChosen-of_Chosen ms p (m, first, top) =
      let (member, persisted) =
        All-Memᴰ (IsFrom ms) (with_compound ms) (with_compound-IsFrom ms) m in
      record {
        compound = p.1;
        persisted = persisted;
        member = member;
        miss_first = λ x c h e q. first (x, c) (with_compound-Memᴰ ms x c h e) q;
        highest = λ x c h e q. top (x, c) (with_compound-Memᴰ ms x c h e) q;
      }

  moment_of-some :
      (o : Option (Compared N)) {m : ComparisonMoment N}
      → moment_of o ≡ some m
      → (p : Compared N) × (o ≡ some p) × (p.0 ≡ m)
  moment_of-some none h = cc
  moment_of-some (some p) h = (p, refl, cc)

  -- The moment that is picked is one of the given ones with a persisted verdict; it is a miss of the
  -- baseline if any such moment is, and then no miss scores higher; if none is, no moment with a
  -- verdict does.
  pub pick_comparison_moment-IsChosen :
      (ms : List (ComparisonMoment N)) (m : ComparisonMoment N)
      → IsOrdered d
      → pick_comparison_moment ms ≡ some m
      → IsChosen ms m
  pick_comparison_moment-IsChosen ms m laws h =
      let (p, e, q) =
        moment_of-some (pick_compared (with_compound ms)) {m = m}
          (unfold pick_comparison_moment in h) in
      let misses = filter is_miss (with_compound ms) in
      let (member, top) =
        select?-IsGreatest d.lt compared_score laws.lt_asym laws.not_lt_trans
          (pool_of misses (with_compound ms)) p e in
      subst (IsChosen ms) q (IsChosen-of_Chosen ms p (Chosen-from ms misses p refl member top))

  select?-pool_of :
      (misses ps : List (Compared N)) (p : Compared N)
      → select? d.lt compared_score (pool_of misses (p ∷ ps)) ≢ none
  unfolding select?
  select?-pool_of [] ps p h = cc
  select?-pool_of (m ∷ misses) ps p h = cc

  nothing_compared :
      (candidates : List (Compared N))
      → moment_of (pick_compared candidates) ≡ none
      → candidates ≡ []
  nothing_compared [] h = refl
  nothing_compared (p ∷ ps) h =
      absurd (picked (pick_compared (p ∷ ps)) (select?-pool_of (filter is_miss (p ∷ ps)) ps p) h)
    where
      picked : (o : Option (Compared N)) → o ≢ none → moment_of o ≡ none → ⊥
      picked none n e = n refl
      picked (some q) n e = cc

  none_of_nil :
      (ms : List (ComparisonMoment N)) → with_compound ms ≡ [] → All (λ m. m.compound ≡ none) ms
  unfolding with_compound
  none_of_nil [] h = tt
  none_of_nil (m ∷ ms) h = elim (Option-cases m.compound) [
    | inl e ↦ (e, none_of_nil ms (rw (e, put_compared) at h))
    | inr (c, e) ↦ absurd (cc)
  ]

  nil_of_none :
      (ms : List (ComparisonMoment N)) → All (λ m. m.compound ≡ none) ms → with_compound ms ≡ []
  unfolding with_compound
  nil_of_none [] h = refl
  nil_of_none (m ∷ ms) h = ground (arith, nil_of_none ms h.1)

  -- Nothing is picked exactly when no moment has a persisted verdict.
  pub pick_comparison_moment-none :
      (ms : List (ComparisonMoment N))
      → (pick_comparison_moment ms ≡ none) ↔ All (λ m. m.compound ≡ none) ms
  unfolding pick_comparison_moment
  pick_comparison_moment-none ms = (
    λ h. none_of_nil ms (nothing_compared (with_compound ms) h),
    λ h. rw (nil_of_none ms h) (unfold select? filter in refl),
  )
