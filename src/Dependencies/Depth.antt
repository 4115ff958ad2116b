-- ===== src/Dependencies/Depth.antt =====
-- `levelOf`, frontend/src/lib/dependencyGraph.ts, beside the longest chains of dependencies.
use industrial_safety_intell.Prelude.{
  ℕ, zero, suc, ◌+◌, ◌<◌, String, true, List, [], ◌∷◌, Option, none, some, map, ◌≡◌, refl, sym, ap,
  ◌∙◌, arith, Bool-cases, Option-cases, inl, inr, Ends, Ends-and_then,
}
use mathlib.Core.Path.{subst}
use industrial_safety_intell.Prelude.Dict.{get, set, get-set}
use industrial_safety_intell.Prelude.Eq.{◌==◌, string_eq, includes, ==-refl}
use industrial_safety_intell.Actions.{PrioritizedAction}
use industrial_safety_intell.Dependencies.{
  ById, LevelById, Answer, id_of, present_deps, max_of, map_calls, put_value, leaf_or_store,
  level_of, level_all,
}
use industrial_safety_intell.Dependencies.Chains.{
  IsDepth, IsDepth-unique, IsDepth-of_deps, IsDepth-below, depth_within,
}
use industrial_safety_intell.Dependencies.Rounds.{level_of_known, level_of_cycle, level_of_new}

module _ (by_id : ById) where
  abbrev pub Depth : ℕ → String → Type 0
  Depth = IsDepth (present_deps by_id)

  -- A level that is stored is the depth, where there is one.
  abbrev pub IsSound : LevelById → Type 0
  IsSound levels = (id : String) (n m : ℕ) → get id levels ≡ some n → Depth m id → n ≡ m

  -- Each id in the middle of a call depends, through others, on `id`.
  abbrev IsAbove : List String → String → Type 0
  IsAbove visiting id =
      (v : String) (m : ℕ) → includes visiting v ≡ true → Depth m v → (k : ℕ) × Depth k id × (k < m)

  abbrev IsRight : String → Answer ℕ → Type 0
  IsRight id a = ((m : ℕ) → Depth m id → a.value ≡ m) × IsSound a.levels

  IsSound-set :
      (levels : LevelById) (id : String) (n : ℕ)
      → IsSound levels
      → ((m : ℕ) → Depth m id → n ≡ m)
      → IsSound (set id n levels)
  IsSound-set levels id n s h i k m g d = elim (Bool-cases (id == i)) [
    | inl p ↦ ground (
      arith,
      get-set id i n levels,
      g,
      p,
      h m (subst (Depth m) (sym ((string_eq.same_iff id i).0 p)) d),
    )
    | inr p ↦ s i k m (ground (arith, get-set id i n levels, g, p)) d
  ]

  IsAbove-visit :
      (visiting : List String) (id d : String)
      → IsAbove visiting id
      → includes (present_deps by_id id) d ≡ true
      → IsAbove (id ∷ visiting) d
  unfolding includes
  IsAbove-visit visiting id d h e v m w dm = elim (Bool-cases (id == v)) [
    | inl p ↦
        let (i, lt) =
          IsDepth-below (present_deps by_id) m id d
            (subst (Depth m) (sym ((string_eq.same_iff id v).0 p)) dm) e in
        (depth_within (present_deps by_id) m d, i, lt)
    | inr p ↦
        let (k, dk, lt) = h v m (rw p at w) dm in
        let (i, less) = IsDepth-below (present_deps by_id) k id d dk e in
        (depth_within (present_deps by_id) k d, i, omega (arith, lt, less))
  ]

  -- What the calls for the dependencies return, one after another.
  abbrev AreRight : List String → Answer (List ℕ) → Type 0
  AreRight deps r =
      ((f : String → ℕ)
        → ((d : String) → includes deps d ≡ true → Depth (f d) d)
        → r.value ≡ map f deps)
      × IsSound r.levels

  put_value-AreRight :
      (d : String) (deps : List String) (a : Answer ℕ) (o : Option (Answer (List ℕ)))
      → IsRight d a
      → Ends (AreRight deps) o
      → Ends (AreRight (d ∷ deps)) (put_value a.value o)
  unfolding includes
  put_value-AreRight d deps a none p q = tt
  put_value-AreRight d deps a (some r) p q = (
    λ f g.
        let first = p.0 (f d) (g d (rw (==-refl d))) in
        let others = q.0 f (λ i m. g i (ground (arith, m))) in cc,
    q.1,
  )

  map_calls-AreRight :
      (call : String → LevelById → Option (Answer ℕ)) (deps : List String) (levels : LevelById)
      → IsSound levels
      → ((d : String) (now : LevelById)
          → includes deps d ≡ true
          → IsSound now
          → Ends (IsRight d) (call d now))
      → Ends (AreRight deps) (map_calls call deps levels)
  unfolding map_calls includes
  map_calls-AreRight call [] levels s h = (λ f g. refl, s)
  map_calls-AreRight call (d ∷ deps) levels s h =
      Ends-and_then (IsRight d) (AreRight (d ∷ deps)) (call d levels)
        (λ a. put_value a.value (map_calls call deps a.levels)) (h d levels (rw (==-refl d)) s)
        (λ a p.
          put_value-AreRight d deps a (map_calls call deps a.levels) p
            (map_calls-AreRight call deps a.levels p.1 (λ i now m. h i now (ground (arith, m)))))

  Depth-of_deps :
      (id : String) (deps : List String) (m : ℕ)
      → present_deps by_id id ≡ deps
      → Depth m id
      → (d : String) → includes deps d ≡ true
      → Depth (depth_within (present_deps by_id) m d) d
  Depth-of_deps id deps m e dm d w =
      (IsDepth-below (present_deps by_id) m id d dm (ap (λ l. includes l d) e ∙ w)).0

  leaf_or_store-IsRight :
      (id : String) (deps : List String) (levels : LevelById) (inner : Option (Answer (List ℕ)))
      → present_deps by_id id ≡ deps
      → IsSound levels
      → Ends (AreRight deps) inner
      → Ends (IsRight id) (leaf_or_store id deps levels inner)
  leaf_or_store-IsRight id [] levels inner e s h =
      let right : (m : ℕ) → Depth m id → 0 ≡ m = λ m dm.
        IsDepth-unique (present_deps by_id) 0 m id
          (IsDepth-of_deps (present_deps by_id) id [] (λ i. 0) e
            (λ d w. absurd (unfold includes in cc)))
          dm in
      (right, IsSound-set levels id 0 s right)
  leaf_or_store-IsRight id (d ∷ deps) levels none e s h = tt
  leaf_or_store-IsRight id (d ∷ deps) levels (some r) e s h =
      let right : (m : ℕ) → Depth m id → 1 + max_of r.value ≡ m = λ m dm.
        let f = depth_within (present_deps by_id) m in
        let each = Depth-of_deps id (d ∷ deps) m e dm in
        let all : r.value ≡ map f (d ∷ deps) = h.0 f each in
        let top =
          IsDepth-unique (present_deps by_id) _ m id
            (IsDepth-of_deps (present_deps by_id) id (d ∷ deps) f e each) dm in
        omega (arith, ap max_of all, top) in
      (right, IsSound-set r.levels id (1 + max_of r.value) h.1 right)

  level_of-IsRight :
      (fuel : ℕ) (id : String) (visiting : List String) (levels : LevelById)
      → IsSound levels
      → IsAbove visiting id
      → Ends (IsRight id) (level_of by_id fuel id visiting levels)
  unfolding level_of
  level_of-IsRight zero id visiting levels s h = tt
  level_of-IsRight (suc fuel) id visiting levels s h = elim (Option-cases (get id levels)) [
    | inr (n, g) ↦
        subst (Ends (IsRight id)) (sym (level_of_known by_id fuel id visiting levels n g))
          (λ m d. s id n m g d, s)
    | inl g ↦ elim (Bool-cases (includes visiting id)) [
      | inl v ↦ subst (Ends (IsRight id)) (sym (level_of_cycle by_id fuel id visiting levels g v)) (
        λ m d.
            let (k, dk, lt) = h id m v d in
            absurd (omega (arith, lt, IsDepth-unique (present_deps by_id) k m id dk d)),
        s,
      )
      | inr v ↦ subst (Ends (IsRight id)) (sym (level_of_new by_id fuel id visiting levels g v)) (
          leaf_or_store-IsRight id (present_deps by_id id) levels _ refl s (
            map_calls-AreRight (λ dep now. level_of by_id fuel dep (id ∷ visiting) now)
              (present_deps by_id id) levels s
              (λ d now m sn.
                level_of-IsRight fuel d (id ∷ visiting) now sn (IsAbove-visit visiting id d h m))))
    ]
  ]

  pub level_all-IsSound :
      (fuel : ℕ) (rest : List PrioritizedAction) (levels : LevelById)
      → IsSound levels
      → Ends IsSound (level_all by_id fuel rest levels)
  unfolding level_all
  level_all-IsSound fuel [] levels s = s
  level_all-IsSound fuel (a ∷ rest) levels s =
      Ends-and_then (IsRight (id_of a)) IsSound (level_of by_id fuel (id_of a) [] levels)
        (λ r. level_all by_id fuel rest r.levels)
        (level_of-IsRight fuel (id_of a) [] levels s (λ v m w. absurd (unfold includes in cc)))
        (λ r p. level_all-IsSound fuel rest r.levels p.1)
