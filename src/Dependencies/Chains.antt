-- ===== src/Dependencies/Chains.antt =====
-- Chains of dependencies, frontend/src/lib/dependencyGraph.ts: what the depth of an action is.
use industrial_safety_intell.Prelude.{
  ℕ, zero, suc, ◌≤◌, ◌<◌, ltb, String, true, List, [], ◌∷◌, map, ◌≡◌, refl, sym, ap, ◌∙◌, inl, inr,
  arith, Bool-cases, if◌then◌else◌,
}
use mathlib.Core.Path.{subst}
use industrial_safety_intell.Prelude.Eq.{◌==◌, string_eq, includes, ==-ap, ==-refl}
use industrial_safety_intell.Dependencies.{max_of}

max_of-ge :
    (f : String → ℕ) (ds : List String) (d : String)
    → includes ds d ≡ true
    → f d ≤ max_of (map f ds)
unfolding max_of includes
max_of-ge f [] d h = absurd (cc)
max_of-ge f (x ∷ ds) d h = elim (Bool-cases (x == d)) [
  | inl p ↦ ground (arith, ==-ap f x d p)
  | inr p ↦ ground (arith, max_of-ge f ds d (rw p at h))
]

max_of-pick :
    (n : ℕ) (ns : List ℕ) (m : ℕ) → max_of ns ≡ m → max_of (n ∷ ns) ≡ (if ltb m n then n else m)
unfolding max_of
max_of-pick n ns m h = rw h

-- The greatest of some counts is one of them.
max_of-attained :
    (f : String → ℕ) (d : String) (ds : List String)
    → (e : String) × (includes (d ∷ ds) e ≡ true) × (max_of (map f (d ∷ ds)) ≡ f e)
unfolding max_of includes
max_of-attained f d [] = (d, rw (==-refl d), ground arith)
max_of-attained f d (x ∷ ds) =
    let (e, m, q) = max_of-attained f x ds in
    elim (Bool-cases (ltb (f e) (f d))) [
      | inl p ↦ (d, rw (==-refl d), max_of-pick (f d) (map f (x ∷ ds)) (f e) q ∙ rw p)
      | inr p ↦ (e, ground (arith, m), max_of-pick (f d) (map f (x ∷ ds)) (f e) q ∙ rw p)
    ]

module _ (deps : String → List String) where
  -- A chain of this many dependencies below an action.
  pub data Chain : ℕ → String → Type 0 where
    last : {id : String} → Chain 0 id
    through :
        {n : ℕ} {id : String} (dep : String)
        → includes (deps id) dep ≡ true
        → Chain n dep
        → Chain (suc n) id

  -- The longest chain below the action has `n` dependencies.
  abbrev pub IsDepth : ℕ → String → Type 0
  IsDepth n id = Chain n id × ((k : ℕ) → Chain k id → k ≤ n)

  pub IsDepth-unique : (n m : ℕ) (id : String) → IsDepth n id → IsDepth m id → n ≡ m
  IsDepth-unique n m id a b = omega (arith, a.1 m b.0, b.1 n a.0)

  abbrev pub above : List ℕ → ℕ
  above [] = 0
  above (n ∷ ns) = suc (max_of (n ∷ ns))

  -- The depth of an action below which no chain is longer than the bound.
  abbrev pub depth_within : ℕ → String → ℕ
  depth_within zero id = 0
  depth_within (suc bound) id = above (map (depth_within bound) (deps id))

  Chain-le :
      (f : String → ℕ) (id : String) (ds : List String) (k : ℕ)
      → deps id ≡ ds
      → ((d : String) (j : ℕ) → includes ds d ≡ true → Chain j d → j ≤ f d)
      → Chain k id
      → k ≤ above (map f ds)
  unfolding includes
  Chain-le f id ds k e h last = omega arith
  Chain-le f id [] k e h (through dep m w) = absurd (ground (arith, e, m))
  Chain-le f id (x ∷ xs) k e h (through {n = j} dep m w) =
      let m' : includes (x ∷ xs) dep ≡ true = rw e at m in
      omega (arith, h dep j m' w, max_of-ge f (x ∷ xs) dep m')

  above-Chain :
      (f : String → ℕ) (id : String) (ds : List String)
      → deps id ≡ ds
      → ((d : String) → includes ds d ≡ true → Chain (f d) d)
      → Chain (above (map f ds)) id
  above-Chain f id [] e h = last
  above-Chain f id (x ∷ xs) e h =
      let (d, m, q) = max_of-attained f x xs in
      through d (ap (λ l. includes l d) e ∙ m) (subst (λ n. Chain n d) (sym q) (h d m))

  pub IsDepth-of_deps :
      (id : String) (ds : List String) (f : String → ℕ)
      → deps id ≡ ds
      → ((d : String) → includes ds d ≡ true → IsDepth (f d) d)
      → IsDepth (above (map f ds)) id
  IsDepth-of_deps id ds f e h = (
    above-Chain f id ds e (λ d m. (h d m).0),
    λ k w. Chain-le f id ds k e (λ d j m v. (h d m).1 j v) w,
  )

  pub depth_within-IsDepth :
      (bound : ℕ) (id : String)
      → ((k : ℕ) → Chain k id → k ≤ bound)
      → IsDepth (depth_within bound id) id
  depth_within-IsDepth zero id h = (last, h)
  depth_within-IsDepth (suc bound) id h =
      IsDepth-of_deps id (deps id) (depth_within bound) refl
        (λ d m. depth_within-IsDepth bound d (λ k w. omega (arith, h (suc k) (through d m w))))

  -- A dependency of an action that has a depth has a smaller one.
  pub IsDepth-below :
      (n : ℕ) (id d : String)
      → IsDepth n id
      → includes (deps id) d ≡ true
      → IsDepth (depth_within n d) d × (depth_within n d < n)
  IsDepth-below n id d h m =
      let i = depth_within-IsDepth n d (λ k w. omega (arith, h.1 (suc k) (through d m w))) in
      (i, h.1 (suc (depth_within n d)) (through d m i.0))
