-- ===== src/Layout/Walks.antt =====
-- Walks in a graph, frontend/src/lib/graphLayout.ts: what the distances of `layoutRadial` are of.
use industrial_safety_intell.Prelude.{ℕ, suc, ◌≤◌, String, Bool, true, ◌≡◌, sym, ◌∙◌}
use industrial_safety_intell.Prelude.Eq.{string_eq}

module _ (step : String → String → Bool) (root : String) where
  -- A walk of this many steps from the root.
  pub data Walk : ℕ → String → Type 0 where
    here : Walk 0 root
    along : {n : ℕ} {v : String} (u : String) → Walk n u → step u v ≡ true → Walk (suc n) v

  -- A shortest walk to `v` has `n` steps.
  abbrev pub IsShortest : ℕ → String → Type 0
  IsShortest n v = Walk n v × ((k : ℕ) → Walk k v → n ≤ k)

pub Walk-imp :
    (step other : String → String → Bool) (root : String)
    → ((u v : String) → step u v ≡ other u v)
    → (n : ℕ) (v : String) → Walk step root n v
    → Walk other root n v
Walk-imp step other root f n v here = here
Walk-imp step other root f n v (along {n = j} u w e) =
    along u (Walk-imp step other root f j u w) (sym (f u v) ∙ e)

pub IsShortest-imp :
    (step other : String → String → Bool) (root : String)
    → ((u v : String) → step u v ≡ other u v)
    → (n : ℕ) (v : String) → IsShortest step root n v
    → IsShortest other root n v
IsShortest-imp step other root f n v s = (
  Walk-imp step other root f n v s.0,
  λ k w. s.1 k (Walk-imp other step root (λ x y. sym (f x y)) k v w),
)
