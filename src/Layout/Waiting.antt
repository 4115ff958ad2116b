-- ===== src/Layout/Waiting.antt =====
-- The queue and the distances of the search in `layoutRadial`, frontend/src/lib/graphLayout.ts.
use industrial_safety_intell.Prelude.{
  ℕ, suc, String, true, false, List, [], ◌∷◌, ◌++◌, some, is_some, ◌≡◌, ap, ◌∙◌, ◌⊎◌, inl, inr,
  arith, Bool-cases, Option-cases,
}
use industrial_safety_intell.Prelude.Dict.{get, set, get-set}
use industrial_safety_intell.Prelude.Eq.{◌==◌, string_eq, includes, includes-append, ==-refl, ==-ap}
use industrial_safety_intell.Prelude.Lists.{All}
use industrial_safety_intell.Layout.{Distances}

pub kept :
    (k i : String) (n a : ℕ) (m : Distances)
    → is_some (get k m) ≡ false
    → get i m ≡ some a
    → get i (set k n m) ≡ some a
kept k i n a m h g = ground (arith, get-set k i n m, ==-ap (λ j. get j m) k i, h, g)

pub set_cases :
    (k i : String) (n a : ℕ) (m : Distances)
    → get i (set k n m) ≡ some a
    → ((k ≡ i) × (n ≡ a)) ⊎ (get i m ≡ some a)
set_cases k i n a m g = elim (Bool-cases (k == i)) [
  | inl p ↦ inl ((string_eq.same_iff k i).0 p, ground (arith, get-set k i n m, g, p))
  | inr p ↦ inr (ground (arith, get-set k i n m, g, p))
]

-- The queue of a search at level `n`: nodes at distance n, then nodes at distance n + 1.
abbrev pub Waits : Distances → ℕ → List String → Type 0
Waits m n [] = Unit
Waits m n (q ∷ qs) =
    ((get q m ≡ some n) × Waits m n qs) ⊎ All (λ p. get p m ≡ some (suc n)) (q ∷ qs)

pub All-kept :
    (k : String) (n a : ℕ) (m : Distances) (qs : List String)
    → is_some (get k m) ≡ false
    → All (λ p. get p m ≡ some a) qs
    → All (λ p. get p (set k n m) ≡ some a) qs
All-kept k n a m [] h w = tt
All-kept k n a m (q ∷ qs) h w = (kept k q n a m h w.0, All-kept k n a m qs h w.1)

pub All-snoc :
    (P : String → Type 0) (xs : List String) (k : String) → All P xs → P k → All P (xs ++ k ∷ [])
All-snoc P [] k h p = (p, tt)
All-snoc P (x ∷ xs) k h p = (h.0, All-snoc P xs k h.1 p)

pub Waits-reach :
    (k : String) (n : ℕ) (m : Distances) (qs : List String)
    → is_some (get k m) ≡ false
    → Waits m n qs
    → Waits (set k (suc n) m) n (qs ++ k ∷ [])
Waits-reach k n m [] h w = inr (ground (arith, get-set k k (suc n) m, ==-refl k), tt)
Waits-reach k n m (q ∷ qs) h (inl w) = inl (kept k q (suc n) n m h w.0, Waits-reach k n m qs h w.1)
Waits-reach k n m (q ∷ qs) h (inr w) = inr (
    All-snoc _ (q ∷ qs) k (All-kept k (suc n) (suc n) m (q ∷ qs) h w)
      (ground (arith, get-set k k (suc n) m, ==-refl k)))

pub first_or_later :
    (x v : String) (xs : List String)
    → includes (x ∷ xs) v ≡ true
    → (x ≡ v) ⊎ (includes xs v ≡ true)
unfolding includes
first_or_later x v xs h = elim (Bool-cases (x == v)) [
  | inl p ↦ inl ((string_eq.same_iff x v).0 p)
  | inr p ↦ inr (rw p at h)
]

pub includes-snoc : (xs : List String) (x u : String) → x ≡ u → includes (xs ++ x ∷ []) u ≡ true
unfolding includes
includes-snoc xs x u e =
    includes-append xs (x ∷ []) u ∙ ground (arith, (string_eq.same_iff x u).1 e)

pub same_distance :
    (m : Distances) (u c : String) (k n : ℕ) → u ≡ c → get u m ≡ some k → get c m ≡ some n → k ≡ n
same_distance m u c k n e g h = cc

pub some_of :
    (m : Distances) (x v : String) → is_some (get x m) ≡ true → x ≡ v → (d : ℕ) × (get v m ≡ some d)
some_of m x v h e = elim (Option-cases (get v m)) [
  | inl p ↦ absurd (ground (arith, h, p, ap (λ j. is_some (get j m)) e))
  | inr r ↦ r
]

pub Waits-of_All :
    (m : Distances) (n : ℕ) (qs : List String) → All (λ p. get p m ≡ some n) qs → Waits m n qs
Waits-of_All m n [] w = tt
Waits-of_All m n (q ∷ qs) w = inl (w.0, Waits-of_All m n qs w.1)
