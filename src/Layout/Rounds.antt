-- ===== src/Layout/Rounds.antt =====
-- The rounds of the search in `layoutRadial`, frontend/src/lib/graphLayout.ts: how many there are.
use industrial_safety_intell.Prelude.{
  ℕ, zero, suc, ◌+◌, ◌≤◌, String, true, false, List, [], ◌∷◌, ◌++◌, some, or_else, is_some, ◌≡◌,
  refl, ap, arith, Bool-cases, inl, inr, if◌then◌else◌,
}
use industrial_safety_intell.Prelude.Dict.{get, set, is_some-set}
use industrial_safety_intell.Prelude.Eq.{◌==◌, string_eq, includes, ==-ap, ==-comm}
use industrial_safety_intell.Prelude.Lists.{All, length, length-append}
use industrial_safety_intell.Layout.{
  Adjacency, Distances, Search, neighbours, scan, visit, search_from,
}

-- The keys that have no distance yet.
abbrev pub unseen : Distances → List String → ℕ
unseen distance [] = 0
unseen distance (k ∷ ks) = (if is_some (get k distance) then 0 else 1) + unseen distance ks

pub unseen_le : (distance : Distances) (ks : List String) → unseen distance ks ≤ length ks
unseen_le distance [] = omega arith
unseen_le distance (k ∷ ks) = ground (arith, unseen_le distance ks)

unseen-set_le :
    (k : String) (n : ℕ) (distance : Distances) (ks : List String)
    → unseen (set k n distance) ks ≤ unseen distance ks
unseen-set_le k n distance [] = omega arith
unseen-set_le k n distance (x ∷ ks) =
    ground (arith, is_some-set k x n distance, unseen-set_le k n distance ks)

-- A key that is given a distance is no longer unseen.
pub unseen-set :
    (k : String) (n : ℕ) (distance : Distances) (ks : List String)
    → includes ks k ≡ true
    → is_some (get k distance) ≡ false
    → suc (unseen (set k n distance) ks) ≤ unseen distance ks
unfolding includes
unseen-set k n distance [] m h = cc
unseen-set k n distance (x ∷ ks) m h = elim (Bool-cases (x == k)) [
  | inl p ↦ ground (
    arith,
    is_some-set k x n distance,
    unseen-set_le k n distance ks,
    ==-ap (λ j. is_some (get j distance)) x k p,
    h,
    ==-comm x k,
  )
  | inr p ↦
      ground
        (arith, is_some-set k x n distance, unseen-set k n distance ks (rw p at m) h, ==-comm x k)
]

-- What is left to do: the nodes that have no distance, and those that wait.
abbrev pub work : List String → Search → ℕ
work keys s = unseen s.distance keys + length s.queue

-- A new neighbour at distance `n` is put behind the others.
abbrev pub reach : String → ℕ → Search → Search
reach k n s = record { distance = set k n s.distance; queue = s.queue ++ k ∷ [] }

pub scan_seen :
    (n : ℕ) (s : Search) (k : String) (rest : List String)
    → is_some (get k s.distance) ≡ true
    → scan n s (k ∷ rest) ≡ scan n s rest
unfolding scan
scan_seen n s k rest h = rw h

pub scan_new :
    (n : ℕ) (s : Search) (k : String) (rest : List String)
    → is_some (get k s.distance) ≡ false
    → scan n s (k ∷ rest) ≡ scan n (reach k (suc n) s) rest
unfolding scan
scan_new n s k rest h = rw h

-- A neighbour that waits was unseen before.
work-scan :
    (keys : List String) (n : ℕ) (s : Search) (next : List String)
    → All (λ k. includes keys k ≡ true) next
    → work keys (scan n s next) ≤ work keys s
unfolding scan
work-scan keys n s [] h = omega arith
work-scan keys n s (k ∷ rest) h = elim (Bool-cases (is_some (get k s.distance))) [
  | inl p ↦ omega (arith, ap (work keys) (scan_seen n s k rest p), work-scan keys n s rest h.1)
  | inr p ↦ omega (
    arith,
    ap (work keys) (scan_new n s k rest p),
    work-scan keys n (reach k (suc n) s) rest h.1,
    unseen-set k (suc n) s.distance keys h.0 p,
    length-append s.queue (k ∷ []),
  )
]

-- Every neighbour is one of the keys.
abbrev pub IsClosed : List String → Adjacency → Type 0
IsClosed keys adj = (u : String) → All (λ k. includes keys k ≡ true) (neighbours adj u)

-- A search with a round for each of these ends.
pub search_from-some :
    (keys : List String) (adj : Adjacency) (fuel : ℕ) (distance : Distances) (queue : List String)
    → IsClosed keys adj
    → unseen distance keys + length queue ≤ fuel
    → (m : Distances) × (search_from adj fuel distance queue ≡ some m)
unfolding search_from visit
search_from-some keys adj fuel distance [] c h = (distance, refl)
search_from-some keys adj zero distance (k ∷ queue) c h = absurd (omega arith)
search_from-some keys adj (suc fuel) distance (k ∷ queue) c h =
    search_from-some keys adj fuel (visit adj distance k queue).distance
      (visit adj distance k queue).queue c
      (omega (
        arith,
        work-scan keys (or_else (get k distance) 0) (record { distance = distance; queue = queue })
            (neighbours adj k) (c k),
      ))
