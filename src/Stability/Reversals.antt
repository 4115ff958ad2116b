-- ===== src/Stability/Reversals.antt =====
-- `detectOscillation` of frontend/src/lib/decisionStability.ts and the moves between its ranks.
use native.Mathlib.Nat.{zero-add}
use industrial_safety_intell.Prelude.{
  ℕ, Bool, true, false, List, [], ◌∷◌, ◌++◌, ◌≡◌, ◌≢◌, ◌⊎◌, refl, sym, ◌∙◌, ap, ◌+◌, ◌≤◌, arith,
  inl, inr, if◌then◌else◌, ◌&&◌,
}
use industrial_safety_intell.Prelude.Int.{ℤ, pos, negsuc, ltb_ℤ, ◌-ℤ◌}
use industrial_safety_intell.Api.Risk.{RiskAssessment}
use industrial_safety_intell.Stability.{
  direction_of, differ, count_if, count_reversals, reversals_of, ascending_ranks,
  detect_oscillation,
}

-- The directions of the moves from one tick to the next, flat ticks left out.
abbrev pub moves_from : ℤ → List ℤ → List ℤ
moves_from previous [] = []
moves_from previous (rank ∷ ranks) =
    let direction = direction_of (rank -ℤ previous) in
    let later = moves_from rank ranks in
    if differ direction (pos 0) then direction ∷ later else later

abbrev pub moves : List ℤ → List ℤ
moves [] = []
moves (rank ∷ ranks) = moves_from rank ranks

abbrev pub changes_from : ℤ → List ℤ → ℕ
changes_from last [] = 0
changes_from last (m ∷ ms) = count_if (differ m last) (changes_from m ms)

-- How often two neighbours of a list differ.
abbrev pub changes : List ℤ → ℕ
changes [] = 0
changes (m ∷ ms) = changes_from m ms

abbrev changes_after : ℤ → List ℤ → ℕ
changes_after last ms = if differ last (pos 0) then changes_from last ms else changes ms

direction_cases :
    (x : ℤ) → (direction_of x ≡ pos 0) ⊎ (direction_of x ≡ pos 1) ⊎ (direction_of x ≡ negsuc 0)
unfolding direction_of
direction_cases x = ground arith

-- One round of the loop on a tick that moves.
changes_step :
    (n k : ℕ) (last m : ℤ) (ms : List ℤ)
    → differ m (pos 0) ≡ true
    → k ≡ count_if (differ last (pos 0) && differ m last) n + changes_after m ms
    → k ≡ n + changes_after last (m ∷ ms)
changes_step n k last m ms h e = ground arith

count_reversals-changes :
    (n : ℕ) (last previous : ℤ) (ranks : List ℤ)
    → count_reversals n last previous ranks ≡ n + changes_after last (moves_from previous ranks)
unfolding count_reversals
count_reversals-changes n last previous [] = ground arith
count_reversals-changes n last previous (rank ∷ ranks) = elim (direction_cases (rank -ℤ previous)) [
  | inl flat ↦ rw flat (count_reversals-changes n last rank ranks)
  | inr (inl up) ↦ rw up (
      changes_step n _ last (pos 1) (moves_from rank ranks) refl (
        count_reversals-changes (count_if (differ last (pos 0) && differ (pos 1) last) n) (pos 1)
          rank ranks))
  | inr (inr down) ↦ rw down (
      changes_step n _ last (negsuc 0) (moves_from rank ranks) refl (
        count_reversals-changes (count_if (differ last (pos 0) && differ (negsuc 0) last) n)
          (negsuc 0) rank ranks))
]

-- The reversals of a series of ranks are the changes of direction among its moves.
pub reversals_of-changes : (ranks : List ℤ) → reversals_of ranks ≡ changes (moves ranks)
unfolding reversals_of
reversals_of-changes [] = refl
reversals_of-changes (rank ∷ ranks) = count_reversals-changes 0 (pos 0) rank ranks ∙ zero-add _

-- No rank above the one before it.
abbrev pub IsFalling : ℤ → List ℤ → Type 0
IsFalling previous [] = Unit
IsFalling previous (rank ∷ ranks) = (ltb_ℤ previous rank ≡ false) × IsFalling rank ranks

-- Ranks that do not fall for a while, and then do not rise.
abbrev pub IsPeaked : ℤ → List ℤ → Type 0
IsPeaked previous [] = Unit
IsPeaked previous (rank ∷ ranks) =
    ((ltb_ℤ rank previous ≡ false) × IsPeaked rank ranks) ⊎ IsFalling previous (rank ∷ ranks)

direction_falls : (a b : ℤ) → ltb_ℤ a b ≡ false → direction_of (b -ℤ a) ≢ pos 1
unfolding direction_of ◌-ℤ◌
direction_falls a b h = ground arith

direction_rises : (a b : ℤ) → ltb_ℤ b a ≡ false → direction_of (b -ℤ a) ≢ negsuc 0
unfolding direction_of ◌-ℤ◌
direction_rises a b h = ground arith

changes_from-falling :
    (previous : ℤ) (ranks : List ℤ)
    → IsFalling previous ranks
    → changes_from (negsuc 0) (moves_from previous ranks) ≡ 0
changes_from-falling previous [] f = refl
changes_from-falling previous (rank ∷ ranks) f = elim (direction_cases (rank -ℤ previous)) [
  | inl flat ↦ rw flat (changes_from-falling rank ranks f.1)
  | inr (inl up) ↦ absurd (direction_falls previous rank f.0 up)
  | inr (inr down) ↦ rw down (changes_from-falling rank ranks f.1)
]

changes-falling :
    (last previous : ℤ) (ranks : List ℤ)
    → IsFalling previous ranks
    → changes_after last (moves_from previous ranks) ≤ 1
changes-falling last previous [] f = ground arith
changes-falling last previous (rank ∷ ranks) f = elim (direction_cases (rank -ℤ previous)) [
  | inl flat ↦ rw flat (changes-falling last rank ranks f.1)
  | inr (inl up) ↦ absurd (direction_falls previous rank f.0 up)
  | inr (inr down) ↦ rw down (ground (arith, changes_from-falling rank ranks f.1))
]

changes-peaked :
    (up : Bool) (previous : ℤ) (ranks : List ℤ)
    → IsPeaked previous ranks
    → changes_after (if up then pos 1 else pos 0) (moves_from previous ranks) ≤ 1
changes-peaked up previous [] p = ground arith
changes-peaked up previous (rank ∷ ranks) (inr f) =
    changes-falling (if up then pos 1 else pos 0) previous (rank ∷ ranks) f
changes-peaked up previous (rank ∷ ranks) (inl (r, p)) = elim (direction_cases (rank -ℤ previous)) [
  | inl flat ↦ rw flat (changes-peaked up rank ranks p)
  | inr (inl rise) ↦ rw rise (ground (arith, changes-peaked true rank ranks p))
  | inr (inr down) ↦ absurd (direction_rises previous rank r down)
]

-- One escalation followed by one cool-down, with flat ticks anywhere, is not an oscillation.
pub detect_oscillation-peaked :
    {N : Type 0} (newest_first : List (RiskAssessment N)) (rank : ℤ) (ranks : List ℤ)
    → ascending_ranks newest_first ≡ rank ∷ ranks
    → IsPeaked rank ranks
    → (detect_oscillation newest_first).detected ≡ false
unfolding detect_oscillation
detect_oscillation-peaked newest_first rank ranks e p =
    rw e (ground (arith, reversals_of-changes (rank ∷ ranks), changes-peaked false rank ranks p))

same_rank : (r : ℤ) → direction_of (r -ℤ r) ≡ pos 0
unfolding direction_of ◌-ℤ◌
same_rank r = ground arith

moves_from-flat :
    (previous r : ℤ) (xs ys : List ℤ)
    → moves_from previous (xs ++ r ∷ r ∷ ys) ≡ moves_from previous (xs ++ r ∷ ys)
moves_from-flat previous r [] ys = rw (same_rank r)
moves_from-flat previous r (x ∷ xs) ys = rw (moves_from-flat x r xs ys)

-- A tick at the rank of the one before it changes nothing in the number of reversals.
pub reversals_of-flat :
    (r : ℤ) (xs ys : List ℤ) → reversals_of (xs ++ r ∷ r ∷ ys) ≡ reversals_of (xs ++ r ∷ ys)
reversals_of-flat r xs ys =
    reversals_of-changes (xs ++ r ∷ r ∷ ys)
    ∙ ap changes (moves-flat xs)
    ∙ sym (reversals_of-changes (xs ++ r ∷ ys))
  where
    moves-flat : (zs : List ℤ) → moves (zs ++ r ∷ r ∷ ys) ≡ moves (zs ++ r ∷ ys)
    moves-flat [] = rw (same_rank r)
    moves-flat (z ∷ zs) = moves_from-flat z r zs ys
