-- ===== src/Replay/Range.antt =====
-- The positions of the replay's cursor, and the arithmetic of each operation on them.
use industrial_safety_intell.Prelude.{ℕ, ◌-◌, ◌≤◌, true, false, ◌≡◌, arith}
use industrial_safety_intell.Prelude.Int.{ℤ, pos, ◌+ℤ◌, ◌-ℤ◌, ltb_ℤ}
use industrial_safety_intell.Replay.Engine.{min_ℤ, max_ℤ}

-- `i` is between `low` and the last position of an axis of length `n`, or 0 where there is none.
abbrev pub IsWithin : ℤ → ℕ → ℤ → Type 0
IsWithin low n i = (ltb_ℤ i low ≡ false) × (ltb_ℤ (pos (n - 1)) i ≡ false)

-- `low` is at most 0.
abbrev pub IsLow : ℤ → Type 0
IsLow low = ltb_ℤ (pos 0) low ≡ false

pub IsWithin-zero : (low : ℤ) (n : ℕ) → IsLow low → IsWithin low n (pos 0)
IsWithin-zero low n l = (l, ground arith)

pub IsWithin-next :
    (low : ℤ) (n : ℕ) (i : ℤ)
    → ltb_ℤ (pos n -ℤ pos 1) low ≡ false
    → IsWithin low n i
    → IsWithin low n (min_ℤ (i +ℤ pos 1) (pos n -ℤ pos 1))
unfolding ◌+ℤ◌ ◌-ℤ◌
IsWithin-next low n i l h = ground arith

pub IsWithin-previous :
    (low : ℤ) (n : ℕ) (i : ℤ)
    → IsLow low
    → IsWithin low n i
    → IsWithin low n (max_ℤ (i -ℤ pos 1) (pos 0))
unfolding ◌-ℤ◌
IsWithin-previous low n i l h = ground arith

pub IsWithin-scrub :
    (low : ℤ) (n : ℕ) (i : ℤ)
    → IsLow low
    → IsWithin low n (max_ℤ (pos 0) (min_ℤ i (pos n -ℤ pos 1)))
unfolding ◌-ℤ◌
IsWithin-scrub low n i l = ground arith

pub IsWithin-advance :
    (low : ℤ) (n : ℕ) (i : ℤ)
    → IsWithin low n i
    → ltb_ℤ i (pos n -ℤ pos 1) ≡ true
    → IsWithin low n (i +ℤ pos 1)
unfolding ◌+ℤ◌ ◌-ℤ◌
IsWithin-advance low n i h q = ground arith

pub IsWithin-index : (low : ℤ) (n i : ℕ) → IsLow low → i ≤ n - 1 → IsWithin low n (pos i)
IsWithin-index low n i l h = (ground arith, ground arith)

-- The cursor of an empty axis is in range for every axis.
pub IsWithin-loaded : (low : ℤ) (n : ℕ) (i : ℤ) → IsWithin low 0 i → IsWithin low n i
IsWithin-loaded low n i h = ground arith
