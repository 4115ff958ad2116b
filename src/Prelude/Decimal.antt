-- ===== src/Prelude/Decimal.antt =====
-- Whole numbers in a template: `${n}`.
use Prim.Native.Nat.{◌%◌, suc, zero}
use industrial_safety_intell.Prelude.{ℕ, String, [], ◌∷◌, ◌/◌, ltb, if◌then◌else◌, or_else}
use industrial_safety_intell.Prelude.Lists.{get_elem?}
use industrial_safety_intell.Prelude.Text.{◌⧺◌}

abbrev digit : ℕ → String
digit n = or_else (get_elem? ("0" ∷ "1" ∷ "2" ∷ "3" ∷ "4" ∷ "5" ∷ "6" ∷ "7" ∷ "8" ∷ "9" ∷ []) n) "9"

decimal_in : ℕ → ℕ → String
decimal_in zero n = ""
decimal_in (suc fuel) n =
    let higher = decimal_in fuel (n / 10) in if ltb n 10 then digit n else higher ⧺ digit (n % 10)

-- One round for each digit: n + 1 rounds are enough.
unfoldable pub decimal : ℕ → String
unfolding decimal_in
decimal n = decimal_in (suc n) n
