-- ===== src/Prelude/Double.antt =====
-- The JavaScript `number` as a parameter: the operators and `Math` functions that the program
-- applies to one. `N` is the type of the numbers that a JSON payload can hold, which NaN is not.
use industrial_safety_intell.Prelude.{ℕ, String, ◌≡◌, Bool, true, false, not, arith}
use industrial_safety_intell.Prelude.Int.{ℤ, pos, negsuc, ltb_ℤ, ◌+ℤ◌, ◌-ℤ◌, ◌*ℤ◌}

pub record Double (N : Type 0) : Type 0 where
  pub lt : N → N → Bool  -- a < b
  pub add : N → N → N
  pub sub : N → N → N
  pub mul : N → N → N
  pub div : N → N → N
  pub abs : N → N  -- Math.abs
  pub exp : N → N  -- Math.exp
  pub round : N → N  -- Math.round
  pub floor_ℕ : N → ℕ  -- Math.floor of a number that is not negative
  pub of_ℕ : ℕ → N  -- a literal, or a count
  pub to_fixed : N → ℕ → String  -- x.toFixed(digits)
  pub to_string : N → String  -- in a template

-- a <= b, which is ¬ (b < a) where neither is NaN
abbrev pub le : {N : Type 0} ⦃d : Double N⦄ → N → N → Bool
le ⦃d⦄ a b = not (d.lt b a)

-- What the order of the numbers other than NaN has: `<` is the strict part of a total preorder.
pub record IsOrdered {N : Type 0} (d : Double N) : Type 0 where
  pub lt_asym : (a b : N) → d.lt a b ≡ true → d.lt b a ≡ false
  pub not_lt_trans : (a b c : N) → d.lt a b ≡ false → d.lt b c ≡ false → d.lt a c ≡ false

-- Whole numbers as such numbers, for the runs of the tests.
abbrev pub int_double : Double ℤ
int_double = record {
  lt = ltb_ℤ;
  add = ◌+ℤ◌;
  sub = ◌-ℤ◌;
  mul = ◌*ℤ◌;
  div = λ a b. a;
  abs = λ a. elim a [ pos n ↦ pos n | negsuc n ↦ pos (ℕ.suc n) ];
  exp = λ a. a;
  round = λ a. a;
  floor_ℕ = λ a. elim a [ pos n ↦ n | negsuc n ↦ 0 ];
  of_ℕ = pos;
  to_fixed = λ a n. "0";
  to_string = λ a. "0";
}

pub int_double-IsOrdered : IsOrdered int_double
int_double-IsOrdered = record {
  lt_asym = λ a b h. ground arith;
  not_lt_trans = λ a b c h k. ground arith;
}
