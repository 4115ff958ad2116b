-- ===== src/Tier.antt =====
-- frontend/src/lib/tier.ts: the order of severity, on tier strings.
pub mod Worst
use industrial_safety_intell.Prelude.{String, Bool, List, [], ◌∷◌, Option, if◌then◌else◌}
use Prim.Native.Nat.{suc}
use industrial_safety_intell.Prelude.{ℕ}
use industrial_safety_intell.Prelude.Eq.{◌==◌, string_eq}
use industrial_safety_intell.Prelude.Int.{ℤ, pos, negsuc, ltb_ℤ}
use industrial_safety_intell.Prelude.Select.{select?}
use industrial_safety_intell.Prelude.Text.{text_gt}

-- `xs.indexOf(a)`, from the position `i` on; -1 where there is none
abbrev index_from : ℕ → List String → String → ℤ
index_from i [] a = negsuc 0
index_from i (x ∷ xs) a = let later = index_from (suc i) xs a in if x == a then pos i else later

-- TIER_ORDER
abbrev tier_order : List String
tier_order = "normal" ∷ "watch" ∷ "elevated" ∷ "critical" ∷ []

unfoldable pub tier_rank : String → ℤ
tier_rank = index_from 0 tier_order

unfoldable pub worst_tier : List String → Option String
unfolding select?
worst_tier = select? ltb_ℤ tier_rank

-- `current > latest` on texts
abbrev pub text_lt : String → String → Bool
text_lt a b = text_gt b a

unfoldable pub latest_timestamp : List String → Option String
unfolding select?
latest_timestamp = select? text_lt (λ s. s)
