-- ===== src/Tier/Worst.antt =====
-- `worstTier` and `latestTimestamp` of frontend/src/lib/tier.ts.
use industrial_safety_intell.Prelude.{String, false, true, List, some, Memᴰ, ◌≡◌, arith}
use industrial_safety_intell.Prelude.Int.{ltb_ℤ, ℤ}
use industrial_safety_intell.Prelude.Select.{select?-IsGreatest, IsGreatest}
use industrial_safety_intell.Prelude.Text.{text_gt_asym, text_le_trans}
use industrial_safety_intell.Tier.{tier_rank, worst_tier, latest_timestamp, text_lt}

pub ltb_ℤ_asym : (a b : ℤ) → ltb_ℤ a b ≡ true → ltb_ℤ b a ≡ false
ltb_ℤ_asym a b h = ground arith

pub ltb_ℤ_trans : (a b c : ℤ) → ltb_ℤ a b ≡ false → ltb_ℤ b c ≡ false → ltb_ℤ a c ≡ false
ltb_ℤ_trans a b c h k = ground arith

-- The worst tier of a plant is one of its tiers, and no tier of the plant ranks above it.
pub worst_tier-IsGreatest :
    (tiers : List String) (worst : String)
    → worst_tier tiers ≡ some worst
    → Memᴰ worst tiers × IsGreatest ltb_ℤ tier_rank worst tiers
worst_tier-IsGreatest tiers worst h =
    select?-IsGreatest ltb_ℤ tier_rank ltb_ℤ_asym ltb_ℤ_trans tiers worst (unfold worst_tier in h)

-- The latest timestamp is one of the given texts, and none of them is greater in the order of texts.
pub latest_timestamp-IsGreatest :
    (ts : List String) (latest : String)
    → latest_timestamp ts ≡ some latest
    → Memᴰ latest ts × IsGreatest text_lt (λ s. s) latest ts
latest_timestamp-IsGreatest ts latest h =
    select?-IsGreatest text_lt (λ s. s) (λ a b. text_gt_asym b a)
      (λ a b c p q. text_le_trans c b a q p) ts latest (unfold latest_timestamp in h)
