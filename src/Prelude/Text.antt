-- ===== src/Prelude/Text.antt =====
-- Texts: joining, and the order of texts that `xs.sort()` and `<` use.
use Prim.Native.Char.{Char, code}
use Prim.Native.Nat.{Ordering}
use Prim.Native.String.{◌++◌ as append, compare as compare_text}
use Prim.Native.String.compare
use industrial_safety_intell.Prelude.{
  String, ◌≡◌, refl, Bool, true, false, List, [], ◌∷◌, ltb, arith, if◌then◌else◌,
}

infixr 60 ◌⧺◌
abbrev pub ◌⧺◌ : String → String → String
s ⧺ t = append s t

-- `xs.join(separator)`
abbrev pub join : String → List String → String
join sep [] = ""
join sep (x ∷ []) = x
join sep (x ∷ y ∷ xs) = x ⧺ sep ⧺ join sep (y ∷ xs)

-- `s > t`, by code units
abbrev pub text_gt : String → String → Bool
text_gt s t = elim (compare_text s t) [ Ordering.gt ↦ true | _ ↦ false ]

text_gt-cons :
    (c d : Char) (s t : String)
    → text_gt (String.◌∷◌ c s) (String.◌∷◌ d t) ≡ (
        if ltb (code d) (code c)
        then true
        else if ltb (code c) (code d)
        then false
        else text_gt s t)
text_gt-cons c d s t = rw (compare.cons-cons c d s t, text_gt) (ground arith)

text_gt_nil : (c : Char) (s : String) → text_gt (String.◌∷◌ c s) "" ≡ true
text_gt_nil c s = rw (compare.cons-nil c s, text_gt)

nil_text_gt : (c : Char) (s : String) → text_gt "" (String.◌∷◌ c s) ≡ false
nil_text_gt c s = rw (compare.nil-cons c s, text_gt)

pub text_gt_asym : (s t : String) → text_gt s t ≡ true → text_gt t s ≡ false
text_gt_asym String.[] String.[] h = refl
text_gt_asym String.[] (String.◌∷◌ d t) h = cc (nil_text_gt d t)
text_gt_asym (String.◌∷◌ c s) String.[] h = nil_text_gt c s
text_gt_asym (String.◌∷◌ c s) (String.◌∷◌ d t) h =
    ground (arith, text_gt-cons c d s t, text_gt-cons d c t s, text_gt_asym s t)

pub text_le_trans :
    (s t u : String) → text_gt s t ≡ false → text_gt t u ≡ false → text_gt s u ≡ false
text_le_trans String.[] t String.[] h k = refl
text_le_trans String.[] t (String.◌∷◌ e u) h k = nil_text_gt e u
text_le_trans (String.◌∷◌ c s) String.[] u h k = cc (text_gt_nil c s)
text_le_trans (String.◌∷◌ c s) (String.◌∷◌ d t) String.[] h k = cc (text_gt_nil d t)
text_le_trans (String.◌∷◌ c s) (String.◌∷◌ d t) (String.◌∷◌ e u) h k =
    ground
      (arith, text_gt-cons c d s t, text_gt-cons d e t u, text_gt-cons c e s u, text_le_trans s t u)
