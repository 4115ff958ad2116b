-- ===== src/Recommendations/Derived.antt =====
-- `deriveRecommendations` of frontend/src/lib/recommendations.ts beside the recognised rules.
use industrial_safety_intell.Prelude.{
  String, false, List, [], ◌∷◌, ◌++◌, Option, none, some, ◌≡◌, refl, ◌∙◌, arith, ◌||◌, Bool-cases,
  Option-cases, if◌then◌else◌, inl, inr, map,
}
use industrial_safety_intell.Prelude.Eq.{
  ◌==◌, string_eq, includes, dedup_from, IsDistinct, IsDistinct-snoc,
}
use industrial_safety_intell.Prelude.Lists.{any, any-append}
use industrial_safety_intell.Api.Risk.{Tier}
use industrial_safety_intell.Justification.{RiskJustification}
use mathlib.Core.List.{append-nil, append_assoc, map-append}
use text.Mathlib.TextEquality.{eq_iff}
use industrial_safety_intell.Recommendations.{
  lookup_id, rule_recommendations, Recommendation, rule_recommendation, push_new, push_rules,
  has_id, baseline_list, tier_baseline, derive_recommendations,
}

-- The ids of a list of recommendations.
abbrev pub ids : List Recommendation → List String
ids = map (λ r. r.id)

has_id-includes : (out : List Recommendation) (i : String) → has_id i out ≡ includes (ids out) i
unfolding any includes
has_id-includes [] i = refl
has_id-includes (r ∷ out) i = ground (arith, has_id-includes out i)

id-lookup_id :
    (rs : List Recommendation) (rule : String) {r : Recommendation}
    → lookup_id rs rule ≡ some r
    → r.id ≡ rule
id-lookup_id [] rule h = cc
id-lookup_id (x ∷ rs) rule {r} h = ground (arith, eq_iff x.id rule, id-lookup_id rs rule {r = r})

id-rule_recommendation :
    (rule : String) {r : Recommendation} → rule_recommendation rule ≡ some r → r.id ≡ rule
unfolding rule_recommendation
id-rule_recommendation rule h = id-lookup_id rule_recommendations rule h

abbrev put_first : Option Recommendation → List Recommendation → List Recommendation
put_first none rs = rs
put_first (some r) rs = r ∷ rs

-- The recommendations of the recognised rules among `rules`, in order.
abbrev pub recognised : List String → List Recommendation
recognised [] = []
recognised (rule ∷ rules) = put_first (rule_recommendation rule) (recognised rules)

recognised-append : (xs ys : List String) → recognised (xs ++ ys) ≡ recognised xs ++ recognised ys
recognised-append [] ys = refl
recognised-append (x ∷ xs) ys = ground (arith, recognised-append xs ys)

has_id-append :
    (i : String) (xs ys : List Recommendation) → has_id i (xs ++ ys) ≡ (has_id i xs || has_id i ys)
has_id-append i = any-append (λ r. r.id == i)

has_id-recognised :
    (rules : List String) (rule : String) {r : Recommendation}
    → rule_recommendation rule ≡ some r
    → has_id r.id (recognised rules) ≡ includes rules rule
unfolding any includes
has_id-recognised [] rule h = refl
has_id-recognised (x ∷ rules) rule {r} h = elim (Option-cases (rule_recommendation x)) [
  | inl e ↦ rw e (ground (arith, has_id-recognised rules rule h, eq_iff x rule))
  | inr (y, e) ↦ rw e (
      ground (
        arith,
        has_id-recognised rules rule h,
        id-rule_recommendation x e,
        id-rule_recommendation rule h,
      ))
]

other_id :
    (key rule : String) {r : Recommendation}
    → rule_recommendation key ≡ none
    → rule_recommendation rule ≡ some r
    → (key == r.id) ≡ false
other_id key rule {r} hk hr = elim (Bool-cases (key == r.id)) [
  | inl p ↦ cc (hk, hr, id-rule_recommendation rule hr, (eq_iff key r.id).0 p)
  | inr p ↦ p
]

-- The baseline of a tier has no rule's id.
baseline_not_rule :
    (tier : Tier) (rule : String) {r : Recommendation}
    → rule_recommendation rule ≡ some r
    → has_id r.id (baseline_list (tier_baseline tier)) ≡ false
unfolding tier_baseline any rule_recommendation
baseline_not_rule Tier.normal rule h = refl
baseline_not_rule Tier.watch rule h = rw (other_id "tier_watch" rule refl h)
baseline_not_rule Tier.elevated rule h = rw (other_id "tier_elevated" rule refl h)
baseline_not_rule Tier.critical rule h = rw (other_id "tier_critical" rule refl h)

module _ (tier : Tier) where
  abbrev base : List Recommendation
  base = baseline_list (tier_baseline tier)

  has_id-base :
      (seen : List String) (rule : String) {r : Recommendation}
      → rule_recommendation rule ≡ some r
      → has_id r.id (base ++ recognised seen) ≡ includes seen rule
  has_id-base seen rule {r} h =
      has_id-append r.id base (recognised seen)
      ∙ rw (baseline_not_rule tier rule h) (has_id-recognised seen rule h)

  push_new-recognised :
      (seen : List String) (rule : String)
      → push_new (base ++ recognised seen) (rule_recommendation rule)
        ≡ base ++ recognised (if includes seen rule then seen else seen ++ rule ∷ [])
  push_new-recognised seen rule = elim (Option-cases (rule_recommendation rule)) [
    | inl e ↦
        rw e (ground (arith, recognised-append seen (rule ∷ []), append-nil (recognised seen)))
    | inr (r, e) ↦
        rw (e, has_id-base seen rule e)
          (ground (
            arith,
            recognised-append seen (rule ∷ []),
            append_assoc base (recognised seen) (r ∷ []),
          ))
  ]

  push_rules-recognised :
      (seen rules : List String)
      → push_rules (base ++ recognised seen) rules ≡ base ++ recognised (dedup_from seen rules)
  unfolding push_rules dedup_from
  push_rules-recognised seen [] = refl
  push_rules-recognised seen (rule ∷ rules) =
      rw (push_new-recognised seen rule)
        (push_rules-recognised (if includes seen rule then seen else seen ++ rule ∷ []) rules)

-- With a justification, the recommendations are the baseline of the tier, if it has one, and behind
-- it those of the recognised rules that fired, each once, in the order in which they first fired.
pub derive_recommendations-recognised :
    {N : Type 0} (tier : Tier) (j : RiskJustification N)
    → derive_recommendations tier (some j)
      ≡ baseline_list (tier_baseline tier) ++ recognised (dedup_from [] j.rules_fired)
unfolding derive_recommendations
derive_recommendations-recognised tier j =
    rw append-nil at (push_rules-recognised tier [] j.rules_fired)

base-IsDistinct : (tier : Tier) → IsDistinct (ids (baseline_list (tier_baseline tier)))
unfolding tier_baseline includes
base-IsDistinct Tier.normal = tt
base-IsDistinct _ = (refl, tt)

push_new-IsDistinct :
    (out : List Recommendation) (o : Option Recommendation)
    → IsDistinct (ids out)
    → IsDistinct (ids (push_new out o))
push_new-IsDistinct out none d = d
push_new-IsDistinct out (some r) d = elim (Bool-cases (has_id r.id out)) [
  | inl p ↦ rw p d
  | inr p ↦ rw p (
      rw (map-append (λ (x : Recommendation). x.id) out (r ∷ []))
        (IsDistinct-snoc (ids out) r.id d (rw (has_id-includes out r.id) at p)))
]

push_rules-IsDistinct :
    (out : List Recommendation) (rules : List String)
    → IsDistinct (ids out)
    → IsDistinct (ids (push_rules out rules))
unfolding push_rules
push_rules-IsDistinct out [] d = d
push_rules-IsDistinct out (rule ∷ rules) d =
    push_rules-IsDistinct (push_new out (rule_recommendation rule)) rules
      (push_new-IsDistinct out (rule_recommendation rule) d)

-- No two recommendations of a tick have the same id.
pub derive_recommendations-IsDistinct :
    {N : Type 0} (tier : Tier) (o : Option (RiskJustification N))
    → IsDistinct (ids (derive_recommendations tier o))
unfolding derive_recommendations includes
derive_recommendations-IsDistinct Tier.normal none = tt
derive_recommendations-IsDistinct tier none = (refl, tt)
derive_recommendations-IsDistinct tier (some j) =
    push_rules-IsDistinct (baseline_list (tier_baseline tier)) j.rules_fired (base-IsDistinct tier)
