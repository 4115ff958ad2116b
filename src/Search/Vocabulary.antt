-- ===== src/Search/Vocabulary.antt =====
-- The recommendations of frontend/src/lib/recommendations.ts beside the vocabulary that is searched
-- in frontend/src/lib/enterpriseSearch.ts and the standards of frontend/src/lib/complianceStandards.ts.
use industrial_safety_intell.Prelude.{
  String, Bool, true, false, List, [], ◌∷◌, Option, none, some, ◌≡◌, refl, sym, Memᴰ, Bool-cases,
  inl, inr, some_injective,
}
use industrial_safety_intell.Prelude.Eq.{◌==◌, string_eq}
use industrial_safety_intell.Prelude.Lists.{All, All-append, All-Memᴰ}
use industrial_safety_intell.Api.Risk.{Tier}
use industrial_safety_intell.Justification.{RiskJustification}
use industrial_safety_intell.Recommendations.{
  Recommendation, all_recommendation_templates, rule_recommendations, lookup_id,
  rule_recommendation, has_id, push_new, push_rules, baseline_list, tier_baseline,
  derive_recommendations,
}
use industrial_safety_intell.Standards.{StandardReference, standards_for_recommendation}

abbrev is_empty : List StandardReference → Bool
is_empty [] = true
is_empty (s ∷ rest) = false

-- A text that the search of recommendations covers, with a standard that it aligns with.
abbrev pub IsReferenced : Recommendation → Type 0
IsReferenced r =
    Memᴰ r all_recommendation_templates × (is_empty (standards_for_recommendation r.id) ≡ false)

templates_have_standards :
    All (λ r. is_empty (standards_for_recommendation r.id) ≡ false) all_recommendation_templates
unfolding standards_for_recommendation all_recommendation_templates
templates_have_standards = (
  refl,
  (refl, (refl, (refl, (refl, (refl, (refl, (refl, (refl, (refl, (refl, (refl, tt))))))))))),
)

template-IsReferenced : (r : Recommendation) → Memᴰ r all_recommendation_templates → IsReferenced r
template-IsReferenced r m = (m, All-Memᴰ _ all_recommendation_templates templates_have_standards m)

Memᴰ-lookup_id :
    (rs : List Recommendation) (rule : String) (r : Recommendation)
    → lookup_id rs rule ≡ some r
    → Memᴰ r rs
Memᴰ-lookup_id [] rule r h = absurd (cc)
Memᴰ-lookup_id (x ∷ rs) rule r h = elim (Bool-cases (x.id == rule)) [
  | inl p ↦ Memᴰ.head (sym (some_injective (rw p at h)))
  | inr p ↦ Memᴰ.tail (Memᴰ-lookup_id rs rule r (rw p at h))
]

rule-IsReferenced :
    (rule : String) (r : Recommendation) → rule_recommendation rule ≡ some r → IsReferenced r
unfolding rule_recommendation all_recommendation_templates
rule-IsReferenced rule r h =
    template-IsReferenced r
      (Memᴰ.tail (Memᴰ.tail (Memᴰ.tail (Memᴰ-lookup_id rule_recommendations rule r h))))

push_new-IsReferenced :
    (out : List Recommendation) (o : Option Recommendation)
    → All IsReferenced out
    → ((r : Recommendation) → o ≡ some r → IsReferenced r)
    → All IsReferenced (push_new out o)
push_new-IsReferenced out none h f = h
push_new-IsReferenced out (some r) h f = elim (Bool-cases (has_id r.id out)) [
  | inl p ↦ rw p h
  | inr p ↦ rw p (All-append IsReferenced out (r ∷ []) h (f r refl, tt))
]

push_rules-IsReferenced :
    (out : List Recommendation) (rules : List String)
    → All IsReferenced out
    → All IsReferenced (push_rules out rules)
unfolding push_rules
push_rules-IsReferenced out [] h = h
push_rules-IsReferenced out (rule ∷ rules) h =
    push_rules-IsReferenced (push_new out (rule_recommendation rule)) rules
      (push_new-IsReferenced out (rule_recommendation rule) h (rule-IsReferenced rule))

baseline-IsReferenced : (tier : Tier) → All IsReferenced (baseline_list (tier_baseline tier))
unfolding tier_baseline all_recommendation_templates
baseline-IsReferenced Tier.critical = (template-IsReferenced _ (Memᴰ.head refl), tt)
baseline-IsReferenced Tier.elevated = (template-IsReferenced _ (Memᴰ.tail (Memᴰ.head refl)), tt)
baseline-IsReferenced Tier.watch =
    (template-IsReferenced _ (Memᴰ.tail (Memᴰ.tail (Memᴰ.head refl))), tt)
baseline-IsReferenced Tier.normal = tt

-- Whatever the tier and the rules that fired, each recommendation is one that the search of the
-- recommendation vocabulary covers, and aligns with at least one standard.
pub derive_recommendations-IsReferenced :
    {N : Type 0} (tier : Tier) (justification : Option (RiskJustification N))
    → All IsReferenced (derive_recommendations tier justification)
unfolding derive_recommendations
derive_recommendations-IsReferenced tier none = baseline-IsReferenced tier
derive_recommendations-IsReferenced tier (some j) =
    push_rules-IsReferenced (baseline_list (tier_baseline tier)) j.rules_fired
      (baseline-IsReferenced tier)
