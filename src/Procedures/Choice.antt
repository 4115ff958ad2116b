-- ===== src/Procedures/Choice.antt =====
-- Which procedure `getSopReference`, frontend/src/lib/sopReferences.ts, points to.
use industrial_safety_intell.Prelude.{
  String, List, [], ◌∷◌, none, some, ◌≡◌, refl, ◌∙◌, ◌⊎◌, ◌↔◌, Option-cases, inl, inr,
}
use industrial_safety_intell.Prelude.Dict.{get}
use industrial_safety_intell.Prelude.Eq.{string_eq}
use industrial_safety_intell.Prelude.Lists.{All}
use industrial_safety_intell.Procedures.{
  SopReference, sop_by_permit_type, sop_by_recommendation_id, get_sop_reference,
}

-- The procedure of the first permit type that has one.
pub data FirstOf : List String → SopReference → Type 0 where
  this :
      {rest : List String} {s : SopReference} (permit_type : String)
      → get permit_type sop_by_permit_type ≡ some s
      → FirstOf (permit_type ∷ rest) s
  later :
      {rest : List String} {s : SopReference} (permit_type : String)
      → get permit_type sop_by_permit_type ≡ none
      → FirstOf rest s
      → FirstOf (permit_type ∷ rest) s

-- What may be pointed to for a recommendation and the active permits.
abbrev pub IsChoice : String → List String → SopReference → Type 0
IsChoice recommendation_id permit_types s =
    FirstOf permit_types s
    ⊎ (All (λ p. get p sop_by_permit_type ≡ none) permit_types
        × (get recommendation_id sop_by_recommendation_id ≡ some s))

IsChoice-of :
    (recommendation_id : String) (permit_types : List String) (s : SopReference)
    → get_sop_reference recommendation_id permit_types ≡ some s
    → IsChoice recommendation_id permit_types s
unfolding get_sop_reference
IsChoice-of recommendation_id [] s h = inr (tt, h)
IsChoice-of recommendation_id (p ∷ rest) s h = elim (Option-cases (get p sop_by_permit_type)) [
  | inl e ↦ elim (IsChoice-of recommendation_id rest s (rw e at h)) [
    | inl f ↦ inl (later p e f)
    | inr (all, r) ↦ inr ((e, all), r)
  ]
  | inr (t, e) ↦ inl (this p (e ∙ (rw e at h)))
]

first_chosen :
    (recommendation_id : String) (permit_types : List String) (s : SopReference)
    → FirstOf permit_types s
    → get_sop_reference recommendation_id permit_types ≡ some s
unfolding get_sop_reference
first_chosen recommendation_id permit_types s (this p e) = rw e
first_chosen recommendation_id permit_types s (later {rest = rest} p e f) =
    rw e (first_chosen recommendation_id rest s f)

rest_chosen :
    (recommendation_id : String) (permit_types : List String)
    → All (λ p. get p sop_by_permit_type ≡ none) permit_types
    → get_sop_reference recommendation_id permit_types
      ≡ get recommendation_id sop_by_recommendation_id
unfolding get_sop_reference
rest_chosen recommendation_id [] all = refl
rest_chosen recommendation_id (p ∷ rest) all = rw all.0 (rest_chosen recommendation_id rest all.1)

-- A procedure is pointed to exactly when it is that of the first active permit whose type has one,
-- or when no active permit's type has one and it is that of the recommendation.
pub get_sop_reference-IsChoice :
    (recommendation_id : String) (permit_types : List String) (s : SopReference)
    → (get_sop_reference recommendation_id permit_types ≡ some s)
      ↔ IsChoice recommendation_id permit_types s
get_sop_reference-IsChoice recommendation_id permit_types s = (
  IsChoice-of recommendation_id permit_types s,
  λ c. elim c [
    | inl f ↦ first_chosen recommendation_id permit_types s f
    | inr (all, r) ↦ rest_chosen recommendation_id permit_types all ∙ r
  ],
)
