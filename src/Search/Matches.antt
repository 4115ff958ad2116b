-- ===== src/Search/Matches.antt =====
-- `searchStandards`, frontend/src/lib/enterpriseSearch.ts: which standards a query finds.
use industrial_safety_intell.Prelude.{
  String, Bool, false, List, [], ◌∷◌, map, is_some, ◌||◌, ◌&&◌, ◌≡◌, refl, sym, ap, ◌∙◌, arith,
  Bool-cases, inl, inr,
}
use mathlib.Core.Path.{subst}
use industrial_safety_intell.Prelude.Dict.{
  get, set, is_some-set, keys, keys-set-IsDistinct, includes-keys,
}
use industrial_safety_intell.Prelude.Eq.{◌==◌, string_eq, includes, IsDistinct, ==-ap}
use industrial_safety_intell.Prelude.Lists.{All, any}
use industrial_safety_intell.Prelude.Words.{Words}
use industrial_safety_intell.Search.{
  EnterpriseSearchResult, Seen, needle_of, standard_key, standard_matches, standard_result,
  see_standard, see_standards, see_table, search_standards,
}
use industrial_safety_intell.Standards.{StandardReference, standards_for_recommendation_table}

module _ (w : Words) where
  -- A standard of this key that the needle is found in.
  abbrev pub answers : String → String → StandardReference → Bool
  answers needle key s = standard_key w s == key && standard_matches w needle s

  found-see_standard :
      (needle key : String) (seen : Seen w) (s : StandardReference)
      → is_some (get key (see_standard w needle seen s))
        ≡ (is_some (get key seen) || answers needle key s)
  found-see_standard needle key seen s = ground (
    arith,
    is_some-set (standard_key w s) key (standard_result w s) seen,
    ==-ap (λ k. is_some (get k seen)) (standard_key w s) key,
  )

  found-see_standards :
      (needle key : String) (seen : Seen w) (standards : List StandardReference)
      → is_some (get key (see_standards w needle seen standards))
        ≡ (is_some (get key seen) || any (answers needle key) standards)
  unfolding see_standards any
  found-see_standards needle key seen [] = ground arith
  found-see_standards needle key seen (s ∷ rest) =
      found-see_standards needle key (see_standard w needle seen s) rest
      ∙ ground (arith, found-see_standard needle key seen s)

  abbrev pub row_answers : String → String → String × List StandardReference → Bool
  row_answers needle key row = any (answers needle key) row.1

  found-see_table :
      (needle key : String) (seen : Seen w) (table : List (String × List StandardReference))
      → is_some (get key (see_table w needle seen table))
        ≡ (is_some (get key seen) || any (row_answers needle key) table)
  unfolding see_table any
  found-see_table needle key seen [] = ground arith
  found-see_table needle key seen (row ∷ rest) =
      found-see_table needle key (see_standards w needle seen row.1) rest
      ∙ ground (arith, found-see_standards needle key seen row.1)

  -- What has been seen is kept once, and under its own id.
  record IsSeen (seen : Seen w) : Type 0 where
    distinct : IsDistinct (keys seen)
    own_ids : All (λ e. e.1.id ≡ e.0) seen

  own_ids-set :
      (key : String) (r : EnterpriseSearchResult) (seen : Seen w)
      → r.id ≡ key
      → All (λ e. e.1.id ≡ e.0) seen
      → All (λ e. e.1.id ≡ e.0) (set key r seen)
  unfolding set
  own_ids-set key r [] e h = (e, tt)
  own_ids-set key r ((k, v) ∷ rest) e h = elim (Bool-cases (k == key)) [
    | inl p ↦ rw p (e ∙ sym ((string_eq.same_iff k key).0 p), h.1)
    | inr p ↦ rw p (h.0, own_ids-set key r rest e h.1)
  ]

  IsSeen-see_standard :
      (needle : String) (seen : Seen w) (s : StandardReference)
      → IsSeen seen
      → IsSeen (see_standard w needle seen s)
  IsSeen-see_standard needle seen s h = elim (Bool-cases (is_some (get (standard_key w s) seen))) [
    | inl p ↦ rw p h
    | inr p ↦ elim (Bool-cases (standard_matches w needle s)) [
      | inl q ↦
          rw (p, q)
            (record {
              distinct =
                  keys-set-IsDistinct (standard_key w s) (standard_result w s) seen h.distinct;
              own_ids = own_ids-set (standard_key w s) (standard_result w s) seen refl h.own_ids;
            })
      | inr q ↦ rw (p, q) h
    ]
  ]

  IsSeen-see_standards :
      (needle : String) (seen : Seen w) (standards : List StandardReference)
      → IsSeen seen
      → IsSeen (see_standards w needle seen standards)
  unfolding see_standards
  IsSeen-see_standards needle seen [] h = h
  IsSeen-see_standards needle seen (s ∷ rest) h =
      IsSeen-see_standards needle (see_standard w needle seen s) rest
        (IsSeen-see_standard needle seen s h)

  IsSeen-see_table :
      (needle : String) (seen : Seen w) (table : List (String × List StandardReference))
      → IsSeen seen
      → IsSeen (see_table w needle seen table)
  unfolding see_table
  IsSeen-see_table needle seen [] h = h
  IsSeen-see_table needle seen (row ∷ rest) h =
      IsSeen-see_table needle (see_standards w needle seen row.1) rest
        (IsSeen-see_standards needle seen row.1 h)

  ids_of :
      (seen : Seen w)
      → All (λ e. e.1.id ≡ e.0) seen
      → map (λ r. r.id) (map (λ e. e.1) seen) ≡ keys seen
  ids_of [] h = refl
  ids_of (e ∷ rest) h = let first = h.0 in let others = ids_of rest h.1 in cc

  pub search_standards-lem :
      (query : String)
      → (needle_of w query == "") ≡ false
      → IsDistinct (map (λ r. r.id) (search_standards w query))
        × ((id : String)
            → includes (map (λ r. r.id) (search_standards w query)) id
              ≡ any (row_answers (needle_of w query) id) standards_for_recommendation_table)
  unfolding search_standards get
  search_standards-lem query h =
      let needle = needle_of w query in
      let seen = see_table w needle [] standards_for_recommendation_table in
      let kept =
        IsSeen-see_table needle [] standards_for_recommendation_table
          (record { distinct = tt; own_ids = tt }) in
      rw h (
        subst IsDistinct (sym (ids_of seen kept.own_ids)) kept.distinct,
        λ id.
            ap (λ l. includes l id) (ids_of seen kept.own_ids)
            ∙ includes-keys seen id
            ∙ found-see_table needle id [] standards_for_recommendation_table,
      )
