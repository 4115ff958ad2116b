-- ===== src/Prelude/Select.antt =====
-- `xs.reduce((best, x) => key(x) > key(best) ? x : best)`: the first member with the greatest key.
use industrial_safety_intell.Prelude.{
  ◌≡◌, refl, sym, Bool, true, false, List, [], ◌∷◌, ◌++◌, ap, ◌∙◌, Memᴰ, Option, none, some, arith,
  if◌then◌else◌, Bool-cases, inl, inr,
}
use mathlib.Core.Path.{subst}
use mathlib.Core.List.{append-nil}
use industrial_safety_intell.Prelude.Lists.{All}

module _ {ℓ κ} {A : Type ℓ} {K : Type κ} (lt : K → K → Bool) (key : A → K) where
  unfoldable pub select : A → List A → A
  select best [] = best
  select best (x ∷ xs) = select (if lt (key best) (key x) then x else best) xs

  -- The one of two that is selected.
  abbrev pub pick : A → A → A
  pick a b = if lt (key a) (key b) then b else a

  abbrev pub pick? : Option A → Option A → Option A
  pick? none o = o
  pick? (some a) none = some a
  pick? (some a) (some b) = some (pick a b)

  -- `null` for an empty list
  unfoldable pub select? : List A → Option A
  unfolding select
  select? [] = none
  select? (x ∷ xs) = some (select x xs)

  pub select-Memᴰ : (best : A) (xs : List A) → Memᴰ (select best xs) (best ∷ xs)
  unfolding select
  select-Memᴰ best [] = Memᴰ.head refl
  select-Memᴰ best (x ∷ xs) = elim (Bool-cases (lt (key best) (key x))) [
    | inl p ↦ rw p (Memᴰ.tail (select-Memᴰ x xs))
    | inr p ↦ rw p (skip (select-Memᴰ best xs))
  ]
    where
      skip : {a : A} → Memᴰ a (best ∷ xs) → Memᴰ a (best ∷ x ∷ xs)
      skip (Memᴰ.head e) = Memᴰ.head e
      skip (Memᴰ.tail m) = Memᴰ.tail (Memᴰ.tail m)

  pub select_later :
      (best x : A) (xs : List A) → lt (key best) (key x) ≡ true → select best (x ∷ xs) ≡ select x xs
  unfolding select
  select_later best x xs p = rw p

  pub select_earlier :
      (best x : A) (xs : List A)
      → lt (key best) (key x) ≡ false
      → select best (x ∷ xs) ≡ select best xs
  unfolding select
  select_earlier best x xs p = rw p

  -- No member of the list has a key above that of `r`.
  abbrev pub IsGreatest : A → List A → Type 0
  IsGreatest r = All (λ y. lt (key r) (key y) ≡ false)

  module _ (asym : (a b : K) → lt a b ≡ true → lt b a ≡ false)
      (trans : (a b c : K) → lt a b ≡ false → lt b c ≡ false → lt a c ≡ false) where
    irrefl : (a : K) → lt a a ≡ false
    irrefl a = elim (Bool-cases (lt a a)) [ inl p ↦ asym a a p | inr p ↦ p ]

    pub select-IsGreatest : (best : A) (xs : List A) → IsGreatest (select best xs) (best ∷ xs)
    unfolding select
    select-IsGreatest best [] = (irrefl (key best), tt)
    select-IsGreatest best (x ∷ xs) = elim (Bool-cases (lt (key best) (key x))) [
      | inl p ↦
          let (top, rest) = select-IsGreatest x xs in
          subst (λ r. IsGreatest r (best ∷ x ∷ xs)) (sym (select_later best x xs p))
            (trans _ (key x) _ top (asym _ _ p), (top, rest))
      | inr p ↦
          let (top, rest) = select-IsGreatest best xs in
          subst (λ r. IsGreatest r (best ∷ x ∷ xs)) (sym (select_earlier best x xs p))
            (top, (trans _ (key best) _ top p, rest))
    ]

    -- What is selected is a member, and no member has a greater key.
    pub select?-IsGreatest :
        (xs : List A) (r : A) → select? xs ≡ some r → Memᴰ r xs × IsGreatest r xs
    unfolding select?
    select?-IsGreatest [] r h = cc
    select?-IsGreatest (x ∷ xs) r h =
        let e : select x xs ≡ r = cc in
        subst (λ y. Memᴰ y (x ∷ xs) × IsGreatest y (x ∷ xs)) e
          (select-Memᴰ x xs, select-IsGreatest x xs)

    pick_assoc : (a b c : A) → pick (pick a b) c ≡ pick a (pick b c)
    pick_assoc a b c =
        ground (
          arith,
          asym (key b) (key c),
          trans (key a) (key b) (key c),
          trans (key a) (key c) (key b),
        )

    select_cons : (a b : A) (ys : List A) → select (pick a b) ys ≡ pick a (select b ys)
    unfolding select
    select_cons a b [] = refl
    select_cons a b (y ∷ ys) =
        ap (λ x. select x ys) (pick_assoc a b y) ∙ select_cons a (pick b y) ys

    select-append :
        (best : A) (xs : List A) (y : A) (ys : List A)
        → select best (xs ++ y ∷ ys) ≡ pick (select best xs) (select y ys)
    unfolding select
    select-append best [] y ys = select_cons best y ys
    select-append best (x ∷ xs) y ys = select-append (pick best x) xs y ys

    -- A selection from two lists is made between the selections from each.
    pub select?-append : (xs ys : List A) → select? (xs ++ ys) ≡ pick? (select? xs) (select? ys)
    unfolding select?
    select?-append [] ys = refl
    select?-append (x ∷ xs) [] = ap (λ l. some (select x l)) (append-nil xs)
    select?-append (x ∷ xs) (y ∷ ys) = ap some (select-append x xs y ys)
