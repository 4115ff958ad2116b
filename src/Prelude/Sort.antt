-- ===== src/Prelude/Sort.antt =====
-- `xs.sort(compare)`: the stable sort of the language, by insertion. `after x y` says that the
-- comparator puts `x` strictly behind `y`.
use mathlib.Core.List.{Perm}
use mathlib.Core.List.Perm
use mathlib.Core.Path.{subst}
use industrial_safety_intell.Prelude.{
  ◌≡◌, ◌∙◌, refl, sym, Memᴰ, ℕ, ◌+◌, Bool, true, false, List, [], ◌∷◌, arith, if◌then◌else◌,
  Bool-cases, inl, inr,
}
use industrial_safety_intell.Prelude.Eq.{Eq, ==-comm, includes, IsDistinct}
use industrial_safety_intell.Prelude.Lists.{All, All-imp}

module _ {ℓ} {A : Type ℓ} (after : A → A → Bool) where
  insert : A → List A → List A
  insert x [] = x ∷ []
  insert x (y ∷ ys) = if after x y then y ∷ insert x ys else x ∷ y ∷ ys

  unfoldable pub sort : List A → List A
  unfolding insert
  sort [] = []
  sort (x ∷ xs) = insert x (sort xs)

  abbrev pub IsSorted : List A → Type 0
  IsSorted [] = Unit
  IsSorted (x ∷ xs) = All (λ y. after x y ≡ false) xs × IsSorted xs

  insert-perm : (x : A) (xs : List A) → Perm (insert x xs) (x ∷ xs)
  unfolding insert
  insert-perm x [] = Perm.rfl
  insert-perm x (y ∷ ys) = elim (Bool-cases (after x y)) [
    | inl p ↦ rw p (Perm.trans (Perm.cons y (insert-perm x ys)) (Perm.swap x y ys))
    | inr p ↦ rw p Perm.rfl
  ]

  pub sort-perm : (xs : List A) → Perm (sort xs) xs
  unfolding sort
  sort-perm [] = Perm.rfl
  sort-perm (x ∷ xs) = Perm.trans (insert-perm x (sort xs)) (Perm.cons x (sort-perm xs))

  All-insert {κ} : (P : A → Type κ) (x : A) (xs : List A) → P x → All P xs → All P (insert x xs)
  unfolding insert
  All-insert P x [] px h = (px, tt)
  All-insert P x (y ∷ ys) px h = elim (Bool-cases (after x y)) [
    | inl p ↦ rw p (h.0, All-insert P x ys px h.1)
    | inr p ↦ rw p (px, h)
  ]

  pub All-sort {κ} : (P : A → Type κ) (xs : List A) → All P xs → All P (sort xs)
  unfolding sort
  All-sort P [] h = tt
  All-sort P (x ∷ xs) h = All-insert P x (sort xs) h.0 (All-sort P xs h.1)

  -- The sum of a measure of the members.
  abbrev pub total : (A → ℕ) → List A → ℕ
  total f [] = 0
  total f (x ∷ xs) = f x + total f xs

  total-insert : (f : A → ℕ) (x : A) (xs : List A) → total f (insert x xs) ≡ f x + total f xs
  unfolding insert
  total-insert f x [] = omega arith
  total-insert f x (y ∷ ys) = elim (Bool-cases (after x y)) [
    | inl p ↦ rw p (omega (arith, total-insert f x ys))
    | inr p ↦ rw p (omega arith)
  ]

  pub total-sort : (f : A → ℕ) (xs : List A) → total f (sort xs) ≡ total f xs
  unfolding sort
  total-sort f [] = omega arith
  total-sort f (x ∷ xs) = omega (arith, total-insert f x (sort xs), total-sort f xs)

  Memᴰ-insert_self : (x : A) (xs : List A) → Memᴰ x (insert x xs)
  unfolding insert
  Memᴰ-insert_self x [] = Memᴰ.head refl
  Memᴰ-insert_self x (y ∷ ys) = elim (Bool-cases (after x y)) [
    | inl p ↦ rw p (Memᴰ.tail (Memᴰ-insert_self x ys))
    | inr p ↦ rw p (Memᴰ.head refl)
  ]

  Memᴰ-insert : (x : A) (xs : List A) {a : A} → Memᴰ a xs → Memᴰ a (insert x xs)
  unfolding insert
  Memᴰ-insert x [] m = elim m [ ]
  Memᴰ-insert x (y ∷ ys) (Memᴰ.head q) = elim (Bool-cases (after x y)) [
    | inl p ↦ rw p (Memᴰ.head q)
    | inr p ↦ rw p (Memᴰ.tail (Memᴰ.head q))
  ]
  Memᴰ-insert x (y ∷ ys) (Memᴰ.tail m) = elim (Bool-cases (after x y)) [
    | inl p ↦ rw p (Memᴰ.tail (Memᴰ-insert x ys m))
    | inr p ↦ rw p (Memᴰ.tail (Memᴰ.tail m))
  ]

  pub Memᴰ-sort : (xs : List A) {a : A} → Memᴰ a xs → Memᴰ a (sort xs)
  unfolding sort
  Memᴰ-sort [] m = m
  Memᴰ-sort (x ∷ xs) (Memᴰ.head q) =
      subst (λ z. Memᴰ z (insert x (sort xs))) (sym q) (Memᴰ-insert_self x (sort xs))
  Memᴰ-sort (x ∷ xs) (Memᴰ.tail m) = Memᴰ-insert x (sort xs) (Memᴰ-sort xs m)

  module _ ⦃e : Eq A⦄ where
    includes-insert : (x : A) (xs : List A) (a : A) → includes (insert x xs) a ≡ includes (x ∷ xs) a
    unfolding insert includes
    includes-insert x [] a = refl
    includes-insert x (y ∷ ys) a = ground (arith, includes-insert x ys a)

    pub includes-sort : (xs : List A) (a : A) → includes (sort xs) a ≡ includes xs a
    unfolding sort includes
    includes-sort [] a = refl
    includes-sort (x ∷ xs) a = includes-insert x (sort xs) a ∙ ground (arith, includes-sort xs a)

    insert-IsDistinct :
        (x : A) (xs : List A) → IsDistinct xs → includes xs x ≡ false → IsDistinct (insert x xs)
    unfolding insert includes
    insert-IsDistinct x [] h n = (refl, tt)
    insert-IsDistinct x (y ∷ ys) h n = elim (Bool-cases (after x y)) [
      | inl p ↦ rw p (
        includes-insert x ys y ∙ ground (arith, h.0, n, ==-comm x y),
        insert-IsDistinct x ys h.1 (ground (arith, n)),
      )
      | inr p ↦ rw p (n, h)
    ]

    pub sort-IsDistinct : (xs : List A) → IsDistinct xs → IsDistinct (sort xs)
    unfolding sort
    sort-IsDistinct [] h = tt
    sort-IsDistinct (x ∷ xs) h =
        insert-IsDistinct x (sort xs) (sort-IsDistinct xs h.1) (includes-sort xs x ∙ h.0)

  module _ (asym : (a b : A) → after a b ≡ true → after b a ≡ false)
      (trans : (a b c : A) → after a b ≡ false → after b c ≡ false → after a c ≡ false) where
    insert-IsSorted : (x : A) (xs : List A) → IsSorted xs → IsSorted (insert x xs)
    unfolding insert
    insert-IsSorted x [] s = (tt, tt)
    insert-IsSorted x (y ∷ ys) s = elim (Bool-cases (after x y)) [
      | inl p ↦
          rw p (All-insert (λ z. after y z ≡ false) x ys (asym x y p) s.0, insert-IsSorted x ys s.1)
      | inr p ↦ rw p ((p, All-imp _ _ ys (λ z q. trans x y z p q) s.0), s)
    ]

    -- The result is in the comparator's order.
    pub sort-IsSorted : (xs : List A) → IsSorted (sort xs)
    unfolding sort
    sort-IsSorted [] = tt
    sort-IsSorted (x ∷ xs) = insert-IsSorted x (sort xs) (sort-IsSorted xs)
