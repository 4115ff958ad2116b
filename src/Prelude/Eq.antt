-- ===== src/Prelude/Eq.antt =====
-- Equality tests as an interface, and the collections that the program keys by them: `Array`
-- membership, `Set` in insertion order, and `Map` as an association list in insertion order.
use Prim.Native.Nat.{ℕ}
use Prim.Native.String.{String}
use text.Mathlib.Text.{◌==◌ as str_eq}
use text.Mathlib.TextEquality.{eq_iff}
use mathlib.Core.Path.{◌≡◌, ◌∙◌, refl, sym, ap}
use mathlib.Core.Logic.{◌↔◌, inl, inr}
use mathlib.Core.Bool.{Bool, true, false, ◌||◌}
use mathlib.Core.List.{List, [], ◌∷◌, ◌++◌, Memᴰ}
use native.Mathlib.Omega.{arith}
use industrial_safety_intell.Prelude.Tests.{nat_beq, nat_beq_iff, if◌then◌else◌, Bool-cases}

-- `===` on a type, which agrees with equality; the type need not be a set.
pub record Eq {ℓ} (A : Type ℓ) : Type ℓ where
  pub same : A → A → Bool
  pub same_iff : (x y : A) → (same x y ≡ true) ↔ (x ≡ y)

-- `===` on texts
instance abbrev pub string_eq : Eq String
string_eq = record { same = str_eq; same_iff = eq_iff }

-- `===` on counts
instance abbrev pub nat_eq : Eq ℕ
nat_eq = record { same_iff = nat_beq_iff; same = nat_beq }

infix 45 ◌==◌
abbrev pub ◌==◌ {ℓ} : {A : Type ℓ} ⦃e : Eq A⦄ → A → A → Bool
◌==◌ ⦃e⦄ x y = e.same x y

module _ {ℓ} {A : Type ℓ} ⦃e : Eq A⦄ where
  pub ==-refl : (a : A) → (a == a) ≡ true
  ==-refl a = (e.same_iff a a).1 refl

  pub ==-ap {κ} : {B : Type κ} (f : A → B) (a b : A) → (a == b) ≡ true → f a ≡ f b
  ==-ap f a b h = ap f ((e.same_iff a b).0 h)

  pub ==-comm : (a b : A) → (a == b) ≡ (b == a)
  ==-comm a b = ground (arith, e.same_iff a b, e.same_iff b a)

  -- `xs.includes(a)`
  unfoldable pub includes : List A → A → Bool
  includes [] a = false
  includes (x ∷ xs) a = x == a || includes xs a

  pub includes-Memᴰ : (xs : List A) (a : A) → includes xs a ≡ true → Memᴰ a xs
  unfolding includes
  includes-Memᴰ [] a h = cc
  includes-Memᴰ (x ∷ xs) a h = elim (Bool-cases (x == a)) [
    | inl p ↦ Memᴰ.head (sym ((e.same_iff x a).0 p))
    | inr p ↦ Memᴰ.tail (includes-Memᴰ xs a (rw p at h))
  ]

  pub Memᴰ-includes : (xs : List A) (a : A) → Memᴰ a xs → includes xs a ≡ true
  unfolding includes
  Memᴰ-includes [] a m = elim m [ ]
  Memᴰ-includes (x ∷ xs) a (Memᴰ.head p) = rw ((e.same_iff x a).1 (sym p))
  Memᴰ-includes (x ∷ xs) a (Memᴰ.tail m) = ground (arith, Memᴰ-includes xs a m)

  pub includes-append :
      (xs ys : List A) (a : A) → includes (xs ++ ys) a ≡ (includes xs a || includes ys a)
  unfolding includes
  includes-append [] ys a = refl
  includes-append (x ∷ xs) ys a = ground (arith, includes-append xs ys a)

  -- `[...new Set(xs)]`: the first occurrence of each value, in order. `seen` is the set so far.
  unfoldable pub dedup_from : List A → List A → List A
  unfolding includes
  dedup_from seen [] = seen
  dedup_from seen (x ∷ xs) = dedup_from (if includes seen x then seen else seen ++ x ∷ []) xs

  abbrev pub IsDistinct : List A → Type 0
  IsDistinct [] = Unit
  IsDistinct (x ∷ xs) = (includes xs x ≡ false) × IsDistinct xs

  pub IsDistinct-snoc :
      (xs : List A) (a : A) → IsDistinct xs → includes xs a ≡ false → IsDistinct (xs ++ a ∷ [])
  unfolding includes
  IsDistinct-snoc [] a d h = (refl, tt)
  IsDistinct-snoc (x ∷ xs) a d h = elim (Bool-cases (x == a)) [
    | inl p ↦ absurd (cc)
    | inr p ↦ (
      includes-append xs (a ∷ []) x ∙ ground (arith, ==-comm a x),
      IsDistinct-snoc xs a d.1 (rw p at h),
    )
  ]

  -- A set has no value twice.
  pub dedup_from-IsDistinct : (seen xs : List A) → IsDistinct seen → IsDistinct (dedup_from seen xs)
  unfolding dedup_from
  dedup_from-IsDistinct seen [] d = d
  dedup_from-IsDistinct seen (x ∷ xs) d = elim (Bool-cases (includes seen x)) [
    | inl p ↦ rw p (dedup_from-IsDistinct seen xs d)
    | inr p ↦ rw p (dedup_from-IsDistinct (seen ++ x ∷ []) xs (IsDistinct-snoc seen x d p))
  ]

  -- A set has exactly the values that were added.
  pub includes-dedup_from :
      (seen xs : List A) (a : A)
      → includes (dedup_from seen xs) a ≡ (includes seen a || includes xs a)
  unfolding dedup_from
  includes-dedup_from seen [] a = ground arith
  includes-dedup_from seen (x ∷ xs) a = elim (Bool-cases (includes seen x)) [
    | inl p ↦ rw p (includes-dedup_from seen xs a ∙ ground (arith, ==-ap (includes seen) x a))
    | inr p ↦ rw p (
        includes-dedup_from (seen ++ x ∷ []) xs a ∙ ground (arith, includes-append seen (x ∷ []) a))
  ]
