-- ===== src/Prelude/Dict.antt =====
-- `Map`: keys in the order of their first `set`, each once.
use industrial_safety_intell.Prelude.{
  true, false, List, [], ◌∷◌, Option, none, some, ◌≡◌, refl, ◌∙◌, sym, ap, arith, if◌then◌else◌,
  is_some, ◌||◌, Bool-cases, inl, inr, map, ◌++◌, Memᴰ,
}
use industrial_safety_intell.Prelude.Eq.{
  Eq, ◌==◌, ==-refl, ==-ap, ==-comm, includes, IsDistinct, IsDistinct-snoc,
}

module _ {ℓ κ} {K : Type ℓ} {V : Type κ} ⦃e : Eq K⦄ where
  unfoldable pub get : K → List (K × V) → Option V
  get k [] = none
  get k ((j, v) ∷ rest) = let later = get k rest in if j == k then some v else later

  unfoldable pub set : K → V → List (K × V) → List (K × V)
  set k v [] = (k, v) ∷ []
  set k v ((j, w) ∷ rest) =
      let later = set k v rest in if j == k then (j, v) ∷ rest else (j, w) ∷ later

  pub get-set_self : (k : K) (v : V) (m : List (K × V)) → get k (set k v m) ≡ some v
  unfolding get set
  get-set_self k v [] = rw (==-refl k)
  get-set_self k v ((j, w) ∷ rest) = elim (Bool-cases (j == k)) [
    | inl p ↦ rw (p, p)
    | inr p ↦ rw (p, p) (get-set_self k v rest)
  ]

  pub get-set_ne :
      (k i : K) (v : V) (m : List (K × V)) → (k == i) ≡ false → get i (set k v m) ≡ get i m
  unfolding get set
  get-set_ne k i v [] h = rw h
  get-set_ne k i v ((j, w) ∷ rest) h = elim (Bool-cases (j == k)) [
    | inl p ↦ rw p (rw (j_ne p))
    | inr p ↦ rw p (ground (arith, get-set_ne k i v rest h))
  ]
    where
      j_ne : (j == k) ≡ true → (j == i) ≡ false
      j_ne p = rw ((e.same_iff j k).0 p) h

  pub get-set :
      (k i : K) (v : V) (m : List (K × V))
      → get i (set k v m) ≡ (if k == i then some v else get i m)
  get-set k i v m = elim (Bool-cases (k == i)) [
    | inl p ↦ rw p (ap (λ j. get j (set k v m)) (sym ((e.same_iff k i).0 p)) ∙ get-set_self k v m)
    | inr p ↦ rw p (get-set_ne k i v m p)
  ]

  pub is_some-set :
      (k i : K) (v : V) (m : List (K × V))
      → is_some (get i (set k v m)) ≡ (k == i || is_some (get i m))
  is_some-set k i v m = rw (get-set k i v m) (ground arith)

  -- the keys of a map, in order
  abbrev pub keys : List (K × V) → List K
  keys m = map (λ e. e.0) m

  pub get-Memᴰ : (k : K) (v : V) (m : List (K × V)) → get k m ≡ some v → Memᴰ (k, v) m
  unfolding get
  get-Memᴰ k v [] h = cc
  get-Memᴰ k v ((j, w) ∷ rest) h = elim (Bool-cases (j == k)) [
    | inl p ↦ Memᴰ.head (pair (sym ((e.same_iff j k).0 p)) (rw p at h))
    | inr p ↦ Memᴰ.tail (get-Memᴰ k v rest (rw p at h))
  ]
    where
      pair : k ≡ j → some w ≡ some v → ◌≡◌ {A = K × V} (k, v) (j, w)
      pair p q = cc

  pub includes-keys : (m : List (K × V)) (k : K) → includes (keys m) k ≡ is_some (get k m)
  unfolding get includes
  includes-keys [] k = refl
  includes-keys ((j, w) ∷ rest) k = ground (arith, includes-keys rest k)

  keys-set_old :
      (k : K) (v : V) (m : List (K × V)) → is_some (get k m) ≡ true → keys (set k v m) ≡ keys m
  unfolding get set
  keys-set_old k v [] h = cc
  keys-set_old k v ((j, w) ∷ rest) h = elim (Bool-cases (j == k)) [
    | inl p ↦ rw p
    | inr p ↦ rw p (ap (λ l. j ∷ l) (keys-set_old k v rest (rw p at h)))
  ]

  keys-set_new :
      (k : K) (v : V) (m : List (K × V))
      → is_some (get k m) ≡ false
      → keys (set k v m) ≡ keys m ++ k ∷ []
  unfolding get set
  keys-set_new k v [] h = refl
  keys-set_new k v ((j, w) ∷ rest) h = elim (Bool-cases (j == k)) [
    | inl p ↦ absurd (ground (arith, h, p))
    | inr p ↦ rw p (ap (λ l. j ∷ l) (keys-set_new k v rest (rw p at h)))
  ]

  -- A map has no key twice.
  pub keys-set-IsDistinct :
      (k : K) (v : V) (m : List (K × V)) → IsDistinct (keys m) → IsDistinct (keys (set k v m))
  keys-set-IsDistinct k v m h = elim (Bool-cases (is_some (get k m))) [
    | inl p ↦ rw (keys-set_old k v m p) h
    | inr p ↦ rw (keys-set_new k v m p) (IsDistinct-snoc (keys m) k h (includes-keys m k ∙ p))
  ]

  pub Memᴰ-get :
      (k : K) (v : V) (m : List (K × V)) → IsDistinct (keys m) → Memᴰ (k, v) m → get k m ≡ some v
  unfolding get includes
  Memᴰ-get k v [] d h = elim h [ ]
  Memᴰ-get k v ((j, w) ∷ rest) d (Memᴰ.head p) =
      rw ((e.same_iff j k).1 (sym (ap (λ x. x.0) p))) (ap (λ x. some x.1) (sym p))
  Memᴰ-get k v ((j, w) ∷ rest) d (Memᴰ.tail m) = elim (Bool-cases (j == k)) [
    | inl p ↦
        let n = Memᴰ-get k v rest d.1 m in
        absurd (ground (arith, includes-keys rest k, ==-ap (includes (keys rest)) j k p, d.0, n))
    | inr p ↦ rw p (Memᴰ-get k v rest d.1 m)
  ]

  -- `map.delete(key)`
  unfoldable pub delete : K → List (K × V) → List (K × V)
  delete k [] = []
  delete k ((j, w) ∷ rest) = let later = delete k rest in if j == k then later else (j, w) ∷ later

  pub get-delete :
      (k i : K) (m : List (K × V)) → get i (delete k m) ≡ (if k == i then none else get i m)
  unfolding get delete
  get-delete k i [] = ground arith
  get-delete k i ((j, w) ∷ rest) = elim (Bool-cases (j == k)) [
    | inl p ↦ rw p (get-delete k i rest ∙ ground (arith, ==-ap (λ x. x == i) j k p))
    | inr p ↦ elim (Bool-cases (j == i)) [
      | inl q ↦ rw (p, q) (ground (arith, ==-ap (λ x. x == k) j i q, ==-comm k i, p, q))
      | inr q ↦ rw (p, q) (get-delete k i rest)
    ]
  ]
