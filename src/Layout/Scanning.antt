-- ===== src/Layout/Scanning.antt =====
-- The invariant of the search in `layoutRadial`, frontend/src/lib/graphLayout.ts.
use industrial_safety_intell.Prelude.{
  ℕ, suc, ◌≤◌, String, true, false, List, [], ◌∷◌, some, is_some, ◌≡◌, sym, ap, ◌∙◌, ◌⊎◌, inl, inr,
  arith, Bool-cases,
}
use mathlib.Core.Path.{subst}
use industrial_safety_intell.Prelude.Dict.{get, set, get-set_self}
use industrial_safety_intell.Prelude.Eq.{string_eq, includes, includes-append}
use industrial_safety_intell.Prelude.Lists.{All}
use industrial_safety_intell.Layout.{Adjacency, Distances, Search, neighbours, scan}
use industrial_safety_intell.Layout.Links.{All-includes}
use industrial_safety_intell.Layout.Rounds.{reach, scan_seen, scan_new}
use industrial_safety_intell.Layout.Walks.{Walk, Walk.along}
use industrial_safety_intell.Layout.Waiting.{
  kept, set_cases, Waits, Waits-reach, Waits-of_All, first_or_later, includes-snoc, same_distance,
  some_of,
}

module _ (adj : Adjacency) (root : String) where
  abbrev pub Walked : ℕ → String → Type 0
  Walked = Walk (λ u v. includes (neighbours adj u) v) root

  -- An edge from `u` has been followed, or waits for it.
  abbrev Followed : String → List String → Search → String → ℕ → String → Type 0
  Followed c todo s u k v =
      (includes s.queue u ≡ true)
      ⊎ (((u ≡ c) × (includes todo v ≡ true))
          ⊎ ((d : ℕ) × (get v s.distance ≡ some d) × (d ≤ suc k)))

  -- The search while it scans `todo`, the last neighbours of the node `c` at distance `n`.
  pub record IsScanning (n : ℕ) (c : String) (todo : List String) (s : Search) : Type 0 where
    pub start : get root s.distance ≡ some 0
    pub current : get c s.distance ≡ some n
    pub sound : (v : String) (k : ℕ) → get v s.distance ≡ some k → Walked k v
    pub bound : (v : String) (k : ℕ) → get v s.distance ≡ some k → k ≤ suc n
    pub waits : Waits s.distance n s.queue
    pub edges : All (λ v. includes (neighbours adj c) v ≡ true) todo
    pub followed :
        (u : String) (k : ℕ) (v : String)
        → get u s.distance ≡ some k
        → includes (neighbours adj u) v ≡ true
        → Followed c todo s u k v

  Followed-seen :
      (n : ℕ) (c x : String) (todo : List String) (s : Search)
      → is_some (get x s.distance) ≡ true
      → IsScanning n c (x ∷ todo) s
      → (u : String) (k : ℕ) (v : String) → get u s.distance ≡ some k
      → Followed c (x ∷ todo) s u k v
      → Followed c todo s u k v
  Followed-seen n c x todo s h i u k v g (inl q) = inl q
  Followed-seen n c x todo s h i u k v g (inr (inl (e, t))) = elim (first_or_later x v todo t) [
    | inl p ↦
        let (d, gd) = some_of s.distance x v h p in
        inr (
          inr
            (d, gd, omega (arith, same_distance s.distance u c k n e g i.current, i.bound v d gd)))
    | inr p ↦ inr (inl (e, p))
  ]
  Followed-seen n c x todo s h i u k v g (inr (inr r)) = inr (inr r)

  IsScanning-seen :
      (n : ℕ) (c x : String) (todo : List String) (s : Search)
      → is_some (get x s.distance) ≡ true
      → IsScanning n c (x ∷ todo) s
      → IsScanning n c todo s
  IsScanning-seen n c x todo s h i = record {
    start = i.start;
    current = i.current;
    sound = i.sound;
    bound = i.bound;
    waits = i.waits;
    edges = i.edges.1;
    followed = λ u k v g e. Followed-seen n c x todo s h i u k v g (i.followed u k v g e);
  }

  Followed-new :
      (n : ℕ) (c x : String) (todo : List String) (s : Search)
      → is_some (get x s.distance) ≡ false
      → get c s.distance ≡ some n
      → (u : String) (k : ℕ) (v : String) → get u s.distance ≡ some k
      → Followed c (x ∷ todo) s u k v
      → Followed c todo (reach x (suc n) s) u k v
  Followed-new n c x todo s h i u k v g (inl q) =
      inl (ground (arith, includes-append s.queue (x ∷ []) u, q))
  Followed-new n c x todo s h i u k v g (inr (inl (e, t))) = elim (first_or_later x v todo t) [
    | inl p ↦ inr (
        inr (
          suc n,
          ap (λ j. get j (set x (suc n) s.distance)) (sym p) ∙ get-set_self x (suc n) s.distance,
          omega (arith, same_distance s.distance u c k n e g i),
        ))
    | inr p ↦ inr (inl (e, p))
  ]
  Followed-new n c x todo s h i u k v g (inr (inr (d, gd, le))) =
      inr (inr (d, kept x v (suc n) d s.distance h gd, le))

  IsScanning-new :
      (n : ℕ) (c x : String) (todo : List String) (s : Search)
      → is_some (get x s.distance) ≡ false
      → IsScanning n c (x ∷ todo) s
      → IsScanning n c todo (reach x (suc n) s)
  IsScanning-new n c x todo s h i = record {
    start = kept x root (suc n) 0 s.distance h i.start;
    current = kept x c (suc n) n s.distance h i.current;
    sound = λ v k g. elim (set_cases x v (suc n) k s.distance g) [
      | inl (e, l) ↦
          subst (λ j. Walked j v) l
            (subst (Walked (suc n)) e (along c (i.sound c n i.current) i.edges.0))
      | inr old ↦ i.sound v k old
    ];
    bound = λ v k g. elim (set_cases x v (suc n) k s.distance g) [
      | inl (e, l) ↦ omega (arith, l)
      | inr old ↦ i.bound v k old
    ];
    waits = Waits-reach x n s.distance s.queue h i.waits;
    edges = i.edges.1;
    followed = λ u k v g e. elim (set_cases x u (suc n) k s.distance g) [
      | inl (same, l) ↦ inl (includes-snoc s.queue x u same)
      | inr old ↦ Followed-new n c x todo s h i.current u k v old (i.followed u k v old e)
    ];
  }

  pub scan-IsScanning :
      (n : ℕ) (c : String) (todo : List String) (s : Search)
      → IsScanning n c todo s
      → IsScanning n c [] (scan n s todo)
  unfolding scan
  scan-IsScanning n c [] s i = i
  scan-IsScanning n c (x ∷ todo) s i = elim (Bool-cases (is_some (get x s.distance))) [
    | inl p ↦
        subst (IsScanning n c []) (sym (scan_seen n s x todo p))
          (scan-IsScanning n c todo s (IsScanning-seen n c x todo s p i))
    | inr p ↦
        subst (IsScanning n c []) (sym (scan_new n s x todo p))
          (scan-IsScanning n c todo (reach x (suc n) s) (IsScanning-new n c x todo s p i))
  ]

  -- The next node of the queue, at the level `n` or at the next one.
  Next : ℕ → Search → String → List String → Type 0
  Next n s q qs =
      (l : ℕ) × IsScanning l q (neighbours adj q) (record { distance = s.distance; queue = qs })

  Followed-next :
      (c q : String) (qs : List String) (m : Distances) (u : String) (k : ℕ) (v : String)
      → includes (neighbours adj u) v ≡ true
      → Followed c [] (record { distance = m; queue = q ∷ qs }) u k v
      → Followed q (neighbours adj q) (record { distance = m; queue = qs }) u k v
  unfolding includes
  Followed-next c q qs m u k v e (inl h) = elim (first_or_later q u qs h) [
    | inl p ↦ inr (inl (sym p, ap (λ j. includes (neighbours adj j) v) p ∙ e))
    | inr p ↦ inl p
  ]
  Followed-next c q qs m u k v e (inr (inl (p, h))) = cc
  Followed-next c q qs m u k v e (inr (inr r)) = inr (inr r)

  next_at :
      (n l : ℕ) (c q : String) (qs : List String) (m : Distances)
      → IsScanning n c [] (record { distance = m; queue = q ∷ qs })
      → n ≤ l
      → get q m ≡ some l
      → Waits m l qs
      → IsScanning l q (neighbours adj q) (record { distance = m; queue = qs })
  next_at n l c q qs m i le g w = record {
    start = i.start;
    current = g;
    sound = i.sound;
    bound = λ v k h. omega (arith, i.bound v k h, le);
    waits = w;
    edges = All-includes (neighbours adj q) (λ k h. h);
    followed = λ u k v h e. Followed-next c q qs m u k v e (i.followed u k v h e);
  }

  pub next_of :
      (n : ℕ) (c q : String) (qs : List String) (m : Distances)
      → IsScanning n c [] (record { distance = m; queue = q ∷ qs })
      → (l : ℕ) × (get q m ≡ some l)
        × IsScanning l q (neighbours adj q) (record { distance = m; queue = qs })
  next_of n c q qs m i = elim i.waits [
    | inl w ↦ (n, w.0, next_at n n c q qs m i (omega arith) w.0 w.1)
    | inr w ↦
        (suc n, w.0, next_at n (suc n) c q qs m i (omega arith) w.0 (Waits-of_All m (suc n) qs w.1))
  ]
