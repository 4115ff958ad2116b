-- ===== src/Dependencies/Levels.antt =====
-- `buildDependencyLevels`, frontend/src/lib/dependencyGraph.ts: the levels that are shown.
use industrial_safety_intell.Prelude.{
  ℕ, ltb, Bool, List, [], ◌∷◌, ◌++◌, some, map, or_else, ◌≡◌, refl, sym, ap, ◌∙◌, Memᴰ, arith,
  Bool-cases, Option-cases, inl, inr, if◌then◌else◌, Ends,
}
use mathlib.Core.Path.{subst}
use mathlib.Core.List.{append_assoc, append-nil}
use industrial_safety_intell.Prelude.Dict.{
  get, set, get-set, get-Memᴰ, Memᴰ-get, keys, keys-set-IsDistinct,
}
use industrial_safety_intell.Prelude.Eq.{◌==◌, string_eq, nat_eq, IsDistinct, ==-refl}
use industrial_safety_intell.Prelude.Lists.{
  All, All-Memᴰ, All_of_Memᴰ, filter, filter-All, Memᴰ-filter,
}
use industrial_safety_intell.Prelude.Sort.{sort, IsSorted, sort-IsSorted, Memᴰ-sort, All-sort}
use industrial_safety_intell.Actions.{PrioritizedAction}
use industrial_safety_intell.Dependencies.{
  DependencyGraphLevel, LevelById, Buckets, id_of, actions_by_id, present_deps, bucket_all,
  level_entry, later_entry, level_all, depth_bound, build_dependency_levels,
}
use industrial_safety_intell.Dependencies.Chains.{IsDepth}
use industrial_safety_intell.Dependencies.Rounds.{queue-Returns}
use industrial_safety_intell.Dependencies.Depth.{level_all-IsSound, IsSound}
use industrial_safety_intell.Dependencies.Keeping.{level_all-stored}

abbrev level_at : LevelById → PrioritizedAction → ℕ
level_at levels a = or_else (get (id_of a) levels) 0

-- The actions of a level, in the order of the queue.
abbrev of_level : LevelById → ℕ → List PrioritizedAction → List PrioritizedAction
of_level levels l = filter (λ a. level_at levels a == l)

abbrev bucket : Buckets → ℕ → List PrioritizedAction
bucket buckets l = or_else (get l buckets) []

bucket-push :
    (buckets : Buckets) (k l : ℕ) (a : PrioritizedAction)
    → bucket (set k (bucket buckets k ++ a ∷ []) buckets) l
      ≡ bucket buckets l ++ (if k == l then a ∷ [] else [])
bucket-push buckets k l a = elim (Bool-cases (k == l)) [
  | inl p ↦
      rw (get-set k l (bucket buckets k ++ a ∷ []) buckets, p)
        (ap (λ j. bucket buckets j ++ a ∷ []) ((nat_eq.same_iff k l).0 p))
  | inr p ↦
      rw (get-set k l (bucket buckets k ++ a ∷ []) buckets, p) (sym (append-nil (bucket buckets l)))
]

of_level_cons :
    (levels : LevelById) (l : ℕ) (a : PrioritizedAction) (rest : List PrioritizedAction)
    → (if level_at levels a == l then a ∷ [] else []) ++ of_level levels l rest
      ≡ of_level levels l (a ∷ rest)
unfolding filter
of_level_cons levels l a rest = elim (Bool-cases (level_at levels a == l)) [
  | inl p ↦ rw p
  | inr p ↦ rw p
]

bucket-bucket_all :
    (levels : LevelById) (buckets : Buckets) (rest : List PrioritizedAction) (l : ℕ)
    → bucket (bucket_all levels buckets rest) l ≡ bucket buckets l ++ of_level levels l rest
unfolding bucket_all
bucket-bucket_all levels buckets [] l = sym (append-nil (bucket buckets l)) ∙ unfold filter in refl
bucket-bucket_all levels buckets (a ∷ rest) l =
    let k = level_at levels a in
    bucket-bucket_all levels (set k (bucket buckets k ++ a ∷ []) buckets) rest l
    ∙ ap (λ xs. xs ++ of_level levels l rest) (bucket-push buckets k l a)
    ∙ append_assoc (bucket buckets l) (if k == l then a ∷ [] else []) (of_level levels l rest)
    ∙ ap (λ xs. bucket buckets l ++ xs) (of_level_cons levels l a rest)

keys-bucket_all :
    (levels : LevelById) (buckets : Buckets) (rest : List PrioritizedAction)
    → IsDistinct (keys buckets)
    → IsDistinct (keys (bucket_all levels buckets rest))
unfolding bucket_all
keys-bucket_all levels buckets [] d = d
keys-bucket_all levels buckets (a ∷ rest) d =
    let k = level_at levels a in
    keys-bucket_all levels (set k (bucket buckets k ++ a ∷ []) buckets) rest
      (keys-set-IsDistinct (level_at levels a) _ buckets d)

-- What an entry of the buckets holds.
entry_holds :
    (levels : LevelById) (actions : List PrioritizedAction) (l : ℕ)
    (members : List PrioritizedAction)
    → Memᴰ (l, members) (bucket_all levels [] actions)
    → members ≡ of_level levels l actions
unfolding get
entry_holds levels actions l members m =
    ap (λ o. or_else o [])
      (sym (
        Memᴰ-get l members (bucket_all levels [] actions) (keys-bucket_all levels [] actions tt) m))
    ∙ bucket-bucket_all levels [] actions l

-- Each action has an entry.
entry_of :
    (levels : LevelById) (actions : List PrioritizedAction) (a : PrioritizedAction)
    → Memᴰ a actions
    → (members : List PrioritizedAction) × Memᴰ
        (level_at levels a, members)
        (bucket_all levels [] actions)
      × Memᴰ a members
unfolding get
entry_of levels actions a m =
    let l = level_at levels a in
    let in_level : Memᴰ a (bucket (bucket_all levels [] actions) l) =
      subst (Memᴰ a) (sym (bucket-bucket_all levels [] actions l))
        (Memᴰ-filter (λ x. level_at levels x == l) actions m (==-refl l)) in
    elim (Option-cases (get l (bucket_all levels [] actions))) [
      | inl p ↦ absurd (no_member (subst (λ o. Memᴰ a (or_else o [])) p in_level))
      | inr (members, p) ↦
          (members, get-Memᴰ l members _ p, subst (λ o. Memᴰ a (or_else o [])) p in_level)
    ]
  where
    no_member : {x : PrioritizedAction} → Memᴰ x [] → ⊥
    no_member h = elim h [ ]

abbrev pub by_level : DependencyGraphLevel → DependencyGraphLevel → Bool
by_level x y = ltb y.level x.level

All-entries :
    (P : DependencyGraphLevel → Type 0) (xs : Buckets)
    → All (λ e. P (level_entry e)) xs
    → All P (map level_entry xs)
All-entries P [] h = tt
All-entries P (x ∷ xs) h = (h.0, All-entries P xs h.1)

IsSorted-entries : (xs : Buckets) → IsSorted later_entry xs → IsSorted by_level (map level_entry xs)
unfolding by_level
IsSorted-entries [] h = tt
IsSorted-entries (x ∷ xs) h = (All-entries _ xs h.0, IsSorted-entries xs h.1)

Memᴰ-entries :
    (xs : Buckets) {e : ℕ × List PrioritizedAction}
    → Memᴰ e xs
    → Memᴰ (level_entry e) (map level_entry xs)
Memᴰ-entries [] m = elim m [ ]
Memᴰ-entries (x ∷ xs) (Memᴰ.head p) = Memᴰ.head (ap level_entry p)
Memᴰ-entries (x ∷ xs) (Memᴰ.tail m) = Memᴰ.tail (Memᴰ-entries xs m)

-- How many dependencies of the queue, each behind the next, lie below an action at most.
abbrev pub HasDepth : List PrioritizedAction → ℕ → PrioritizedAction → Type 0
HasDepth actions n a = IsDepth (present_deps (actions_by_id [] actions)) n (id_of a)

level_at-HasDepth :
    (actions : List PrioritizedAction) (levels : LevelById)
    → level_all (actions_by_id [] actions) (depth_bound actions) actions [] ≡ some levels
    → (a : PrioritizedAction) (n : ℕ) → Memᴰ a actions
    → HasDepth actions n a
    → level_at levels a ≡ n
unfolding get
level_at-HasDepth actions levels e a n m d =
    let by_id = actions_by_id [] actions in
    let sound : IsSound by_id levels =
      subst (Ends (IsSound by_id)) e
        (level_all-IsSound by_id (depth_bound actions) actions [] (λ i k j h. absurd (cc))) in
    let (keeps, stored) =
      subst (Ends _) e (level_all-stored by_id (depth_bound actions) actions []) in
    elim (Option-cases (get (id_of a) levels)) [
      | inl p ↦ absurd (ground (arith, All-Memᴰ _ actions stored m, p))
      | inr (k, p) ↦ ap (λ o. or_else o 0) p ∙ sound (id_of a) k n p d
    ]

level_of_member :
    (levels : LevelById) (actions : List PrioritizedAction) (a : PrioritizedAction)
    (x : ℕ × List PrioritizedAction)
    → Memᴰ x (bucket_all levels [] actions)
    → Memᴰ a x.1
    → level_at levels a ≡ x.0
level_of_member levels actions a x m i = (nat_eq.same_iff (level_at levels a) x.0).0 (
    All-Memᴰ _ (of_level levels x.0 actions) (filter-All (λ b. level_at levels b == x.0) actions)
      (subst (Memᴰ a) (entry_holds levels actions x.0 x.1 m) i))

-- The levels are always made, a cycle of dependencies included, and stand in ascending order. An
-- action with a longest chain of dependencies in the queue, of length n, is in a level and in none
-- but level n.
pub build_dependency_levels-lem :
    (actions : List PrioritizedAction)
    → (r : List DependencyGraphLevel) × (build_dependency_levels actions ≡ some r)
      × IsSorted by_level r
      × ((a : PrioritizedAction) (n : ℕ)
          → Memᴰ a actions
          → HasDepth actions n a
          → ((e : DependencyGraphLevel) × Memᴰ e r × Memᴰ a e.actions)
            × All (λ e. Memᴰ a e.actions → e.level ≡ n) r)
unfolding build_dependency_levels
build_dependency_levels-lem actions =
    let (levels, e) = queue-Returns actions in
    let entries = bucket_all levels [] actions in
    (
      map level_entry (sort later_entry entries),
      rw e,
      IsSorted-entries (sort later_entry entries)
          (sort-IsSorted later_entry (λ x y h. ground arith) (λ x y z h k. ground arith) entries),
      λ a n m d.
          let right = level_at-HasDepth actions levels e a n m d in
          let (members, at, inside) = entry_of levels actions a m in
          (
            (
              level_entry (level_at levels a, members),
              Memᴰ-entries _ (Memᴰ-sort later_entry entries at),
              inside,
            ),
            All-entries _ (sort later_entry entries) (
                All-sort later_entry _ entries (
                  All_of_Memᴰ entries
                    (λ x w i. sym (level_of_member levels actions a x w i) ∙ right))),
          ),
    )
