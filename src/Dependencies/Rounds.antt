-- ===== src/Dependencies/Rounds.antt =====
-- `levelOf`, frontend/src/lib/dependencyGraph.ts: how deep its calls are nested.
use industrial_safety_intell.Prelude.{
  ℕ, zero, suc, ◌+◌, ◌≤◌, ◌<◌, String, true, false, List, [], ◌∷◌, Option, none, some, map, is_some,
  ◌||◌, ◌≡◌, refl, sym, ap, ◌∙◌, arith, Bool-cases, Option-cases, inl, inr, if◌then◌else◌,
}
use industrial_safety_intell.Prelude.Dict.{get, set, is_some-set}
use industrial_safety_intell.Prelude.Eq.{◌==◌, string_eq, includes, ==-ap, ==-comm, ==-refl}
use industrial_safety_intell.Prelude.Lists.{length, length-map}
use industrial_safety_intell.Actions.{PrioritizedAction}
use industrial_safety_intell.Dependencies.{
  ById, LevelById, Answer, id_of, actions_by_id, present_deps, map_calls, store, leaf_or_store,
  level_of, level_all, depth_bound,
}

-- The ids that no call is in the middle of.
abbrev pub idle : List String → List String → ℕ
idle visiting [] = 0
idle visiting (id ∷ ids) = (if includes visiting id then 0 else 1) + idle visiting ids

idle-visit_le :
    (visiting ids : List String) (id : String) → idle (id ∷ visiting) ids ≤ idle visiting ids
unfolding includes
idle-visit_le visiting [] id = omega arith
idle-visit_le visiting (x ∷ ids) id = ground (arith, idle-visit_le visiting ids id)

idle-visit :
    (visiting ids : List String) (id : String)
    → includes ids id ≡ true
    → includes visiting id ≡ false
    → suc (idle (id ∷ visiting) ids) ≤ idle visiting ids
unfolding includes
idle-visit visiting [] id m h = cc
idle-visit visiting (x ∷ ids) id m h = elim (Bool-cases (x == id)) [
  | inl p ↦
      ground
        (arith, ==-comm x id, p, h, ==-ap (includes visiting) x id p, idle-visit_le visiting ids id)
  | inr p ↦ ground (arith, ==-comm x id, p, idle-visit visiting ids id (rw p at m) h)
]

-- A call that returns.
abbrev Returns : (A : Type 0) → Option A → Type 0
Returns A o = (r : A) × (o ≡ some r)

map_calls-Returns :
    (call : String → LevelById → Option (Answer ℕ)) (deps : List String) (levels : LevelById)
    → ((d : String) (now : LevelById) → Returns (Answer ℕ) (call d now))
    → Returns (Answer (List ℕ)) (map_calls call deps levels)
unfolding map_calls
map_calls-Returns call [] levels h = (_, refl)
map_calls-Returns call (d ∷ deps) levels h =
    let (a, e) = h d levels in
    let (r, q) = map_calls-Returns call deps a.levels h in
    (record { value = a.value ∷ r.value; levels = r.levels }, rw (e, q))

-- The branches of a call, in the order of the source.
pub level_of_known :
    (by_id : ById) (fuel : ℕ) (id : String) (visiting : List String) (levels : LevelById) (n : ℕ)
    → get id levels ≡ some n
    → level_of by_id (suc fuel) id visiting levels ≡ some (record { value = n; levels = levels })
unfolding level_of
level_of_known by_id fuel id visiting levels n h = rw h

pub level_of_cycle :
    (by_id : ById) (fuel : ℕ) (id : String) (visiting : List String) (levels : LevelById)
    → get id levels ≡ none
    → includes visiting id ≡ true
    → level_of by_id (suc fuel) id visiting levels ≡ some (record { value = 0; levels = levels })
unfolding level_of
level_of_cycle by_id fuel id visiting levels h v = rw (h, v)

pub level_of_new :
    (by_id : ById) (fuel : ℕ) (id : String) (visiting : List String) (levels : LevelById)
    → get id levels ≡ none
    → includes visiting id ≡ false
    → level_of by_id (suc fuel) id visiting levels
      ≡ leaf_or_store id (present_deps by_id id) levels (
          map_calls
            (λ dep now. level_of by_id fuel dep (id ∷ visiting) now)
            (present_deps by_id id)
            levels)
unfolding level_of
level_of_new by_id fuel id visiting levels h v = rw (h, v)

leaf_or_store-Returns :
    (id : String) (deps : List String) (levels : LevelById) (inner : Option (Answer (List ℕ)))
    → ((d : String) → includes deps d ≡ true → Returns (Answer (List ℕ)) inner)
    → Returns (Answer ℕ) (leaf_or_store id deps levels inner)
unfolding includes
leaf_or_store-Returns id [] levels inner h = (_, refl)
leaf_or_store-Returns id (d ∷ deps) levels inner h =
    let (r, e) = h d (rw (==-refl d)) in (_, ap (store id) e)

present_deps-known :
    (by_id : ById) (id d : String)
    → includes (present_deps by_id id) d ≡ true
    → is_some (get id by_id) ≡ true
unfolding present_deps includes
present_deps-known by_id id d h = ground (arith, h)

-- A call returns once there is room for the known ids that no call is in the middle of.
pub level_of-Returns :
    (by_id : ById) (ids : List String) (fuel : ℕ) (id : String) (visiting : List String)
    (levels : LevelById)
    → ((i : String) → is_some (get i by_id) ≡ true → includes ids i ≡ true)
    → idle visiting ids < fuel
    → Returns (Answer ℕ) (level_of by_id fuel id visiting levels)
level_of-Returns by_id ids zero id visiting levels k h = absurd (omega arith)
level_of-Returns by_id ids (suc fuel) id visiting levels k h = elim (Option-cases (get id levels)) [
  | inr (n, g) ↦ (_, level_of_known by_id fuel id visiting levels n g)
  | inl g ↦ elim (Bool-cases (includes visiting id)) [
    | inl v ↦ (_, level_of_cycle by_id fuel id visiting levels g v)
    | inr v ↦
        let inner =
          map_calls (λ dep now. level_of by_id fuel dep (id ∷ visiting) now) (present_deps by_id id)
            levels in
        let (r, e) = leaf_or_store-Returns id (present_deps by_id id) levels inner (λ d m.
          map_calls-Returns (λ dep now. level_of by_id fuel dep (id ∷ visiting) now)
            (present_deps by_id id) levels
            (λ i now. level_of-Returns by_id ids fuel i (id ∷ visiting) now k (
              omega (
                arith,
                h,
                idle-visit visiting ids id (k id (present_deps-known by_id id d m)) v,
              )))) in
        (r, level_of_new by_id fuel id visiting levels g v ∙ e)
  ]
]

known-actions_by_id :
    (by_id : ById) (actions : List PrioritizedAction) (i : String)
    → is_some (get i (actions_by_id by_id actions))
      ≡ (is_some (get i by_id) || includes (map id_of actions) i)
unfolding actions_by_id includes
known-actions_by_id by_id [] i = ground arith
known-actions_by_id by_id (a ∷ rest) i =
    known-actions_by_id (set (id_of a) a by_id) rest i
    ∙ ground (arith, is_some-set (id_of a) i a by_id)

idle_le : (ids : List String) → idle [] ids ≤ length ids
unfolding includes
idle_le [] = omega arith
idle_le (i ∷ ids) = ground (arith, idle_le ids)

level_all-Returns :
    (by_id : ById) (ids : List String) (fuel : ℕ) (rest : List PrioritizedAction)
    (levels : LevelById)
    → ((i : String) → is_some (get i by_id) ≡ true → includes ids i ≡ true)
    → length ids < fuel
    → Returns LevelById (level_all by_id fuel rest levels)
unfolding level_all
level_all-Returns by_id ids fuel [] levels k h = (levels, refl)
level_all-Returns by_id ids fuel (a ∷ rest) levels k h =
    let (r, e) =
      level_of-Returns by_id ids fuel (id_of a) [] levels k (omega (arith, idle_le ids, h)) in
    let (m, q) = level_all-Returns by_id ids fuel rest r.levels k h in (m, rw e q)

-- The loop over the queue returns, also where the dependencies have a cycle.
pub queue-Returns :
    (actions : List PrioritizedAction)
    → Returns LevelById (level_all (actions_by_id [] actions) (depth_bound actions) actions [])
unfolding get
queue-Returns actions =
    level_all-Returns (actions_by_id [] actions) (map id_of actions) (depth_bound actions) actions
      [] (λ i h. sym (known-actions_by_id [] actions i) ∙ h)
      (omega (arith, length-map id_of actions))
