-- ===== src/Dependencies/Keeping.antt =====
-- `levelById` in frontend/src/lib/dependencyGraph.ts: the ids that have a level.
use industrial_safety_intell.Prelude.{
  ℕ, zero, suc, ◌+◌, String, true, false, List, [], ◌∷◌, Option, none, some, is_some, ◌≡◌, refl,
  sym, ◌∙◌, arith, Bool-cases, Option-cases, inl, inr, Ends, Ends-and_then, Ends-imp,
}
use mathlib.Core.Path.{subst}
use industrial_safety_intell.Prelude.Dict.{get, set, is_some-set}
use industrial_safety_intell.Prelude.Eq.{string_eq, includes, ==-refl}
use industrial_safety_intell.Prelude.Lists.{All}
use industrial_safety_intell.Actions.{PrioritizedAction}
use industrial_safety_intell.Dependencies.{
  ById, LevelById, Answer, id_of, present_deps, max_of, map_calls, put_value, leaf_or_store,
  level_of, level_all,
}
use industrial_safety_intell.Dependencies.Rounds.{level_of_known, level_of_cycle, level_of_new}

-- The ids that have a level in the first map have one in the second.
abbrev Keeps : LevelById → LevelById → Type 0
Keeps old new = (k : String) → is_some (get k old) ≡ true → is_some (get k new) ≡ true

Keeps-set : (old new : LevelById) (id : String) (n : ℕ) → Keeps old new → Keeps old (set id n new)
Keeps-set old new id n h k e = is_some-set id k n new ∙ ground (arith, h k e)

abbrev Kept : {A : Type 0} → LevelById → Option (Answer A) → Type 0
Kept levels o = Ends (λ a. Keeps levels a.levels) o

put_value-Kept :
    (n : ℕ) (old new : LevelById) (o : Option (Answer (List ℕ)))
    → Keeps old new
    → Kept new o
    → Kept old (put_value n o)
put_value-Kept n old new none h p = tt
put_value-Kept n old new (some r) h p = λ k e. p k (h k e)

map_calls-Kept :
    (call : String → LevelById → Option (Answer ℕ)) (deps : List String) (levels : LevelById)
    → ((d : String) (now : LevelById) → Kept now (call d now))
    → Kept levels (map_calls call deps levels)
unfolding map_calls
map_calls-Kept call [] levels h = λ k e. e
map_calls-Kept call (d ∷ deps) levels h =
    Ends-and_then (λ a. Keeps levels a.levels) (λ r. Keeps levels r.levels) (call d levels)
      (λ a. put_value a.value (map_calls call deps a.levels)) (h d levels)
      (λ a p.
        put_value-Kept a.value levels a.levels (map_calls call deps a.levels) p
          (map_calls-Kept call deps a.levels h))

-- After a call that is not inside one for the same id, the id has a level.
abbrev IsStored : String → List String → LevelById → Answer ℕ → Type 0
IsStored id visiting levels a =
    Keeps levels a.levels × (includes visiting id ≡ false → is_some (get id a.levels) ≡ true)

leaf_or_store-IsStored :
    (id : String) (visiting deps : List String) (levels : LevelById)
    (inner : Option (Answer (List ℕ)))
    → Kept levels inner
    → Ends (IsStored id visiting levels) (leaf_or_store id deps levels inner)
leaf_or_store-IsStored id visiting [] levels inner h = (
  Keeps-set levels levels id 0 (λ k e. e),
  λ v. is_some-set id id 0 levels ∙ ground (arith, ==-refl id),
)
leaf_or_store-IsStored id visiting (d ∷ deps) levels none h = tt
leaf_or_store-IsStored id visiting (d ∷ deps) levels (some r) h = (
  Keeps-set levels r.levels id (1 + max_of r.value) h,
  λ v. is_some-set id id (1 + max_of r.value) r.levels ∙ ground (arith, ==-refl id),
)

level_of-IsStored :
    (by_id : ById) (fuel : ℕ) (id : String) (visiting : List String) (levels : LevelById)
    → Ends (IsStored id visiting levels) (level_of by_id fuel id visiting levels)
unfolding level_of
level_of-IsStored by_id zero id visiting levels = tt
level_of-IsStored by_id (suc fuel) id visiting levels = elim (Option-cases (get id levels)) [
  | inr (n, g) ↦
      subst (Ends (IsStored id visiting levels))
        (sym (level_of_known by_id fuel id visiting levels n g)) (λ k e. e, λ v. rw g)
  | inl g ↦ elim (Bool-cases (includes visiting id)) [
    | inl v ↦
        subst (Ends (IsStored id visiting levels))
          (sym (level_of_cycle by_id fuel id visiting levels g v)) (λ k e. e, λ w. absurd (cc))
    | inr v ↦
        subst (Ends (IsStored id visiting levels))
          (sym (level_of_new by_id fuel id visiting levels g v))
          (leaf_or_store-IsStored id visiting (present_deps by_id id) levels _ (
            map_calls-Kept (λ dep now. level_of by_id fuel dep (id ∷ visiting) now)
              (present_deps by_id id) levels
              (λ d now.
                Ends-imp (λ a p. p.0) (level_of by_id fuel d (id ∷ visiting) now)
                  (level_of-IsStored by_id fuel d (id ∷ visiting) now))))
  ]
]

-- After the loop each action's id has a level.
pub level_all-stored :
    (by_id : ById) (fuel : ℕ) (rest : List PrioritizedAction) (levels : LevelById)
    → Ends
        (λ m. Keeps levels m × All (λ a. is_some (get (id_of a) m) ≡ true) rest)
        (level_all by_id fuel rest levels)
unfolding level_all includes
level_all-stored by_id fuel [] levels = (λ k e. e, tt)
level_all-stored by_id fuel (a ∷ rest) levels =
    Ends-and_then (IsStored (id_of a) [] levels) _ (level_of by_id fuel (id_of a) [] levels)
      (λ r. level_all by_id fuel rest r.levels) (level_of-IsStored by_id fuel (id_of a) [] levels)
      (λ r p.
        Ends-imp (λ m q. (λ k e. q.0 k (p.0 k e), (q.0 (id_of a) (p.1 refl), q.1)))
          (level_all by_id fuel rest r.levels) (level_all-stored by_id fuel rest r.levels))
