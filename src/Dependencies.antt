-- ===== src/Dependencies.antt =====
-- frontend/src/lib/dependencyGraph.ts: the action queue in levels by dependency.
pub mod Chains
pub mod Rounds
pub mod Depth
pub mod Keeping
pub mod Levels
use industrial_safety_intell.Prelude.{
  ℕ, zero, suc, ◌+◌, String, Bool, true, false, List, [], ◌∷◌, ◌++◌, Option, none, some, map,
  or_else, is_some, and_then, ltb, if◌then◌else◌,
}
use industrial_safety_intell.Prelude.Dict.{get, set}
use industrial_safety_intell.Prelude.Eq.{includes, string_eq, nat_eq}
use industrial_safety_intell.Prelude.Lists.{filter, length}
use industrial_safety_intell.Prelude.Sort.{sort}
use industrial_safety_intell.Actions.{PrioritizedAction}

pub record DependencyGraphLevel : Type 0 where
  pub level : ℕ
  pub actions : List PrioritizedAction

-- `Map<string, PrioritizedAction>`
abbrev pub ById : Type 0
ById = List (String × PrioritizedAction)

-- `Map<string, number>`
abbrev pub LevelById : Type 0
LevelById = List (String × ℕ)

abbrev pub id_of : PrioritizedAction → String
id_of a = a.recommendation.id

-- `new Map(actions.map(...))`
unfoldable pub actions_by_id : ById → List PrioritizedAction → ById
actions_by_id by_id [] = by_id
actions_by_id by_id (a ∷ rest) = actions_by_id (set (id_of a) a by_id) rest

abbrev deps_of : ById → Option PrioritizedAction → List String
deps_of by_id none = []
deps_of by_id (some a) = filter (λ dep. is_some (get dep by_id)) a.dependency_labels

-- `presentDeps`: none for an id that the queue does not have
unfoldable pub present_deps : ById → String → List String
present_deps by_id id = deps_of by_id (get id by_id)

-- `Math.max` of counts: for no arguments it is -Infinity, and it is not called so.
unfoldable pub max_of : List ℕ → ℕ
max_of [] = 0
max_of (n ∷ ns) = let later = max_of ns in if ltb later n then n else later

-- What a call returns, and `levelById` after it.
pub record Answer (A : Type 0) : Type 0 where
  pub value : A
  pub levels : LevelById

abbrev pub put_value : ℕ → Option (Answer (List ℕ)) → Option (Answer (List ℕ))
put_value n none = none
put_value n (some r) = some (record { value = n ∷ r.value; levels = r.levels })

-- `presentDeps.map((depId) => levelOf(depId, visiting))`, with the calls one after another.
unfoldable pub map_calls :
    (String → LevelById → Option (Answer ℕ)) → List String → LevelById → Option (Answer (List ℕ))
map_calls call [] levels = some (record { value = []; levels = levels })
map_calls call (dep ∷ deps) levels =
    and_then (call dep levels) (λ a. put_value a.value (map_calls call deps a.levels))

-- `1 + Math.max(...)`, stored
abbrev pub store : String → Option (Answer (List ℕ)) → Option (Answer ℕ)
store id none = none
store id (some r) =
    let level = 1 + max_of r.value in
    some (record { value = level; levels = set id level r.levels })

abbrev pub leaf_or_store :
    String → List String → LevelById → Option (Answer (List ℕ)) → Option (Answer ℕ)
leaf_or_store id [] levels inner = some (record { value = 0; levels = set id 0 levels })
leaf_or_store id (dep ∷ deps) levels inner = store id inner

-- `levelOf`, for at most `fuel` calls one inside another; `none` is a call that needs more. The
-- calls inside see `visiting` with the id, which is deleted after them.
unfoldable pub level_of : ById → ℕ → String → List String → LevelById → Option (Answer ℕ)
level_of by_id zero id visiting levels = none
level_of by_id (suc fuel) id visiting levels =
    let deps = present_deps by_id id in
    let inner = map_calls (λ dep now. level_of by_id fuel dep (id ∷ visiting) now) deps levels in
    if is_some (get id levels)
    then some (record { value = or_else (get id levels) 0; levels = levels })
    else if includes visiting id
    then some (record { value = 0; levels = levels })
    else leaf_or_store id deps levels inner

-- Calls may be nested once for each known id, and once more.
abbrev pub depth_bound : List PrioritizedAction → ℕ
depth_bound actions = suc (length actions)

-- The loop over the actions, of which `levelById` is what stays.
unfoldable pub level_all : ById → ℕ → List PrioritizedAction → LevelById → Option LevelById
level_all by_id fuel [] levels = some levels
level_all by_id fuel (a ∷ rest) levels =
    and_then (level_of by_id fuel (id_of a) [] levels) (λ r. level_all by_id fuel rest r.levels)

-- `Map<number, PrioritizedAction[]>`
abbrev pub Buckets : Type 0
Buckets = List (ℕ × List PrioritizedAction)

unfoldable pub bucket_all : LevelById → Buckets → List PrioritizedAction → Buckets
bucket_all levels buckets [] = buckets
bucket_all levels buckets (a ∷ rest) =
    let level = or_else (get (id_of a) levels) 0 in
    bucket_all levels (set level (or_else (get level buckets) [] ++ a ∷ []) buckets) rest

-- `a[0] - b[0]`
abbrev pub later_entry : ℕ × List PrioritizedAction → ℕ × List PrioritizedAction → Bool
later_entry x y = ltb y.0 x.0

abbrev pub level_entry : ℕ × List PrioritizedAction → DependencyGraphLevel
level_entry e = record { level = e.0; actions = e.1 }

abbrev pub levels_of :
    List PrioritizedAction → Option LevelById → Option (List DependencyGraphLevel)
levels_of actions none = none
levels_of actions (some levels) =
    some (map level_entry (sort later_entry (bucket_all levels [] actions)))

unfoldable pub build_dependency_levels : List PrioritizedAction → Option (List DependencyGraphLevel)
unfolding sort
build_dependency_levels actions =
    levels_of actions (level_all (actions_by_id [] actions) (depth_bound actions) actions [])
