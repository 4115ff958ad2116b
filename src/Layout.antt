-- ===== src/Layout.antt =====
-- frontend/src/lib/graphLayout.ts: the radial layout of the knowledge graph.
pub mod Links
pub mod Rounds
pub mod Walks
pub mod Waiting
pub mod Scanning
pub mod Shortest
pub mod Rings
use industrial_safety_intell.Prelude.{
  ℕ, zero, suc, String, Bool, List, [], ◌∷◌, ◌++◌, Option, none, some, map, foldl, or_else, is_some,
  ◌&&◌, if◌then◌else◌,
}
use industrial_safety_intell.Prelude.Dict.{get, set}
use industrial_safety_intell.Prelude.Double.{Double}
use industrial_safety_intell.Prelude.Eq.{includes, string_eq, nat_eq}
use industrial_safety_intell.Prelude.Lists.{length}
use industrial_safety_intell.Prelude.Sort.{sort}
use industrial_safety_intell.Prelude.Text.{◌⧺◌, text_gt}
use industrial_safety_intell.Api.Graph.{GraphEntityKind, GraphEntity, GraphEdge, kind_text}

pub record LaidOutNode (N : Type 0) : Type 0 where
  pub key : String
  pub entity : GraphEntity N
  pub x : N
  pub y : N

unfoldable pub node_key : String → String → String
node_key kind id = kind ⧺ ":" ⧺ id

abbrev pub source_of : GraphEdge → String
source_of e = node_key (kind_text e.source_kind) e.source_id

abbrev pub target_of : GraphEdge → String
target_of e = node_key (kind_text e.target_kind) e.target_id

unfoldable pub edge_key : GraphEdge → String
edge_key e = source_of e ⧺ "->" ⧺ target_of e ⧺ ":" ⧺ e.relation

-- `Map<string, Set<string>>`, a set by its members in the order of their first `add`
abbrev pub Adjacency : Type 0
Adjacency = List (String × List String)

-- `adjacency.get(key) ?? []`
abbrev pub neighbours : Adjacency → String → List String
neighbours adj key = or_else (get key adj) []

-- `set.add(key)`
abbrev pub add : List String → String → List String
add members key = if includes members key then members else members ++ key ∷ []

-- `adjacency.get(from)?.add(to)`, for a key that the map has
abbrev pub link : Adjacency → String → String → Adjacency
link adj from to = set from (add (neighbours adj from) to) adj

-- The body of the loop over the edges, for the two keys of one.
unfoldable pub join_keys : Adjacency → String → String → Adjacency
join_keys adj source target =
    if is_some (get source adj) && is_some (get target adj)
    then link (link adj source target) target source
    else adj

unfoldable pub join_all : Adjacency → List GraphEdge → Adjacency
join_all adj [] = adj
join_all adj (e ∷ es) = join_all (join_keys adj (source_of e) (target_of e)) es

unfoldable pub isolated : Adjacency → List String → Adjacency
isolated adj [] = adj
isolated adj (key ∷ keys) = isolated (set key [] adj) keys

-- The adjacency of the nodes with these keys.
unfoldable pub adjacency_of : List String → List GraphEdge → Adjacency
adjacency_of keys edges = join_all (isolated [] keys) edges

-- `Map<string, number>`
abbrev pub Distances : Type 0
Distances = List (String × ℕ)

-- The search's two variables.
pub record Search : Type 0 where
  pub distance : Distances
  pub queue : List String

-- The loop over the neighbours of a node at distance `current_distance`.
unfoldable pub scan : ℕ → Search → List String → Search
scan current_distance s [] = s
scan current_distance s (neighbour ∷ rest) =
    scan current_distance
      (if is_some (get neighbour s.distance) then s else record {
        distance = set neighbour (suc current_distance) s.distance;
        queue = s.queue ++ neighbour ∷ [];
      })
      rest

-- One round, after `current` left the queue.
unfoldable pub visit : Adjacency → Distances → String → List String → Search
visit adj distance current queue =
    scan (or_else (get current distance) 0) (record { distance = distance; queue = queue })
      (neighbours adj current)

-- The `while` loop, for at most `fuel` rounds; `none` is a loop that has not ended by then.
unfoldable pub search_from : Adjacency → ℕ → Distances → List String → Option Distances
search_from adj fuel distance [] = some distance
search_from adj zero distance (current ∷ queue) = none
search_from adj (suc fuel) distance (current ∷ queue) =
    let s = visit adj distance current queue in search_from adj fuel s.distance s.queue

-- A round for each node is enough.
unfoldable pub distances_from : String → List String → List GraphEdge → Option Distances
distances_from root keys edges =
    search_from (adjacency_of keys edges) (length keys) ((root, 0) ∷ []) (root ∷ [])

abbrev pub Rings : Type 0
Rings = List (ℕ × List String)

unfoldable pub ring_members : Rings → Distances → Rings
ring_members rings [] = rings
ring_members rings ((key, ring) ∷ rest) =
    ring_members (set ring (or_else (get ring rings) [] ++ key ∷ []) rings) rest

module _ {N : Type 0} where
  abbrev pub key_of : GraphEntity N → String
  key_of node = node_key (kind_text node.kind) node.id

  -- `new Map(nodes.map(...))`
  unfoldable pub nodes_by_key :
      List (String × GraphEntity N) → List (GraphEntity N) → List (String × GraphEntity N)
  nodes_by_key by_key [] = by_key
  nodes_by_key by_key (node ∷ nodes) = nodes_by_key (set (key_of node) node by_key) nodes

-- The circle of the source: `Math.PI`, `Math.cos` and `Math.sin`
pub record Circle (N : Type 0) : Type 0 where
  pub pi : N
  pub cos : N → N
  pub sin : N → N

module _ {N : Type 0} ⦃d : Double N⦄ ⦃c : Circle N⦄ where
  abbrev angle_of : ℕ → ℕ → N
  angle_of index count = d.div (d.mul (d.mul (d.of_ℕ 2) c.pi) (d.of_ℕ index)) (d.of_ℕ count)

  abbrev pub place_at : N → ℕ → ℕ → ℕ → String → GraphEntity N → LaidOutNode N
  place_at ring_spacing zero index count key entity = record {
    key = key;
    entity = entity;
    x = d.of_ℕ 0;
    y = d.of_ℕ 0;
  }
  place_at ring_spacing (suc ring) index count key entity =
      let angle = angle_of index count in
      let radius = d.mul (d.of_ℕ (suc ring)) ring_spacing in
      record {
        key = key;
        entity = entity;
        x = d.mul radius (c.cos angle);
        y = d.mul radius (c.sin angle);
      }

  abbrev pub put_node :
      Option (GraphEntity N)
      → (GraphEntity N → LaidOutNode N)
      → List (LaidOutNode N)
      → List (LaidOutNode N)
  put_node none place rest = rest
  put_node (some entity) place rest = place entity ∷ rest

  -- `sorted.forEach`, from the position `index` on, over `count` members in all.
  unfoldable pub lay_ring :
      List (String × GraphEntity N) → N → ℕ → ℕ → ℕ → List String → List (LaidOutNode N)
  lay_ring by_key ring_spacing ring index count [] = []
  lay_ring by_key ring_spacing ring index count (key ∷ keys) =
      put_node (get key by_key) (place_at ring_spacing ring index count key)
        (lay_ring by_key ring_spacing ring (suc index) count keys)

  unfoldable pub lay_rings : List (String × GraphEntity N) → N → Rings → List (LaidOutNode N)
  unfolding sort
  lay_rings by_key ring_spacing [] = []
  lay_rings by_key ring_spacing ((ring, members) ∷ rings) =
      lay_ring by_key ring_spacing ring 0 (length members) (sort text_gt members)
      ++ lay_rings by_key ring_spacing rings

  abbrev pub lay_all :
      List (String × GraphEntity N) → N → Option Distances → Option (List (LaidOutNode N))
  lay_all by_key ring_spacing none = none
  lay_all by_key ring_spacing (some distance) =
      some (lay_rings by_key ring_spacing (ring_members [] distance))

  -- `none` is a search that has not ended.
  unfoldable pub layout_radial :
      String → List (GraphEntity N) → List GraphEdge → Option N → Option (List (LaidOutNode N))
  layout_radial root_key nodes edges ring_spacing =
      let by_key = nodes_by_key [] nodes in
      if is_some (get root_key by_key)
      then lay_all by_key (or_else ring_spacing (d.of_ℕ 220))
          (distances_from root_key (map key_of nodes) edges)
      else some []
