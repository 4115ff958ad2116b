-- ===== src/Layout/Rings.antt =====
-- The nodes that `layoutRadial`, frontend/src/lib/graphLayout.ts, places.
use industrial_safety_intell.Prelude.{
  ℕ, zero, suc, String, Bool, true, List, [], ◌∷◌, ◌++◌, Option, none, some, map, or_else, is_some,
  ◌&&◌, ◌||◌, ◌≡◌, refl, sym, ◌∙◌, ◌↔◌, arith, Bool-cases, inl, inr,
}
use industrial_safety_intell.Prelude.Dict.{get, set, is_some-set}
use industrial_safety_intell.Prelude.Double.{Double}
use industrial_safety_intell.Prelude.Eq.{◌==◌, string_eq, nat_eq, includes, includes-append, ==-ap}
use industrial_safety_intell.Prelude.Lists.{any, any-append, length}
use industrial_safety_intell.Prelude.Sort.{sort, includes-sort}
use industrial_safety_intell.Prelude.Text.{text_gt}
use industrial_safety_intell.Api.Graph.{GraphEntity, GraphEdge}
use industrial_safety_intell.Layout.{
  Distances, LaidOutNode, Rings, Circle, ring_members, key_of, nodes_by_key, lay_ring, lay_rings,
  layout_radial, place_at, put_node, adjacency_of,
}
use industrial_safety_intell.Layout.Links.{includes-adjacency_of}
use industrial_safety_intell.Layout.Walks.{Walk, Walk.here, Walk.along, Walk-imp}
use industrial_safety_intell.Layout.Shortest.{linked, IsExact, distances_from-IsExact}

-- The ring `r` has the node `v`.
abbrev has : String → ℕ × List String → Bool
has v r = includes r.1 v

any-set_ring :
    (v : String) (ring : ℕ) (new : List String) (b : Bool) (rings : Rings)
    → includes new v ≡ (includes (or_else (get ring rings) []) v || b)
    → any (has v) (set ring new rings) ≡ (any (has v) rings || b)
unfolding any set get includes
any-set_ring v ring new b [] h = ground (arith, h)
any-set_ring v ring new b ((j, w) ∷ rest) h = elim (Bool-cases (j == ring)) [
  | inl p ↦ rw p (ground (arith, h, p))
  | inr p ↦ rw p (ground (arith, any-set_ring v ring new b rest (rw p at h)))
]

-- Each node with a distance is in a ring, and no other.
any-ring_members :
    (v : String) (rings : Rings) (m : Distances)
    → any (has v) (ring_members rings m) ≡ (any (has v) rings || is_some (get v m))
unfolding ring_members get includes
any-ring_members v rings [] = ground arith
any-ring_members v rings ((key, ring) ∷ rest) =
    any-ring_members v (set ring (or_else (get ring rings) [] ++ key ∷ []) rings) rest
    ∙ ground (
      arith,
      any-set_ring v ring (or_else (get ring rings) [] ++ key ∷ []) (key == v) rings
          (includes-append (or_else (get ring rings) []) (key ∷ []) v ∙ ground arith),
    )

module _ {N : Type 0} where
  known-nodes_by_key :
      (by_key : List (String × GraphEntity N)) (nodes : List (GraphEntity N)) (v : String)
      → is_some (get v (nodes_by_key by_key nodes))
        ≡ (is_some (get v by_key) || includes (map key_of nodes) v)
  unfolding nodes_by_key includes
  known-nodes_by_key by_key [] v = ground arith
  known-nodes_by_key by_key (node ∷ nodes) v =
      known-nodes_by_key (set (key_of node) node by_key) nodes v
      ∙ ground (arith, is_some-set (key_of node) v node by_key)

module _ {N : Type 0} ⦃d : Double N⦄ ⦃c : Circle N⦄ where
  abbrev pub laid : List (LaidOutNode N) → String → Bool
  laid nodes v = any (λ n. n.key == v) nodes

  laid-put_node :
      (o : Option (GraphEntity N)) (spacing : N) (ring index count : ℕ) (key : String)
      (rest : List (LaidOutNode N)) (v : String)
      → laid (put_node o (place_at spacing ring index count key) rest) v
        ≡ (is_some o && key == v || laid rest v)
  unfolding any
  laid-put_node none spacing ring index count key rest v = refl
  laid-put_node (some entity) spacing zero index count key rest v = refl
  laid-put_node (some entity) spacing (suc ring) index count key rest v = refl

  laid-lay_ring :
      (by_key : List (String × GraphEntity N)) (spacing : N) (ring index count : ℕ)
      (keys : List String) (v : String)
      → laid (lay_ring by_key spacing ring index count keys) v
        ≡ (is_some (get v by_key) && includes keys v)
  unfolding lay_ring any includes
  laid-lay_ring by_key spacing ring index count [] v = ground arith
  laid-lay_ring by_key spacing ring index count (key ∷ keys) v =
      laid-put_node (get key by_key) spacing ring index count key
        (lay_ring by_key spacing ring (suc index) count keys) v
      ∙ ground (
        arith,
        laid-lay_ring by_key spacing ring (suc index) count keys v,
        ==-ap (λ j. is_some (get j by_key)) key v,
      )

  laid-lay_rings :
      (by_key : List (String × GraphEntity N)) (spacing : N) (rings : Rings) (v : String)
      → laid (lay_rings by_key spacing rings) v ≡ (is_some (get v by_key) && any (has v) rings)
  unfolding lay_rings any
  laid-lay_rings by_key spacing [] v = ground arith
  laid-lay_rings by_key spacing ((ring, members) ∷ rings) v =
      any-append (λ n. n.key == v)
        (lay_ring by_key spacing ring 0 (length members) (sort text_gt members))
        (lay_rings by_key spacing rings)
      ∙ ground (
        arith,
        laid-lay_ring by_key spacing ring 0 (length members) (sort text_gt members) v,
        includes-sort text_gt members v,
        laid-lay_rings by_key spacing rings v,
      )

-- A walk along edges between nodes ends at a node.
Walk-known :
    (root : String) (keys : List String) (edges : List GraphEdge) (n : ℕ) (v : String)
    → includes keys root ≡ true
    → Walk (linked keys edges) root n v
    → includes keys v ≡ true
Walk-known root keys edges n v h here = h
Walk-known root keys edges n v h (along u w e) = ground (arith, e)

some_is : {A : Type 0} (o : Option A) → is_some o ≡ true → (a : A) × (o ≡ some a)
some_is none h = cc
some_is (some a) h = (a, refl)

-- Some walk along the edges leads from the root to the node.
abbrev pub Reached : String → List String → List GraphEdge → String → Type 0
Reached root keys edges v = (n : ℕ) × Walk (linked keys edges) root n v

Reached-iff :
    (root : String) (keys : List String) (edges : List GraphEdge) (m : Distances)
    → includes keys root ≡ true
    → IsExact (adjacency_of keys edges) root m
    → (v : String) → ((includes keys v && is_some (get v m)) ≡ true) ↔ Reached root keys edges v
Reached-iff root keys edges m h exact v =
    let step = includes-adjacency_of keys edges in
    (
      λ p.
          let (n, g) = some_is (get v m) (ground (arith, p)) in
          (n, Walk-imp _ _ root step n v ((exact v n).0 g)),
      λ r.
          let (n, g, le) = (exact v r.0).1 (Walk-imp _ _ root (λ u w. sym (step u w)) r.0 v r.1) in
          ground (arith, g, Walk-known root keys edges r.0 v h r.1),
    )

module _ {N : Type 0} ⦃d : Double N⦄ ⦃c : Circle N⦄ where
  laid_known :
      (nodes : List (GraphEntity N)) (spacing : N) (m : Distances) (v : String)
      → laid (lay_rings (nodes_by_key [] nodes) spacing (ring_members [] m)) v
        ≡ (includes (map key_of nodes) v && is_some (get v m))
  unfolding any get
  laid_known nodes spacing m v =
      laid-lay_rings (nodes_by_key [] nodes) spacing (ring_members [] m) v
      ∙ rw (known-nodes_by_key [] nodes v, any-ring_members v [] m) refl

  -- With a root that is a node, the layout is made, and a node is placed in it exactly when a walk
  -- along the edges leads to it from the root.
  pub layout_radial-Reached :
      (root : String) (nodes : List (GraphEntity N)) (edges : List GraphEdge) (spacing : Option N)
      → includes (map key_of nodes) root ≡ true
      → (r : List (LaidOutNode N)) × (layout_radial root nodes edges spacing ≡ some r)
        × ((v : String) → (laid r v ≡ true) ↔ Reached root (map key_of nodes) edges v)
  unfolding layout_radial get
  layout_radial-Reached root nodes edges spacing h =
      let keys = map key_of nodes in
      let sp = or_else spacing (d.of_ℕ 220) in
      let (m, e, exact) = distances_from-IsExact root keys edges h in
      (
        lay_rings (nodes_by_key [] nodes) sp (ring_members [] m),
        rw (known-nodes_by_key [] nodes root, h, e) refl,
        λ v.
            let iff = Reached-iff root keys edges m h exact v in
            (
              λ p. iff.0 (sym (laid_known nodes sp m v) ∙ p),
              λ r. laid_known nodes sp m v ∙ iff.1 r,
            ),
      )
