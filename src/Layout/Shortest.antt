-- ===== src/Layout/Shortest.antt =====
-- The breadth-first search in `layoutRadial`, frontend/src/lib/graphLayout.ts, against walks.
use industrial_safety_intell.Prelude.{
  ℕ, zero, suc, ◌+◌, ◌≤◌, ◌&&◌, String, Bool, true, List, [], ◌∷◌, some, ◌≡◌, refl, sym, ap, ◌∙◌,
  ◌↔◌, inl, inr, arith,
}
use mathlib.Core.Path.{subst}
use industrial_safety_intell.Prelude.Dict.{get, set}
use industrial_safety_intell.Prelude.Eq.{string_eq, includes, ==-refl}
use industrial_safety_intell.Prelude.Lists.{any, length}
use industrial_safety_intell.Api.Graph.{GraphEdge}
use industrial_safety_intell.Layout.{
  Adjacency, Distances, neighbours, scan, visit, search_from, adjacency_of, distances_from,
}
use industrial_safety_intell.Layout.Links.{joins, includes-adjacency_of, adjacency_of-IsClosed}
use industrial_safety_intell.Layout.Rounds.{unseen, unseen-set, unseen_le, search_from-some}
use industrial_safety_intell.Layout.Walks.{Walk.here, Walk.along, IsShortest, IsShortest-imp}
use industrial_safety_intell.Layout.Waiting.{set_cases, same_distance}
use industrial_safety_intell.Layout.Scanning.{Walked, IsScanning, scan-IsScanning, next_of}

module _ (adj : Adjacency) (root : String) where
  complete :
      (n : ℕ) (c : String) (m : Distances)
      → IsScanning adj root n c [] (record { distance = m; queue = [] })
      → (k : ℕ) (v : String) → Walked adj root k v
      → (d : ℕ) × (get v m ≡ some d) × (d ≤ k)
  unfolding includes
  complete n c m i k v here = (0, i.start, omega arith)
  complete n c m i k v (along {n = j} u w e) =
      let (d, g, le) = complete n c m i j u w in
      elim (i.followed u d v g e) [
        | inl h ↦ absurd (cc)
        | inr (inl h) ↦ absurd (ground (arith, h.1))
        | inr (inr r) ↦ (r.0, r.1, omega (arith, r.2, le))
      ]

  -- A distance is the length of a walk, and no walk to the same node is shorter.
  abbrev pub IsExact : Distances → Type 0
  IsExact m =
      (v : String) (n : ℕ)
      → (get v m ≡ some n → Walked adj root n v)
        × (Walked adj root n v → (d : ℕ) × (get v m ≡ some d) × (d ≤ n))

  IsExact-of_end :
      (n : ℕ) (c : String) (m : Distances)
      → IsScanning adj root n c [] (record { distance = m; queue = [] })
      → IsExact m
  IsExact-of_end n c m i v k = (i.sound v k, complete n c m i k v)

  visit_at :
      (q : String) (m : Distances) (l : ℕ) (qs : List String)
      → get q m ≡ some l
      → visit adj m q qs ≡ scan l (record { distance = m; queue = qs }) (neighbours adj q)
  unfolding visit
  visit_at q m l qs g = rw g

  search_from-IsExact :
      (fuel n : ℕ) (c : String) (m : Distances) (queue : List String) (r : Distances)
      → IsScanning adj root n c [] (record { distance = m; queue = queue })
      → search_from adj fuel m queue ≡ some r
      → IsExact r
  unfolding search_from
  search_from-IsExact fuel n c m [] r i h =
      subst IsExact (ground (arith, h)) (IsExact-of_end n c m i)
  search_from-IsExact zero n c m (q ∷ qs) r i h = absurd (cc)
  search_from-IsExact (suc fuel) n c m (q ∷ qs) r i h =
      let (l, g, j) = next_of adj root n c q qs m i in
      search_from-IsExact fuel l q (visit adj m q qs).distance (visit adj m q qs).queue r
        (subst (IsScanning adj root l q []) (sym (visit_at q m l qs g))
          (scan-IsScanning adj root l q (neighbours adj q) (record { distance = m; queue = qs }) j))
        h

  start_at : (v : String) (k : ℕ) → get v ((root, 0) ∷ []) ≡ some k → (root ≡ v) × (0 ≡ k)
  unfolding get set
  start_at v k g = elim (set_cases root v 0 k [] g) [ inl h ↦ h | inr h ↦ absurd (cc) ]

  abbrev start_distance : String → Distances
  start_distance key = (key, 0) ∷ []

  at_root : get root (start_distance root) ≡ some 0
  unfolding get
  at_root = rw (==-refl root)

  IsScanning-of_start :
      IsScanning adj root 0 root [] (record { distance = (root, 0) ∷ []; queue = root ∷ [] })
  unfolding get includes
  IsScanning-of_start = record {
    start = at_root;
    current = at_root;
    sound = λ v k g.
        let (e, l) = start_at v k g in
        subst (λ j. Walked adj root j v) l (subst (Walked adj root 0) e here);
    bound = λ v k g. omega (arith, (start_at v k g).1);
    waits = inl (at_root, tt);
    edges = tt;
    followed = λ u k v g e. inl (ground (arith, (string_eq.same_iff root u).1 (start_at u k g).0));
  }

-- An edge that joins two of the nodes.
abbrev pub linked : List String → List GraphEdge → String → String → Bool
linked keys edges u v = includes keys u && includes keys v && any (joins u v) edges

enough_fuel :
    (root : String) (keys : List String)
    → includes keys root ≡ true
    → unseen ((root, 0) ∷ []) keys + 1 ≤ length keys
unfolding get set
enough_fuel root keys h = omega (arith, unseen-set root 0 [] keys h refl, unseen_le [] keys)

-- From a node of the graph the search ends within a round for each node.
pub distances_from-IsExact :
    (root : String) (keys : List String) (edges : List GraphEdge)
    → includes keys root ≡ true
    → (m : Distances) × (distances_from root keys edges ≡ some m)
      × IsExact (adjacency_of keys edges) root m
unfolding distances_from
distances_from-IsExact root keys edges h =
    let adj = adjacency_of keys edges in
    let start : Distances = (root, 0) ∷ [] in
    let (m, e) =
      search_from-some keys adj (length keys) start (root ∷ []) (adjacency_of-IsClosed keys edges)
        (enough_fuel root keys h) in
    (
      m,
      e,
      search_from-IsExact adj root (length keys) 0 root start (root ∷ []) m
          (IsScanning-of_start adj root) e,
    )

-- A distance is the length of a shortest walk.
exact_iff :
    (adj : Adjacency) (root : String) (m : Distances)
    → IsExact adj root m
    → (v : String) (n : ℕ)
    → (get v m ≡ some n) ↔ IsShortest (λ u w. includes (neighbours adj u) w) root n v
exact_iff adj root m exact v n = (
  λ g. (
    (exact v n).0 g,
    λ k w. let (d, h, le) = (exact v k).1 w in omega (arith, same_distance m v v n d refl g h, le),
  ),
  λ s.
      let (d, h, le) = (exact v n).1 s.0 in
      h ∙ ap some (omega (arith, le, s.1 d ((exact v d).0 h))),
)

-- From a node of the graph the search ends within a round for each node, and the distance that a
-- node then has is the length of a shortest walk to it from that node, along edges between nodes
-- of the graph in either direction: a node that no walk reaches has none.
pub distances_from-IsShortest :
    (root : String) (keys : List String) (edges : List GraphEdge)
    → includes keys root ≡ true
    → (m : Distances) × (distances_from root keys edges ≡ some m)
      × ((v : String) (n : ℕ) → (get v m ≡ some n) ↔ IsShortest (linked keys edges) root n v)
distances_from-IsShortest root keys edges h =
    let (m, e, exact) = distances_from-IsExact root keys edges h in
    let step = includes-adjacency_of keys edges in
    (
      m,
      e,
      λ v n.
          let iff = exact_iff (adjacency_of keys edges) root m exact v n in
          (
            λ g. IsShortest-imp _ _ root step n v (iff.0 g),
            λ s. iff.1 (IsShortest-imp _ _ root (λ u w. sym (step u w)) n v s),
          ),
    )
