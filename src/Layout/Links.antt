-- ===== src/Layout/Links.antt =====
-- The adjacency in `layoutRadial`, frontend/src/lib/graphLayout.ts: which nodes an edge makes neighbours.
use industrial_safety_intell.Prelude.{
  String, Bool, true, List, [], ◌∷◌, is_some, ◌&&◌, ◌||◌, ◌≡◌, refl, ap, ◌∙◌, arith, if◌then◌else◌,
}
use industrial_safety_intell.Prelude.Dict.{get, set, get-set, is_some-set}
use industrial_safety_intell.Prelude.Eq.{◌==◌, string_eq, includes, includes-append, ==-ap, ==-refl}
use industrial_safety_intell.Prelude.Lists.{All, any}
use industrial_safety_intell.Api.Graph.{GraphEdge}
use industrial_safety_intell.Layout.{
  Adjacency, neighbours, add, link, join_keys, join_all, isolated, adjacency_of, source_of,
  target_of,
}
use industrial_safety_intell.Layout.Rounds.{IsClosed}

known-isolated :
    (adj : Adjacency) (keys : List String) (i : String)
    → is_some (get i (isolated adj keys)) ≡ (is_some (get i adj) || includes keys i)
unfolding isolated includes
known-isolated adj [] i = ground arith
known-isolated adj (k ∷ ks) i =
    known-isolated (set k [] adj) ks i ∙ ground (arith, is_some-set k i [] adj)

neighbours-isolated :
    (adj : Adjacency) (keys : List String) (i : String)
    → neighbours adj i ≡ []
    → neighbours (isolated adj keys) i ≡ []
unfolding isolated
neighbours-isolated adj [] i h = h
neighbours-isolated adj (k ∷ ks) i h =
    neighbours-isolated (set k [] adj) ks i (rw (get-set k i [] adj) (ground (arith, h)))

includes-add :
    (members : List String) (k i : String)
    → includes (add members k) i ≡ (includes members i || k == i)
unfolding includes
includes-add members k i =
    ground (arith, includes-append members (k ∷ []) i, ==-ap (includes members) k i)

known-link :
    (adj : Adjacency) (a b i : String)
    → is_some (get a adj) ≡ true
    → is_some (get i (link adj a b)) ≡ is_some (get i adj)
known-link adj a b i h =
    is_some-set a i (add (neighbours adj a) b) adj
    ∙ ground (arith, h, ==-ap (λ j. is_some (get j adj)) a i)

neighbours-link :
    (adj : Adjacency) (a b u : String)
    → neighbours (link adj a b) u ≡ (if a == u then add (neighbours adj a) b else neighbours adj u)
neighbours-link adj a b u = rw (get-set a u (add (neighbours adj a) b) adj) (ground arith)

includes-link :
    (adj : Adjacency) (a b u v : String)
    → includes (neighbours (link adj a b) u) v ≡ (includes (neighbours adj u) v || a == u && b == v)
includes-link adj a b u v =
    ap (λ xs. includes xs v) (neighbours-link adj a b u)
    ∙ ground
        (arith, includes-add (neighbours adj a) b v, ==-ap (λ j. includes (neighbours adj j) v) a u)

known-join_keys :
    (adj : Adjacency) (a b i : String) → is_some (get i (join_keys adj a b)) ≡ is_some (get i adj)
unfolding join_keys
known-join_keys adj a b i =
    ground (arith, known-link adj a b i, known-link (link adj a b) b a i, known-link adj a b b)

-- An edge between two known nodes makes each a neighbour of the other.
includes-join_keys :
    (adj : Adjacency) (a b u v : String)
    → includes (neighbours (join_keys adj a b) u) v ≡ (
        includes (neighbours adj u) v
        || is_some (get u adj) && is_some (get v adj) && (a == u && b == v || a == v && b == u))
unfolding join_keys
includes-join_keys adj a b u v = ground (
  arith,
  includes-link adj a b u v,
  includes-link (link adj a b) b a u v,
  ==-ap (λ j. is_some (get j adj)) a u,
  ==-ap (λ j. is_some (get j adj)) a v,
  ==-ap (λ j. is_some (get j adj)) b u,
  ==-ap (λ j. is_some (get j adj)) b v,
)

-- An edge that joins two nodes, in either direction.
abbrev pub joins : String → String → GraphEdge → Bool
joins u v e = source_of e == u && target_of e == v || source_of e == v && target_of e == u

includes-join_all :
    (adj : Adjacency) (edges : List GraphEdge) (u v : String)
    → includes (neighbours (join_all adj edges) u) v ≡ (
        includes (neighbours adj u) v
        || is_some (get u adj) && is_some (get v adj) && any (joins u v) edges)
unfolding join_all any
includes-join_all adj [] u v = ground arith
includes-join_all adj (e ∷ es) u v =
    includes-join_all (join_keys adj (source_of e) (target_of e)) es u v
    ∙ ground (
      arith,
      includes-join_keys adj (source_of e) (target_of e) u v,
      known-join_keys adj (source_of e) (target_of e) u,
      known-join_keys adj (source_of e) (target_of e) v,
    )

-- The neighbours of a node are the nodes that some edge joins to it: an edge with an end that is
-- not one of the nodes counts for nothing.
pub includes-adjacency_of :
    (keys : List String) (edges : List GraphEdge) (u v : String)
    → includes (neighbours (adjacency_of keys edges) u) v
      ≡ (includes keys u && includes keys v && any (joins u v) edges)
unfolding adjacency_of get includes
includes-adjacency_of keys edges u v =
    includes-join_all (isolated [] keys) edges u v
    ∙ rw (neighbours-isolated [] keys u refl, known-isolated [] keys u, known-isolated [] keys v)

pub All-includes :
    {P : String → Type 0} (xs : List String)
    → ((k : String) → includes xs k ≡ true → P k)
    → All P xs
unfolding includes
All-includes [] f = tt
All-includes (x ∷ xs) f = (f x (rw (==-refl x)), All-includes xs (λ k h. f k (ground (arith, h))))

pub adjacency_of-IsClosed :
    (keys : List String) (edges : List GraphEdge) → IsClosed keys (adjacency_of keys edges)
adjacency_of-IsClosed keys edges u =
    All-includes _ (λ k h. ground (arith, includes-adjacency_of keys edges u k, h))
