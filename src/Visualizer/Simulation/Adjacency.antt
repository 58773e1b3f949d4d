-- ===== src/Visualizer/Simulation/Adjacency.antt =====
-- visualizer/src/simulation/gossipEngine.js: what the neighbour map of a list of edges holds.
use p2p_app.Prelude.{
  String, ◌≡◌, refl, Bool, true, false, not, ◌&&◌, ◌||◌, List, [], ◌∷◌, ◌++◌, Dict, lookup,
  has_key-lookup, lookup-insert, contains, contains-append, same, ite, eqb, arith,
}
use p2p_app.Visualizer.Simulation.{
  Edge, neighbours, with_entry, push_neighbour, add_edge, add_edges, build_adjacency,
}

-- An edge between `a` and `b`, whichever way round, both ends of which are alive.
abbrev pub joins : List String → Edge → String → String → Bool
joins dead e a b =
    not (contains dead e.source || contains dead e.target)
    && (eqb e.source a && eqb e.target b || eqb e.target a && eqb e.source b)

-- There is such an edge.
unfoldable pub linked : List String → List Edge → String → String → Bool
linked dead [] a b = false
linked dead (e ∷ edges) a b = joins dead e a b || linked dead edges a b

neighbours-with_entry :
    (node a : String) (adj : Dict (List String))
    → neighbours (with_entry node adj) a ≡ neighbours adj a
unfolding neighbours with_entry
neighbours-with_entry node a adj =
    ground (arith, lookup-insert node a [] adj, has_key-lookup node adj)

neighbours-push_neighbour :
    (node other a : String) (adj : Dict (List String))
    → neighbours (push_neighbour node other adj) a
      ≡ ite (same node a) (neighbours adj a ++ other ∷ []) (neighbours adj a)
unfolding neighbours push_neighbour
neighbours-push_neighbour node other a adj =
    ground (arith, lookup-insert node a (neighbours adj node ++ other ∷ []) adj)

contains-push_neighbour :
    (node other a b : String) (adj : Dict (List String))
    → contains (neighbours (push_neighbour node other adj) a) b
      ≡ (contains (neighbours adj a) b || (eqb node a && eqb other b))
unfolding contains
contains-push_neighbour node other a b adj = ground (
  arith,
  neighbours-push_neighbour node other a adj,
  contains-append (neighbours adj a) (other ∷ []) b,
)

contains-add_edge :
    (dead : List String) (adj : Dict (List String)) (e : Edge) (a b : String)
    → contains (neighbours (add_edge dead adj e) a) b
      ≡ (contains (neighbours adj a) b || joins dead e a b)
unfolding add_edge
contains-add_edge dead adj e a b =
    let first = with_entry e.source adj in
    let both = with_entry e.target first in
    ground (
      arith,
      neighbours-with_entry e.source a adj,
      neighbours-with_entry e.target a first,
      contains-push_neighbour e.source e.target a b both,
      contains-push_neighbour e.target e.source a b (push_neighbour e.source e.target both),
    )

contains-add_edges :
    (dead : List String) (edges : List Edge) (adj : Dict (List String)) (a b : String)
    → contains (neighbours (add_edges dead adj edges) a) b
      ≡ (contains (neighbours adj a) b || linked dead edges a b)
unfolding add_edges linked
contains-add_edges dead [] adj a b = ground arith
contains-add_edges dead (e ∷ edges) adj a b = ground (
  arith,
  contains-add_edges dead edges (add_edge dead adj e) a b,
  contains-add_edge dead adj e a b,
)

-- The neighbours of a node are those that an edge between live nodes joins it to.
pub contains-build_adjacency :
    (dead : List String) (edges : List Edge) (a b : String)
    → contains (neighbours (build_adjacency edges dead) a) b ≡ linked dead edges a b
unfolding build_adjacency contains neighbours lookup
contains-build_adjacency dead edges a b = contains-add_edges dead edges [] a b

-- Links go both ways, and only between live nodes.
pub linked_comm :
    (dead : List String) (edges : List Edge) (a b : String)
    → linked dead edges a b ≡ linked dead edges b a
unfolding linked
linked_comm dead [] a b = refl
linked_comm dead (e ∷ edges) a b = ground (arith, linked_comm dead edges a b)

pub linked_live :
    (dead : List String) (edges : List Edge) (a b : String)
    → linked dead edges a b ≡ true
    → contains dead b ≡ false
unfolding linked
linked_live dead [] a b h = cc
linked_live dead (e ∷ edges) a b h = ground (arith, linked_live dead edges a b)

pub linked-append :
    (dead : List String) (edges more : List Edge) (a b : String)
    → linked dead (edges ++ more) a b ≡ (linked dead edges a b || linked dead more a b)
unfolding linked
linked-append dead [] more a b = refl
linked-append dead (e ∷ edges) more a b = ground (arith, linked-append dead edges more a b)
