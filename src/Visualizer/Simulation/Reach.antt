-- ===== src/Visualizer/Simulation/Reach.antt =====
-- visualizer/src/simulation/gossipEngine.js: the chains of edges that a round can follow, and the
-- nodes that a frontier picks.
use p2p_app.Prelude.{
  ◌*◌, ◌≤◌, String, ◌≡◌, refl, sym, ◌∙◌, inl, inr, true, List, [], ◌∷◌, Bool-cases, contains,
  length, arith,
}
use p2p_app.Visualizer.Simulation.{Edge, Round, neighbours, targets_of}
use p2p_app.Visualizer.Simulation.Adjacency.{linked}
use p2p_app.Visualizer.Simulation.Wave.{Shuffles, mem-sample_k, sample_k_all, is_picked}

-- A chain of edges between live nodes leads from the source to the node.
pub data Reach (dead : List String) (edges : List Edge) (source : String) : String → Type 0 where
  here : Reach dead edges source source
  step :
      {a b : String}
      → Reach dead edges source a
      → linked dead edges a b ≡ true
      → Reach dead edges source b

-- The ends of the edges.
unfoldable pub ends : List Edge → List String
ends [] = []
ends (e ∷ edges) = e.source ∷ e.target ∷ ends edges

pub length-ends : (edges : List Edge) → length (ends edges) ≡ 2 * length edges
unfolding ends
length-ends [] = refl
length-ends (e ∷ edges) = omega (arith, length-ends edges)

linked-ends :
    (dead : List String) (edges : List Edge) (a b : String)
    → linked dead edges a b ≡ true
    → contains (ends edges) b ≡ true
unfolding linked ends contains
linked-ends dead [] a b h = cc
linked-ends dead (e ∷ edges) a b h = ground (arith, linked-ends dead edges a b)

pub Reach-ends :
    {dead : List String} {edges : List Edge} {source b : String}
    → Reach dead edges source b
    → contains (source ∷ ends edges) b ≡ true
unfolding contains
Reach-ends here = ground arith
Reach-ends {dead} {edges} (step {a} {b} r l) = ground (arith, linked-ends dead edges a b)

-- A round over the neighbours that these edges make.
pub record IsOver (dead : List String) (edges : List Edge) (r : Round) : Type 0 where
  pub joined : (a b : String) → contains (neighbours r.adj a) b ≡ linked dead edges a b
  pub shuffles : (node : String) → Shuffles (r.shuffle node)

-- Every node may send to all its neighbours.
abbrev pub IsWide : Round → Type 0
IsWide r = (node : String) → length (neighbours r.adj node) ≤ r.fanout

module _ (dead : List String) (edges : List Edge) (r : Round) (over : IsOver dead edges r) where
  pub picked-linked :
      (frontier : List String) (b : String)
      → is_picked r frontier b ≡ true
      → (a : String) × (contains frontier a ≡ true) × (linked dead edges a b ≡ true)
  unfolding is_picked targets_of contains
  picked-linked [] b h = cc
  picked-linked (node ∷ frontier) b h = elim (Bool-cases (contains (targets_of r node) b)) [
    | inl e ↦ (
      node,
      ground arith,
      sym (over.joined node b)
          ∙ mem-sample_k (r.shuffle node) (over.shuffles node) (neighbours r.adj node) r.fanout b e,
    )
    | inr e ↦
        let more : is_picked r frontier b ≡ true = ground arith in
        let rest = picked-linked frontier b more in (rest.0, ground (arith, rest.1), rest.2)
  ]

  pub linked-picked :
      IsWide r
      → (frontier : List String) (a b : String) → contains frontier a ≡ true
      → linked dead edges a b ≡ true
      → is_picked r frontier b ≡ true
  unfolding is_picked targets_of contains
  linked-picked wide [] a b m l = cc
  linked-picked wide (node ∷ frontier) a b m l = ground (
    arith,
    linked-picked wide frontier a b,
    sample_k_all (r.shuffle node) (over.shuffles node) (neighbours r.adj node) r.fanout (wide node)
        b,
    over.joined node b,
  )
