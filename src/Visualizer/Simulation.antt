-- ===== src/Visualizer/Simulation.antt =====
-- visualizer/src/simulation/gossipEngine.js: the waves of a gossip round and the healing of isolated
-- nodes. Randomness is a parameter: `shuffle node` is the order in which the calls of `sampleK` for
-- that node put the list, of which there is one in a round and one in a healing, and `latency hop i`
-- the rounded latency of the i-th transmission of a wave.
pub mod Adjacency
pub mod Wave
pub mod Reach
pub mod Spread
pub mod Counts
pub mod NewEdges
pub mod Healing
mod Tests
use p2p_app.Prelude.{
  ℕ, zero, suc, ◌+◌, ◌*◌, min, String, Bool, true, false, not, ◌&&◌, ◌||◌, List, [], ◌∷◌, ◌++◌,
  Option, none, some, Dict, lookup, insert, has_key, contains, length, take, keep, map, same, eqb,
  ltb, ◌==◌, if◌then◌else◌,
}

pub record SimNode : Type 0 where
  pub id : String
  pub label : String
  pub x : ℕ
  pub y : ℕ

pub record Edge : Type 0 where
  pub source : String
  pub target : String
  pub is_new : Bool

abbrev pub node_at : String → String → ℕ → ℕ → SimNode
node_at id label x y = record { id = id; label = label; x = x; y = y }

abbrev pub edge : String → String → Edge
edge a b = record { source = a; target = b; is_new = false }

abbrev pub initial_nodes : List SimNode
initial_nodes =
    node_at "A" "Node-A" 300 180
    ∷ node_at "B" "Node-B" 500 100
    ∷ node_at "C" "Node-C" 520 310
    ∷ node_at "D" "Node-D" 160 320
    ∷ node_at "E" "Node-E" 370 420
    ∷ []

abbrev pub initial_edges : List Edge
initial_edges =
    edge "A" "B" ∷ edge "A" "C" ∷ edge "A" "D" ∷ edge "B" "C" ∷ edge "C" "E" ∷ edge "D" "E" ∷ []

-- `adj[node] || []`
unfoldable pub neighbours : Dict (List String) → String → List String
neighbours adj node = elim (lookup node adj) [ none ↦ [] | some others ↦ others ]

-- `if (!adj[node]) adj[node] = []`
unfoldable pub with_entry : String → Dict (List String) → Dict (List String)
with_entry node adj = if has_key node adj then adj else insert node [] adj

-- `adj[node].push(other)`
unfoldable pub push_neighbour : String → String → Dict (List String) → Dict (List String)
push_neighbour node other adj = insert node (neighbours adj node ++ other ∷ []) adj

unfoldable pub add_edge : List String → Dict (List String) → Edge → Dict (List String)
unfolding with_entry push_neighbour
add_edge dead_nodes adj e =
    if contains dead_nodes e.source || contains dead_nodes e.target
    then adj
    else push_neighbour e.target e.source
        (push_neighbour e.source e.target (with_entry e.target (with_entry e.source adj)))

unfoldable pub add_edges : List String → Dict (List String) → List Edge → Dict (List String)
add_edges dead_nodes adj [] = adj
add_edges dead_nodes adj (e ∷ edges) = add_edges dead_nodes (add_edge dead_nodes adj e) edges

unfoldable pub build_adjacency : List Edge → List String → Dict (List String)
build_adjacency edges dead_nodes = add_edges dead_nodes [] edges

-- `shuffled.slice(0, k)`
unfoldable pub sample_k : (List String → List String) → List String → ℕ → List String
sample_k shuffle arr k = take k (shuffle arr)

pub record Transmission : Type 0 where
  pub from : String
  pub to : String
  pub msg_id : String
  pub hop : ℕ
  pub latency_ms : ℕ

-- `waveEvents`, `seen` and `nextFrontier`.
pub record Progress : Type 0 where
  pub events : List Transmission
  pub seen : List String
  pub next : List String

pub record Outcome : Type 0 where
  pub waves : List (List Transmission)
  pub reached : List String

-- `if (waveEvents.length > 0) waves.push(waveEvents)`
unfoldable pub push_wave : List (List Transmission) → List Transmission → List (List Transmission)
push_wave waves events = if length events == 0 then waves else waves ++ events ∷ []

-- What is fixed in a round.
pub record Round : Type 0 where
  pub shuffle : String → List String → List String
  pub latency : ℕ → ℕ → ℕ
  pub msg_id : String
  pub adj : Dict (List String)
  pub fanout : ℕ

module _ (r : Round) where
  unfoldable pub transmission : ℕ → String → ℕ → String → Transmission
  transmission hop node i t = record {
    from = node;
    to = t;
    msg_id = r.msg_id;
    hop = hop;
    latency_ms = r.latency hop i;
  }

  -- The body of the loop over the targets of a node.
  unfoldable pub transmit : ℕ → String → Progress → String → Progress
  transmit hop node p t =
      let events = p.events ++ transmission hop node (length p.events) t ∷ [] in
      if contains p.seen t
      then (record p { events = events })
      else (record { events = events; seen = p.seen ++ t ∷ []; next = p.next ++ t ∷ [] })

  unfoldable pub transmit_all : ℕ → String → Progress → List String → Progress
  transmit_all hop node p [] = p
  transmit_all hop node p (t ∷ targets) = transmit_all hop node (transmit hop node p t) targets

  unfoldable pub targets_of : String → List String
  targets_of node = sample_k (r.shuffle node) (neighbours r.adj node) r.fanout

  -- The loop over the frontier.
  unfoldable pub wave : ℕ → Progress → List String → Progress
  wave hop p [] = p
  wave hop p (node ∷ frontier) = wave hop (transmit_all hop node p (targets_of node)) frontier

  -- The `while` loop; `none` when the fuel runs out before the frontier is empty.
  unfoldable pub spread : ℕ → List (List Transmission) → List String → List String → Option Outcome
  spread fuel waves seen [] = some (record { waves = waves; reached = seen })
  spread zero waves seen (node ∷ frontier) = none
  spread (suc fuel) waves seen (node ∷ frontier) =
      let p =
        wave (length waves + 1) (record { events = []; seen = seen; next = [] })
          (node ∷ frontier) in
      spread fuel (push_wave waves p.events) p.seen p.next

unfoldable pub compute_gossip_waves :
    (String → List String → List String)
    → (ℕ → ℕ → ℕ)
    → ℕ
    → String
    → String
    → List Edge
    → List String
    → ℕ
    → Option Outcome
compute_gossip_waves shuffle latency fuel msg_id source_node edges dead_nodes fanout =
    let adj = build_adjacency edges dead_nodes in
    spread
      (record { shuffle = shuffle; latency = latency; msg_id = msg_id; adj = adj; fanout = fanout })
      fuel [] (source_node ∷ []) (source_node ∷ [])

-- `alreadyExists`
abbrev pub same_ends : String → String → Edge → Bool
same_ends a b e = eqb e.source a && eqb e.target b || eqb e.source b && eqb e.target a

unfoldable pub already_exists : String → String → List Edge → Bool
already_exists a b [] = false
already_exists a b (e ∷ edges) = if same_ends a b e then true else already_exists a b edges

-- The body of the loop over the picks.
unfoldable pub connect_one : String → List Edge → String → List Edge
connect_one node new_edges p =
    if already_exists node p new_edges
    then new_edges
    else new_edges ++ (record { source = node; target = p; is_new = true }) ∷ []

unfoldable pub connect : String → List Edge → List String → List Edge
unfolding connect_one
connect node new_edges [] = new_edges
connect node new_edges (p ∷ picks) = connect node (connect_one node new_edges p) picks

-- The ids of the nodes that are not dead.
unfoldable pub live_ids : List SimNode → List String → List String
live_ids all_nodes dead_nodes =
    map (λ (n : SimNode). n.id) (keep (λ (n : SimNode). not (contains dead_nodes n.id)) all_nodes)

module _ (shuffle : String → List String → List String) (adj : Dict (List String))
    (dead_nodes live_nodes : List String) where
  unfoldable pub picks_of : String → List String
  picks_of node =
      let candidates = keep (λ n. not (eqb n node)) live_nodes in
      sample_k (shuffle node) candidates (min 2 (length candidates))

  -- `neighbours.length === 0`
  unfoldable pub is_orphan : String → Bool
  is_orphan node = length (keep (λ n. not (contains dead_nodes n)) (neighbours adj node)) == 0

  -- The body of the loop over the live nodes.
  unfoldable pub heal_one : List Edge → String → List Edge
  heal_one new_edges node =
      if is_orphan node then connect node new_edges (picks_of node) else new_edges

  unfoldable pub heal_all : List Edge → List String → List Edge
  heal_all new_edges [] = new_edges
  heal_all new_edges (node ∷ nodes) = heal_all (heal_one new_edges node) nodes

unfoldable pub compute_healing_edges :
    (String → List String → List String) → List Edge → List String → List SimNode → List Edge
compute_healing_edges shuffle edges dead_nodes all_nodes =
    let live_nodes = live_ids all_nodes dead_nodes in
    heal_all shuffle (build_adjacency edges dead_nodes) dead_nodes live_nodes [] live_nodes
