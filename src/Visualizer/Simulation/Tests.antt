-- ===== src/Visualizer/Simulation/Tests.antt =====
-- visualizer/src/simulation/gossipEngine.js: runs on the initial network.
use p2p_app.Prelude.{
  ℕ, ◌+◌, ◌*◌, ◌≤◌, true, String, ◌≡◌, refl, Option, none, some, List, [], ◌∷◌, length, map, same,
  lookup, insert, has_key, contains, keep, arith,
}
use p2p_app.Visualizer.Simulation.{
  Edge, edge, Outcome, initial_nodes, initial_edges, live_ids, compute_gossip_waves,
  compute_healing_edges, spread, wave, transmit_all, transmit, targets_of, sample_k, neighbours,
  build_adjacency, add_edges, add_edge, push_wave, heal_all, heal_one, is_orphan, connect, picks_of,
  already_exists,
}
use p2p_app.Visualizer.Simulation.Counts.{total_tx}
use p2p_app.Visualizer.Simulation.Wave.{Shuffles}
use p2p_app.Visualizer.Simulation.Spread.{
  compute_gossip_waves_cost, Reaches, compute_gossip_waves-Reaches,
}
use p2p_app.Visualizer.Simulation.Healing.{Heals, compute_healing_edges-Heals}

-- The sort that leaves every list as it is.
abbrev in_order : String → List String → List String
in_order node xs = xs

in_order-Shuffles : (node : String) → Shuffles (in_order node)
in_order-Shuffles node = record { same_members = λ xs a. refl; same_length = λ xs. refl }

abbrev steady : ℕ → ℕ → ℕ
steady hop i = 300

after_round : List String → ℕ → Option Outcome
unfolding compute_gossip_waves spread wave transmit_all transmit targets_of sample_k neighbours
    lookup build_adjacency add_edges add_edge insert has_key contains same push_wave
after_round dead fanout = compute_gossip_waves in_order steady 13 "m" "A" initial_edges dead fanout

abbrev reached_of : Option Outcome → List String
reached_of o = elim o [ none ↦ [] | some out ↦ out.reached ]

-- The number of transmissions of each wave.
abbrev sizes_of : Option Outcome → List ℕ
sizes_of o = elim o [ none ↦ [] | some out ↦ map length out.waves ]

-- With two targets each, the first two neighbours, D and E are missed; with three, nobody is.
narrow : reached_of (after_round [] 2) ≡ "A" ∷ "B" ∷ "C" ∷ []
unfolding after_round
narrow = refl

wide : reached_of (after_round [] 3) ≡ "A" ∷ "B" ∷ "C" ∷ "D" ∷ "E" ∷ []
unfolding after_round
wide = refl

wide_sizes : sizes_of (after_round [] 3) ≡ 3 ∷ 7 ∷ 2 ∷ []
unfolding after_round
wide_sizes = refl

-- A source that is dead still runs a round, which reaches only itself.
from_dead : reached_of (after_round ("A" ∷ []) 3) ≡ "A" ∷ []
unfolding after_round
from_dead = refl

compute_gossip_waves-Reaches_example :
    (o : Outcome) × (after_round [] 3 ≡ some o) × Reaches [] initial_edges "A" 3 o.reached
unfolding after_round
compute_gossip_waves-Reaches_example =
    compute_gossip_waves-Reaches in_order steady "m" "A" initial_edges [] 3 13 in_order-Shuffles
      (omega arith)

compute_gossip_waves_cost_example :
    (o : Outcome) × (after_round [] 2 ≡ some o)
    × (length o.reached ≤ total_tx o.waves + 1)
    × (total_tx o.waves ≤ 2 * length o.reached)
    × (contains o.reached "A" ≡ true)
unfolding after_round
compute_gossip_waves_cost_example =
    compute_gossip_waves_cost in_order steady "m" "A" initial_edges [] 2 13 in_order-Shuffles
      (omega arith)

-- With A, C and E dead, B and D are left alone.
abbrev isolating : List String
isolating = "A" ∷ "C" ∷ "E" ∷ []

abbrev ends_of : Edge → String × String
ends_of e = (e.source, e.target)

new_edges : List Edge → List String → List Edge
unfolding compute_healing_edges heal_all live_ids keep contains same heal_one is_orphan neighbours
    lookup build_adjacency add_edges add_edge insert has_key connect picks_of sample_k
    already_exists
new_edges edges dead = compute_healing_edges in_order edges dead initial_nodes

healed : map ends_of (new_edges initial_edges isolating) ≡ ("B", "D") ∷ []
unfolding new_edges
healed = refl

-- With C and A dead, B alone is connected to the others, which are still linked.
healed_alone : map ends_of (new_edges initial_edges ("A" ∷ "C" ∷ [])) ≡ ("B", "D") ∷ ("B", "E") ∷ []
unfolding new_edges
healed_alone = refl

-- Two pairs that no edge joins are left apart: no node of them is alone.
abbrev two_pairs : List Edge
two_pairs = edge "A" "B" ∷ edge "D" "E" ∷ []

partitioned : new_edges two_pairs ("C" ∷ []) ≡ []
unfolding new_edges
partitioned = refl

compute_healing_edges-Heals_example :
    Heals isolating
      (live_ids initial_nodes isolating)
      initial_edges
      (compute_healing_edges in_order initial_edges isolating initial_nodes)
compute_healing_edges-Heals_example =
    compute_healing_edges-Heals in_order initial_edges isolating initial_nodes in_order-Shuffles
