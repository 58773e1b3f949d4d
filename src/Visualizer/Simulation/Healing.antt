-- ===== src/Visualizer/Simulation/Healing.antt =====
-- visualizer/src/simulation/gossipEngine.js: what computeHealingEdges connects.
use p2p_app.Prelude.{
  ℕ, zero, suc, ◌≤◌, min, String, ◌≡◌, ◌≢◌, refl, inl, inr, Bool, true, false, not, List, [], ◌∷◌,
  ◌++◌, Dict, List-cases, Bool-cases, contains, contains-keep, length, length-contains, take, keep,
  All, same, eqb, ◌==◌, if-cases, arith,
}
use p2p_app.Visualizer.Simulation.{
  Edge, SimNode, neighbours, build_adjacency, sample_k, already_exists, live_ids, picks_of,
  is_orphan, heal_one, heal_all, compute_healing_edges,
}
use p2p_app.Visualizer.Simulation.Adjacency.{linked, linked-append, contains-build_adjacency}
use p2p_app.Visualizer.Simulation.Wave.{Shuffles, mem-sample_k}
use p2p_app.Visualizer.Simulation.NewEdges.{
  NoneTwice, Joins, Adds, Adds-refl, Adds-trans, IsCandidate, connect-Adds, already_exists-connect,
  already_exists-linked,
}

contains-live_ids :
    (nodes : List SimNode) (dead : List String) (n : String)
    → contains (live_ids nodes dead) n ≡ true
    → contains dead n ≡ false
unfolding live_ids contains keep
contains-live_ids [] dead n h = cc
contains-live_ids (m ∷ nodes) dead n h = ground (arith, contains-live_ids nodes dead n)

contains_first : (a : String) (xs : List String) → contains (a ∷ xs) a ≡ true
unfolding contains
contains_first a xs = ground arith

length-take : (n : ℕ) (xs : List String) → n ≤ length xs → length (take n xs) ≡ n
length-take zero xs h = refl
length-take (suc n) [] h = absurd (omega arith)
length-take (suc n) (x ∷ xs) h = omega (arith, length-take n xs)

module _ (shuffle : String → List String → List String) (adj : Dict (List String))
    (dead live : List String) (shuffles : (node : String) → Shuffles (shuffle node)) where
  picks-IsCandidate :
      (node p : String)
      → contains (picks_of shuffle adj dead live node) p ≡ true
      → IsCandidate live node p
  unfolding picks_of
  picks-IsCandidate node p m =
      let candidates = keep (λ n. not (eqb n node)) live in
      ground (
        arith,
        mem-sample_k (shuffle node) (shuffles node) candidates (min 2 (length candidates)) p m,
        contains-keep (λ n. not (eqb n node)) live p,
      )

  picks_some :
      (node other : String)
      → contains live other ≡ true
      → node ≢ other
      → 1 ≤ length (picks_of shuffle adj dead live node)
  unfolding picks_of sample_k
  picks_some node other alive apart =
      let candidates = keep (λ n. not (eqb n node)) live in
      let found : contains candidates other ≡ true =
        ground (arith, contains-keep (λ n. not (eqb n node)) live other, apart) in
      omega (
        arith,
        (shuffles node).same_length candidates,
        length-contains candidates other found,
        length-take (min 2 (length candidates)) (shuffle node candidates)
            (omega (arith, (shuffles node).same_length candidates)),
      )

  heal_one-Adds :
      (edges : List Edge) (node : String)
      → contains live node ≡ true
      → Adds live edges (heal_one shuffle adj dead live edges node)
  unfolding heal_one
  heal_one-Adds edges node alive =
      if-cases (Adds live edges) (is_orphan shuffle adj dead live node) _ _
        (λ orphan.
          connect-Adds live node (picks_of shuffle adj dead live node) edges alive
            (picks-IsCandidate node))
        (λ linked. Adds-refl edges)

  heal_all-Adds :
      (nodes : List String) (edges : List Edge)
      → ((n : String) → contains nodes n ≡ true → contains live n ≡ true)
      → Adds live edges (heal_all shuffle adj dead live edges nodes)
  unfolding heal_all contains
  heal_all-Adds [] edges alive = Adds-refl edges
  heal_all-Adds (node ∷ nodes) edges alive =
      Adds-trans (heal_one-Adds edges node (alive node (ground arith))) (
        heal_all-Adds nodes (heal_one shuffle adj dead live edges node)
          (λ n m. alive n (ground arith)))

  heal_one-connects :
      (edges : List Edge) (node other : String)
      → contains live node ≡ true
      → contains live other ≡ true
      → node ≢ other
      → is_orphan shuffle adj dead live node ≡ true
      → (p : String) × (already_exists node p (heal_one shuffle adj dead live edges node) ≡ true)
  unfolding heal_one
  heal_one-connects edges node other alive h apart orphan =
      elim (List-cases (picks_of shuffle adj dead live node)) [
        | inl none_left ↦
            let some_left = picks_some node other h apart in
            let no_length : length (picks_of shuffle adj dead live node) ≡ 0 = rw none_left in
            absurd (omega (arith, some_left, no_length))
        | inr (p, picks, e) ↦ (
          p,
          rw (orphan, e)
              (already_exists-connect live node edges p picks alive
                (λ q m. picks-IsCandidate node q (rw e m))),
        )
      ]

  -- An orphan among the nodes is connected to another live node.
  heal_all-connects :
      (nodes : List String) (edges : List Edge) (node other : String)
      → ((n : String) → contains nodes n ≡ true → contains live n ≡ true)
      → contains nodes node ≡ true
      → contains live other ≡ true
      → node ≢ other
      → is_orphan shuffle adj dead live node ≡ true
      → (p : String) × (already_exists node p (heal_all shuffle adj dead live edges nodes) ≡ true)
  unfolding heal_all contains
  heal_all-connects [] edges node other alive m h apart orphan = cc
  heal_all-connects (n ∷ nodes) edges node other alive m h apart orphan =
      let next = heal_one shuffle adj dead live edges n in
      let rest_alive : (q : String) → contains nodes q ≡ true → contains live q ≡ true =
        λ q k. alive q (ground arith) in
      elim (same n node) [
        | yes e ↦
            let first =
              heal_one-connects edges node other (alive node (ground arith)) h apart orphan in
            (first.0, (heal_all-Adds nodes next rest_alive).kept node first.0 (rw e first.1))
        | no ne ↦ heal_all-connects nodes next node other rest_alive (ground arith) h apart orphan
      ]

-- A healed network: the new edges join live nodes, no two of them the same, and no live node is left
-- alone while there is another one.
pub record Heals (dead live : List String) (edges new_edges : List Edge) : Type 0 where
  pub joins : All (Joins live) new_edges
  pub none_twice : NoneTwice new_edges
  pub linked_to :
      (node other : String)
      → contains live node ≡ true
      → contains live other ≡ true
      → node ≢ other
      → (b : String) × (linked dead (edges ++ new_edges) node b ≡ true)

-- A node that is no orphan is linked already.
is_orphan-linked :
    (shuffle : String → List String → List String) (edges : List Edge) (dead live : List String)
    (node : String)
    → is_orphan shuffle (build_adjacency edges dead) dead live node ≡ false
    → (b : String) × (linked dead edges node b ≡ true)
unfolding is_orphan
is_orphan-linked shuffle edges dead live node h =
    let others = neighbours (build_adjacency edges dead) node in
    let alive : String → Bool = λ n. not (contains dead n) in
    elim (List-cases (keep alive others)) [
      | inl none_left ↦ let orphan : (length (keep alive others) == 0) ≡ true = rw none_left in cc
      | inr (b, rest, e) ↦
          let first : contains (keep alive others) b ≡ true = rw e (contains_first b rest) in
          (
            b,
            ground (
              arith,
              contains-keep alive others b,
              contains-build_adjacency dead edges node b,
              first,
            ),
          )
    ]

-- With samples from any shuffles, which keep the members and the length of a list, healing adds edges between different live nodes only, no two between the
-- same nodes, and with them every live node has an edge to a live node, if there are two live nodes.
pub compute_healing_edges-Heals :
    (shuffle : String → List String → List String) (edges : List Edge) (dead : List String)
    (nodes : List SimNode)
    → ((node : String) → Shuffles (shuffle node))
    → Heals dead (live_ids nodes dead) edges (compute_healing_edges shuffle edges dead nodes)
unfolding compute_healing_edges
compute_healing_edges-Heals shuffle edges dead nodes shuffles =
    let live = live_ids nodes dead in
    let adj = build_adjacency edges dead in
    let new_edges = heal_all shuffle adj dead live [] live in
    let added = heal_all-Adds shuffle adj dead live shuffles live [] (λ n m. m) in
    record {
      joins = added.joins tt;
      none_twice = added.none_twice tt;
      linked_to = λ node other m h apart. elim (Bool-cases (is_orphan shuffle adj dead live node)) [
        | inl orphan ↦
            let new =
              heal_all-connects shuffle adj dead live shuffles live [] node other (λ n k. k) m h
                apart orphan in
            let l =
              already_exists-linked dead live new_edges node new.0 (contains-live_ids nodes dead)
                (added.joins tt) new.1 in
            (new.0, ground (arith, linked-append dead edges new_edges node new.0))
        | inr linked_before ↦
            let (b, l) = is_orphan-linked shuffle edges dead live node linked_before in
            (b, ground (arith, linked-append dead edges new_edges node b))
      ];
    }
