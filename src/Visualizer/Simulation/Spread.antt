-- ===== src/Visualizer/Simulation/Spread.antt =====
-- visualizer/src/simulation/gossipEngine.js: whom a round reaches, and at what cost.
use p2p_app.Prelude.{
  ℕ, zero, suc, ◌+◌, ◌*◌, ◌≤◌, String, ◌≡◌, refl, ◌⊎◌, inl, inr, true, false, some, List, [], ◌∷◌,
  List-cases, Bool-cases, contains, Distinct, Distinct-length-le, length, arith,
}
use p2p_app.Visualizer.Simulation.{
  Edge, Outcome, Progress, Round, Transmission, neighbours, build_adjacency, wave, push_wave,
  spread, compute_gossip_waves,
}
use p2p_app.Visualizer.Simulation.Adjacency.{linked, contains-build_adjacency}
use p2p_app.Visualizer.Simulation.Wave.{Shuffles, is_picked, Steps, wave-Steps}
use p2p_app.Visualizer.Simulation.Counts.{total_tx, total_tx-push_wave, length-wave-le}
use p2p_app.Visualizer.Simulation.Reach.{
  Reach, here, step, ends, length-ends, Reach-ends, IsOver, IsWide, picked-linked, linked-picked,
}

mul_split : (f a b c : ℕ) → c ≡ a + b → f * c ≡ f * a + f * b
mul_split f a b c e = grind arith

-- The state between two waves.
pub record Inv (dead : List String) (edges : List Edge) (source : String) (r : Round)
    (waves : List (List Transmission)) (seen frontier : List String) : Type 0 where
  pub distinct : Distinct seen
  pub begun : contains seen source ≡ true
  pub within : (a : String) → contains frontier a ≡ true → contains seen a ≡ true
  pub sound : (a : String) → contains seen a ≡ true → Reach dead edges source a
  pub closed :
      IsWide r
      → (a b : String) → contains seen a ≡ true
      → contains frontier a ≡ false
      → linked dead edges a b ≡ true
      → contains seen b ≡ true
  pub paid : length seen ≤ total_tx waves + 1
  pub capped : total_tx waves + r.fanout * length frontier ≤ r.fanout * length seen

module _ {dead : List String} {edges : List Edge} {source : String} {r : Round} where
  Inv-init : Inv dead edges source r [] (source ∷ []) (source ∷ [])
  unfolding contains total_tx
  Inv-init = record {
    distinct = (refl, tt);
    begun = ground arith;
    within = λ a m. m;
    sound = λ a m. let e : a ≡ source = ground arith in rw e here;
    closed = λ wide a b m out l. ground arith;
    paid = omega arith;
    capped = omega arith;
  }

  Inv-wave :
      IsOver dead edges r
      → {waves : List (List Transmission)} {seen frontier : List String} → (p : Progress)
      → Inv dead edges source r waves seen frontier
      → Steps (is_picked r frontier) (record { events = []; seen = seen; next = [] }) p
      → length p.events ≤ r.fanout * length frontier
      → Inv dead edges source r (push_wave waves p.events) p.seen p.next
  unfolding contains
  Inv-wave over {waves} {seen} {frontier} p i s cost = record {
    distinct = s.distinct i.distinct;
    begun = ground (arith, s.seen source, i.begun);
    within = λ a m. ground (arith, s.seen a, s.next a);
    sound = λ a m. elim (Bool-cases (contains seen a)) [
      | inl old ↦ i.sound a old
      | inr new ↦
          let from = picked-linked dead edges r over frontier a (ground (arith, s.seen a)) in
          step (i.sound from.0 (i.within from.0 from.1)) from.2
    ];
    closed = λ wide a b m out l. ground (
      arith,
      s.seen a,
      s.next a,
      s.seen b,
      linked-picked dead edges r over wide frontier a b,
      i.closed wide a b,
    );
    paid = omega (arith, i.paid, s.paid, total_tx-push_wave waves p.events);
    capped = omega (
      arith,
      i.capped,
      cost,
      total_tx-push_wave waves p.events,
      mul_split r.fanout (length seen) (length p.next) (length p.seen) (omega (arith, s.grown)),
    );
  }

  -- The fuel left covers the nodes that have not been seen.
  spread-Inv :
      IsOver dead edges r
      → (fuel : ℕ) (waves : List (List Transmission)) (seen frontier : List String)
      → Inv dead edges source r waves seen frontier
      → (frontier ≡ []) ⊎ (2 * length edges + 2 ≤ fuel + length seen)
      → (o : Outcome) × (spread r fuel waves seen frontier ≡ some o)
        × Inv dead edges source r o.waves o.reached []
  unfolding spread
  spread-Inv over fuel waves seen [] i enough = (record { waves = waves; reached = seen }, refl, i)
  spread-Inv over zero waves seen (node ∷ frontier) i (inl e) = cc
  spread-Inv over zero waves seen (node ∷ frontier) i (inr enough) = absurd (
      omega (
        arith,
        Distinct-length-le seen (source ∷ ends edges) i.distinct (λ a m. Reach-ends (i.sound a m)),
        length-ends edges,
      ))
  spread-Inv over (suc fuel) waves seen (node ∷ frontier) i enough =
      let start : Progress = record { events = []; seen = seen; next = [] } in
      let hop = length waves + 1 in
      let p = wave r hop start (node ∷ frontier) in
      let s = wave-Steps r hop start (node ∷ frontier) in
      spread-Inv over fuel (push_wave waves p.events) p.seen p.next
        (Inv-wave over p i s (omega (arith, length-wave-le r hop start (node ∷ frontier))))
        (elim (List-cases p.next) [
          | inl e ↦ inl e
          | inr (x, rest, e) ↦ inr (ground (arith, s.grown, enough))
        ])

Reach-seen :
    {dead : List String} {edges : List Edge} {source : String} {r : Round}
    {waves : List (List Transmission)} {seen : List String}
    → IsWide r
    → Inv dead edges source r waves seen []
    → {a : String} → Reach dead edges source a
    → contains seen a ≡ true
unfolding contains
Reach-seen wide i here = i.begun
Reach-seen wide i (step {a} {b} before l) = i.closed wide a b (Reach-seen wide i before) refl l

-- The nodes that a round should reach.
pub record Reaches (dead : List String) (edges : List Edge) (source : String) (fanout : ℕ)
    (reached : List String) : Type 0 where
  pub distinct : Distinct reached
  pub sound : (a : String) → contains reached a ≡ true → Reach dead edges source a
  pub complete :
      ((node : String) → length (neighbours (build_adjacency edges dead) node) ≤ fanout)
      → (a : String) → Reach dead edges source a
      → contains reached a ≡ true

module _ (shuffle : String → List String → List String) (latency : ℕ → ℕ → ℕ)
    (msg_id source : String) (edges : List Edge) (dead : List String) (fanout fuel : ℕ)
    (shuffles : (node : String) → Shuffles (shuffle node))
    (enough : 2 * length edges + 1 ≤ fuel) where
  abbrev the_round : Round
  the_round = record {
    shuffle = shuffle;
    latency = latency;
    msg_id = msg_id;
    adj = build_adjacency edges dead;
    fanout = fanout;
  }

  compute_gossip_waves-Inv :
      (o : Outcome) × (compute_gossip_waves shuffle latency fuel msg_id source edges dead fanout
        ≡ some o)
      × Inv dead edges source the_round o.waves o.reached []
  unfolding compute_gossip_waves
  compute_gossip_waves-Inv =
      let over : IsOver dead edges the_round = record {
        joined = contains-build_adjacency dead edges;
        shuffles = shuffles;
      } in
      spread-Inv over fuel [] (source ∷ []) (source ∷ []) Inv-init (inr (omega (arith, enough)))

  -- With samples from any shuffles, which keep the members and the length of a list, a round ends, with fuel for two waves for each edge and one more. It
  -- reaches no node twice, and only nodes to which a chain of edges between live nodes leads from the
  -- source; it reaches all of these when no node has more neighbours than the fanout.
  pub compute_gossip_waves-Reaches :
      (o : Outcome) × (compute_gossip_waves shuffle latency fuel msg_id source edges dead fanout
        ≡ some o)
      × Reaches dead edges source fanout o.reached
  compute_gossip_waves-Reaches =
      let (o, e, i) = compute_gossip_waves-Inv in
      (
        o,
        e,
        record {
          distinct = i.distinct;
          sound = i.sound;
          complete = λ wide a way. Reach-seen wide i way;
        },
      )

  -- With samples from any shuffles, which keep the members and the length of a list, a round ends, with
  -- fuel for two waves for each edge and one more. The nodes that it reaches beside the source, which is
  -- one of those reached, are no more than its transmissions, and these no more than the fanout times
  -- the nodes reached.
  pub compute_gossip_waves_cost :
      (o : Outcome) × (compute_gossip_waves shuffle latency fuel msg_id source edges dead fanout
        ≡ some o)
      × (length o.reached ≤ total_tx o.waves + 1)
      × (total_tx o.waves ≤ fanout * length o.reached)
      × (contains o.reached source ≡ true)
  compute_gossip_waves_cost =
      let (o, e, i) = compute_gossip_waves-Inv in (o, e, i.paid, omega (arith, i.capped), i.begun)
