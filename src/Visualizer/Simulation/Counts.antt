-- ===== src/Visualizer/Simulation/Counts.antt =====
-- visualizer/src/simulation/gossipEngine.js: how many transmissions a wave has, and the `totalTx` of
-- hooks/useGossipState.js.
use p2p_app.Prelude.{
  ℕ, ◌+◌, ◌*◌, ◌≤◌, String, ◌≡◌, List, [], ◌∷◌, ◌++◌, length, length-append, arith,
}
use p2p_app.Visualizer.Simulation.{
  Progress, Round, Transmission, transmission, transmit, transmit_all, targets_of, wave, push_wave,
}
use p2p_app.Visualizer.Simulation.Wave.{length-targets_of}

-- `waves.reduce((s, w) => s + w.length, 0)`
unfoldable pub total_tx : List (List Transmission) → ℕ
total_tx [] = 0
total_tx (w ∷ waves) = length w + total_tx waves

total_tx-snoc :
    (waves : List (List Transmission)) (w : List Transmission)
    → total_tx (waves ++ w ∷ []) ≡ total_tx waves + length w
unfolding total_tx
total_tx-snoc [] w = omega arith
total_tx-snoc (v ∷ waves) w = omega (arith, total_tx-snoc waves w)

-- A wave without transmissions is left out, which changes no sum.
pub total_tx-push_wave :
    (waves : List (List Transmission)) (w : List Transmission)
    → total_tx (push_wave waves w) ≡ total_tx waves + length w
unfolding push_wave
total_tx-push_wave waves w = ground (arith, total_tx-snoc waves w)

module _ (r : Round) where
  length-transmit :
      (hop : ℕ) (node : String) (p : Progress) (t : String)
      → length (transmit r hop node p t).events ≡ length p.events + 1
  unfolding transmit
  length-transmit hop node p t =
      let tx = transmission r hop node (length p.events) t in
      ground (arith, length-append p.events (tx ∷ []))

  length-transmit_all :
      (hop : ℕ) (node : String) (p : Progress) (targets : List String)
      → length (transmit_all r hop node p targets).events ≡ length p.events + length targets
  unfolding transmit_all
  length-transmit_all hop node p [] = omega arith
  length-transmit_all hop node p (t ∷ targets) = omega (
    arith,
    length-transmit_all hop node (transmit r hop node p t) targets,
    length-transmit hop node p t,
  )

  -- Each node of the frontier sends at most as often as the fanout says.
  pub length-wave-le :
      (hop : ℕ) (p : Progress) (frontier : List String)
      → length (wave r hop p frontier).events ≤ length p.events + r.fanout * length frontier
  unfolding wave
  length-wave-le hop p [] = omega arith
  length-wave-le hop p (node ∷ frontier) = grind (
    arith,
    length-wave-le hop (transmit_all r hop node p (targets_of r node)) frontier,
    length-transmit_all hop node p (targets_of r node),
    length-targets_of r node,
  )
