-- ===== src/Visualizer/GossipState/Tests.antt =====
-- visualizer/src/hooks/useGossipState.js: runs of the simulation.
use p2p_app.Prelude.{ℕ, ◌*◌, ◌/◌, String, ◌≡◌, refl, true, List, [], ◌∷◌, All, pos}
use p2p_app.Visualizer.Simulation.Wave.{Shuffles}
use p2p_app.Visualizer.Simulation.{Transmission}
use p2p_app.Visualizer.SimMetrics.{Animation, Rounding}
use p2p_app.Visualizer.GossipState.{
  show, GossipState, Action, send, timer, kill, heal, initial_state, fire, reset, run,
}
use p2p_app.Visualizer.GossipState.Consistent.{IsConsistent, IsFair, run-initial_state-IsConsistent}
use p2p_app.Visualizer.GossipState.Animations.{metrics-fire-reset}

abbrev in_order : String → List String → List String
in_order node xs = xs

in_order-Shuffles : (node : String) → Shuffles (in_order node)
in_order-Shuffles node = record { same_members = λ xs a. refl; same_length = λ xs. refl }

abbrev steady : ℕ → ℕ → ℕ → ℕ
steady hop_latency hop i = hop_latency

-- Rounding down.
abbrev downwards : Rounding
downwards = record { hundredths = λ a b. a * 100 / b; per_second = λ a b. a * 1000 / b }

abbrev session : List Action
session =
    send in_order steady "m1" 0
    ∷ timer 300 0
    ∷ kill "C"
    ∷ timer 600 0
    ∷ send in_order steady "m2" 700
    ∷ heal in_order
    ∷ []

session-IsFair : All (IsFair downwards) session
session-IsFair = (in_order-Shuffles, (tt, (tt, (tt, (in_order-Shuffles, (tt, tt))))))

run-initial_state-IsConsistent_example : IsConsistent (run downwards initial_state session)
run-initial_state-IsConsistent_example =
    run-initial_state-IsConsistent downwards session session-IsFair

-- A reset before the last timer of an animation.
abbrev last_transmission : Transmission
last_transmission = record { from = "A"; to = "B"; msg_id = "m1"; hop = 1; latency_ms = 300 }

abbrev one_sent : Animation
one_sent = record {
  hops = 1;
  total = 1;
  delivered = 1;
  avg_lat = 300;
  peak_lat = 300;
  theoretical_min = pos 1;
  fanout = 2;
  start_time = 0;
}

abbrev showing : GossipState
showing = record initial_state {
  animating = true;
  is_animating = true;
  timers = show last_transmission [] one_sent ∷ [];
}

-- The message that was sent before the reset is counted after it.
after_reset : (fire downwards 300 0 (reset showing)).metrics.total_sent ≡ 1
after_reset = (metrics-fire-reset downwards 300 showing last_transmission one_sent refl).0
