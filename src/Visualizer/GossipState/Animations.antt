-- ===== src/Visualizer/GossipState/Animations.antt =====
-- visualizer/src/hooks/useGossipState.js: one animation at a time, until the network is reset.
use p2p_app.Prelude.{
  ℕ, zero, suc, ◌+◌, ◌*◌, String, ◌≡◌, refl, inl, inr, true, false, List, [], ◌∷◌, length, All,
  joined, if-cases, Option-cases, ◌==◌, contains, arith,
}
use p2p_app.Visualizer.Simulation.{Transmission, compute_gossip_waves, compute_healing_edges}
use p2p_app.Visualizer.SimMetrics.{completed_metrics, make_initial_metrics, Animation, Rounding}
use p2p_app.Visualizer.GossipState.{
  Timer, show, settle, GossipState, Action, send, timer, kill, heal, start_over, set_fanout,
  set_hop_latency, log, schedule_next, on_timer, fire, begin, send_message, kill_node, heal_network,
  reset, act, run,
}

-- The simulation is busy exactly while its one timer is pending.
pub data IsExclusive (s : GossipState) : Type 0 where
  idle : s.animating ≡ false → s.is_animating ≡ false → s.timers ≡ [] → IsExclusive s
  busy :
      (t : Timer) → s.animating ≡ true → s.is_animating ≡ true → s.timers ≡ t ∷ [] → IsExclusive s

IsExclusive-same :
    {s t : GossipState}
    → t.animating ≡ s.animating
    → t.is_animating ≡ s.is_animating
    → t.timers ≡ s.timers
    → IsExclusive s
    → IsExclusive t
IsExclusive-same a i e (idle x y z) = idle (rw a x) (rw i y) (rw e z)
IsExclusive-same a i e (busy t x y z) = busy t (rw a x) (rw i y) (rw e z)

-- Every action but a reset.
abbrev pub IsNoReset : Action → Type 0
IsNoReset start_over = ⊥
IsNoReset _ = Unit {0}

module _ (rounding : Rounding) where
  -- With no timer pending, the next one is set.
  schedule_next-IsExclusive :
      (now : ℕ) (rest : List Transmission) (a : Animation) (s : GossipState)
      → s.animating ≡ true
      → s.is_animating ≡ true
      → s.timers ≡ []
      → IsExclusive (schedule_next rounding now rest a s)
  unfolding schedule_next log
  schedule_next-IsExclusive now [] a s x y z = busy settle x y (rw z refl)
  schedule_next-IsExclusive now (tx ∷ rest) a s x y z = busy (show tx rest a) x y (rw z refl)

  fire-IsExclusive :
      (now i : ℕ) (s : GossipState) → IsExclusive s → IsExclusive (fire rounding now i s)
  unfolding fire on_timer
  fire-IsExclusive now i s (idle x y z) = rw (fire, z) (idle x y z)
  fire-IsExclusive now (suc i) s (busy t x y z) = rw (fire, z) (busy t x y z)
  fire-IsExclusive now zero s (busy (show tx rest a) x y z) =
      rw (fire, z) (schedule_next-IsExclusive now rest a _ x y (rw z refl))
  fire-IsExclusive now zero s (busy settle x y z) = rw (fire, z) (idle refl refl (rw z refl))

  send_message-IsExclusive :
      (shuffle : String → List String → List String) (latency : ℕ → ℕ → ℕ → ℕ) (s : GossipState)
      (msg_id : String) (now : ℕ)
      → IsExclusive s
      → IsExclusive (send_message rounding shuffle latency s msg_id now)
  unfolding send_message begin log
  send_message-IsExclusive shuffle latency s msg_id now (busy t x y z) =
      if-cases IsExclusive s.animating _ _ (λ on. busy t x y z) (λ off. absurd (cc (x, off)))
  send_message-IsExclusive shuffle latency s msg_id now (idle x y z) =
      elim (Option-cases (
        compute_gossip_waves shuffle (latency s.hop_latency) (2 * length s.edges + 1) msg_id "A"
          s.edges s.dead_nodes s.fanout)) [
            | inl e ↦ rw (x, e) (idle x y z)
            | inr (o, e) ↦
                rw (x, e) (schedule_next-IsExclusive now (joined o.waves) _ _ refl refl z)
          ]

  act-IsExclusive :
      (s : GossipState) (a : Action) → IsNoReset a → IsExclusive s → IsExclusive (act rounding s a)
  unfolding act kill_node heal_network log
  act-IsExclusive s (send shuffle latency msg_id now) kept x =
      send_message-IsExclusive shuffle latency s msg_id now x
  act-IsExclusive s (timer now i) kept x = fire-IsExclusive now i s x
  act-IsExclusive s (kill node_id) kept x =
      if-cases IsExclusive (contains s.dead_nodes node_id) _ _ (λ dead. x)
        (λ live. IsExclusive-same refl refl refl x)
  act-IsExclusive s (heal shuffle) kept x =
      if-cases IsExclusive
        (length (compute_healing_edges shuffle s.edges s.dead_nodes s.nodes) == 0) _ _
        (λ none_new. IsExclusive-same refl refl refl x)
        (λ some_new. IsExclusive-same refl refl refl x)
  act-IsExclusive s start_over kept x = absurd kept
  act-IsExclusive s (set_fanout n) kept x = IsExclusive-same refl refl refl x
  act-IsExclusive s (set_hop_latency ms) kept x = IsExclusive-same refl refl refl x

  -- Without a reset, whatever else the user does, the simulation is animating exactly while one timer
  -- is pending, and never has two.
  pub run-IsExclusive :
      (s : GossipState) (actions : List Action)
      → All IsNoReset actions
      → IsExclusive s
      → IsExclusive (run rounding s actions)
  unfolding run
  run-IsExclusive s [] kept x = x
  run-IsExclusive s (a ∷ actions) kept x =
      run-IsExclusive (act rounding s a) actions kept.1 (act-IsExclusive s a kept.0 x)

-- A reset leaves the timer of the animation pending: when it is the last one of the animation and goes
-- off, the metrics that the reset has cleared count the message that was sent before.
pub metrics-fire-reset :
    (rounding : Rounding) (now : ℕ) (s : GossipState) (tx : Transmission) (a : Animation)
    → s.timers ≡ show tx [] a ∷ []
    → ((fire rounding now 0 (reset s)).metrics.total_sent ≡ 1)
      × ((fire rounding now 0 (reset s)).metrics.total_transmissions ≡ a.total)
unfolding fire on_timer reset schedule_next log completed_metrics make_initial_metrics
metrics-fire-reset rounding now s tx a pending =
    (rw (fire, pending) refl, rw (fire, pending) (omega arith))
