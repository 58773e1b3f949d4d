-- ===== src/Visualizer/SimMetrics.antt =====
-- visualizer/src/hooks/useGossipState.js: the numbers on the screen, and what the end of an animation
-- adds to them. Ratios that are rounded from floating-point quotients are a parameter, and the clock
-- does not go back during an animation.
use p2p_app.Prelude.{
  ℕ, ◌+◌, ◌-◌, ◌*◌, ◌/◌, max, List, [], ◌∷◌, ◌++◌, length, drop, ltb, ◌==◌, if◌then◌else◌, ℤ, pos,
  ◌+ℤ◌, is_pos, pos_part,
}
use p2p_app.Visualizer.Simulation.{Transmission, initial_nodes}

pub record SimMetrics : Type 0 where
  pub total_sent : ℕ
  pub delivered : ℕ
  pub duplicates_dropped : ℕ
  pub active_nodes : ℤ
  pub failed_nodes : ℕ
  pub throughput : ℕ
  pub avg_latency_ms : ℕ
  pub peak_latency_ms : ℕ
  pub propagation_time_ms : ℕ
  pub fanout : ℕ
  pub total_transmissions : ℕ
  pub theoretical_min : ℤ
  -- In hundredths.
  pub amplification_factor : ℕ
  pub max_hops : ℕ
  pub reconnection_events : ℕ
  pub retry_count : ℕ
  pub latency_history : List ℕ

abbrev pub default_fanout : ℕ
default_fanout = 2

abbrev pub default_hop_latency_ms : ℕ
default_hop_latency_ms = 300

unfoldable pub make_initial_metrics : SimMetrics
make_initial_metrics = record {
  total_sent = 0;
  delivered = 0;
  duplicates_dropped = 0;
  active_nodes = pos (length initial_nodes);
  failed_nodes = 0;
  throughput = 0;
  avg_latency_ms = 0;
  peak_latency_ms = 0;
  propagation_time_ms = 0;
  fanout = default_fanout;
  total_transmissions = 0;
  theoretical_min = pos 0;
  amplification_factor = 0;
  max_hops = 0;
  reconnection_events = 0;
  retry_count = 0;
  latency_history = [];
}

-- What a call of sendMessage keeps for its timers.
pub record Animation : Type 0 where
  pub hops : ℕ
  pub total : ℕ
  pub delivered : ℕ
  pub avg_lat : ℕ
  pub peak_lat : ℕ
  pub theoretical_min : ℤ
  pub fanout : ℕ
  pub start_time : ℕ

unfoldable pub latency_sum : List Transmission → ℕ
latency_sum [] = 0
latency_sum (tx ∷ rest) = tx.latency_ms + latency_sum rest

-- `Math.round` of the mean, and 0 for no transmission.
unfoldable pub average_latency : List Transmission → ℕ
unfolding latency_sum
average_latency txs =
    if length txs == 0 then 0 else (2 * latency_sum txs + length txs) / (2 * length txs)

unfoldable pub peak_latency : List Transmission → ℕ
peak_latency [] = 0
peak_latency (tx ∷ rest) = max tx.latency_ms (peak_latency rest)

-- `history.slice(-20)`
unfoldable pub last_20 : List ℕ → List ℕ
last_20 xs = drop (length xs - 20) xs

-- The rounded quotients: `parseFloat((a / b).toFixed(2))` in hundredths, and
-- `Math.round((a / b) * 1000)`.
pub record Rounding : Type 0 where
  pub hundredths : ℕ → ℕ → ℕ
  pub per_second : ℕ → ℕ → ℕ

module _ (rounding : Rounding) where
  -- The function that `setMetrics` is given at the end of an animation.
  unfoldable pub completed_metrics : Animation → ℕ → SimMetrics → SimMetrics
  unfolding last_20
  completed_metrics a propagation_ms prev = record prev {
    total_sent = prev.total_sent + 1;
    delivered = prev.delivered + a.delivered;
    duplicates_dropped = prev.duplicates_dropped + (a.total - a.delivered);
    throughput =
        if ltb 0 propagation_ms
        then rounding.per_second a.delivered propagation_ms
        else a.delivered;
    avg_latency_ms = a.avg_lat;
    peak_latency_ms = max prev.peak_latency_ms a.peak_lat;
    propagation_time_ms = propagation_ms;
    total_transmissions = prev.total_transmissions + a.total;
    theoretical_min = prev.theoretical_min +ℤ a.theoretical_min;
    amplification_factor =
        if is_pos a.theoretical_min
        then rounding.hundredths a.total (pos_part a.theoretical_min)
        else 0;
    max_hops = max prev.max_hops a.hops;
    fanout = a.fanout;
    latency_history = last_20 (prev.latency_history ++ a.avg_lat ∷ []);
  }
