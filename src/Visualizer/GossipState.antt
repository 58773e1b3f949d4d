-- ===== src/Visualizer/GossipState.antt =====
-- visualizer/src/hooks/useGossipState.js: the state of the simulation and its actions. An action works
-- on the state that was rendered last. The pending timers are a list; the time in front of an entry of
-- the log is left out.
pub mod Consistent
pub mod Animations
mod Tests
use p2p_app.Prelude.{
  ℕ, zero, suc, ◌+◌, ◌-◌, ◌*◌, ◌/◌, ◌≡◌, max, String, Bool, true, false, not, List, [], ◌∷◌, ◌++◌,
  map, Option, none, some, contains, add, length, drop, take, get_elem?, joined, ltb, ◌==◌,
  if◌then◌else◌, ℤ, pos, sub_ℕ, ◌+ℤ◌, is_pos, pos_part,
}
use p2p_app.Visualizer.Simulation.{
  SimNode, Edge, Transmission, Outcome, initial_nodes, initial_edges, live_ids,
  compute_gossip_waves, compute_healing_edges,
}
use p2p_app.Visualizer.Simulation.Counts.{total_tx}
use p2p_app.Visualizer.SimMetrics.{
  Animation, Rounding, SimMetrics, average_latency, completed_metrics, default_fanout,
  default_hop_latency_ms, last_20, latency_sum, make_initial_metrics, peak_latency,
}

pub data LogEntry : Type 0 where
  ready : LogEntry
  started : String → ℕ → ℕ → LogEntry
  completed : ℕ → ℕ → ℕ → ℕ → LogEntry
  killed : String → LogEntry
  already_connected : LogEntry
  healed : ℕ → LogEntry
  was_reset : LogEntry

-- A timer shows a transmission, with those that follow it, or ends the animation.
pub data Timer : Type 0 where
  show : Transmission → List Transmission → Animation → Timer
  settle : Timer

pub record GossipState : Type 0 where
  pub nodes : List SimNode
  pub edges : List Edge
  pub dead_nodes : List String
  pub active_edge : Option (String × String)
  pub lit_nodes : List String
  pub metrics : SimMetrics
  pub is_animating : Bool
  pub animating : Bool
  pub fanout : ℕ
  pub hop_latency : ℕ
  pub status_log : List LogEntry
  pub timers : List Timer

unfoldable pub initial_state : GossipState
unfolding make_initial_metrics
initial_state = record {
  nodes = initial_nodes;
  edges = initial_edges;
  dead_nodes = [];
  active_edge = none;
  lit_nodes = [];
  metrics = make_initial_metrics;
  is_animating = false;
  animating = false;
  fanout = default_fanout;
  hop_latency = default_hop_latency_ms;
  status_log = ready ∷ [];
  timers = [];
}

unfoldable pub log : LogEntry → GossipState → GossipState
log entry s = record s { status_log = take 50 (entry ∷ s.status_log) }

module _ (rounding : Rounding) where
  -- scheduleNext, with the transmissions that are left.
  unfoldable pub schedule_next : ℕ → List Transmission → Animation → GossipState → GossipState
  unfolding log
  schedule_next now [] a s =
      let propagation_ms = now - a.start_time in
      let done : GossipState = record s {
        active_edge = none;
        metrics = completed_metrics rounding a propagation_ms s.metrics;
        timers = s.timers ++ settle ∷ [];
      } in
      log (completed a.delivered (a.total - a.delivered) a.hops propagation_ms) done
  schedule_next now (tx ∷ rest) a s = record s { timers = s.timers ++ show tx rest a ∷ [] }

  -- The callbacks of the timers.
  unfoldable pub on_timer : ℕ → Timer → GossipState → GossipState
  on_timer now (show tx rest a) s =
      schedule_next now rest a
        (record s { active_edge = some (tx.from, tx.to); lit_nodes = add s.lit_nodes tx.to })
  on_timer now settle s = record s { lit_nodes = []; animating = false; is_animating = false }

  -- The i-th pending timer goes off.
  unfoldable pub fire : ℕ → ℕ → GossipState → GossipState
  fire now i s = elim (get_elem? s.timers i) [
    | none ↦ s
    | some t ↦ on_timer now t (record s { timers = take i s.timers ++ drop (i + 1) s.timers })
  ]

  -- `latency` gives the latencies that a hop latency has with the jitter.
  module _ (shuffle : String → List String → List String) (latency : ℕ → ℕ → ℕ → ℕ) where
    unfoldable pub animation_of : GossipState → ℕ → Outcome → Animation
    unfolding average_latency peak_latency live_ids
    animation_of s now o =
        let all = joined o.waves in
        record {
          hops = length o.waves;
          total = total_tx o.waves;
          delivered = length o.reached - 1;
          avg_lat = average_latency all;
          peak_lat = peak_latency all;
          theoretical_min = sub_ℕ (length (live_ids s.nodes s.dead_nodes)) 1;
          fanout = s.fanout;
          start_time = now;
        }

    -- sendMessage, from its computation of the waves on.
    unfoldable pub begin : GossipState → String → ℕ → Outcome → GossipState
    unfolding log animation_of
    begin s msg_id now o =
        let logged =
          log (started msg_id (length (live_ids s.nodes s.dead_nodes)) s.fanout)
            (record s { animating = true; is_animating = true }) in
        schedule_next now (joined o.waves) (animation_of s now o)
          (record logged { lit_nodes = "A" ∷ [] })

    unfoldable pub send_message : GossipState → String → ℕ → GossipState
    send_message s msg_id now =
        if s.animating
        then s
        else elim (compute_gossip_waves shuffle (latency s.hop_latency) (2 * length s.edges + 1)
            msg_id "A" s.edges s.dead_nodes s.fanout) [ none ↦ s | some o ↦ begin s msg_id now o ]

unfoldable pub kill_node : String → GossipState → GossipState
unfolding log
kill_node node_id s =
    if contains s.dead_nodes node_id
    then s
    else let new_dead_nodes = add s.dead_nodes node_id in
      let failed_count = length new_dead_nodes in
      let logged = log (killed node_id) s in
      record logged {
        dead_nodes = new_dead_nodes;
        metrics = record s.metrics {
          active_nodes = sub_ℕ (length s.nodes) failed_count;
          failed_nodes = failed_count;
        };
      }

unfoldable pub heal_network : (String → List String → List String) → GossipState → GossipState
unfolding log
heal_network shuffle s =
    let new_edges = compute_healing_edges shuffle s.edges s.dead_nodes s.nodes in
    if length new_edges == 0
    then log already_connected s
    else log (healed (length new_edges)) (record s {
      edges = s.edges ++ new_edges;
      metrics = record s.metrics {
        reconnection_events = s.metrics.reconnection_events + length new_edges;
      };
    })

unfoldable pub reset : GossipState → GossipState
unfolding make_initial_metrics log
reset s = log was_reset (record s {
  nodes = initial_nodes;
  edges = initial_edges;
  dead_nodes = [];
  active_edge = none;
  lit_nodes = [];
  metrics = record make_initial_metrics { fanout = s.fanout };
  is_animating = false;
  animating = false;
})

-- What can happen to the state.
pub data Action : Type 0 where
  send : (String → List String → List String) → (ℕ → ℕ → ℕ → ℕ) → String → ℕ → Action
  timer : ℕ → ℕ → Action
  kill : String → Action
  heal : (String → List String → List String) → Action
  start_over : Action
  set_fanout set_hop_latency : ℕ → Action

unfoldable pub act : Rounding → GossipState → Action → GossipState
act rounding s (send shuffle latency msg_id now) =
    send_message rounding shuffle latency s msg_id now
act rounding s (timer now i) = fire rounding now i s
act rounding s (kill node_id) = kill_node node_id s
act rounding s (heal shuffle) = heal_network shuffle s
act rounding s start_over = reset s
act rounding s (set_fanout n) = record s { fanout = n }
act rounding s (set_hop_latency ms) = record s { hop_latency = ms }

unfoldable pub run : Rounding → GossipState → List Action → GossipState
run rounding s [] = s
run rounding s (a ∷ actions) = run rounding (act rounding s a) actions
