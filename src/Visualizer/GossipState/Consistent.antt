-- ===== src/Visualizer/GossipState/Consistent.antt =====
-- visualizer/src/hooks/useGossipState.js: what the numbers on the screen have to do with each other.
use p2p_app.Prelude.{
  ℕ, ◌+◌, ◌-◌, ◌≤◌, String, ◌≡◌, refl, true, List, [], ◌∷◌, ◌++◌, contains, Distinct, Distinct-add,
  length, length-drop, length-take-le, take, drop, get_elem?, All, All-append, All-take, All-drop,
  All-get_elem?, if-cases, Option-cases, joined, inl, inr, ◌*◌, sub_ℕ, ◌==◌, arith,
}
use p2p_app.Visualizer.Simulation.{Outcome, Transmission, live_ids, compute_healing_edges}
use p2p_app.Visualizer.Simulation.Wave.{Shuffles}
use p2p_app.Visualizer.Simulation.Counts.{total_tx}
use p2p_app.Visualizer.Simulation.Spread.{compute_gossip_waves_cost}
use p2p_app.Visualizer.SimMetrics.{Animation, Rounding, last_20, completed_metrics}
use p2p_app.Visualizer.GossipState.{
  Timer, show, settle, GossipState, Action, send, timer, kill, heal, start_over, set_fanout,
  set_hop_latency, initial_state, log, LogEntry, started, killed, healed, already_connected,
  was_reset, schedule_next, on_timer, fire, begin, send_message, kill_node, heal_network, reset,
  act, run,
}

-- A pending animation does not count more deliveries than transmissions.
abbrev pub IsPaid : Timer → Type 0
IsPaid (show tx rest a) = a.delivered ≤ a.total
IsPaid settle = Unit {0}

pub record IsConsistent (s : GossipState) : Type 0 where
  pub sums : s.metrics.delivered + s.metrics.duplicates_dropped ≡ s.metrics.total_transmissions
  pub failed : s.metrics.failed_nodes ≡ length s.dead_nodes
  pub active : s.metrics.active_nodes ≡ sub_ℕ (length s.nodes) (length s.dead_nodes)
  pub dead_once : Distinct s.dead_nodes
  pub history : length s.metrics.latency_history ≤ 20
  pub logged : length s.status_log ≤ 50
  pub pending : All IsPaid s.timers

IsConsistent-initial_state : IsConsistent initial_state
unfolding initial_state
IsConsistent-initial_state = record {
  sums = refl;
  failed = refl;
  active = refl;
  dead_once = tt;
  history = omega arith;
  logged = omega arith;
  pending = tt;
}

-- Only the numbers on the screen matter, with the log and the timers.
IsConsistent-same :
    {s t : GossipState}
    → t.metrics ≡ s.metrics
    → t.nodes ≡ s.nodes
    → t.dead_nodes ≡ s.dead_nodes
    → t.status_log ≡ s.status_log
    → All IsPaid t.timers
    → IsConsistent s
    → IsConsistent t
IsConsistent-same m n d l pending c = record {
  sums = rw m c.sums;
  failed = rw (m, d) c.failed;
  active = rw (m, n, d) c.active;
  dead_once = rw d c.dead_once;
  history = rw m c.history;
  logged = rw l c.logged;
  pending = pending;
}

log-IsConsistent :
    (entry : LogEntry) {s : GossipState} → IsConsistent s → IsConsistent (log entry s)
unfolding log
log-IsConsistent entry {s} c = record {
  sums = c.sums;
  failed = c.failed;
  active = c.active;
  dead_once = c.dead_once;
  history = c.history;
  logged = length-take-le 50 (entry ∷ s.status_log);
  pending = c.pending;
}

kill_node-IsConsistent :
    (node_id : String) {s : GossipState} → IsConsistent s → IsConsistent (kill_node node_id s)
unfolding kill_node
kill_node-IsConsistent node_id {s} c =
    if-cases IsConsistent (contains s.dead_nodes node_id) _ _ (λ dead. c)
      (λ live. record {
        sums = c.sums;
        failed = refl;
        active = refl;
        dead_once = Distinct-add s.dead_nodes node_id c.dead_once;
        history = c.history;
        logged = length-take-le 50 (killed node_id ∷ s.status_log);
        pending = c.pending;
      })

heal_network-IsConsistent :
    (shuffle : String → List String → List String) {s : GossipState}
    → IsConsistent s
    → IsConsistent (heal_network shuffle s)
unfolding heal_network
heal_network-IsConsistent shuffle {s} c =
    let new_edges = compute_healing_edges shuffle s.edges s.dead_nodes s.nodes in
    if-cases IsConsistent (length new_edges == 0) _ _
      (λ none_new. log-IsConsistent already_connected c)
      (λ some_new. log-IsConsistent (healed (length new_edges)) (record {
        sums = c.sums;
        failed = c.failed;
        active = c.active;
        dead_once = c.dead_once;
        history = c.history;
        logged = c.logged;
        pending = c.pending;
      }))

reset-IsConsistent : {s : GossipState} → IsConsistent s → IsConsistent (reset s)
unfolding reset
reset-IsConsistent c = log-IsConsistent was_reset (record {
  sums = refl;
  failed = refl;
  active = refl;
  dead_once = tt;
  history = omega arith;
  logged = c.logged;
  pending = c.pending;
})

module _ (rounding : Rounding) where
  schedule_next-IsConsistent :
      (now : ℕ) (rest : List Transmission) (a : Animation) (s : GossipState)
      → a.delivered ≤ a.total
      → IsConsistent s
      → IsConsistent (schedule_next rounding now rest a s)
  unfolding schedule_next completed_metrics last_20
  schedule_next-IsConsistent now [] a s paid c = log-IsConsistent _ (record {
    sums = omega (arith, c.sums, paid);
    failed = c.failed;
    active = c.active;
    dead_once = c.dead_once;
    history =
        let more = s.metrics.latency_history ++ a.avg_lat ∷ [] in
        omega (arith, length-drop (length more - 20) more);
    logged = c.logged;
    pending = All-append IsPaid s.timers (settle ∷ []) c.pending (tt, tt);
  })
  schedule_next-IsConsistent now (tx ∷ rest) a s paid c =
      IsConsistent-same refl refl refl refl
        (All-append IsPaid s.timers (show tx rest a ∷ []) c.pending (paid, tt)) c

  on_timer-IsConsistent :
      (now : ℕ) (t : Timer) (s : GossipState)
      → IsPaid t
      → IsConsistent s
      → IsConsistent (on_timer rounding now t s)
  unfolding on_timer
  on_timer-IsConsistent now (show tx rest a) s paid c =
      schedule_next-IsConsistent now rest a _ paid
        (IsConsistent-same refl refl refl refl c.pending c)
  on_timer-IsConsistent now settle s paid c = IsConsistent-same refl refl refl refl c.pending c

  fire-IsConsistent :
      (now i : ℕ) (s : GossipState) → IsConsistent s → IsConsistent (fire rounding now i s)
  unfolding fire
  fire-IsConsistent now i s c = elim (Option-cases (get_elem? s.timers i)) [
    | inl none_there ↦ rw (fire, none_there) c
    | inr (t, e) ↦
        rw (fire, e)
          (on_timer-IsConsistent now t _ (All-get_elem? IsPaid s.timers i c.pending e) (
            IsConsistent-same refl refl refl refl
              (All-append IsPaid (take i s.timers) (drop (i + 1) s.timers)
                (All-take IsPaid i s.timers c.pending) (All-drop IsPaid (i + 1) s.timers c.pending))
              c))
  ]

  begin-IsConsistent :
      (shuffle : String → List String → List String) (latency : ℕ → ℕ → ℕ → ℕ) (s : GossipState)
      (msg_id : String) (now : ℕ) (o : Outcome)
      → length o.reached ≤ total_tx o.waves + 1
      → IsConsistent s
      → IsConsistent (begin rounding shuffle latency s msg_id now o)
  unfolding begin
  begin-IsConsistent shuffle latency s msg_id now o paid c =
      let entry = started msg_id (length (live_ids s.nodes s.dead_nodes)) s.fanout in
      let busy : GossipState = record s { animating = true; is_animating = true } in
      let same : IsConsistent busy = IsConsistent-same refl refl refl refl c.pending c in
      let logged = log-IsConsistent entry {s = busy} same in
      schedule_next-IsConsistent now (joined o.waves) _ _ (omega (arith, paid))
        (IsConsistent-same {s = log entry busy} refl refl refl refl logged.pending logged)

  send_message-IsConsistent :
      (shuffle : String → List String → List String) (latency : ℕ → ℕ → ℕ → ℕ) (s : GossipState)
      (msg_id : String) (now : ℕ)
      → ((node : String) → Shuffles (shuffle node))
      → IsConsistent s
      → IsConsistent (send_message rounding shuffle latency s msg_id now)
  unfolding send_message
  send_message-IsConsistent shuffle latency s msg_id now shuffles c =
      let (o, e, paid, capped, begun) =
        compute_gossip_waves_cost shuffle (latency s.hop_latency) msg_id "A" s.edges s.dead_nodes
          s.fanout (2 * length s.edges + 1) shuffles (omega arith) in
      if-cases IsConsistent s.animating _ _ (λ busy. c)
        (λ free. rw e (begin-IsConsistent shuffle latency s msg_id now o paid c))

  -- What is assumed of an action: the samples of a send come from shuffles.
  abbrev pub IsFair : Action → Type 0
  IsFair (send shuffle latency msg_id now) = (node : String) → Shuffles (shuffle node)
  IsFair _ = Unit {0}

  act-IsConsistent :
      (s : GossipState) (a : Action) → IsFair a → IsConsistent s → IsConsistent (act rounding s a)
  unfolding act
  act-IsConsistent s (send shuffle latency msg_id now) fair c =
      send_message-IsConsistent shuffle latency s msg_id now fair c
  act-IsConsistent s (timer now i) fair c = fire-IsConsistent now i s c
  act-IsConsistent s (kill node_id) fair c = kill_node-IsConsistent node_id c
  act-IsConsistent s (heal shuffle) fair c = heal_network-IsConsistent shuffle c
  act-IsConsistent s start_over fair c = reset-IsConsistent c
  act-IsConsistent s (set_fanout n) fair c = IsConsistent-same refl refl refl refl c.pending c
  act-IsConsistent s (set_hop_latency ms) fair c = IsConsistent-same refl refl refl refl c.pending c

  run-IsConsistent :
      (s : GossipState) (actions : List Action)
      → All IsFair actions
      → IsConsistent s
      → IsConsistent (run rounding s actions)
  unfolding run
  run-IsConsistent s [] fair c = c
  run-IsConsistent s (a ∷ actions) fair c =
      run-IsConsistent (act rounding s a) actions fair.1 (act-IsConsistent s a fair.0 c)

  -- Whatever the user does and in whatever order the timers go off, with samples that come from
  -- shuffles: the deliveries and the duplicates
  -- on the screen add up to the transmissions, the failed and the active nodes are those that were
  -- killed and the others, and the histories keep at most 20 latencies and 50 entries.
  pub run-initial_state-IsConsistent :
      (actions : List Action)
      → All IsFair actions
      → IsConsistent (run rounding initial_state actions)
  run-initial_state-IsConsistent actions fair =
      run-IsConsistent initial_state actions fair IsConsistent-initial_state
