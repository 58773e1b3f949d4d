-- ===== src/Metrics/Reporter.antt =====
-- metrics/reporter.js: the HTTP routes, and what start and stop do.
use p2p_app.Prelude.{
  ℕ, ◌-◌, ◌/◌, String, ◌≡◌, refl, Bool, true, false, ◌&&◌, List, [], ◌∷◌, ◌++◌, none, some, lookup,
  lookup-insert_self, eqb, if◌then◌else◌,
}
use p2p_app.Metrics.Collector.{MetricsCollector, set_gauge}
use p2p_app.Metrics.Snapshot.{Snapshot, get_snapshot}

pub data Response : Type 0 where
  metrics : Snapshot → Response
  health : ℕ → ℕ → Response
  not_found : Response

pub data Effect : Type 0 where
  every : ℕ → Effect
  listen : ℕ → Effect
  clear_interval close_server : Effect

pub record MetricsReporter : Type 0 where
  pub port : ℕ
  pub interval : Bool
  pub server : Bool
  pub start_time : ℕ

unfoldable pub init : ℕ → ℕ → MetricsReporter
init port now = record { port = port; interval = false; server = false; start_time = now }

unfoldable pub start : MetricsReporter → MetricsReporter × List Effect
start r = (record r { interval = true; server = true }, every 30000 ∷ listen r.port ∷ [])

unfoldable pub stop : MetricsReporter → List Effect
stop r =
    (if r.interval then clear_interval ∷ [] else []) ++ (if r.server then close_server ∷ [] else [])

-- `collector.gauges.get('active_peers') || 0`
unfoldable pub active_peers : MetricsCollector → ℕ
active_peers c = elim (lookup "active_peers" c.gauges) [ none ↦ 0 | some n ↦ n ]

-- The handler of a request.
unfoldable pub handle : MetricsReporter → MetricsCollector → ℕ → String → String → Response
unfolding active_peers
handle r c now url method =
    if eqb url "/metrics" && eqb method "GET"
    then metrics (get_snapshot c)
    else if eqb url "/health" && eqb method "GET"
    then health ((now - r.start_time) / 1000) (active_peers c)
    else not_found

-- The health page shows the number of peers that was set last.
active_peers-set_gauge :
    (c : MetricsCollector) (n : ℕ) → active_peers (set_gauge c "active_peers" n) ≡ n
unfolding active_peers set_gauge
active_peers-set_gauge c n = rw (active_peers, lookup-insert_self "active_peers" n c.gauges) refl
