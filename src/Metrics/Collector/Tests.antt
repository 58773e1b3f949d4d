-- ===== src/Metrics/Collector/Tests.antt =====
-- Runs of the collector on small inputs.
use p2p_app.Prelude.{ℕ, String}
use p2p_app.Metrics.Collector.Reservoir.{Call}

abbrev call : String → ℕ → Call
call name value = record { name = name; value = value; random_index = λ n. 0 }
