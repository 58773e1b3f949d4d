-- ===== src/Metrics/Snapshot/Tests.antt =====
-- metrics/collector.js: percentiles of a few samples.
use p2p_app.Prelude.{ℕ, ◌≡◌, refl, List, [], ◌∷◌, some, arith}
use p2p_app.Metrics.Snapshot.{place, calculate_percentiles}
use p2p_app.Metrics.Snapshot.Ranks.{Describe, calculate_percentiles-Describe}

abbrev samples : List ℕ
samples = 30 ∷ 10 ∷ 20 ∷ 50 ∷ 40 ∷ []

five : calculate_percentiles samples ≡ record { p50 = some 30; p95 = some 40; p99 = some 40 }
unfolding calculate_percentiles place
five = refl

-- Of two samples every percentile is the smaller one.
two : calculate_percentiles (9 ∷ 1 ∷ []) ≡ record { p50 = some 1; p95 = some 1; p99 = some 1 }
unfolding calculate_percentiles place
two = refl

calculate_percentiles-Describe_example : Describe samples (calculate_percentiles samples)
calculate_percentiles-Describe_example = calculate_percentiles-Describe samples (omega arith)
