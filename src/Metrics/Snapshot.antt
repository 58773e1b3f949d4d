-- ===== src/Metrics/Snapshot.antt =====
-- metrics/collector.js: the percentiles of a histogram and the snapshot.
pub mod Ranks
mod Tests
use p2p_app.Prelude.{
  ℕ, ◌+◌, ◌-◌, ◌*◌, ◌/◌, String, List, [], ◌∷◌, Option, none, some, Dict, length, get_elem?, map,
  leb, if◌then◌else◌,
}
use p2p_app.Metrics.Collector.{MetricsCollector, Histogram}

-- `[...samples].sort((a, b) => a - b)`
unfoldable pub place : ℕ → List ℕ → List ℕ
place x [] = x ∷ []
place x (y ∷ ys) = let rest = place x ys in if leb x y then x ∷ y ∷ ys else y ∷ rest

unfoldable pub sorted : List ℕ → List ℕ
sorted [] = []
sorted (x ∷ xs) = place x (sorted xs)

-- What `undefined` would be is `none`.
pub record Percentiles : Type 0 where
  pub p50 : Option ℕ
  pub p95 : Option ℕ
  pub p99 : Option ℕ

-- `sorted[Math.floor((p / 100) * (sorted.length - 1))]`. For p of 50, 95 and 99 and at most 1000
-- samples the floating-point product rounds down to the same number.
unfoldable pub get_percentile : List ℕ → ℕ → Option ℕ
get_percentile ascending p = get_elem? ascending (p * (length ascending - 1) / 100)

unfoldable pub calculate_percentiles : List ℕ → Percentiles
unfolding get_percentile sorted
calculate_percentiles [] = record { p50 = some 0; p95 = some 0; p99 = some 0 }
calculate_percentiles (x ∷ xs) =
    let ascending = sorted (x ∷ xs) in
    record {
      p50 = get_percentile ascending 50;
      p95 = get_percentile ascending 95;
      p99 = get_percentile ascending 99;
    }

pub record Summary : Type 0 where
  pub percentiles : Percentiles
  pub count : ℕ

pub record Snapshot : Type 0 where
  pub counters : Dict ℕ
  pub gauges : Dict ℕ
  pub histograms : Dict Summary

unfoldable pub summary_of : Histogram → Summary
summary_of h = record { percentiles = calculate_percentiles h.samples; count = h.count }

unfoldable pub get_snapshot : MetricsCollector → Snapshot
unfolding summary_of
get_snapshot c = record {
  counters = c.counters;
  gauges = c.gauges;
  histograms = map (λ (e : String × Histogram). (e.0, summary_of e.1)) c.histograms;
}
