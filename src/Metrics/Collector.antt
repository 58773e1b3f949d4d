-- ===== src/Metrics/Collector.antt =====
-- metrics/collector.js: counters, gauges and reservoirs by name. Values are whole numbers.
pub mod Reservoir
mod Tests
use p2p_app.Prelude.{
  ℕ, zero, suc, ◌+◌, String, List, [], ◌∷◌, ◌++◌, Option, none, some, Dict, lookup, insert, length,
  ltb, if◌then◌else◌,
}

pub record Histogram : Type 0 where
  pub samples : List ℕ
  pub count : ℕ

pub record MetricsCollector : Type 0 where
  pub counters : Dict ℕ
  pub gauges : Dict ℕ
  pub histograms : Dict Histogram

unfoldable pub init : MetricsCollector
init = record { counters = []; gauges = []; histograms = [] }

abbrev pub reservoir_size : ℕ
reservoir_size = 1000

unfoldable pub increment : MetricsCollector → String → ℕ → MetricsCollector
increment c name value =
    let current : ℕ = elim (lookup name c.counters) [ none ↦ 0 | some n ↦ n ] in
    record c { counters = insert name (current + value) c.counters }

unfoldable pub set_gauge : MetricsCollector → String → ℕ → MetricsCollector
set_gauge c name value = record c { gauges = insert name value c.gauges }

-- `samples[i] = value`, for an index in range.
unfoldable pub replace_at : ℕ → ℕ → List ℕ → List ℕ
replace_at i value [] = []
replace_at zero value (x ∷ xs) = value ∷ xs
replace_at (suc i) value (x ∷ xs) = x ∷ replace_at i value xs

-- The histogram of a name, made empty where there is none.
unfoldable pub histogram_of : MetricsCollector → String → Histogram
histogram_of c name = elim (lookup name c.histograms) [
  | none ↦ (record { samples = []; count = 0 })
  | some h ↦ h
]

-- `random_index` is `Math.floor(Math.random() * n)` for the count `n`.
unfoldable pub sampled : (ℕ → ℕ) → ℕ → Histogram → Histogram
unfolding replace_at
sampled random_index value h =
    let count = h.count + 1 in
    let index = random_index count in
    if ltb (length h.samples) reservoir_size
    then (record { samples = h.samples ++ value ∷ []; count = count })
    else if ltb index reservoir_size
    then (record { samples = replace_at index value h.samples; count = count })
    else (record { samples = h.samples; count = count })

unfoldable pub record_value : MetricsCollector → (ℕ → ℕ) → String → ℕ → MetricsCollector
unfolding histogram_of sampled
record_value c random_index name value = record c {
  histograms = insert name (sampled random_index value (histogram_of c name)) c.histograms;
}
