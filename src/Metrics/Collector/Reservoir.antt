-- ===== src/Metrics/Collector/Reservoir.antt =====
-- metrics/collector.js: how many samples a histogram holds.
use p2p_app.Prelude.{
  ℕ, zero, suc, ◌+◌, ◌≤◌, String, ◌≡◌, refl, false, List, [], ◌∷◌, lookup, lookup-insert, same, ite,
  length, length-append, min, ltb, if-cases, if_pos, if_neg, ltb→lt, arith,
}
use p2p_app.Metrics.Collector.{
  MetricsCollector, Histogram, init, reservoir_size, replace_at, histogram_of, sampled,
  record_value,
}

-- A call of `record`, with its random index.
pub record Call : Type 0 where
  pub name : String
  pub value : ℕ
  pub random_index : ℕ → ℕ

unfoldable pub record_all : MetricsCollector → List Call → MetricsCollector
record_all c [] = c
record_all c (call ∷ calls) =
    record_all (record_value c call.random_index call.name call.value) calls

-- The calls for one name.
unfoldable pub calls_for : String → List Call → ℕ
calls_for name [] = 0
calls_for name (call ∷ calls) =
    let rest = calls_for name calls in ite (same call.name name) (suc rest) rest

length-replace_at : (i value : ℕ) (xs : List ℕ) → length (replace_at i value xs) ≡ length xs
unfolding replace_at
length-replace_at i value [] = refl
length-replace_at zero value (x ∷ xs) = refl
length-replace_at (suc i) value (x ∷ xs) = omega (arith, length-replace_at i value xs)

-- A histogram that counts `n` values holds all of them, or as many as the reservoir takes.
pub record Holds (n : ℕ) (h : Histogram) : Type 0 where
  pub counted : h.count ≡ n
  pub held : length h.samples ≡ min reservoir_size n

ltb-false : (a b : ℕ) → ltb a b ≡ false → b ≤ a
ltb-false a b h = ground arith

histogram_of-record_value :
    (c : MetricsCollector) (random_index : ℕ → ℕ) (name j : String) (value : ℕ)
    → histogram_of (record_value c random_index name value) j
      ≡ ite (same name j) (sampled random_index value (histogram_of c name)) (histogram_of c j)
unfolding histogram_of record_value
histogram_of-record_value c random_index name j value =
    ground
      (arith, lookup-insert name j (sampled random_index value (histogram_of c name)) c.histograms)

sampled-Holds :
    (random_index : ℕ → ℕ) (value n : ℕ) (h : Histogram)
    → Holds n h
    → Holds (suc n) (sampled random_index value h)
unfolding sampled
sampled-Holds random_index value n h v =
    if-cases (Holds (suc n)) (ltb (length h.samples) reservoir_size) _ _
      (λ room. record {
        counted = omega (arith, v.counted);
        held = omega (
          arith,
          v.held,
          ltb→lt (length h.samples) reservoir_size room,
          length-append h.samples (value ∷ []),
        );
      })
      (λ full.
        let at_least : reservoir_size ≤ length h.samples =
          ltb-false (length h.samples) reservoir_size full in
        if-cases (Holds (suc n)) (ltb (random_index (h.count + 1)) reservoir_size) _ _
          (λ hit. record {
            counted = omega (arith, v.counted);
            held = omega (
              arith,
              v.held,
              at_least,
              length-replace_at (random_index (h.count + 1)) value h.samples,
            );
          })
          (λ miss. record {
            counted = omega (arith, v.counted);
            held = omega (arith, v.held, at_least);
          }))

record_all-Holds :
    (name : String) (calls : List Call) (c : MetricsCollector) (n : ℕ)
    → Holds n (histogram_of c name)
    → Holds (n + calls_for name calls) (histogram_of (record_all c calls) name)
unfolding record_all calls_for
record_all-Holds name [] c n v = let e : n + 0 ≡ n = omega arith in rw e v
record_all-Holds name (call ∷ calls) c n v = elim (same call.name name) [
  | yes hit ↦
      let e : n + suc (calls_for name calls) ≡ suc n + calls_for name calls = omega arith in
      rw (if_pos _ hit, e)
        (record_all-Holds name calls (record_value c call.random_index call.name call.value) (suc n)
          (rw (histogram_of-record_value, if_pos _ hit, hit)
            (sampled-Holds call.random_index call.value n (histogram_of c name) v)))
  | no miss ↦ rw (if_neg _ miss) (
      record_all-Holds name calls (record_value c call.random_index call.name call.value) n
        (rw (histogram_of-record_value, if_neg _ miss) v))
]

-- After any recorded values, under any names and with any random indices, the histogram of a name
-- counts all its values and holds as many samples, or 1000 when they are more.
pub record_all-init-Holds :
    (name : String) (calls : List Call)
    → Holds (calls_for name calls) (histogram_of (record_all init calls) name)
record_all-init-Holds name calls =
    let e : calls_for name calls ≡ 0 + calls_for name calls = omega arith in
    rw e (
      record_all-Holds name calls init 0
        (unfold init histogram_of lookup in (record { counted = refl; held = refl })))
