-- ===== src/Metrics/Snapshot/Ranks.antt =====
-- metrics/collector.js: what the percentiles say of the samples.
use p2p_app.Prelude.{
  ℕ, zero, suc, ◌-◌, ◌*◌, ◌/◌, ◌≤◌, ◌<◌, ◌≡◌, refl, Bool, List, [], ◌∷◌, Option, some, length,
  get_elem?, All, All-mono, ltb, leb, leb→le, if◌then◌else◌, if-cases, arith,
}
use p2p_app.Metrics.Snapshot.{place, sorted, Percentiles, get_percentile, calculate_percentiles}

-- How many samples pass a test.
unfoldable pub count_if : (ℕ → Bool) → List ℕ → ℕ
count_if q [] = 0
count_if q (x ∷ xs) = let rest = count_if q xs in if q x then suc rest else rest

-- No earlier element is larger than a later one.
abbrev IsSorted : List ℕ → Type 0
IsSorted [] = Unit {0}
IsSorted (x ∷ xs) = All (λ y. x ≤ y) xs × IsSorted xs

count_if-place :
    (q : ℕ → Bool) (x : ℕ) (xs : List ℕ) → count_if q (place x xs) ≡ count_if q (x ∷ xs)
unfolding count_if place
count_if-place q x [] = refl
count_if-place q x (y ∷ ys) = ground (arith, count_if-place q x ys)

count_if-sorted : (q : ℕ → Bool) (xs : List ℕ) → count_if q (sorted xs) ≡ count_if q xs
unfolding count_if sorted
count_if-sorted q [] = refl
count_if-sorted q (x ∷ xs) = ground (arith, count_if-place q x (sorted xs), count_if-sorted q xs)

length-place : (x : ℕ) (xs : List ℕ) → length (place x xs) ≡ suc (length xs)
unfolding place
length-place x [] = refl
length-place x (y ∷ ys) = ground (arith, length-place x ys)

length-sorted : (xs : List ℕ) → length (sorted xs) ≡ length xs
unfolding sorted
length-sorted [] = refl
length-sorted (x ∷ xs) = omega (arith, length-place x (sorted xs), length-sorted xs)

All-place : (P : ℕ → Type 0) (x : ℕ) (xs : List ℕ) → P x → All P xs → All P (place x xs)
unfolding place
All-place P x [] px h = (px, tt)
All-place P x (y ∷ ys) px h = ground (arith, All-place P x ys px h.1)

place-IsSorted : (x : ℕ) (xs : List ℕ) → IsSorted xs → IsSorted (place x xs)
unfolding place
place-IsSorted x [] s = (tt, tt)
place-IsSorted x (y ∷ ys) s =
    if-cases IsSorted (leb x y) _ _
      (λ small.
        let le : x ≤ y = leb→le x y small in
        ((le, All-mono (λ z. y ≤ z) (λ z. x ≤ z) (λ z h. omega (arith, le, h)) ys s.0), s))
      (λ large. (All-place (λ z. y ≤ z) x ys (ground arith) s.0, place-IsSorted x ys s.1))

sorted-IsSorted : (xs : List ℕ) → IsSorted (sorted xs)
unfolding sorted
sorted-IsSorted [] = tt
sorted-IsSorted (x ∷ xs) = place-IsSorted x (sorted xs) (sorted-IsSorted xs)

count_if-none : (v : ℕ) (xs : List ℕ) → All (λ y. v ≤ y) xs → count_if (λ y. ltb y v) xs ≡ 0
unfolding count_if
count_if-none v [] h = refl
count_if-none v (x ∷ xs) h = ground (arith, count_if-none v xs h.1, h.0)

get_elem?-le :
    (x : ℕ) (xs : List ℕ) (i : ℕ) {v : ℕ} → All (λ y. x ≤ y) xs → get_elem? xs i ≡ some v → x ≤ v
get_elem?-le x [] i h e = cc
get_elem?-le x (y ∷ ys) zero h e = ground (arith, h.0)
get_elem?-le x (y ∷ ys) (suc i) h e = get_elem?-le x ys i h.1 e

-- In an ascending list, at most i elements are below the i-th, and more than i are not above it.
rank :
    (xs : List ℕ) (i : ℕ) {v : ℕ}
    → IsSorted xs
    → get_elem? xs i ≡ some v
    → (count_if (λ y. ltb y v) xs ≤ i) × (i < count_if (λ y. leb y v) xs)
unfolding count_if
rank [] i s e = cc
rank (x ∷ xs) zero {v} s e = ground (arith, count_if-none v xs)
rank (x ∷ xs) (suc i) {v} s e = ground (arith, rank xs i {v = v} s.1 e, get_elem?-le x xs i s.0 e)

get_elem?-lt : (xs : List ℕ) (i : ℕ) → i < length xs → (v : ℕ) × (get_elem? xs i ≡ some v)
get_elem?-lt [] i h = absurd (omega arith)
get_elem?-lt (x ∷ xs) zero h = (x, refl)
get_elem?-lt (x ∷ xs) (suc i) h = get_elem?-lt xs i (omega arith)

-- The value is the p-th percentile of the samples; since more of them are not above it than are below
-- it, it is one of them.
pub record IsPercentile (samples : List ℕ) (p : ℕ) (o : Option ℕ) : Type 0 where
  pub value : ℕ
  pub is_value : o ≡ some value
  pub below : 100 * count_if (λ y. ltb y value) samples ≤ p * (length samples - 1)
  pub not_above : p * (length samples - 1) < 100 * count_if (λ y. leb y value) samples

scaled_lt : (p n : ℕ) → p < 100 → 1 ≤ n → p * (n - 1) / 100 < n
scaled_lt p n small some_left = grind (arith)

get_percentile-IsPercentile :
    (samples : List ℕ) (p : ℕ)
    → p < 100
    → 1 ≤ length samples
    → IsPercentile samples p (get_percentile (sorted samples) p)
unfolding get_percentile
get_percentile-IsPercentile samples p small some_left =
    let ascending = sorted samples in
    let same_length = length-sorted samples in
    let i = p * (length samples - 1) / 100 in
    let (v, found) =
      get_elem?-lt ascending i
        (omega (arith, same_length, scaled_lt p (length samples) small some_left)) in
    let place_of = rank ascending i {v = v} (sorted-IsSorted samples) found in
    record {
      value = v;
      is_value = rw same_length found;
      below = omega (arith, place_of, count_if-sorted (λ y. ltb y v) samples);
      not_above = omega (arith, place_of, count_if-sorted (λ y. leb y v) samples);
    }

-- The percentiles of one or more samples.
pub record Describe (samples : List ℕ) (r : Percentiles) : Type 0 where
  pub median : IsPercentile samples 50 r.p50
  pub high : IsPercentile samples 95 r.p95
  pub highest : IsPercentile samples 99 r.p99

-- Of any number of samples but none, the three values reported are samples, and the value for p is
-- the p-th percentile of them: with n samples, those below it are at most p percent of n - 1, and
-- those that are not above it are more than that.
pub calculate_percentiles-Describe :
    (samples : List ℕ) → 1 ≤ length samples → Describe samples (calculate_percentiles samples)
unfolding calculate_percentiles
calculate_percentiles-Describe [] h = absurd (omega arith)
calculate_percentiles-Describe (x ∷ xs) h = record {
  median = get_percentile-IsPercentile (x ∷ xs) 50 (omega arith) h;
  high = get_percentile-IsPercentile (x ∷ xs) 95 (omega arith) h;
  highest = get_percentile-IsPercentile (x ∷ xs) 99 (omega arith) h;
}
