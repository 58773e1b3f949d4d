-- ===== src/Pow/Solve.antt =====
-- utils/pow.js: what the search for a nonce returns.
use p2p_app.Prelude.{
  ℕ, zero, suc, ◌+◌, ◌≤◌, ◌<◌, String, ◌≡◌, refl, ◌⊎◌, inl, inr, Bool, true, false, Option, none,
  some, ℕ_discrete, if-cases, arith,
}
use p2p_app.Pow.{
  Platform, Native, solve_with, verify_with, js_verify, last_nonce, search, solve_puzzle,
  verify_puzzle,
}

-- A found nonce solves the puzzle and is the first that does, or no nonce does and 0 is returned.
Found : (ℕ → Bool) → ℕ → ℕ → ℕ → Type 0
Found solves fuel nonce result =
    ((solves result ≡ true) × ((n : ℕ) → nonce ≤ n → n < result → solves n ≡ false))
    ⊎ ((result ≡ 0) × ((n : ℕ) → nonce ≤ n → n < nonce + fuel → solves n ≡ false))

below :
    (solves : ℕ → Bool) (nonce bound : ℕ)
    → solves nonce ≡ false
    → ((n : ℕ) → nonce + 1 ≤ n → n < bound → solves n ≡ false)
    → (n : ℕ) → nonce ≤ n
    → n < bound
    → solves n ≡ false
below solves nonce bound here later n low high = elim (ℕ_discrete nonce n) [
  | yes e ↦ rw e at here
  | no other ↦ later n (omega (arith, other)) high
]

search-Found :
    (solves : ℕ → Bool) (fuel nonce : ℕ) → Found solves fuel nonce (search solves fuel nonce)
unfolding search Found
search-Found solves zero nonce = inr (refl, λ n low high. absurd (omega arith))
search-Found solves (suc fuel) nonce =
    if-cases (Found solves (suc fuel) nonce) (solves nonce) nonce (search solves fuel (nonce + 1))
      (λ hit. inl (hit, λ n low high. absurd (omega arith)))
      (λ miss. elim (search-Found solves fuel (nonce + 1)) [
        | inl (works, first) ↦ inl (works, below solves nonce _ miss first)
        | inr (zero_result, nowhere) ↦ inr (
          zero_result,
          below solves nonce (nonce + suc fuel) miss (λ n low high. nowhere n low (omega arith)),
        )
      ])

-- The nonce is the least up to `last` that verifies, or 0 where none does.
pub LeastOrZero : (ℕ → Bool) → ℕ → ℕ → Type 0
LeastOrZero verifies last nonce =
    ((verifies nonce ≡ true) × ((n : ℕ) → n < nonce → verifies n ≡ false))
    ⊎ ((nonce ≡ 0) × ((n : ℕ) → n ≤ last → verifies n ≡ false))

search-LeastOrZero :
    (solves : ℕ → Bool) (last : ℕ) → LeastOrZero solves last (search solves (last + 1) 0)
unfolding Found LeastOrZero
search-LeastOrZero solves last = elim (search-Found solves (last + 1) 0) [
  | inl (works, first) ↦ inl (works, λ n high. first n (omega arith) high)
  | inr (zero_result, nowhere) ↦ inr (zero_result, λ n high. nowhere n (omega arith) (omega arith))
]

solve_with-LeastOrZero :
    (o : Option Native) (platform : Platform) (text : String) (difficulty : ℕ)
    → o ≡ none
    → LeastOrZero
        (verify_with o platform text difficulty)
        last_nonce
        (solve_with o platform text difficulty)
unfolding solve_with verify_with
solve_with-LeastOrZero none platform text difficulty e =
    search-LeastOrZero (js_verify platform text difficulty) last_nonce
solve_with-LeastOrZero (some native) platform text difficulty e = absurd (ground arith)

-- Without the native add-on, the nonce returned solves the puzzle and no smaller one does, or none
-- up to a million does and the nonce is 0, which then does not solve it either.
pub solve_puzzle-verify_puzzle :
    (platform : Platform) (text : String) (difficulty : ℕ)
    → platform.native_pow ≡ none
    → LeastOrZero
        (verify_puzzle platform text difficulty)
        last_nonce
        (solve_puzzle platform text difficulty)
unfolding solve_puzzle verify_puzzle
solve_puzzle-verify_puzzle platform text difficulty e =
    solve_with-LeastOrZero platform.native_pow platform text difficulty e
