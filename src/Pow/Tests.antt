-- ===== src/Pow/Tests.antt =====
-- Runs of the puzzle on small inputs.
use p2p_app.Prelude.{◌+◌, ◌≡◌, refl, none, [], ◌∷◌}
use p2p_app.Pow.{
  Platform, xor, imul, hash_from, js_simple_hash, solve_puzzle, verify_puzzle, last_nonce,
}
use p2p_app.Pow.Solve.{LeastOrZero, solve_puzzle-verify_puzzle}

-- A digit for the nonce, after the letter 'a'.
abbrev platform : Platform
platform = record { native_pow = none; code_units = λ text nonce. 97 ∷ (48 + nonce) ∷ [] }

-- The FNV-1a hash of "a".
hash_a : js_simple_hash (97 ∷ []) ≡ 3826002220
unfolding js_simple_hash hash_from xor imul
hash_a = refl

solve_puzzle-verify_puzzle_example :
    LeastOrZero (verify_puzzle platform "a" 500) last_nonce (solve_puzzle platform "a" 500)
solve_puzzle-verify_puzzle_example = solve_puzzle-verify_puzzle platform "a" 500 refl
