-- ===== src/Protocol/RateLimiter/Tests.antt =====
-- Runs of protocol/rateLimiter.js.
use p2p_app.Prelude.{
  ℕ, ◌+◌, ◌-◌, ◌*◌, ◌≤◌, same, ◌≡◌, refl, List, [], ◌∷◌, lookup, insert, remove, arith,
}
use p2p_app.Protocol.RateLimiter.{
  RateLimiter, Check, init, or_else, check_limit, take_token, refill, refilled, record_violation,
  should_ban, apply_ban, violations_with, prune, run,
}
use p2p_app.Protocol.RateLimiter.Rate

opened : Unit {0}
unfolding init or_else check_limit take_token refill refilled record_violation should_ban apply_ban
    violations_with prune run lookup insert remove same Rate.allowed_for
opened = tt

abbrev at_ms : ℕ → Check
at_ms t = record { peer_id = "a"; now = t; refill_now = t }

abbrev burst : List Check
burst = at_ms 0 ∷ at_ms 0 ∷ at_ms 0 ∷ at_ms 600 ∷ []

-- Two tokens at once, and a third after 600 ms at 2 tokens a second.
passed : Rate.allowed_for "a" (init 2 2 20 5) burst ≡ 3
unfolding opened
passed = refl

allowed_for-le_example :
    1000 * Rate.allowed_for "a" (init 2 2 20 5) burst ≤ 1000 * 2 + 2 * (600 - 0)
unfolding opened
allowed_for-le_example = Rate.allowed_for-le 2 2 20 5 0 600 "a" burst (omega arith) (omega arith)

-- A peer with an empty bucket and ten violations on record.
abbrev spent : RateLimiter
spent = record {
  capacity = 2;
  refill_rate = 2;
  buckets = ("a", record { tokens = 0; last_refill = 50 }) ∷ [];
  violations = ("a", 1 ∷ 2 ∷ 3 ∷ 4 ∷ 5 ∷ 6 ∷ 7 ∷ 8 ∷ 9 ∷ 10 ∷ []) ∷ [];
  banned_peers = [];
}
