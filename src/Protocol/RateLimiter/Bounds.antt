-- ===== src/Protocol/RateLimiter/Bounds.antt =====
-- protocol/rateLimiter.js: the memory that a peer can claim is bounded.
use p2p_app.Prelude.{
  ℕ, ◌*◌, ◌≤◌, ◌<◌, String, ◌≡◌, false, List, [], ◌∷◌, none, some, lookup, lookup-insert_self,
  remove-insert_self, insert, remove, length, All, All-insert, All-remove, All-lookup, ltb, leb,
  arith, inl, inr, Bool-cases, Option-cases,
}
use p2p_app.Protocol.RateLimiter.{
  RateLimiter, Check, Verdict, init, refilled, refill, prune, violations_with, should_ban,
  apply_ban, record_violation, take_token, check_limit, run, ban_threshold,
}

-- The violations kept for a peer are few and recent, `at` being the time of the latest.
pub record IsValid (r : RateLimiter) : Type 0 where
  pub filled : All (λ e. e.1.tokens ≤ 1000 * r.capacity) r.buckets
  pub few : All (λ e. length e.1 ≤ ban_threshold) r.violations

prune-length : (t : ℕ) (history : List ℕ) → length (prune t history) ≤ length history
unfolding prune
prune-length t [] = omega arith
prune-length t (x ∷ history) = ground (arith, prune-length t history)

refilled-le :
    (r : RateLimiter) (peer_id : String) (now : ℕ)
    → IsValid r
    → (refilled r peer_id now).tokens ≤ 1000 * r.capacity
unfolding refilled
refilled-le r peer_id now v = elim (Option-cases (lookup peer_id r.buckets)) [
  | inl e ↦ ground arith
  | inr (b, e) ↦
      ground (arith, All-lookup (λ b. b.tokens ≤ 1000 * r.capacity) peer_id r.buckets v.filled e)
]

refill-IsValid :
    (r : RateLimiter) (peer_id : String) (now : ℕ) → IsValid r → IsValid (refill r peer_id now)
unfolding refill
refill-IsValid r peer_id now v = record {
  filled = All-insert _ peer_id _ r.buckets (λ j p. refilled-le r peer_id now v) v.filled;
  few = v.few;
}

-- Recording a violation either bans the peer or keeps a history that is too short for it.
pub record_violation_cases {ℓ} :
    (P : RateLimiter → Type ℓ) (r : RateLimiter) (peer_id : String) (t : ℕ)
    → (ban_threshold < length (violations_with r peer_id t)
        → P (
            apply_ban
              (record r { violations = insert peer_id (violations_with r peer_id t) r.violations })
              peer_id
              t))
    → (length (violations_with r peer_id t) ≤ ban_threshold
        → P (record r { violations = insert peer_id (violations_with r peer_id t) r.violations }))
    → P (record_violation r peer_id t).0
unfolding record_violation should_ban
record_violation_cases P r peer_id t ban keep =
    rw (lookup-insert_self, should_ban)
      (elim (Bool-cases (ltb ban_threshold (length (violations_with r peer_id t)))) [
        | inl e ↦ rw e (ban (ground arith))
        | inr e ↦ rw e (keep (ground arith))
      ])

record_violation-IsValid :
    (r : RateLimiter) (peer_id : String) (t : ℕ)
    → IsValid r
    → IsValid (record_violation r peer_id t).0
unfolding apply_ban
record_violation-IsValid r peer_id t v =
    record_violation_cases IsValid r peer_id t
      (λ long. record {
        filled = v.filled;
        few = rw remove-insert_self (All-remove _ peer_id r.violations v.few);
      })
      (λ short. record {
        filled = v.filled;
        few = All-insert _ peer_id _ r.violations (λ j p. short) v.few;
      })

take_token-IsValid : (r : RateLimiter) (c : Check) → IsValid r → IsValid (take_token r c).limiter
unfolding take_token
take_token-IsValid r c v = elim (Bool-cases (leb 1000 (refilled r c.peer_id c.refill_now).tokens)) [
  | inl e ↦ rw e (
      let w = refill-IsValid r c.peer_id c.refill_now v in
      record {
        filled =
            All-insert _ c.peer_id _ (refill r c.peer_id c.refill_now).buckets
              (λ j p. omega (arith, refilled-le r c.peer_id c.refill_now v)) w.filled;
        few = w.few;
      })
  | inr e ↦ rw e (
      record_violation-IsValid (refill r c.peer_id c.refill_now) c.peer_id c.now
        (refill-IsValid r c.peer_id c.refill_now v))
]

-- A check refuses a peer that is banned, or goes on to its bucket, with a ban that ended lifted.
pub check_limit_cases {ℓ} :
    (P : Verdict → Type ℓ) (r : RateLimiter) (c : Check)
    → ((until : ℕ)
        → lookup c.peer_id r.banned_peers ≡ some until
        → c.now ≤ until
        → P (record { limiter = r; allowed = false; events = [] }))
    → (lookup c.peer_id r.banned_peers ≡ none → P (take_token r c))
    → ((until : ℕ)
        → lookup c.peer_id r.banned_peers ≡ some until
        → until < c.now
        → P (take_token (record r { banned_peers = remove c.peer_id r.banned_peers }) c))
    → P (check_limit r c)
unfolding check_limit
check_limit_cases P r c refused free lifted =
    elim (Option-cases (lookup c.peer_id r.banned_peers)) [
      | inl e ↦ rw (e, check_limit) (free e)
      | inr (until, e) ↦
          rw (e, check_limit)
            (elim (Bool-cases (ltb until c.now)) [
              | inl over ↦ rw over (lifted until e (ground arith))
              | inr still ↦ rw still (refused until e (ground arith))
            ])
    ]

check_limit-IsValid : (r : RateLimiter) (c : Check) → IsValid r → IsValid (check_limit r c).limiter
check_limit-IsValid r c v =
    check_limit_cases (λ w. IsValid w.limiter) r c (λ until e h. v) (λ e. take_token-IsValid r c v)
      (λ until e h. take_token-IsValid _ c (record { filled = v.filled; few = v.few }))

run-IsValid_from : (r : RateLimiter) (cs : List Check) → IsValid r → IsValid (run r cs)
unfolding run
run-IsValid_from r [] v = v
run-IsValid_from r (c ∷ cs) v =
    run-IsValid_from (check_limit r c).limiter cs (check_limit-IsValid r c v)

-- After any checks on a new limiter, no bucket holds more than the capacity, and no peer has more
-- recorded violations than the threshold.
pub run-init-IsValid :
    (capacity refill_rate default_capacity default_rate : ℕ) (cs : List Check)
    → IsValid (run (init capacity refill_rate default_capacity default_rate) cs)
unfolding init
run-init-IsValid c r d e cs = run-IsValid_from _ cs (record { filled = tt; few = tt })
