-- ===== src/Protocol/RateLimiter/Bans.antt =====
-- protocol/rateLimiter.js: when a ban begins, that it holds, and that it ends.
use p2p_app.Prelude.{
  ℕ, ◌+◌, ◌-◌, ◌*◌, ◌≤◌, ◌<◌, String, same, ◌≡◌, refl, ◌∙◌, ◌≢◌, true, false, ◌&&◌, List, [], ◌∷◌,
  some, All, lookup, lookup-insert, lookup-remove, lookup-insert_self, remove, ltb, eqb,
  if◌then◌else◌, arith, length,
}
use p2p_app.Protocol.RateLimiter.{
  RateLimiter, Bucket, Check, rate_limited, banned, refilled, refill, violations_with, should_ban,
  apply_ban, record_violation, take_token, check_limit, ban_threshold, ban_duration_ms,
}
use p2p_app.Protocol.RateLimiter.Bounds.{check_limit_cases}
use p2p_app.Protocol.RateLimiter.Rate.{allowed_for}

-- The peer is banned until `until`.
abbrev pub IsBanned : RateLimiter → String → ℕ → Type 0
IsBanned r peer_id until = lookup peer_id r.banned_peers ≡ some until

-- What recording a violation does to the bans: the peer's begins when it has too many.
record_violation-banned_peers :
    (r : RateLimiter) (peer_id p : String) (t : ℕ)
    → (lookup p (record_violation r peer_id t).0.banned_peers ≡ (
        if ltb ban_threshold (length (violations_with r peer_id t)) && eqb peer_id p
        then some (t + ban_duration_ms)
        else lookup p r.banned_peers))
      × ((record_violation r peer_id t).1 ≡ (
          if ltb ban_threshold (length (violations_with r peer_id t))
          then banned peer_id ∷ []
          else []))
unfolding record_violation should_ban apply_ban
record_violation-banned_peers r peer_id p t = ground (
  arith,
  lookup-insert_self peer_id (violations_with r peer_id t) r.violations,
  lookup-insert peer_id p (t + ban_duration_ms) r.banned_peers,
)

take_token_other :
    (r : RateLimiter) (c : Check) (p : String)
    → c.peer_id ≢ p
    → lookup p (take_token r c).limiter.banned_peers ≡ lookup p r.banned_peers
unfolding take_token refill
take_token_other r c p h =
    ground
      (arith, record_violation-banned_peers (refill r c.peer_id c.refill_now) c.peer_id p c.now)

-- A check while the ban lasts refuses the peer's message, and leaves the ban.
check_limit-IsBanned :
    (r : RateLimiter) (c : Check) (p : String) (until : ℕ)
    → c.now ≤ until
    → IsBanned r p until
    → ((eqb c.peer_id p && (check_limit r c).allowed) ≡ false)
      × IsBanned (check_limit r c).limiter p until
check_limit-IsBanned r c p until h b = elim (same c.peer_id p) [
  | yes hit ↦
      check_limit_cases (λ w. ((eqb c.peer_id p && w.allowed) ≡ false) × IsBanned w.limiter p until)
        r c (λ u e k. (ground arith, b)) (λ e. absurd (ground arith))
        (λ u e k. absurd (ground arith))
  | no miss ↦
      check_limit_cases (λ w. ((eqb c.peer_id p && w.allowed) ≡ false) × IsBanned w.limiter p until)
        r c (λ u e k. (ground arith, b)) (λ e. (ground arith, take_token_other r c p miss ∙ b))
        (λ u e k. (
          ground arith,
          take_token_other _ c p miss ∙ (lookup-remove c.peer_id p r.banned_peers ∙ ground arith),
        ))
]

-- While a ban lasts, no message of the banned peer passes, whatever the peers send.
banned-allowed_for :
    (p : String) (until : ℕ) (r : RateLimiter) (cs : List Check)
    → All (λ c. c.now ≤ until) cs
    → IsBanned r p until
    → allowed_for p r cs ≡ 0
unfolding allowed_for
banned-allowed_for p until r [] h b = refl
banned-allowed_for p until r (c ∷ cs) h b =
    let step = check_limit-IsBanned r c p until h.0 b in
    rw (step.0, banned-allowed_for p until (check_limit r c).limiter cs h.1 step.1) (omega arith)

take_token-banned :
    (r : RateLimiter) (c : Check)
    → (take_token r c).events ≡ rate_limited c.peer_id ∷ banned c.peer_id ∷ []
    → ((take_token r c).allowed ≡ false)
      × IsBanned (take_token r c).limiter c.peer_id (c.now + ban_duration_ms)
unfolding take_token refill
take_token-banned r c e = ground (
  arith,
  record_violation-banned_peers (refill r c.peer_id c.refill_now) c.peer_id c.peer_id c.now,
)

-- A check that reports a ban refuses the message, and no message of that peer passes for the
-- duration of the ban, whatever is checked meanwhile.
pub check_limit-banned :
    (r : RateLimiter) (c : Check) (cs : List Check)
    → (check_limit r c).events ≡ rate_limited c.peer_id ∷ banned c.peer_id ∷ []
    → All (λ d. d.now ≤ c.now + ban_duration_ms) cs
    → ((check_limit r c).allowed ≡ false) × (allowed_for c.peer_id (check_limit r c).limiter cs ≡ 0)
check_limit-banned r c cs e h =
    let b =
      check_limit_cases
        (λ w.
          w.events ≡ rate_limited c.peer_id ∷ banned c.peer_id ∷ []
          → (w.allowed ≡ false) × IsBanned w.limiter c.peer_id (c.now + ban_duration_ms))
        r c (λ u k l x. cc) (λ k. take_token-banned r c) (λ u k l. take_token-banned _ c) e in
    (b.0, banned-allowed_for c.peer_id (c.now + ban_duration_ms) (check_limit r c).limiter cs h b.1)

refilled-tokens :
    (r : RateLimiter) (peer_id : String) (now : ℕ) (b : Bucket)
    → lookup peer_id r.buckets ≡ some b
    → b.last_refill < now
    → 1 ≤ r.capacity
    → 1000 ≤ (now - b.last_refill) * r.refill_rate
    → 1000 ≤ (refilled r peer_id now).tokens
unfolding refilled
refilled-tokens r peer_id now b found late room waited = ground arith

take_token-allowed :
    (r : RateLimiter) (c : Check)
    → 1000 ≤ (refilled r c.peer_id c.refill_now).tokens
    → (take_token r c).allowed ≡ true
unfolding take_token
take_token-allowed r c h = ground arith

-- A peer that is not banned, or whose ban is over, passes once it has waited for one token since its
-- last refill.
pub check_limit-allowed :
    (r : RateLimiter) (c : Check) (b : Bucket)
    → 1 ≤ r.capacity
    → ((until : ℕ) → IsBanned r c.peer_id until → until < c.now)
    → lookup c.peer_id r.buckets ≡ some b
    → b.last_refill < c.refill_now
    → 1000 ≤ (c.refill_now - b.last_refill) * r.refill_rate
    → (check_limit r c).allowed ≡ true
check_limit-allowed r c b room over found late waited =
    let enough = refilled-tokens r c.peer_id c.refill_now b found late room waited in
    check_limit_cases (λ w. w.allowed ≡ true) r c (λ u k l. absurd (omega (arith, over u k)))
      (λ k. take_token-allowed r c enough)
      (λ u k l. take_token-allowed _ c (
        refilled-tokens (record r { banned_peers = remove c.peer_id r.banned_peers }) c.peer_id
          c.refill_now b found late room waited))
