-- ===== src/Protocol/RateLimiter.antt =====
-- protocol/rateLimiter.js: a token bucket for each peer, and bans. Times are in milliseconds and
-- tokens are counted in thousandths, so that a refill of `refill_rate` tokens in a second is a whole
-- number in a millisecond: the real numbers that the program's floating point rounds.
pub mod Bounds
pub mod Rate
pub mod Bans
mod Tests
use p2p_app.Prelude.{
  ℕ, zero, suc, ◌+◌, ◌-◌, ◌*◌, ◌≤◌, ◌<◌, String, Bool, true, false, List, [], ◌∷◌, ◌++◌, Option,
  none, some, Dict, lookup, insert, remove, length, ltb, leb, ◌==◌, min, if◌then◌else◌,
}

pub record Bucket : Type 0 where
  pub tokens : ℕ
  pub last_refill : ℕ

pub record RateLimiter : Type 0 where
  pub capacity : ℕ
  pub refill_rate : ℕ
  pub buckets : Dict Bucket
  pub violations : Dict (List ℕ)
  pub banned_peers : Dict ℕ

pub data Event : Type 0 where
  rate_limited banned : String → Event

abbrev pub ban_threshold : ℕ
ban_threshold = 10

abbrev pub violation_window_ms : ℕ
violation_window_ms = 60 * 1000

abbrev pub ban_duration_ms : ℕ
ban_duration_ms = 5 * 60 * 1000

-- `a || b` on numbers, where 0 also stands for an absent option.
unfoldable pub or_else : ℕ → ℕ → ℕ
or_else zero b = b
or_else (suc a) b = suc a

-- The options of the constructor, and the two values of the configuration.
unfoldable pub init : ℕ → ℕ → ℕ → ℕ → RateLimiter
init capacity refill_rate default_capacity default_rate = record {
  capacity = or_else (or_else capacity default_capacity) 20;
  refill_rate = or_else (or_else refill_rate default_rate) 5;
  buckets = [];
  violations = [];
  banned_peers = [];
}

-- The bucket of a peer after `_refill` at `now`.
unfoldable pub refilled : RateLimiter → String → ℕ → Bucket
refilled r peer_id now = elim (lookup peer_id r.buckets) [
  | none ↦ record { tokens = 1000 * r.capacity; last_refill = now }
  | some bucket ↦
      if ltb bucket.last_refill now
      then (record {
        tokens =
            min (1000 * r.capacity) (bucket.tokens + (now - bucket.last_refill) * r.refill_rate);
        last_refill = now;
      })
      else bucket
]

unfoldable pub refill : RateLimiter → String → ℕ → RateLimiter
refill r peer_id now = record r { buckets = insert peer_id (refilled r peer_id now) r.buckets }

-- `history.shift()` while the oldest violation lies before the window that ends at `timestamp`.
unfoldable pub prune : ℕ → List ℕ → List ℕ
prune timestamp [] = []
prune timestamp (t ∷ history) =
    let rest = prune timestamp history in
    if ltb (t + violation_window_ms) timestamp then rest else t ∷ history

-- The violations of a peer with the new one, pruned.
unfoldable pub violations_with : RateLimiter → String → ℕ → List ℕ
violations_with r peer_id timestamp = elim (lookup peer_id r.violations) [
  | none ↦ prune timestamp (timestamp ∷ [])
  | some history ↦ prune timestamp (history ++ timestamp ∷ [])
]

unfoldable pub should_ban : RateLimiter → String → Bool
should_ban r peer_id = elim (lookup peer_id r.violations) [
  | none ↦ false
  | some history ↦ ltb ban_threshold (length history)
]

unfoldable pub apply_ban : RateLimiter → String → ℕ → RateLimiter
apply_ban r peer_id timestamp = record r {
  banned_peers = insert peer_id (timestamp + ban_duration_ms) r.banned_peers;
  violations = remove peer_id r.violations;
}

unfoldable pub record_violation : RateLimiter → String → ℕ → RateLimiter × List Event
unfolding apply_ban
record_violation r peer_id timestamp =
    let history = violations_with r peer_id timestamp in
    let recorded = record r { violations = insert peer_id history r.violations } in
    if should_ban recorded peer_id
    then (apply_ban recorded peer_id timestamp, banned peer_id ∷ [])
    else (recorded, [])

-- A call of `checkLimit` reads the clock twice: first `now`, then `refill_now` in `_refill`.
pub record Check : Type 0 where
  pub peer_id : String
  pub now : ℕ
  pub refill_now : ℕ

pub record Verdict : Type 0 where
  pub limiter : RateLimiter
  pub allowed : Bool
  pub events : List Event

-- The token bucket of `checkLimit`, and the violation when it is empty.
unfoldable pub take_token : RateLimiter → Check → Verdict
unfolding refill
take_token r c =
    let bucket = refilled r c.peer_id c.refill_now in
    let filled = refill r c.peer_id c.refill_now in
    let spent : Bucket = record bucket { tokens = bucket.tokens - 1000 } in
    let (limited, events) = record_violation filled c.peer_id c.now in
    if leb 1000 bucket.tokens
    then (record {
      limiter = record filled { buckets = insert c.peer_id spent filled.buckets };
      allowed = true;
      events = [];
    })
    else (record { limiter = limited; allowed = false; events = rate_limited c.peer_id ∷ events })

unfoldable pub check_limit : RateLimiter → Check → Verdict
check_limit r c = elim (lookup c.peer_id r.banned_peers) [
  | none ↦ take_token r c
  | some until ↦
      if ltb until c.now
      then take_token (record r { banned_peers = remove c.peer_id r.banned_peers }) c
      else (record { limiter = r; allowed = false; events = [] })
]

-- A run of checks.
unfoldable pub run : RateLimiter → List Check → RateLimiter
run r [] = r
run r (c ∷ cs) = run (check_limit r c).limiter cs
