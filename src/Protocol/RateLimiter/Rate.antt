-- ===== src/Protocol/RateLimiter/Rate.antt =====
-- protocol/rateLimiter.js: how many messages of one peer get through.
use mathlib.Core.Path.{subst}
use native.Mathlib.Nat.{add-zero, zero-add, add_assoc}
use p2p_app.Prelude.{
  ℕ, ◌+◌, ◌-◌, ◌*◌, ◌≤◌, ◌<◌, String, same, ite, ◌≡◌, refl, sym, ap, ◌∙◌, if_pos, if_neg, false,
  ◌&&◌, List, [], ◌∷◌, Option, none, some, All, lookup, lookup-insert, insert, remove, ltb, leb,
  min, eqb, if◌then◌else◌, arith, inl, inr, Bool-cases, Option-cases,
}
use p2p_app.Protocol.RateLimiter.{
  RateLimiter, Bucket, Check, init, refilled, refill, apply_ban, record_violation, take_token,
  check_limit, run,
}
use p2p_app.Protocol.RateLimiter.Bounds.{check_limit_cases}

-- How many of the checks let a message of the peer pass.
unfoldable pub allowed_for : String → RateLimiter → List Check → ℕ
allowed_for peer_id r [] = 0
allowed_for peer_id r (c ∷ cs) =
    (if eqb c.peer_id peer_id && (check_limit r c).allowed then 1 else 0)
    + allowed_for peer_id (check_limit r c).limiter cs

-- The peer has passed `spent` messages since `t0`: what they cost and what is left is covered by one
-- capacity and the refill up to the last one, which lies before `t1`.
record Paid (size rate t0 t1 spent : ℕ) (b : Bucket) : Type 0 where
  cost : 1000 * spent + b.tokens + rate * t0 ≤ 1000 * size + rate * b.last_refill
  after : t0 ≤ b.last_refill
  before : b.last_refill ≤ t1

abbrev Budget : (size rate t0 t1 spent : ℕ) → Option Bucket → Type 0
Budget size rate t0 t1 spent none = spent ≡ 0
Budget size rate t0 t1 spent (some b) = Paid size rate t0 t1 spent b

record Tracks (size rate t0 t1 spent : ℕ) (peer_id : String) (r : RateLimiter) : Type 0 where
  capacity : r.capacity ≡ size
  refill_rate : r.refill_rate ≡ rate
  budget : Budget size rate t0 t1 spent (lookup peer_id r.buckets)

elapsed : (rate last now : ℕ) → last ≤ now → (now - last) * rate + rate * last ≡ rate * now
elapsed rate last now h = grind arith

fresh-Paid :
    (size rate t0 t1 now : ℕ)
    → t0 ≤ now
    → now ≤ t1
    → Paid size rate t0 t1 0 (record { tokens = 1000 * size; last_refill = now })
fresh-Paid size rate t0 t1 now lo hi = record { cost = grind arith; after = lo; before = hi }

topped-Paid :
    (size rate t0 t1 spent : ℕ) (b : Bucket) (now : ℕ)
    → b.last_refill < now
    → now ≤ t1
    → Paid size rate t0 t1 spent b
    → Paid size rate t0 t1 spent (record {
      tokens = min (1000 * size) (b.tokens + (now - b.last_refill) * rate);
      last_refill = now;
    })
topped-Paid size rate t0 t1 spent b now late hi p = record {
  cost = omega (arith, p.cost, elapsed rate b.last_refill now (omega arith));
  after = omega (arith, p.after);
  before = hi;
}

refilled-Paid :
    (size rate t0 t1 spent : ℕ) (peer_id : String) (r : RateLimiter) (now : ℕ)
    → t0 ≤ now
    → now ≤ t1
    → Tracks size rate t0 t1 spent peer_id r
    → Paid size rate t0 t1 spent (refilled r peer_id now)
unfolding refilled
refilled-Paid size rate t0 t1 spent peer_id r now lo hi t =
    elim (Option-cases (lookup peer_id r.buckets)) [
      | inl e ↦
          rw (e, refilled, t.capacity)
            (rw (rw e at t.budget) (fresh-Paid size rate t0 t1 now lo hi))
      | inr (b, e) ↦
          let p : Paid size rate t0 t1 spent b = rw e at t.budget in
          rw (e, refilled)
            (elim (Bool-cases (ltb b.last_refill now)) [
              | inl late ↦
                  rw (late, t.capacity, t.refill_rate)
                    (topped-Paid size rate t0 t1 spent b now (ground arith) hi p)
              | inr early ↦ rw early p
            ])
    ]

-- What a check leaves in the buckets: the peer's, refilled and charged if the message passes, and
-- all others as they were.
record_violation-buckets :
    (r : RateLimiter) (peer_id : String) (t : ℕ)
    → ((record_violation r peer_id t).0.buckets ≡ r.buckets)
      × ((record_violation r peer_id t).0.capacity ≡ r.capacity)
      × ((record_violation r peer_id t).0.refill_rate ≡ r.refill_rate)
unfolding record_violation apply_ban
record_violation-buckets r peer_id t = ground arith

charged : Bucket → Bucket
charged b = if leb 1000 b.tokens then record b { tokens = b.tokens - 1000 } else b

take_token-buckets :
    (r : RateLimiter) (c : Check) (p : String)
    → (lookup p (take_token r c).limiter.buckets
        ≡ ite
            (same c.peer_id p)
            (some (charged (refilled r c.peer_id c.refill_now)))
            (lookup p r.buckets))
      × ((take_token r c).limiter.capacity ≡ r.capacity)
      × ((take_token r c).limiter.refill_rate ≡ r.refill_rate)
      × ((take_token r c).allowed ≡ leb 1000 (refilled r c.peer_id c.refill_now).tokens)
unfolding take_token charged refill
take_token-buckets r c p =
    let b = refilled r c.peer_id c.refill_now in
    let filled = insert c.peer_id b r.buckets in
    let spent : Bucket = record b { tokens = b.tokens - 1000 } in
    ground (
      arith,
      record_violation-buckets (refill r c.peer_id c.refill_now) c.peer_id c.now,
      lookup-insert c.peer_id p b r.buckets,
      lookup-insert c.peer_id p spent filled,
    )

charged-Paid :
    (size rate t0 t1 spent : ℕ) (b : Bucket)
    → Paid size rate t0 t1 spent b
    → Paid size rate t0 t1 (spent + (if leb 1000 b.tokens then 1 else 0)) (charged b)
unfolding charged
charged-Paid size rate t0 t1 spent b p = elim (Bool-cases (leb 1000 b.tokens)) [
  | inl e ↦ rw e (record { cost = ground (arith, p.cost); after = p.after; before = p.before })
  | inr e ↦ rw e (record { cost = omega (arith, p.cost); after = p.after; before = p.before })
]

take_token-Tracks :
    (size rate t0 t1 spent : ℕ) (peer_id : String) (r : RateLimiter) (c : Check)
    → t0 ≤ c.refill_now
    → c.refill_now ≤ t1
    → Tracks size rate t0 t1 spent peer_id r
    → Tracks size rate t0 t1
        (spent + (if eqb c.peer_id peer_id && (take_token r c).allowed then 1 else 0))
        peer_id
        (take_token r c).limiter
take_token-Tracks size rate t0 t1 spent peer_id r c lo hi t =
    let b = take_token-buckets r c peer_id in
    record {
      capacity = b.1 ∙ t.capacity;
      refill_rate = b.2 ∙ t.refill_rate;
      budget = elim (same c.peer_id peer_id) [
        | yes hit ↦
            rw (b.0, b.3, if_pos (same c.peer_id peer_id) hit, if_pos (same c.peer_id peer_id) hit)
              (charged-Paid size rate t0 t1 spent (refilled r c.peer_id c.refill_now) (
                refilled-Paid size rate t0 t1 spent c.peer_id r c.refill_now lo hi
                  (subst (λ p. Tracks size rate t0 t1 spent p r) (sym hit) t)))
        | no miss ↦
            rw
              (
                b.0,
                if_neg (same c.peer_id peer_id) miss,
                if_neg (same c.peer_id peer_id) miss,
                add-zero,
              )
              t.budget
      ];
    }

check_limit-Tracks :
    (size rate t0 t1 spent : ℕ) (peer_id : String) (r : RateLimiter) (c : Check)
    → t0 ≤ c.refill_now
    → c.refill_now ≤ t1
    → Tracks size rate t0 t1 spent peer_id r
    → Tracks size rate t0 t1
        (spent + (if eqb c.peer_id peer_id && (check_limit r c).allowed then 1 else 0))
        peer_id
        (check_limit r c).limiter
check_limit-Tracks size rate t0 t1 spent peer_id r c lo hi t =
    check_limit_cases
      (λ w.
        Tracks size rate t0 t1 (spent + (if eqb c.peer_id peer_id && w.allowed then 1 else 0))
          peer_id w.limiter)
      r c
      (λ until e h.
        let n : ◌≡◌ {A = ℕ} (if eqb c.peer_id peer_id && false then 1 else 0) 0 = ground arith in
        rw (n, add-zero) t)
      (λ e. take_token-Tracks size rate t0 t1 spent peer_id r c lo hi t)
      (λ until e h.
        take_token-Tracks size rate t0 t1 spent peer_id
          (record r { banned_peers = remove c.peer_id r.banned_peers }) c lo hi
          (record { capacity = t.capacity; refill_rate = t.refill_rate; budget = t.budget }))

run-Tracks :
    (size rate t0 t1 spent : ℕ) (peer_id : String) (r : RateLimiter) (cs : List Check)
    → All (λ c. (t0 ≤ c.refill_now) × (c.refill_now ≤ t1)) cs
    → Tracks size rate t0 t1 spent peer_id r
    → Tracks size rate t0 t1 (spent + allowed_for peer_id r cs) peer_id (run r cs)
unfolding allowed_for run
run-Tracks size rate t0 t1 spent peer_id r [] h t = rw add-zero t
run-Tracks size rate t0 t1 spent peer_id r (c ∷ cs) h t =
    let n : ℕ = if eqb c.peer_id peer_id && (check_limit r c).allowed then 1 else 0 in
    rw (← add_assoc spent n (allowed_for peer_id (check_limit r c).limiter cs)) (
      run-Tracks size rate t0 t1 (spent + n) peer_id (check_limit r c).limiter cs h.1
        (check_limit-Tracks size rate t0 t1 spent peer_id r c h.0.0 h.0.1 t))

mul_mono : (k a b : ℕ) → a ≤ b → k * a ≤ k * b
mul_mono k a b h = grind arith

Budget-le :
    (size rate t0 t1 spent : ℕ) (o : Option Bucket)
    → t0 ≤ t1
    → Budget size rate t0 t1 spent o
    → 1000 * spent ≤ 1000 * size + rate * (t1 - t0)
Budget-le size rate t0 t1 spent none h b = omega (arith, ap (λ (n : ℕ). 1000 * n) b)
Budget-le size rate t0 t1 spent (some b) h p =
    omega (arith, p.cost, mul_mono rate b.last_refill t1 p.before, elapsed rate t0 t1 h)

-- Of any checks made between two times, for any peers in any order, a peer passes no more messages
-- than the capacity and what the refill rate gives in that time, bans or none.
pub allowed_for-le :
    (capacity refill_rate default_capacity default_rate t0 t1 : ℕ) (peer_id : String)
    (cs : List Check)
    → t0 ≤ t1
    → All (λ c. (t0 ≤ c.refill_now) × (c.refill_now ≤ t1)) cs
    → let r = init capacity refill_rate default_capacity default_rate in
      1000 * allowed_for peer_id r cs ≤ 1000 * r.capacity + r.refill_rate * (t1 - t0)
allowed_for-le c f d e t0 t1 peer_id cs h all =
    let r = init c f d e in
    Budget-le r.capacity r.refill_rate t0 t1 (allowed_for peer_id r cs)
      (lookup peer_id (run r cs).buckets) h
      (rw zero-add at
        (run-Tracks r.capacity r.refill_rate t0 t1 0 peer_id r cs all (
          unfold init lookup in
          record { capacity = refl; refill_rate = refl; budget = refl })).budget)
