-- ===== src/Protocol/GossipEngine/Receive/Refusal.antt =====
-- protocol/gossipEngine.js: a message that fails a check of `receiveMessage`.
use p2p_app.Prelude.{
  String, ◌≡◌, refl, ◌∙◌, ap, true, false, ◌&&◌, [], Option, none, some, contains, arith, if-cases,
  inl, inr,
}
use p2p_app.Config.{pow_difficulty}
use p2p_app.Protocol.Message.{Message}
use p2p_app.Protocol.RateLimiter.{check_limit}
use p2p_app.Protocol.GossipEngine.{
  Platform, Instants, GossipEngine, Stage, and_then, check_puzzle, check_rate, check_sender,
  check_duplicate,
}
use p2p_app.Protocol.GossipEngine.Receive.{checks, receive_message}
use p2p_app.Protocol.GossipEngine.Receive.Admission.{outward}
use p2p_app.Protocol.GossipEngine.Receive.Gate.{checks-Checked}
use p2p_app.Security.{SecurityManager, verify_incoming_message}

-- The reasons for which a message is dropped.
pub data Refused (platform : Platform) (e : GossipEngine) (m : Message) (t : Instants)
    (from_peer_id : Option String) : Type 0 where
  no_work :
      platform.verify_puzzle m.id pow_difficulty m.pow_nonce ≡ false
      → Refused platform e m t from_peer_id
  over_limit :
      (peer : String)
      → from_peer_id ≡ some peer
      → (check_limit e.rate_limiter
          (record { peer_id = peer; now = t.limit_now; refill_now = t.refill_now })).allowed
        ≡ false
      → Refused platform e m t from_peer_id
  unsigned :
      (manager : SecurityManager)
      → e.security_manager ≡ some manager
      → (verify_incoming_message platform.keys manager m).is_valid ≡ false
      → Refused platform e m t from_peer_id
  duplicate : contains e.seen_messages m.id ≡ true → Refused platform e m t from_peer_id

goes_on-and_then :
    (s : Stage) (next : GossipEngine → Message → Stage)
    → (and_then s next).goes_on ≡ (s.goes_on && (next s.engine s.message).goes_on)
unfolding and_then
goes_on-and_then s next =
    if-cases (λ (a : Stage). a.goes_on ≡ (s.goes_on && (next s.engine s.message).goes_on)) s.goes_on
      _ s (λ h. ground arith) (λ h. ground arith)

-- The parts of the state that the later checks read are left alone by the earlier ones.
record Untouched (e : GossipEngine) (m : Message) (s : Stage) : Type 0 where
  same_message : s.message ≡ m
  same_manager : s.engine.security_manager ≡ e.security_manager
  same_limiter : s.engine.rate_limiter ≡ e.rate_limiter

check_puzzle-Untouched :
    (platform : Platform) (e : GossipEngine) (m : Message)
    → Untouched e m (check_puzzle platform e m)
unfolding check_puzzle
check_puzzle-Untouched platform e m =
    if-cases (Untouched e m) (platform.verify_puzzle m.id pow_difficulty m.pow_nonce) _ _
      (λ h. record { same_message = refl; same_manager = refl; same_limiter = refl })
      (λ h. record { same_message = refl; same_manager = refl; same_limiter = refl })

check_rate-manager :
    (o : Option String) (t : Instants) (e : GossipEngine) (m : Message)
    → ((check_rate o t e m).engine.security_manager ≡ e.security_manager)
      × ((check_rate o t e m).message ≡ m)
unfolding check_rate
check_rate-manager none t e m = (refl, refl)
check_rate-manager (some peer) t e m =
    if-cases (λ (s : Stage). (s.engine.security_manager ≡ e.security_manager) × (s.message ≡ m))
      (check_limit e.rate_limiter
        (record { peer_id = peer; now = t.limit_now; refill_now = t.refill_now })).allowed
      _ _ (λ h. (refl, refl)) (λ h. (refl, refl))

check_puzzle-stops :
    (platform : Platform) (e : GossipEngine) (m : Message)
    → platform.verify_puzzle m.id pow_difficulty m.pow_nonce ≡ false
    → (check_puzzle platform e m).goes_on ≡ false
unfolding check_puzzle
check_puzzle-stops platform e m h = ground arith

check_rate-stops :
    (o : Option String) (peer : String) (t : Instants) (e : GossipEngine) (m : Message)
    → o ≡ some peer
    → (check_limit e.rate_limiter
        (record { peer_id = peer; now = t.limit_now; refill_now = t.refill_now })).allowed
      ≡ false
    → (check_rate o t e m).goes_on ≡ false
unfolding check_rate
check_rate-stops o peer t e m here h = rw (here, check_rate) (ground arith)

check_sender-stops :
    (platform : Platform) (e : GossipEngine) (m : Message) (manager : SecurityManager)
    → e.security_manager ≡ some manager
    → (verify_incoming_message platform.keys manager m).is_valid ≡ false
    → (check_sender platform e m).goes_on ≡ false
unfolding check_sender
check_sender-stops platform e m manager here bad = rw (here, check_sender) (ground arith)

module _ (platform : Platform) (e : GossipEngine) (m : Message) (o : Option String)
    (t : Instants) where
  -- The stages before the rate limit and before the signature.
  abbrev s1 : Stage
  s1 = check_puzzle platform e m

  abbrev s2 : Stage
  s2 = and_then s1 (check_rate o t)

  s2-manager : (s2.engine.security_manager ≡ e.security_manager) × (s2.message ≡ m)
  unfolding and_then
  s2-manager =
      let u = check_puzzle-Untouched platform e m in
      let (b, c) = check_rate-manager o t s1.engine s1.message in
      if-cases (λ (s : Stage). (s.engine.security_manager ≡ e.security_manager) × (s.message ≡ m))
        s1.goes_on _ s1 (λ h. (b ∙ u.same_manager, c ∙ u.same_message))
        (λ h. (u.same_manager, u.same_message))

  checks-stops : Refused platform e m t o → (checks platform o t e m).goes_on ≡ false
  unfolding checks
  checks-stops (no_work h) = ground (
    arith,
    goes_on-and_then s1 (check_rate o t),
    goes_on-and_then s2 (check_sender platform),
    goes_on-and_then (and_then s2 (check_sender platform)) check_duplicate,
    check_puzzle-stops platform e m h,
  )
  checks-stops (over_limit peer here h) =
      let u = check_puzzle-Untouched platform e m in
      let refused = check_rate-stops o peer t s1.engine s1.message here (
        ap
          (λ r.
            (check_limit r
              (record { peer_id = peer; now = t.limit_now; refill_now = t.refill_now })).allowed)
          u.same_limiter
        ∙ h) in
      ground (
        arith,
        goes_on-and_then s1 (check_rate o t),
        goes_on-and_then s2 (check_sender platform),
        goes_on-and_then (and_then s2 (check_sender platform)) check_duplicate,
        refused,
      )
  checks-stops (unsigned manager here bad) =
      let (b, c) = s2-manager in
      let refused =
        check_sender-stops platform s2.engine s2.message manager (b ∙ here)
          (ap (λ m2. (verify_incoming_message platform.keys manager m2).is_valid) c ∙ bad) in
      ground (
        arith,
        goes_on-and_then s2 (check_sender platform),
        goes_on-and_then (and_then s2 (check_sender platform)) check_duplicate,
        refused,
      )
  checks-stops (duplicate h) = elim (checks-Checked platform o t e m).seen [
    | inl (goes, new, seen) ↦ absurd (ground arith)
    | inr (stops, kept) ↦ stops
  ]

  -- A message without proof of work, over its neighbour's rate limit, without a valid signature, or
  -- seen before is neither sent on nor announced, and leaves the seen set, the routes and the
  -- connections as they were.
  pub receive_message-Refused :
      Refused platform e m t o
      → let (after, effects) = receive_message platform e m o t in
        (outward effects ≡ [])
        × (after.seen_messages ≡ e.seen_messages)
        × (after.topic_router ≡ e.topic_router)
        × (after.connection_pool ≡ e.connection_pool)
  unfolding receive_message and_then
  receive_message-Refused r =
      let s = checks platform o t e m in
      let c = checks-Checked platform o t e m in
      let stops = checks-stops r in
      if-cases
        (λ (a : Stage).
          (outward a.effects ≡ [])
          × (a.engine.seen_messages ≡ e.seen_messages)
          × (a.engine.topic_router ≡ e.topic_router)
          × (a.engine.connection_pool ≡ e.connection_pool))
        s.goes_on _ s (λ goes. absurd (ground arith))
        (λ h. elim c.seen [
          | inl (goes, new, seen) ↦ absurd (ground arith)
          | inr (stopped, kept) ↦ (c.silent, kept, c.same_routes, c.same_pool)
        ])
