-- ===== src/Protocol/GossipEngine/Receive/Admission.antt =====
-- protocol/gossipEngine.js: the checks before the duplicate test have no effect on other nodes.
use p2p_app.Prelude.{
  String, ◌≡◌, refl, ◌∙◌, ap, List, [], ◌∷◌, ◌++◌, map, Option, none, some, arith, if-cases,
  Bool-cases, Option-cases, inl, inr,
}
use p2p_app.Config.{pow_difficulty}
use p2p_app.Metrics.{Counter}
use p2p_app.Protocol.Message.{Message}
use p2p_app.Protocol.RateLimiter
use p2p_app.Protocol.RateLimiter.{check_limit}
use p2p_app.Protocol.GossipEngine.{
  Platform, Instants, GossipEngine, Effect, counted, limited, pooled, message_new, Stage, and_then,
  check_puzzle, check_rate, check_sender,
}
use p2p_app.Security.{verify_incoming_message}

-- What other nodes and the node's own layer get to see: the sends and the announced messages.
abbrev pub outward : List Effect → List Effect
outward [] = []
outward (pooled x ∷ effects) = pooled x ∷ outward effects
outward (message_new m ∷ effects) = message_new m ∷ outward effects
outward (_ ∷ effects) = outward effects

pub outward-append : (xs ys : List Effect) → outward (xs ++ ys) ≡ outward xs ++ outward ys
outward-append [] ys = refl
outward-append (pooled x ∷ xs) ys = ap (◌∷◌ (pooled x)) (outward-append xs ys)
outward-append (message_new m ∷ xs) ys = ap (◌∷◌ (message_new m)) (outward-append xs ys)
outward-append (counted c ∷ xs) ys = outward-append xs ys
outward-append (limited x ∷ xs) ys = outward-append xs ys

outward_counted : (cs : List Counter) → outward (map counted cs) ≡ []
outward_counted [] = refl
outward_counted (c ∷ cs) = outward_counted cs

outward_limited : (xs : List RateLimiter.Event) → outward (map limited xs) ≡ []
outward_limited [] = refl
outward_limited (x ∷ xs) = outward_limited xs

-- A stage that only looks: it sends and announces nothing, and keeps the message, the seen set, the
-- routes and the connections.
pub record Quiet (e : GossipEngine) (m : Message) (s : Stage) : Type 0 where
  pub silent : outward s.effects ≡ []
  pub same_message : s.message ≡ m
  pub same_seen : s.engine.seen_messages ≡ e.seen_messages
  pub same_routes : s.engine.topic_router ≡ e.topic_router
  pub same_pool : s.engine.connection_pool ≡ e.connection_pool
  pub same_id : s.engine.node_peer_id ≡ e.node_peer_id

check_puzzle-Quiet :
    (platform : Platform) (e : GossipEngine) (m : Message) → Quiet e m (check_puzzle platform e m)
unfolding check_puzzle
check_puzzle-Quiet platform e m =
    elim (Bool-cases (platform.verify_puzzle m.id pow_difficulty m.pow_nonce)) [
      | inl h ↦ rw h (record {
        silent = refl;
        same_message = refl;
        same_seen = refl;
        same_routes = refl;
        same_pool = refl;
        same_id = refl;
      })
      | inr h ↦ rw h (record {
        silent = refl;
        same_message = refl;
        same_seen = refl;
        same_routes = refl;
        same_pool = refl;
        same_id = refl;
      })
    ]

check_rate-Quiet :
    (from_peer_id : Option String) (t : Instants) (e : GossipEngine) (m : Message)
    → Quiet e m (check_rate from_peer_id t e m)
unfolding check_rate
check_rate-Quiet none t e m = record {
  silent = refl;
  same_message = refl;
  same_seen = refl;
  same_routes = refl;
  same_pool = refl;
  same_id = refl;
}
check_rate-Quiet (some peer) t e m =
    let verdict =
      check_limit e.rate_limiter
        (record { peer_id = peer; now = t.limit_now; refill_now = t.refill_now }) in
    elim (Bool-cases verdict.allowed) [
      | inl h ↦ rw h (record {
        silent = outward_limited verdict.events;
        same_message = refl;
        same_seen = refl;
        same_routes = refl;
        same_pool = refl;
        same_id = refl;
      })
      | inr h ↦ rw h (record {
        silent = ground (
          arith,
          outward-append (map limited verdict.events)
              (counted Counter.messages_dropped_ratelimit ∷ []),
          outward_limited verdict.events,
        );
        same_message = refl;
        same_seen = refl;
        same_routes = refl;
        same_pool = refl;
        same_id = refl;
      })
    ]

check_sender-Quiet :
    (platform : Platform) (e : GossipEngine) (m : Message) → Quiet e m (check_sender platform e m)
unfolding check_sender
check_sender-Quiet platform e m = elim (Option-cases e.security_manager) [
  | inl h ↦
      rw (h, check_sender)
        (record {
          silent = refl;
          same_message = refl;
          same_seen = refl;
          same_routes = refl;
          same_pool = refl;
          same_id = refl;
        })
  | inr (manager, h) ↦
      let verdict = verify_incoming_message platform.keys manager m in
      rw (h, check_sender)
        (elim (Bool-cases verdict.is_valid) [
          | inl v ↦ rw v (record {
            silent = outward_counted verdict.counted;
            same_message = refl;
            same_seen = refl;
            same_routes = refl;
            same_pool = refl;
            same_id = refl;
          })
          | inr v ↦ rw v (record {
            silent = ground (
              arith,
              outward-append (map counted verdict.counted)
                  (counted Counter.invalid_signature_count ∷ []),
              outward_counted verdict.counted,
            );
            same_message = refl;
            same_seen = refl;
            same_routes = refl;
            same_pool = refl;
            same_id = refl;
          })
        ])
]

and_then-Quiet :
    (e : GossipEngine) (m : Message) (s : Stage) (next : GossipEngine → Message → Stage)
    → Quiet e m s
    → ((e2 : GossipEngine) (m2 : Message) → Quiet e2 m2 (next e2 m2))
    → Quiet e m (and_then s next)
unfolding and_then
and_then-Quiet e m s next q next_quiet =
    let t = next s.engine s.message in
    let n = next_quiet s.engine s.message in
    if-cases (Quiet e m) s.goes_on (record t { effects = s.effects ++ t.effects }) s
      (λ h. record {
        silent = ground (arith, outward-append s.effects t.effects, q.silent, n.silent);
        same_message = n.same_message ∙ q.same_message;
        same_seen = n.same_seen ∙ q.same_seen;
        same_routes = n.same_routes ∙ q.same_routes;
        same_pool = n.same_pool ∙ q.same_pool;
        same_id = n.same_id ∙ q.same_id;
      })
      (λ h. q)

-- The first three checks.
unfoldable pub admission : Platform → Option String → Instants → GossipEngine → Message → Stage
admission platform from_peer_id t e m =
    and_then (and_then (check_puzzle platform e m) (check_rate from_peer_id t))
      (check_sender platform)

pub admission-Quiet :
    (platform : Platform) (from_peer_id : Option String) (t : Instants) (e : GossipEngine)
    (m : Message)
    → Quiet e m (admission platform from_peer_id t e m)
unfolding admission
admission-Quiet platform from_peer_id t e m =
    and_then-Quiet e m _ _
      (and_then-Quiet e m _ _ (check_puzzle-Quiet platform e m) (check_rate-Quiet from_peer_id t))
      (check_sender-Quiet platform)
