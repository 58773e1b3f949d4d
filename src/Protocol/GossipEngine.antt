-- ===== src/Protocol/GossipEngine.antt =====
-- protocol/gossipEngine.js: how a node treats a message that it receives. A handler returns the new
-- state and the list of what it did. What Node and other code provide is a parameter, the platform.
pub mod Forward
pub mod Receive
mod Tests
use p2p_app.Prelude.{
  ℕ, zero, suc, ◌+◌, String, Bool, true, false, not, ◌&&◌, ◌||◌, List, [], ◌∷◌, ◌++◌, map, Option,
  none, some, add, add_all, contains, keep, length, get_elem?, min, ltb, eqb, ◌==◌, pred_ℤ, is_pos,
  above_one, if◌then◌else◌,
}
use p2p_app.Config.{gossip_fanout, pow_difficulty}
use p2p_app.Metrics.{
  Counter, messages_received_total, messages_dropped_pow, messages_dropped_ratelimit,
  invalid_signature_count, messages_dropped_duplicate, messages_dropped_ttl,
  messages_forwarded_total,
}
use p2p_app.Protocol.Message.{Message, MessageType, is_sub_ad}
use p2p_app.Protocol.LamportClock
use p2p_app.Protocol.LamportClock.{LamportClock}
use p2p_app.Protocol.RateLimiter
use p2p_app.Protocol.RateLimiter.{RateLimiter, check_limit}
use p2p_app.Protocol.TopicRouter
use p2p_app.Protocol.TopicRouter.{
  TopicRouter, Route, at, update_route, remove_route, get_peers_for_topic,
}
use p2p_app.Security.{KeyManager, SecurityManager, verify_incoming_message}
use p2p_app.Transport.ConnectionPool
use p2p_app.Transport.ConnectionPool.{ConnectionPool, get_all_peer_ids, broadcast}

pub data Action : Type 0 where
  join leave other : Action

-- The payload of a subscription advertisement.
pub record SubAd : Type 0 where
  pub topic : String
  pub sequence_number : ℕ
  pub action : Action

-- `pow.verifyPuzzle`, the key manager, `JSON.parse` of a payload, which may throw, and
-- `Math.floor(Math.random() * n)` at each of the draws of a loop.
pub record Platform : Type 0 where
  pub verify_puzzle : String → ℕ → ℕ → Bool
  pub keys : KeyManager
  pub parse_sub_ad : String → Option SubAd
  pub random_index : ℕ → ℕ → ℕ

-- The clock readings of one call, in milliseconds.
pub record Instants : Type 0 where
  pub limit_now : ℕ
  pub refill_now : ℕ
  pub route_now : ℕ
  pub topic_now : ℕ

-- `security_manager` and `node_peer_id` (`nodeConfig.peerId`) may be absent.
pub record GossipEngine : Type 0 where
  pub connection_pool : ConnectionPool
  pub lamport_clock : LamportClock
  pub security_manager : Option SecurityManager
  pub node_peer_id : Option String
  pub seen_messages : List String
  pub rate_limiter : RateLimiter
  pub topic_router : TopicRouter

pub data Effect : Type 0 where
  counted : Counter → Effect
  limited : RateLimiter.Event → Effect
  pooled : ConnectionPool.Effect → Effect
  message_new : Message → Effect

-- What a part of a handler leaves: the state, the message, which the code changes in place, what it
-- did, and whether the handler goes on rather than returns.
pub record Stage : Type 0 where
  pub engine : GossipEngine
  pub message : Message
  pub effects : List Effect
  pub goes_on : Bool

unfoldable pub and_then : Stage → (GossipEngine → Message → Stage) → Stage
and_then s next =
    let t = next s.engine s.message in
    if s.goes_on then (record t { effects = s.effects ++ t.effects }) else s

abbrev pub go_on : GossipEngine → Message → List Effect → Stage
go_on e m effects = record { engine = e; message = m; effects = effects; goes_on = true }

abbrev pub return : GossipEngine → Message → List Effect → Stage
return e m effects = record { engine = e; message = m; effects = effects; goes_on = false }

unfoldable pub check_puzzle : Platform → GossipEngine → Message → Stage
check_puzzle platform e m =
    if platform.verify_puzzle m.id pow_difficulty m.pow_nonce
    then go_on e m (counted messages_received_total ∷ [])
    else return e m (counted messages_received_total ∷ counted messages_dropped_pow ∷ [])

-- `from_peer_id` is absent for a message of the node's own; an empty id counts as absent.
unfoldable pub check_rate : Option String → Instants → GossipEngine → Message → Stage
check_rate none t e m = go_on e m []
check_rate (some peer) t e m =
    let verdict =
      check_limit e.rate_limiter
        (record { peer_id = peer; now = t.limit_now; refill_now = t.refill_now }) in
    let checked = record e { rate_limiter = verdict.limiter } in
    if verdict.allowed
    then go_on checked m (map limited verdict.events)
    else return checked m (map limited verdict.events ++ counted messages_dropped_ratelimit ∷ [])

unfoldable pub check_sender : Platform → GossipEngine → Message → Stage
check_sender platform e m = elim e.security_manager [
  | none ↦ go_on e m []
  | some manager ↦
      let verdict = verify_incoming_message platform.keys manager m in
      let verified = record e { security_manager = some verdict.manager } in
      if verdict.is_valid
      then go_on verified m (map counted verdict.counted)
      else return verified m (map counted verdict.counted ++ counted invalid_signature_count ∷ [])
]

-- The clock after a message; timestamp 0 leaves it alone.
unfoldable pub update_clock : LamportClock → Message → LamportClock
update_clock clock m =
    if m.lamport_timestamp == 0 then clock else (LamportClock.update clock m.lamport_timestamp).0

unfoldable pub check_duplicate : GossipEngine → Message → Stage
unfolding update_clock
check_duplicate e m =
    let updated = record e { lamport_clock = update_clock e.lamport_clock m } in
    if contains e.seen_messages m.id
    then return updated m (counted messages_dropped_duplicate ∷ [])
    else go_on (record updated { seen_messages = add e.seen_messages m.id }) m []

-- `connectionPool.broadcast` to the selected peers, by excluding all others.
unfoldable pub broadcast_selected : GossipEngine → Message → List String → List Effect
broadcast_selected e m [] = []
broadcast_selected e m (p ∷ selected) =
    let active = get_all_peer_ids e.connection_pool in
    map pooled (broadcast e.connection_pool m (keep (λ q. not (contains (p ∷ selected) q)) active))
    ++ counted messages_forwarded_total ∷ []

-- `excludeSet.add(fromPeerId)` when there is one.
unfoldable pub add_present : List String → Option String → List String
add_present xs none = xs
add_present xs (some x) = add xs x

-- `nodeConfig.peerId || connectionPool.localPeerId`.
unfoldable pub local_peer_id : GossipEngine → String
local_peer_id e = elim e.node_peer_id [
  | none ↦ e.connection_pool.local_peer_id
  | some peer ↦ if eqb peer "" then e.connection_pool.local_peer_id else peer
]

-- The peers that an advertisement is passed on to: not on its path, nor its last hop or origin.
unfoldable pub flood_selected : GossipEngine → Message → Option String → List String → List String
flood_selected e m from_peer_id next_path =
    let exclude_set = add (add_present (add_all [] next_path) from_peer_id) m.sender in
    keep (λ p. not (contains exclude_set p)) (get_all_peer_ids e.connection_pool)

-- `message` as it is passed on.
unfoldable pub hop : GossipEngine → Message → Message
hop e m = record m { ttl = pred_ℤ m.ttl; routing_path = m.routing_path ++ local_peer_id e ∷ [] }

-- The forwarding in the JOIN and LEAVE branches, when the routing table has changed.
unfoldable pub flood : Bool → GossipEngine → Message → Option String → Stage
unfolding flood_selected hop
flood changed e m from_peer_id =
    let next = hop e m in
    if changed && above_one m.ttl
    then go_on e next
        (broadcast_selected e next (flood_selected e m from_peer_id next.routing_path))
    else go_on e m []

abbrev pub route_lease_ms : ℕ
route_lease_ms = 30000

unfoldable pub advertised_route : GossipEngine → Message → Option String → SubAd → ℕ → Route
advertised_route e m from_peer_id ad now = record {
  next_hop = elim from_peer_id [ none ↦ local_peer_id e | some peer ↦ peer ];
  hop_count = length m.routing_path;
  sequence_number = ad.sequence_number;
  path = m.routing_path;
  expires_at = at (now + route_lease_ms);
}

unfoldable pub apply_action : Action → SubAd → Option String → ℕ → GossipEngine → Message → Stage
unfolding flood advertised_route
apply_action join ad from_peer_id now e m =
    let (router, updated) =
      update_route e.topic_router ad.topic m.sender (advertised_route e m from_peer_id ad now) in
    flood updated (record e { topic_router = router }) m from_peer_id
apply_action leave ad from_peer_id now e m =
    let (router, deleted) = remove_route e.topic_router ad.topic m.sender in
    flood deleted (record e { topic_router = router }) m from_peer_id
apply_action other ad from_peer_id now e m = go_on e m []

unfoldable pub process_sub_ad : Platform → Option String → ℕ → GossipEngine → Message → Stage
unfolding apply_action
process_sub_ad platform from_peer_id now e m = elim (platform.parse_sub_ad m.payload) [
  | none ↦ return e m []
  | some ad ↦
      let applied = apply_action ad.action ad from_peer_id now e m in
      if contains m.routing_path (local_peer_id e) then return e m [] else applied
]
