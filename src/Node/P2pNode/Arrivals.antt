-- ===== src/Node/P2pNode/Arrivals.antt =====
-- node/index.js: the handlers that `start` installs on the server and the connection pool.
use p2p_app.Prelude.{ℕ, ◌+◌, String, Bool, List, [], ◌∷◌, ◌++◌, map, Option, none, some}
use p2p_app.Protocol.AckManager.{AckManager, receive_ack}
use p2p_app.Protocol.GossipEngine.{route_lease_ms}
use p2p_app.Protocol.Message.{Message, MessageType}
use p2p_app.Protocol.TopicRouter.{
  TopicRouter, Route, at, update_route, get_topics_for_peer, clear_routes_for_peer, gc,
}
use p2p_app.Node.Peers.{Peers, update_heartbeat}
use p2p_app.Node.P2pNode.{
  Node, Effect, acked, peered, synced, session_started, World, gossip, handle_all, pooled,
}
use p2p_app.Security.{SecurityManager, register_peer_key}
use p2p_app.Storage.Level.{Level}
use p2p_app.Storage.SyncManager
use p2p_app.Storage.SyncManager.{
  SyncManager, Session, Parsed, on_peer_reconnected, receive_sync_batch, receive_sync_ack,
}
use p2p_app.Transport.ConnectionPool.{add_inbound_connection}

-- The handshake, whose fields are not those of a message.
pub record Hello : Type 0 where
  pub peer_id : String
  pub public_key : String
  pub subscriptions : Option (List String)

-- A packet of the type 'HELLO' is read as a handshake, any other as a message.
pub data Packet : Type 0 where
  greeting : Hello → Packet
  plain : Message → Packet

-- What parsing makes of the payload in the branches that parse it, and the time of the handler.
-- `batch_id` is absent where `JSON.parse` throws.
pub record Arrival : Type 0 where
  pub world : World
  pub now : ℕ
  pub ack_id : Option String
  pub batch : Parsed
  pub batch_id : Option String
  pub db_ok : Bool

-- The loops over the subscriptions of a handshake.
unfoldable pub register_subscriptions : TopicRouter → String → ℕ → List String → TopicRouter
register_subscriptions r peer_id now [] = r
register_subscriptions r peer_id now (topic ∷ topics) =
    let route : Route = record {
      next_hop = peer_id;
      hop_count = 0;
      sequence_number = 0;
      path = [];
      expires_at = at (now + route_lease_ms);
    } in
    register_subscriptions (update_route r topic peer_id route).0 peer_id now topics

unfoldable pub register_present : TopicRouter → String → ℕ → Option (List String) → TopicRouter
unfolding register_subscriptions
register_present r peer_id now none = r
register_present r peer_id now (some topics) = register_subscriptions r peer_id now topics

module _ (L : Level) where
  abbrev with_router : Node L → TopicRouter → Node L
  with_router s router = record s { engine = record s.engine { topic_router = router } }

  unfoldable pub start_sync : Bool → Node L → String → Node L × List Effect
  start_sync ok s peer_id =
      let topics = get_topics_for_peer s.engine.topic_router peer_id in
      let (sync, session) = on_peer_reconnected L ok s.sync peer_id topics in
      (
        record s { sync = sync },
        elim session [ none ↦ [] | some started ↦ session_started started ∷ [] ],
      )

  -- The server's 'connection'.
  unfoldable pub on_connection :
      Bool → Node L → String → ℕ → Option (List String) → ℕ → Node L × List Effect
  unfolding start_sync register_present
  on_connection ok s peer_id handle subscriptions now =
      let known : List String = elim subscriptions [ none ↦ [] | some topics ↦ topics ] in
      let (pool, effects) = add_inbound_connection s.engine.connection_pool peer_id handle known in
      let connected = record s { engine = record s.engine { connection_pool = pool } } in
      let routed =
        with_router connected (register_present s.engine.topic_router peer_id now subscriptions) in
      let (last, more) = start_sync ok routed peer_id in (last, map pooled effects ++ more)

  -- The pool's 'peer:disconnected' and 'peer:failed'.
  unfoldable pub on_peer_lost : Node L → String → Node L
  on_peer_lost s peer_id = with_router s (clear_routes_for_peer s.engine.topic_router peer_id)

  -- The garbage collection every five seconds.
  unfoldable pub on_gc_timer : Node L → ℕ → Node L
  on_gc_timer s now = with_router s (gc s.engine.topic_router now)

  unfoldable pub refresh_peer : Node L → String → ℕ → Node L × List Effect
  refresh_peer s peer_id now =
      let peers : Peers = record { state = s.state; connection_pool = s.engine.connection_pool } in
      let (updated, effects) = update_heartbeat peers peer_id none now in
      (record s { state = updated.state }, map peered effects)

  unfoldable pub on_hello : Arrival → Node L → Hello → Node L × List Effect
  unfolding start_sync register_present refresh_peer
  on_hello a s hello =
      let manager : Option SecurityManager = elim s.engine.security_manager [
        | none ↦ none
        | some m ↦ some (register_peer_key m hello.peer_id hello.public_key)
      ] in
      let registered = record s { engine = record s.engine { security_manager = manager } } in
      let (refreshed, effects) = refresh_peer registered hello.peer_id a.now in
      let routed =
        with_router refreshed
          (register_present s.engine.topic_router hello.peer_id a.now hello.subscriptions) in
      let (last, more) = start_sync a.db_ok routed hello.peer_id in (last, effects ++ more)

  unfoldable pub on_ack : Arrival → Node L → Message → Node L × List Effect
  on_ack a s m =
      let manager : AckManager = record {
        connection_pool = s.engine.connection_pool;
        lamport_clock = s.engine.lamport_clock;
        pending_acks = s.pending_acks;
      } in
      let (confirmed, effects) = receive_ack manager a.ack_id m.sender a.now in
      (record s { pending_acks = confirmed.pending_acks }, map acked effects)

  -- The handler of 'message:new' is called for what the engine does with a batch.
  unfoldable pub handle_synced : Node L → List SyncManager.Effect → Node L × List Effect
  handle_synced s [] = (s, [])
  handle_synced s (SyncManager.gossiped effect ∷ effects) =
      let (handled, here) = handle_all L s (effect ∷ []) in
      let (last, more) = handle_synced handled effects in (last, here ++ more)
  handle_synced s (effect ∷ effects) =
      let (last, more) = handle_synced s effects in (last, synced effect ∷ more)

  unfoldable pub on_sync_batch : Arrival → Node L → Message → String → Node L × List Effect
  unfolding handle_synced
  on_sync_batch a s m from_peer_id =
      let ((factory, engine), effects) =
        receive_sync_batch L a.world.platform a.world.tools s.sync (s.factory, s.engine)
          a.world.fresh m a.batch from_peer_id in
      handle_synced (record s { factory = factory; engine = engine }) effects

  unfoldable pub on_sync_ack : Arrival → Node L → Message → String → Node L × List Effect
  on_sync_ack a s m from_peer_id = elim a.batch_id [
    | none ↦ (s, [])
    | some batch_id ↦
        let (sync, effects) = receive_sync_ack L s.sync batch_id from_peer_id in
        (record s { sync = sync }, map synced effects)
  ]

  -- The branches for a message, which never has the type 'HELLO' here.
  unfoldable pub on_message :
      Arrival → Node L → MessageType → Message → String → Node L × List Effect
  unfolding on_ack on_sync_batch on_sync_ack refresh_peer
  on_message a s MessageType.ack m from_peer_id = on_ack a s m
  on_message a s MessageType.sync_batch m from_peer_id = on_sync_batch a s m from_peer_id
  on_message a s MessageType.sync_ack m from_peer_id = on_sync_ack a s m from_peer_id
  on_message a s MessageType.heartbeat m from_peer_id = refresh_peer s m.sender a.now
  on_message a s MessageType.peer_exchange m from_peer_id = (s, [])
  on_message a s MessageType.peer_list m from_peer_id = (s, [])
  on_message a s MessageType.hello m from_peer_id = (s, [])
  on_message a s _ m from_peer_id =
      gossip L a.world.platform s m (some from_peer_id) a.world.instants

  -- The pool's 'message:received'.
  unfoldable pub on_message_received : Arrival → Node L → Packet → String → Node L × List Effect
  unfolding on_message on_hello
  on_message_received a s (greeting hello) from_peer_id = on_hello a s hello
  on_message_received a s (plain m) from_peer_id = on_message a s m.type m from_peer_id
