-- ===== src/Storage/SyncManager.antt =====
-- storage/syncManager.js: a peer that comes back is sent the stored messages that it may have
-- missed, in batches, each of which waits for an acknowledgement or a timeout.
pub mod Order
pub mod Batches
pub mod Mark
pub mod Replay
mod Tests
use p2p_app.Prelude.{
  ℕ, ◌≡◌, String, Bool, true, false, not, List, [], ◌∷◌, ◌++◌, map, Option, none, some, Dict,
  lookup, insert, remove, length, ltb, leb, max, eqb, contains, ◌==◌, if◌then◌else◌, take, drop,
}
use p2p_app.Metrics.{Counter, sync_batches_sent_total, sync_acks_received_total}
use p2p_app.Protocol.Message.{Message}
use p2p_app.Protocol.GossipEngine
use p2p_app.Protocol.GossipEngine.{Platform, Instants, GossipEngine}
use p2p_app.Protocol.GossipEngine.Receive.{receive_message}
use p2p_app.Protocol.MessageFactory.{
  Tools, MessageFactory, Fresh, create, create_sync_batch, create_sync_ack,
}
use p2p_app.Storage.Keys.{Key, codes}
use p2p_app.Storage.Level.{Value, stored, reference, number, put, Level}
use p2p_app.Storage.MessageStore.{MessageStore, get_by_topic}

abbrev pub batch_size : ℕ
batch_size = 100

-- `connectionPool.send(peer, message)`, a counter, and what the gossip engine does.
pub data Effect : Type 0 where
  sent : String → Message → Effect
  counted : Counter → Effect
  gossiped : GossipEngine.Effect → Effect

-- The stable `sort` by timestamp.
unfoldable pub insert_sorted : Message → List Message → List Message
insert_sorted m [] = m ∷ []
insert_sorted m (n ∷ ms) =
    let rest = insert_sorted m ms in
    if leb m.lamport_timestamp n.lamport_timestamp then m ∷ n ∷ ms else n ∷ rest

unfoldable pub sort : List Message → List Message
sort [] = []
sort (m ∷ ms) = insert_sorted m (sort ms)

-- `Math.max` over the timestamps of a list that is not empty.
unfoldable pub max_lamport_of : List Message → ℕ
max_lamport_of [] = 0
max_lamport_of (m ∷ ms) = max m.lamport_timestamp (max_lamport_of ms)

-- `sync:${peerId}`.
unfoldable pub sync_key : String → Key
sync_key peer_id = 115 ∷ 121 ∷ 110 ∷ 99 ∷ 58 ∷ codes peer_id

-- `parseInt(value, 10) || 0`, where only a number has digits in front.
unfoldable pub parse_lamport : Option Value → ℕ
parse_lamport (some (number n)) = n
parse_lamport _ = 0

-- A run of `onPeerReconnected` between two batches: the messages still to send, what the peer had
-- seen when it began, and the latest timestamp that it sends.
pub record Session : Type 0 where
  pub peer_id : String
  pub last_seen : ℕ
  pub max_lamport : ℕ
  pub rest : List Message

-- How the wait for a batch ends.
pub data Outcome : Type 0 where
  acked timed_out : Outcome

pub record Round : Type 0 where
  pub fresh : Fresh
  pub outcome : Outcome

-- The loop of `receiveSyncBatch`, with the instants of each call of the engine.
unfoldable pub receive_all :
    Platform
    → GossipEngine
    → String
    → List (Message × Instants)
    → GossipEngine × List GossipEngine.Effect
receive_all platform e from_peer_id [] = (e, [])
receive_all platform e from_peer_id ((m, t) ∷ ms) =
    let (received, effects) = receive_message platform e m (some from_peer_id) t in
    let (last, more) = receive_all platform received from_peer_id ms in
    let skipped = receive_all platform e from_peer_id ms in
    if contains e.seen_messages m.id then skipped else (last, effects ++ more)

-- What `JSON.parse` makes of the payload.
pub data Parsed : Type 0 where
  throws no_array : Parsed
  listed : List (Message × Instants) → Parsed

module _ (L : Level) where
  -- `is_open` is `db.status === 'open'`; a pending entry keeps the id of the batch it waits for.
  pub record SyncManager : Type 0 where
    pub store : MessageStore L
    pub is_open : Bool
    pub local_peer_id : String
    pub pending_acks : Dict String

  unfoldable pub get_last_seen_lamport : SyncManager → String → ℕ
  unfolding parse_lamport sync_key
  get_last_seen_lamport s peer_id =
      if s.is_open then parse_lamport (L.get s.store.db (sync_key peer_id)) else 0

  unfoldable pub update_last_seen_lamport : Bool → SyncManager → String → ℕ → SyncManager
  update_last_seen_lamport ok s peer_id lamport_timestamp =
      let written_db =
        L.batch s.store.db (put (sync_key peer_id) (number lamport_timestamp) ∷ []) in
      let updated = record s { store = record s.store { db = written_db } } in
      if s.is_open then (if ok then updated else s) else s

  -- The loop over the topics; each read flushes the store first.
  unfoldable pub gather : Bool → MessageStore L → ℕ → List String → MessageStore L × List Message
  gather ok store since [] = (store, [])
  gather ok store since (topic ∷ topics) =
      let (read, messages) = get_by_topic L ok store topic since in
      let (last, more) = gather ok read since topics in (last, messages ++ more)

  -- `onPeerReconnected` up to its loop, for the topics of the peer in the router.
  unfoldable pub on_peer_reconnected :
      Bool → SyncManager → String → List String → SyncManager × Option Session
  unfolding get_last_seen_lamport gather sort max_lamport_of
  on_peer_reconnected ok s peer_id topics =
      let last_seen = get_last_seen_lamport s peer_id in
      let (store, messages) = gather ok s.store last_seen topics in
      let read = record s { store = store } in
      let session : Session = record {
        peer_id = peer_id;
        last_seen = last_seen;
        max_lamport = max_lamport_of messages;
        rest = sort messages;
      } in
      if not s.is_open
      then (s, none)
      else if length messages == 0
      then (read, none)
      else (read, some session)

  -- What a part of a session leaves.
  pub record Running : Type 0 where
    pub factory : MessageFactory
    pub manager : SyncManager
    pub session : Session
    pub effects : List Effect

  -- The body of the loop up to its `await`: a batch is sent, and its id is pending.
  unfoldable pub send_batch : Tools → Fresh → Running → Running
  unfolding create
  send_batch tools fresh r =
      let chunk = take batch_size r.session.rest in
      let (factory, sync_msg) =
        create tools r.factory fresh r.manager.local_peer_id (create_sync_batch chunk) in
      record {
        factory = factory;
        manager = record r.manager {
          pending_acks = insert r.session.peer_id sync_msg.id r.manager.pending_acks;
        };
        session = record r.session { rest = drop batch_size r.session.rest };
        effects =
            r.effects ++ sent r.session.peer_id sync_msg ∷ counted sync_batches_sent_total ∷ [];
      }

  -- `batch_id` is that of the payload. Only the batch that the peer is waited for counts.
  unfoldable pub receive_sync_ack : SyncManager → String → String → SyncManager × List Effect
  receive_sync_ack s batch_id from_peer_id = elim (lookup from_peer_id s.pending_acks) [
    | none ↦ (s, [])
    | some pending ↦
        if eqb pending batch_id
        then (
          record s { pending_acks = remove from_peer_id s.pending_acks },
          counted sync_acks_received_total ∷ [],
        )
        else (s, [])
  ]

  -- The timeout of `#waitForAck`.
  unfoldable pub ack_timeout : SyncManager → String → SyncManager
  ack_timeout s peer_id = record s { pending_acks = remove peer_id s.pending_acks }

  -- The end of `onPeerReconnected`.
  unfoldable pub finish : Bool → Running → SyncManager
  unfolding update_last_seen_lamport
  finish ok r =
      let updated = update_last_seen_lamport ok r.manager r.session.peer_id r.session.max_lamport in
      if ltb r.session.last_seen r.session.max_lamport then updated else r.manager

  unfoldable pub settle : Outcome → String → Running → Running
  unfolding receive_sync_ack ack_timeout
  settle acked batch_id r =
      let (manager, effects) = receive_sync_ack r.manager batch_id r.session.peer_id in
      record r { manager = manager; effects = r.effects ++ effects }
  settle timed_out batch_id r = record r { manager = ack_timeout r.manager r.session.peer_id }

  -- The loop of `onPeerReconnected`; a round sends a batch and waits.
  unfoldable pub rounds : Tools → Running → List Round → Running
  unfolding send_batch settle
  rounds tools r [] = r
  rounds tools r (round ∷ more) =
      let next = settle round.outcome round.fresh.id (send_batch tools round.fresh r) in
      let last = rounds tools next more in if length r.session.rest == 0 then r else last

  unfoldable pub receive_sync_batch :
      Platform
      → Tools
      → SyncManager
      → MessageFactory × GossipEngine
      → Fresh
      → Message
      → Parsed
      → String
      → (MessageFactory × GossipEngine) × List Effect
  unfolding receive_all create
  receive_sync_batch platform tools s (factory, e) fresh sync_batch throws from_peer_id =
      ((factory, e), [])
  receive_sync_batch platform tools s (factory, e) fresh sync_batch no_array from_peer_id =
      ((factory, e), [])
  receive_sync_batch platform tools s (factory, e) fresh sync_batch (listed ms) from_peer_id =
      let (received, effects) = receive_all platform e from_peer_id ms in
      let (next, ack) =
        create tools factory fresh s.local_peer_id (create_sync_ack sync_batch.id) in
      ((next, received), map gossiped effects ++ sent from_peer_id ack ∷ [])
