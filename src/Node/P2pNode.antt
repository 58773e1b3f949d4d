-- ===== src/Node/P2pNode.antt =====
-- node/index.js: the node, which wires the parts together: what becomes of a new message, and what
-- the user's commands do. The parts share one connection pool, which the engine holds here.
pub mod Arrivals
pub mod Archive
pub mod Own
pub mod Subscriptions
pub mod Tests
use Prim.Native.Char.{code}
use p2p_app.Prelude.{
  ℕ, ◌+◌, ◌-◌, String, Bool, true, false, not, ◌&&◌, ◌||◌, List, [], ◌∷◌, ◌++◌, map, Option, none,
  some, Dict, lookup, insert, contains, add, discard, drop, length, leb, ◌==◌, if◌then◌else◌,
}
use p2p_app.Protocol.AckManager
use p2p_app.Protocol.AckManager.{PendingAck}
use p2p_app.Protocol.GossipEngine
use p2p_app.Protocol.GossipEngine.{Platform, Instants, GossipEngine, message_new}
use p2p_app.Protocol.GossipEngine.Receive.{receive_message}
use p2p_app.Protocol.Message.{Message, is_sub_ad, is_chat}
use p2p_app.Protocol.MessageFactory.{
  Tools, MessageFactory, Fresh, create, create_chat, create_sub_ad, create_summary,
}
use p2p_app.Node.Commands.{Mode, summary, command_of, mode_name}
use p2p_app.Node.State.{State}
use p2p_app.Node.Peers
use p2p_app.Protocol.TopicRouter.{dm_topic}
use p2p_app.Security.{KeyManager, sign_outgoing_message}
use p2p_app.Storage.Keys.{Key, codes, topic_prefix, end_key}
use p2p_app.Storage.Level.{Level, Value, stored, reference, number}
use p2p_app.Storage.MessageStore.{MessageStore, save, await_flush}
use p2p_app.Storage.SyncManager
use p2p_app.Storage.SyncManager.{SyncManager, Session}
use p2p_app.Transport.ConnectionPool

pub data Effect : Type 0 where
  gossiped : GossipEngine.Effect → Effect
  acked : AckManager.Effect → Effect
  peered : Peers.Effect → Effect
  pooled : ConnectionPool.Effect → Effect
  synced : SyncManager.Effect → Effect
  -- `emit('message', m)`, and the start of a session and of a summary.
  emitted : Message → Effect
  session_started : Session → Effect
  summary_started : String → Mode → Effect

-- What a call of the engine for a message of the node's own gets from outside.
pub record World : Type 0 where
  pub platform : Platform
  pub tools : Tools
  pub fresh : Fresh
  pub instants : Instants

abbrev pub auto_summary_after : ℕ
auto_summary_after = 20

-- The loop of `getRecentMessages`, and `slice(-limit)`.
unfoldable pub collect_chats : List (Key × Value) → List Message
collect_chats [] = []
collect_chats ((k, stored m) ∷ es) =
    let rest = collect_chats es in if is_chat m.type then m ∷ rest else rest
collect_chats ((k, reference j) ∷ es) = []
collect_chats ((k, number n) ∷ es) = collect_chats es

unfoldable pub last_of : ℕ → List Message → List Message
last_of limit ms = if limit == 0 then ms else drop (length ms - limit) ms

-- `(counts.get(key) || 0) + 1`.
unfoldable pub one_more : String → Dict ℕ → ℕ
one_more key counts = elim (lookup key counts) [ none ↦ 1 | some n ↦ n + 1 ]

module _ (L : Level) where
  -- The acknowledgement manager and the peer manager are kept without the pool and clock they share.
  pub record Node : Type 0 where
    pub peer_id : String
    pub engine : GossipEngine
    pub pending_acks : Dict PendingAck
    pub state : State
    pub sync : SyncManager L
    pub factory : MessageFactory
    pub local_subscriptions : List String
    pub local_sequences : Dict ℕ
    pub new_messages_counter : Dict ℕ
    pub active_summarizations : List String
    pub enable_auto_summary : Bool

  abbrev pub with_store : Node → MessageStore L → Node
  with_store s store = record s { sync = record s.sync { store = store } }

  -- `generateAndBroadcastSummary` up to its first `await`.
  unfoldable pub begin_summary : Node → String → Mode → Node × List Effect
  begin_summary s topic mode = if contains s.active_summarizations topic then (s, []) else (
    record s { active_summarizations = add s.active_summarizations topic },
    summary_started topic mode ∷ [],
  )

  -- The automatic summary of the twentieth chat message of a topic.
  unfoldable pub count_chat : Node → String → Node × List Effect
  unfolding begin_summary one_more
  count_chat s topic =
      let count = one_more topic s.new_messages_counter in
      let reset = record s { new_messages_counter = insert topic 0 s.new_messages_counter } in
      if leb auto_summary_after count
      then begin_summary reset topic summary
      else (record s { new_messages_counter = insert topic count s.new_messages_counter }, [])

  -- The handler of 'message:new'.
  unfoldable pub on_message_new : Node → Message → Node × List Effect
  unfolding count_chat
  on_message_new s m =
      let kept = with_store s (save L s.sync.store m) in
      let (tallied, effects) = count_chat kept m.topic in
      if is_sub_ad m.type
      then (s, [])
      else if is_chat m.type && s.enable_auto_summary
      then (tallied, emitted m ∷ effects)
      else (kept, emitted m ∷ [])

  -- What the engine did, with the handler called at each 'message:new'.
  unfoldable pub handle_all : Node → List GossipEngine.Effect → Node × List Effect
  unfolding on_message_new
  handle_all s [] = (s, [])
  handle_all s (message_new m ∷ effects) =
      let (handled, here) = on_message_new s m in
      let (last, more) = handle_all handled effects in
      (last, gossiped (message_new m) ∷ here ++ more)
  handle_all s (effect ∷ effects) =
      let (last, more) = handle_all s effects in (last, gossiped effect ∷ more)

  unfoldable pub gossip : Platform → Node → Message → Option String → Instants → Node × List Effect
  unfolding handle_all
  gossip platform s m from_peer_id t =
      let (engine, effects) = receive_message platform s.engine m from_peer_id t in
      handle_all (record s { engine = engine }) effects

  -- Signs a new message of the node's own and gives it to the engine.
  unfoldable pub originate : World → Node → MessageFactory × Message → Node × List Effect
  unfolding gossip
  originate world s (factory, m) =
      let signed = sign_outgoing_message world.platform.keys m in
      gossip world.platform (record s { factory = factory }) signed none world.instants

  -- The result is the id of the message; for a command, which has none, the code makes a text of the time.
  unfoldable pub publish : World → Node → String → String → (Node × List Effect) × Option String
  unfolding originate begin_summary create
  publish world s topic content = elim (command_of content) [
    | some mode ↦ (begin_summary s topic mode, none)
    | none ↦
        let created =
          create world.tools s.factory world.fresh s.peer_id
            (create_chat content topic (some world.platform.keys.public_key)) in
        (originate world s created, some created.1.id)
  ]

  unfoldable pub send_dm : World → Node → String → String → (Node × List Effect) × Option String
  unfolding publish
  send_dm world s peer_id content = publish world s (dm_topic peer_id) content

  -- `action` is 'JOIN' or 'LEAVE'.
  unfoldable pub advertise_subscription : World → Node → String → String → Node × List Effect
  unfolding originate one_more create
  advertise_subscription world s topic action =
      let seq = one_more topic s.local_sequences in
      let numbered = record s { local_sequences = insert topic seq s.local_sequences } in
      originate world numbered (
        create world.tools s.factory world.fresh s.peer_id
          (create_sub_ad topic seq action [] (some world.platform.keys.public_key)))

  -- The loop of `_refreshSubscriptions`, with what each round gets from outside.
  unfoldable pub refresh_subscriptions : (String → World) → Node → List String → Node × List Effect
  unfolding advertise_subscription
  refresh_subscriptions world_of s [] = (s, [])
  refresh_subscriptions world_of s (topic ∷ topics) =
      let (advertised, effects) = advertise_subscription (world_of topic) s topic "JOIN" in
      let (last, more) = refresh_subscriptions world_of advertised topics in (last, effects ++ more)

  unfoldable pub subscribe : World → Node → String → Node × List Effect
  unfolding advertise_subscription
  subscribe world s topic =
      let added = record s { local_subscriptions = add s.local_subscriptions topic } in
      if contains s.local_subscriptions topic
      then (s, [])
      else advertise_subscription world added topic "JOIN"

  unfoldable pub unsubscribe : World → Node → String → Node × List Effect
  unfolding advertise_subscription
  unsubscribe world s topic =
      let left = record s { local_subscriptions = discard topic s.local_subscriptions } in
      if contains s.local_subscriptions topic
      then advertise_subscription world left topic "LEAVE"
      else (s, [])

  unfoldable pub get_recent_messages : Bool → Node → String → ℕ → Node × List Message
  unfolding collect_chats last_of
  get_recent_messages ok s topic limit =
      let flushed = await_flush L ok s.sync.store in
      (
        with_store s flushed,
        last_of limit (collect_chats (L.range flushed.db (topic_prefix topic) (end_key topic))),
      )

  -- The rest of `generateAndBroadcastSummary`: `reply` is what the AI service makes of the messages.
  unfoldable pub finish_summary :
      World → Bool → Node → String → Mode → (List Message → Option String) → Node × List Effect
  unfolding get_recent_messages originate create
  finish_summary world ok s topic mode reply =
      let (read, messages) = get_recent_messages ok s topic 25 in
      let release : Node → Node =
        λ (n : Node). record n { active_summarizations = discard topic n.active_summarizations } in
      elim (if length messages == 0 then none else reply messages) [
        | none ↦ (release read, [])
        | some text ↦
            let (summarised, effects) = originate world read (
              create world.tools read.factory world.fresh read.peer_id (
                create_summary topic text (mode_name mode)
                  (some world.platform.keys.public_key))) in
            (release summarised, effects)
      ]
