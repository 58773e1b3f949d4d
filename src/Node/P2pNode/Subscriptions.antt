-- ===== src/Node/P2pNode/Subscriptions.antt =====
-- node/index.js: what the node is subscribed to after its commands.
use p2p_app.Prelude.{
  String, ◌≡◌, refl, true, false, List, [], ◌∷◌, Option, none, some, ite, same, contains,
  contains-add, contains-discard, add, discard, insert, arith,
}
use p2p_app.Protocol.GossipEngine
use p2p_app.Protocol.GossipEngine.{Platform, Instants, message_new}
use p2p_app.Protocol.GossipEngine.Receive.{receive_message}
use p2p_app.Protocol.Message.{Message}
use p2p_app.Protocol.MessageFactory.{MessageFactory, create, create_sub_ad}
use p2p_app.Security.{sign_outgoing_message}
use p2p_app.Node.Commands.{Mode}
use p2p_app.Storage.Level.{Level}
use p2p_app.Node.P2pNode.{
  Node, World, one_more, begin_summary, count_chat, on_message_new, handle_all, gossip, originate,
  advertise_subscription, subscribe, unsubscribe,
}

module _ (L : Level) where
  -- The subscriptions of the node are those of the list.
  abbrev Has : List String → Node L → Type 0
  Has topics s = s.local_subscriptions ≡ topics

  begin_summary-Has :
      (s : Node L) (topics : List String) (topic : String) (mode : Mode)
      → Has topics s
      → Has topics (begin_summary L s topic mode).0
  unfolding begin_summary
  begin_summary-Has s topics topic mode h = ground arith

  on_message_new-Has :
      (s : Node L) (topics : List String) (m : Message)
      → Has topics s
      → Has topics (on_message_new L s m).0
  unfolding on_message_new count_chat begin_summary
  on_message_new-Has s topics m h = ground arith

  handle_all-Has :
      (s : Node L) (topics : List String) (effects : List GossipEngine.Effect)
      → Has topics s
      → Has topics (handle_all L s effects).0
  unfolding handle_all
  handle_all-Has s topics [] h = h
  handle_all-Has s topics (message_new m ∷ effects) h =
      handle_all-Has (on_message_new L s m).0 topics effects (on_message_new-Has s topics m h)
  handle_all-Has s topics (_ ∷ effects) h = handle_all-Has s topics effects h

  gossip-Has :
      (platform : Platform) (s : Node L) (topics : List String) (m : Message) (from : Option String)
      (t : Instants)
      → Has topics s
      → Has topics (gossip L platform s m from t).0
  unfolding gossip
  gossip-Has platform s topics m from t h =
      let (engine, effects) = receive_message platform s.engine m from t in
      handle_all-Has (record s { engine = engine }) topics effects h

  originate-Has :
      (world : World) (s : Node L) (topics : List String) (factory : MessageFactory) (m : Message)
      → Has topics s
      → Has topics (originate L world s (factory, m)).0
  unfolding originate
  originate-Has world s topics factory m h =
      gossip-Has world.platform (record s { factory = factory }) topics
        (sign_outgoing_message world.platform.keys m) none world.instants h

  advertise_subscription-Has :
      (world : World) (s : Node L) (topics : List String) (topic action : String)
      → Has topics s
      → Has topics (advertise_subscription L world s topic action).0
  unfolding advertise_subscription
  advertise_subscription-Has world s topics topic action h =
      let seq = one_more topic s.local_sequences in
      let (factory, m) =
        create world.tools s.factory world.fresh s.peer_id
          (create_sub_ad topic seq action [] (some world.platform.keys.public_key)) in
      originate-Has world (record s { local_sequences = insert topic seq s.local_sequences }) topics
        factory m h

  -- After `subscribe` the node has exactly the topic more, and after `unsubscribe` exactly the topic
  -- less, whatever the advertisements did.
  pub subscribe-contains :
      (world : World) (s : Node L) (topic other : String)
      → contains (subscribe L world s topic).0.local_subscriptions other
        ≡ ite (same topic other) true (contains s.local_subscriptions other)
  unfolding subscribe
  subscribe-contains world s topic other =
      let topics = add s.local_subscriptions topic in
      let added = record s { local_subscriptions = topics } in
      let kept = advertise_subscription-Has world added topics topic "JOIN" refl in
      ground (arith, kept, contains-add s.local_subscriptions topic other)

  pub unsubscribe-contains :
      (world : World) (s : Node L) (topic other : String)
      → contains (unsubscribe L world s topic).0.local_subscriptions other
        ≡ ite (same topic other) false (contains s.local_subscriptions other)
  unfolding unsubscribe
  unsubscribe-contains world s topic other =
      let topics = discard topic s.local_subscriptions in
      let left = record s { local_subscriptions = topics } in
      let kept = advertise_subscription-Has world left topics topic "LEAVE" refl in
      ground (arith, kept, contains-discard topic s.local_subscriptions other)
