-- ===== src/Node/P2pNode/Own.antt =====
-- node/index.js: what the user publishes, and whose key a handshake registers.
use p2p_app.Prelude.{
  String, ◌≡◌, ◌≢◌, refl, ◌∙◌, ap, true, false, none, some, lookup, lookup-insert_self, insert,
  contains,
}
use p2p_app.Config.{pow_difficulty}
use p2p_app.Node.Commands.{command_of}
use p2p_app.Node.P2pNode.{Node, World, publish, originate}
use p2p_app.Node.P2pNode.Arrivals.{
  Arrival, Hello, greeting, on_message_received, on_hello, start_sync, refresh_peer,
}
use p2p_app.Node.P2pNode.Archive.{IsIndexed, gossip-IsIndexed}
use p2p_app.Protocol.GossipEngine.Receive.Accept.{aged, receive_message-accepted}
use p2p_app.Protocol.Message.{Message}
use p2p_app.Protocol.MessageFactory.{create, create_chat, create_base_message}
use p2p_app.Security.{
  SecurityManager, KeyManager, register_peer_key, Signed, payload_to_sign, sign_outgoing_message,
  verify_incoming_message, present,
}
use p2p_app.Security.Trust.{
  verify_incoming_message-sign, sender_key_known, verify_incoming_message-is_valid,
}
use p2p_app.Storage.Level.{Level}

-- What the libraries promise a node about its own messages: a solved puzzle is accepted, and a
-- signature that its key manager makes verifies under its key and is not empty.
pub record IsSound (world : World) : Type 0 where
  pub verify_puzzle-solve_puzzle :
      (id : String)
      → world.platform.verify_puzzle id pow_difficulty (world.tools.solve_puzzle id pow_difficulty)
        ≡ true
  pub verify-sign :
      (s : Signed)
      → world.platform.keys.verify s (world.platform.keys.sign s) world.platform.keys.public_key
        ≡ true
  pub sign_filled : (s : Signed) → world.platform.keys.sign s ≢ ""
  pub public_key_filled : world.platform.keys.public_key ≢ ""

module _ {L : Level} where
  -- When the puzzle's solutions are accepted, the node's signatures verify under its key and are
  -- not empty, the node's own key is registered and the new id has not been seen, a published text
  -- that is no command passes every check of the node's own engine: `publish` returns the new id,
  -- and the store has an entry for it once every batch has landed.
  pub publish-IsIndexed :
      (world : World) (s : Node L) (manager : SecurityManager) (topic content : String)
      → IsSound world
      → command_of content ≡ none
      → s.engine.security_manager ≡ some manager
      → lookup s.peer_id manager.peer_public_keys ≡ some world.platform.keys.public_key
      → contains s.engine.seen_messages world.fresh.id ≡ false
      → let ((after, effects), id) = publish L world s topic content in
        (id ≡ some world.fresh.id) × IsIndexed after.sync.store world.fresh.id
  unfolding publish originate create create_base_message sign_outgoing_message
  publish-IsIndexed world s manager topic content sound text known registered new =
      let keys = world.platform.keys in
      let (factory, m) =
        create world.tools s.factory world.fresh s.peer_id
          (create_chat content topic (some keys.public_key)) in
      let signed = sign_outgoing_message keys m in
      let valid =
        verify_incoming_message-sign keys keys manager m (sound.verify-sign (payload_to_sign m))
          (sound.sign_filled (payload_to_sign m))
          (sender_key_known manager m keys.public_key registered sound.public_key_filled) in
      rw (publish, text)
        (
          refl,
          gossip-IsIndexed world.platform (record s { factory = factory }) signed none
              world.instants (aged world.platform s.engine signed world.instants manager) refl
              (receive_message-accepted world.platform s.engine signed world.instants manager
                (sound.verify_puzzle-solve_puzzle world.fresh.id) known valid new refl),
        )

  -- A handshake, from whatever neighbour and whatever key was registered before, sets the key of
  -- the peer that it names, if that key is not empty: a message in the name of this peer whose
  -- signature verifies under the new key is accepted by the registry that the node then has.
  pub on_message_received-trusts :
      (a : Arrival) (s : Node L) (hello : Hello) (from_peer_id : String) (manager : SecurityManager)
      (keys : KeyManager) (m : Message) (signature : String)
      → s.engine.security_manager ≡ some manager
      → hello.public_key ≢ ""
      → m.sender ≡ hello.peer_id
      → present m.signature ≡ some signature
      → keys.verify (payload_to_sign m) signature hello.public_key ≡ true
      → (trusted : SecurityManager) × ((on_message_received L a s
            (greeting hello)
            from_peer_id).0.engine.security_manager
          ≡ some trusted)
        × ((verify_incoming_message keys trusted m).is_valid ≡ true)
  unfolding on_message_received on_hello start_sync refresh_peer register_peer_key
  on_message_received-trusts a s hello from_peer_id manager keys m signature known filled sender
        signed agrees =
      (
        register_peer_key manager hello.peer_id hello.public_key,
        rw known refl,
        (verify_incoming_message-is_valid keys
              (register_peer_key manager hello.peer_id hello.public_key) m).1
            (
              signature,
              hello.public_key,
              signed,
              sender_key_known (register_peer_key manager hello.peer_id hello.public_key) m
                  hello.public_key
                  (ap
                      (λ p.
                        lookup p (insert hello.peer_id hello.public_key manager.peer_public_keys))
                      sender
                    ∙ lookup-insert_self hello.peer_id hello.public_key manager.peer_public_keys)
                  filled,
              agrees,
            ),
      )
