-- ===== src/Security.antt =====
-- security/index.js: `SecurityManager` signs and verifies messages and learns the public keys of
-- peers. `JSON.stringify` and libsodium, which the key manager calls, are a parameter.
pub mod Sodium
pub mod KeyPairs
pub mod Encryptor
pub mod Trust
mod Tests
use p2p_app.Prelude.{
  String, Bool, true, false, List, [], ◌∷◌, Option, none, some, Dict, lookup, insert, eqb,
  if◌then◌else◌,
}
use p2p_app.Metrics.{Counter, invalid_signature_count}
use p2p_app.Protocol.Message.{MessageType, Message}

-- The fields of a message that its signature covers.
pub record Signed : Type 0 where
  pub id : String
  pub type : MessageType
  pub sender : String
  pub topic : String
  pub payload : String

-- `keyManager`: `sign` uses the local secret key; `verify` takes the signature and the public key.
pub record KeyManager : Type 0 where
  pub public_key : String
  pub sign : Signed → String
  pub verify : Signed → String → String → Bool

pub record SecurityManager : Type 0 where
  pub peer_public_keys : Dict String

pub record Verdict : Type 0 where
  pub manager : SecurityManager
  pub is_valid : Bool
  pub counted : List Counter

unfoldable pub payload_to_sign : Message → Signed
payload_to_sign m = record {
  id = m.id;
  type = m.type;
  sender = m.sender;
  topic = m.topic;
  payload = m.payload;
}

-- A text that is present and not empty.
unfoldable pub present : Option String → Option String
present none = none
present (some s) = if eqb s "" then none else some s

unfoldable pub register_peer_key : SecurityManager → String → String → SecurityManager
register_peer_key s peer_id key = record s {
  peer_public_keys = insert peer_id key s.peer_public_keys;
}

-- The key is registered for the local peer when there is a local id.
unfoldable pub init : KeyManager → Option String → SecurityManager
init keys local_peer_id = elim (present local_peer_id) [
  | none ↦ (record { peer_public_keys = [] })
  | some peer_id ↦ register_peer_key (record { peer_public_keys = [] }) peer_id keys.public_key
]

unfoldable pub sign_outgoing_message : KeyManager → Message → Message
sign_outgoing_message keys m = record m { signature = some (keys.sign (payload_to_sign m)) }

-- `senderPublicKey`, learned from the message when it is not known, and the registry with it.
unfoldable pub sender_key : SecurityManager → Message → SecurityManager × Option String
sender_key s m = elim (present (lookup m.sender s.peer_public_keys)) [
  | some key ↦ (s, some key)
  | none ↦ elim (present m.sender_public_key) [
    | some key ↦ (register_peer_key s m.sender key, some key)
    | none ↦ (s, none)
  ]
]

-- The end of `verifyIncomingMessage`, with the signature and the sender's key.
unfoldable pub check_signature : KeyManager → SecurityManager → Message → String → String → Verdict
check_signature keys s m signature key =
    let is_valid = keys.verify (payload_to_sign m) signature key in
    record {
      manager = s;
      is_valid = is_valid;
      counted = if is_valid then [] else invalid_signature_count ∷ [];
    }

unfoldable pub verify_incoming_message : KeyManager → SecurityManager → Message → Verdict
unfolding check_signature
verify_incoming_message keys s m = elim (present m.signature) [
  | none ↦ (record { manager = s; is_valid = false; counted = invalid_signature_count ∷ [] })
  | some signature ↦
      let (learned, found) = sender_key s m in
      elim found [
        | none ↦ (record { manager = learned; is_valid = false; counted = [] })
        | some key ↦ check_signature keys learned m signature key
      ]
]
