-- ===== src/Protocol/Message.antt =====
-- protocol/schema.js: the messages that nodes exchange.
use p2p_app.Prelude.{ℕ, String, Bool, true, false, Option, List, ℤ}

-- `unnamed` stands for a type string that no branch of the program names.
pub data MessageType : Type 0 where
  chat ack heartbeat peer_exchange peer_list sync_batch sync_ack summary sub_ad hello : MessageType
  unnamed : String → MessageType

-- `lamport_timestamp` 0, `pow_nonce` 0 and the path `[]` also stand for an absent field, which the
-- program treats alike. `created_at` is the instant that the ISO string names.
pub record Message : Type 0 where
  pub id : String
  pub type : MessageType
  pub ttl : ℤ
  pub lamport_timestamp : ℕ
  pub sender : String
  pub sender_public_key : Option String
  pub topic : String
  pub payload : String
  pub signature : Option String
  pub created_at : ℕ
  pub pow_nonce : ℕ
  pub routing_path : List String

-- `message.type === 'SUB_AD'`.
abbrev pub is_sub_ad : MessageType → Bool
is_sub_ad MessageType.sub_ad = true
is_sub_ad _ = false

-- `message.type === 'CHAT'`.
abbrev pub is_chat : MessageType → Bool
is_chat MessageType.chat = true
is_chat _ = false
