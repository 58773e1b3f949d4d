-- ===== src/Protocol/MessageFactory.antt =====
-- protocol/messageFactory.js: the messages that a node makes. Ids come from the uuid package, and
-- the puzzle and `JSON.stringify` are a parameter too.
pub mod Stamps
use p2p_app.Prelude.{ℕ, ◌+◌, String, List, [], ◌∷◌, Option, none, some, ℤ, pos}
use p2p_app.Config.{max_ttl, pow_difficulty}
use p2p_app.Protocol.Message.{
  Message, MessageType, chat, ack, heartbeat, peer_exchange, sync_batch, sync_ack, sub_ad, summary,
}

-- The values that are turned into a payload.
pub data Value : Type 0 where
  ack_of : String → Value
  peers_known : List String → Value
  batch_of : List Message → Value
  batch_done : String → Value
  -- `join` is the action of the advertisement.
  advertised : String → ℕ → String → Value
  -- `metadata` is the text of the details.
  summarised : String → String → Value

pub record Tools : Type 0 where
  pub solve_puzzle : String → ℕ → ℕ
  pub stringify : Value → String

-- The static clock of the class.
pub record MessageFactory : Type 0 where
  pub logical_clock : ℕ

unfoldable pub init : MessageFactory
init = record { logical_clock = 0 }

-- What each call gets from outside: the new id and the time.
pub record Fresh : Type 0 where
  pub id : String
  pub created_at : ℕ

unfoldable pub create_base_message :
    Tools
    → MessageFactory
    → Fresh
    → MessageType
    → String
    → String
    → String
    → ℕ
    → Option String
    → MessageFactory × Message
create_base_message tools f fresh type sender payload topic ttl sender_public_key = (
  record { logical_clock = f.logical_clock + 1 },
  record {
    id = fresh.id;
    type = type;
    ttl = pos ttl;
    lamport_timestamp = f.logical_clock + 1;
    sender = sender;
    sender_public_key = sender_public_key;
    topic = topic;
    payload = payload;
    signature = none;
    created_at = fresh.created_at;
    pow_nonce = tools.solve_puzzle fresh.id pow_difficulty;
    routing_path = [];
  },
)

-- A call of a method other than the base builder, with its arguments.
pub data Create : Type 0 where
  create_chat : String → String → Option String → Create
  create_ack : String → Create
  create_heartbeat : Create
  create_peer_exchange : List String → Create
  create_sync_batch : List Message → Create
  create_sync_ack : String → Create
  create_sub_ad : String → ℕ → String → List String → Option String → Create
  create_summary : String → String → String → Option String → Create

unfoldable pub create : Tools → MessageFactory → Fresh → String → Create → MessageFactory × Message
unfolding create_base_message
create tools f fresh sender (create_chat text topic key) =
    create_base_message tools f fresh chat sender text topic max_ttl key
create tools f fresh sender (create_ack id) =
    create_base_message tools f fresh ack sender (tools.stringify (ack_of id)) "global" 2 none
create tools f fresh sender create_heartbeat =
    create_base_message tools f fresh heartbeat sender "ping" "global" 1 none
create tools f fresh sender (create_peer_exchange known_peers) =
    create_base_message tools f fresh peer_exchange sender
      (tools.stringify (peers_known known_peers)) "global" 3 none
create tools f fresh sender (create_sync_batch messages) =
    create_base_message tools f fresh sync_batch sender (tools.stringify (batch_of messages))
      "global" 1 none
create tools f fresh sender (create_sync_ack batch_id) =
    create_base_message tools f fresh sync_ack sender (tools.stringify (batch_done batch_id))
      "global" 1 none
create tools f fresh sender (create_sub_ad topic sequence_number action path key) =
    let (next, m) =
      create_base_message tools f fresh sub_ad sender
        (tools.stringify (advertised topic sequence_number action)) "global" max_ttl key in
    (next, record m { routing_path = path })
create tools f fresh sender (create_summary topic text metadata key) =
    create_base_message tools f fresh summary sender (tools.stringify (summarised text metadata))
      topic max_ttl key
