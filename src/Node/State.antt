-- ===== src/Node/State.antt =====
-- node/state.js: the store of peers, seen messages and topics that the managers share.
pub mod SeenMessages
mod Tests
use p2p_app.Prelude.{
  ℕ, suc, String, Bool, true, false, List, [], ◌∷◌, Option, none, some, Dict, lookup, has_key,
  insert, remove, add, contains, drop, length, ltb, if◌then◌else◌,
}

pub data Status : Type 0 where
  connecting active suspected dead : Status

pub record PeerInfo : Type 0 where
  pub host : String
  pub port : ℕ
  pub last_seen : ℕ
  pub status : Status
  pub lamport_time : ℕ

-- The clock of the store, which no operation here moves, is `Protocol.LamportClock`.
pub record State : Type 0 where
  pub peers : Dict PeerInfo
  pub seen_messages : List String
  pub topics : Dict (List String)

unfoldable pub init : State
init = record { peers = []; seen_messages = []; topics = [] }

abbrev pub max_seen_messages : ℕ
max_seen_messages = 10000

abbrev pub cleanup_count : ℕ
cleanup_count = 1000

unfoldable pub set_peer : State → String → PeerInfo → State
set_peer s peer_id info = record s { peers = insert peer_id info s.peers }

unfoldable pub get_peer : State → String → Option PeerInfo
get_peer s peer_id = lookup peer_id s.peers

unfoldable pub has_peer : State → String → Bool
has_peer s peer_id = has_key peer_id s.peers

unfoldable pub delete_peer : State → String → State
delete_peer s peer_id = record s { peers = remove peer_id s.peers }

abbrev pub is_active : Status → Bool
is_active active = true
is_active _ = false

-- The loop of `getActivePeerCount`.
unfoldable pub active_in : Dict PeerInfo → ℕ
active_in [] = 0
active_in ((peer_id, info) ∷ peers) =
    let rest = active_in peers in if is_active info.status then suc rest else rest

unfoldable pub get_active_peer_count : State → ℕ
unfolding active_in
get_active_peer_count s = active_in s.peers

-- Deleting the first `n` values of the iterator; a set lists its values in insertion order.
unfoldable pub clean_up : ℕ → List String → List String
clean_up n seen = drop n seen

unfoldable pub add_seen_message : State → String → State
unfolding clean_up
add_seen_message s message_id =
    let seen = add s.seen_messages message_id in
    record s {
      seen_messages =
          if ltb max_seen_messages (length seen) then clean_up cleanup_count seen else seen;
    }

unfoldable pub has_seen_message : State → String → Bool
has_seen_message s message_id = contains s.seen_messages message_id

-- The peers of a topic, where `addPeerToTopic` makes an empty set first.
unfoldable pub topic_peers : State → String → List String
topic_peers s topic = elim (lookup topic s.topics) [ none ↦ [] | some peers ↦ peers ]

unfoldable pub add_peer_to_topic : State → String → String → State
unfolding topic_peers
add_peer_to_topic s topic peer_id = record s {
  topics = insert topic (add (topic_peers s topic) peer_id) s.topics;
}
