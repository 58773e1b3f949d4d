-- ===== src/Transport/ConnectionPool/Tests.antt =====
-- Runs of transport/connectionPool.js.
use p2p_app.Prelude.{
  same, ◌≡◌, refl, true, false, [], ◌∷◌, none, pos, lookup, has_key, contains, add, add_all,
}
use p2p_app.Protocol.Message.{Message, MessageType}
use p2p_app.Transport.ConnectionPool.{
  ConnectionPool, broadcast, get_all_peer_ids, send, sent_in, sent_out, add_inbound_connection,
  on_inbound_close,
}
use p2p_app.Transport.ConnectionPool.Broadcast

abbrev chat : Message
chat = record {
  id = "m";
  type = MessageType.chat;
  ttl = pos 3;
  lamport_timestamp = 1;
  sender = "a";
  sender_public_key = none;
  topic = "global";
  payload = "hi";
  signature = none;
  created_at = 0;
  pow_nonce = 0;
  routing_path = [];
}

abbrev pool : ConnectionPool
pool = record {
  local_peer_id = "x";
  outbound = ("a", record { handle = 1; is_connected = true; is_connecting = false }) ∷ [];
  inbound = ("b", 2) ∷ ("a", 3) ∷ [];
}

-- A peer with two connections is sent a broadcast twice.
twice : broadcast pool chat ("b" ∷ []) ≡ sent_out "a" chat ∷ sent_in "a" chat ∷ []
unfolding broadcast contains add_all add same
twice = refl

contains-get_all_peer_ids_example : contains (get_all_peer_ids pool) "b" ≡ true
unfolding has_key same
contains-get_all_peer_ids_example = Broadcast.contains-get_all_peer_ids pool "b"

late_close-drops_example :
    let pool1 = (add_inbound_connection pool "c" 7 []).0 in
    let pool2 = (add_inbound_connection pool1 "c" 8 []).0 in
    (send pool2 "c" chat ≡ sent_in "c" chat ∷ [])
    × (send (on_inbound_close pool2 "c" 7).0 "c" chat ≡ [])
unfolding lookup same
late_close-drops_example = Broadcast.late_close-drops pool "c" 7 8 [] chat refl
