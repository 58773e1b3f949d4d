-- ===== src/Protocol/AckManager/Tests.antt =====
-- Runs of the acknowledgements on small inputs.
use p2p_app.Prelude.{
  String, List, true, some, ◌≡◌, refl, none, [], ◌∷◌, ◌++◌, lookup, insert, discard, same, add_all,
  add, contains, pos,
}
use p2p_app.Protocol.Message.{Message, MessageType}
use p2p_app.Protocol.LamportClock.{tick}
use p2p_app.Protocol.AckManager.{
  AckManager, PendingAck, Effect, pooled, scheduled, delivery_failed, transmit, stamp,
  send_with_ack,
}
use p2p_app.Protocol.AckManager.Delivery.{
  timeouts, timeouts-failed, acks, discard_all, confirmed_ids, acks-confirmed,
}
use p2p_app.Transport.ConnectionPool.{ConnectionPool, Client, sent_out}

abbrev question : Message
question = record {
  id = "q";
  type = MessageType.chat;
  ttl = pos 2;
  lamport_timestamp = 0;
  sender = "me";
  sender_public_key = none;
  topic = "global";
  payload = "?";
  signature = none;
  created_at = 0;
  pow_nonce = 1;
  routing_path = [];
}

abbrev pool : ConnectionPool
pool = record { local_peer_id = "me"; outbound = []; inbound = ("a", 1) ∷ ("b", 2) ∷ [] }

abbrev fresh : AckManager
fresh = record { connection_pool = pool; lamport_clock = (record { value = 6 }); pending_acks = [] }

-- The entry that sending the question makes.
abbrev entry : PendingAck
entry = record {
  message = record question { lamport_timestamp = 7 };
  attempts = 1;
  peers = "a" ∷ "b" ∷ [];
  start_time = 100;
}

abbrev waiting : AckManager
waiting = record fresh { lamport_clock = (record { value = 7 }); pending_acks = ("q", entry) ∷ [] }

send_question : (send_with_ack fresh question ("a" ∷ "b" ∷ []) 100).0 ≡ waiting
unfolding send_with_ack stamp tick insert add_all add contains same
send_question = refl

timeouts-failed_example :
    let retry = transmit pool entry.message ("a" ∷ "b" ∷ []) ++ scheduled "q" ∷ [] in
    (lookup "q" (timeouts 3 "q" waiting).0.pending_acks ≡ none)
    × ((timeouts 3 "q" waiting).1 ≡ retry ++ (retry ++ delivery_failed "q" ("a" ∷ "b" ∷ []) ∷ []))
    × ((p : String) (client : Client)
        → contains ("a" ∷ "b" ∷ []) p ≡ true
        → lookup p pool.outbound ≡ some client
        → client.is_connected ≡ true
        → (front : List Effect) × (back : List Effect) × (retry
            ≡ front ++ pooled (sent_out p entry.message) ∷ back))
unfolding lookup same
timeouts-failed_example = timeouts-failed waiting "q" entry refl refl

acks-confirmed_example :
    (lookup "q" (acks "q" 130 ("b" ∷ "b" ∷ "a" ∷ []) waiting).0.pending_acks ≡ none)
    × (confirmed_ids (acks "q" 130 ("b" ∷ "b" ∷ "a" ∷ []) waiting).1 ≡ "q" ∷ [])
unfolding lookup discard_all discard same
acks-confirmed_example = acks-confirmed "q" 130 ("b" ∷ "b" ∷ "a" ∷ []) waiting entry refl refl
