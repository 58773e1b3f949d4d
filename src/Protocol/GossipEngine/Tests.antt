-- ===== src/Protocol/GossipEngine/Tests.antt =====
-- Runs of the gossip engine on small inputs.
use p2p_app.Prelude.{
  ℕ, ◌-◌, String, ◌≡◌, refl, true, false, not, List, [], ◌∷◌, none, some, pos, same, ◌==◌, contains,
  Distinct, arith, All,
}
use p2p_app.Protocol.Message.{Message, MessageType}
use p2p_app.Protocol.RateLimiter
use p2p_app.Protocol.GossipEngine.{join, Platform, Instants, GossipEngine}
use p2p_app.Protocol.GossipEngine.Forward.Selection.{InRange}
use p2p_app.Protocol.GossipEngine.Receive.{receive_message, Call, run}
use p2p_app.Protocol.GossipEngine.Receive.Admission.{outward}
use p2p_app.Protocol.GossipEngine.Receive.Refusal.{duplicate, receive_message-Refused}
use p2p_app.Protocol.GossipEngine.Receive.Announced.{announced_ids}
use p2p_app.Protocol.GossipEngine.Receive.Dedup.{run-announced_ids}
use p2p_app.Protocol.GossipEngine.Receive.Sends.{sends}
use p2p_app.Protocol.GossipEngine.Receive.Hops.{Relayed, receive_message-Relayed}
use p2p_app.Transport.ConnectionPool.{ConnectionPool, Client}

abbrev client : ℕ → Client
client h = record { handle = h; is_connected = true; is_connecting = false }

-- Four outbound peers and one inbound.
abbrev pool : ConnectionPool
pool = record {
  local_peer_id = "me";
  outbound = ("a", client 1) ∷ ("b", client 2) ∷ ("c", client 3) ∷ ("d", client 4) ∷ [];
  inbound = ("e", 5) ∷ [];
}

-- Every nonce but 0 solves a puzzle, nothing is signed, and the last peer is drawn.
abbrev platform : Platform
platform = record {
  verify_puzzle = λ id difficulty nonce. not (nonce == 0);
  keys = (record { public_key = "k"; sign = λ s. "sig"; verify = λ s sig key. true });
  parse_sub_ad = λ payload. some (record { topic = payload; sequence_number = 4; action = join });
  random_index = λ draw n. n - 1;
}

platform-InRange : InRange platform.random_index
platform-InRange draw n h = omega arith

abbrev engine : GossipEngine
engine = record {
  connection_pool = pool;
  lamport_clock = (record { value = 2 });
  security_manager = none;
  node_peer_id = none;
  seen_messages = "old" ∷ [];
  rate_limiter = RateLimiter.init 20 5 0 0;
  topic_router = (record { routes = [] });
}

abbrev message_with : String → MessageType → Message
message_with id type = record {
  id = id;
  type = type;
  ttl = pos 5;
  lamport_timestamp = 3;
  sender = "s";
  sender_public_key = none;
  topic = "global";
  payload = "news";
  signature = none;
  created_at = 0;
  pow_nonce = 1;
  routing_path = "s" ∷ "b" ∷ [];
}

abbrev instants : Instants
instants = record { limit_now = 1000; refill_now = 1000; route_now = 1000; topic_now = 1000 }

receive_message-Refused_example :
    let (after, effects) =
      receive_message platform engine (message_with "old" MessageType.chat) (some "a") instants in
    (outward effects ≡ [])
    × (after.seen_messages ≡ "old" ∷ [])
    × (after.topic_router ≡ engine.topic_router)
    × (after.connection_pool ≡ pool)
unfolding contains same
receive_message-Refused_example =
    receive_message-Refused platform engine (message_with "old" MessageType.chat) (some "a")
      instants (duplicate refl)

receive_message-Relayed_example :
    All (Relayed pool (message_with "m" MessageType.sub_ad) (some "a")) (
      sends
        (receive_message platform engine
          (message_with "m" MessageType.sub_ad)
          (some "a")
          instants).1)
receive_message-Relayed_example =
    receive_message-Relayed platform engine (message_with "m" MessageType.sub_ad) (some "a")
      instants

abbrev calls : List Call
calls =
    (record {
      message = message_with "m" MessageType.chat;
      from_peer_id = some "a";
      instants = instants;
    })
    ∷ (record {
      message = message_with "m" MessageType.chat;
      from_peer_id = some "b";
      instants = instants;
    })
    ∷ (record {
      message = message_with "n" MessageType.sub_ad;
      from_peer_id = none;
      instants = instants;
    })
    ∷ []

run-announced_ids_example :
    Distinct (announced_ids (run platform engine calls).1)
    × ((id : String)
        → contains (announced_ids (run platform engine calls).1) id ≡ true
        → (contains ("old" ∷ []) id ≡ false)
          × (contains (run platform engine calls).0.seen_messages id ≡ true))
run-announced_ids_example = run-announced_ids platform engine calls
