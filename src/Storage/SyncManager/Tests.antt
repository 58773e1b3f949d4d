-- ===== src/Storage/SyncManager/Tests.antt =====
-- Runs of the synchronisation on small inputs, over the database in a list.
use p2p_app.Prelude.{
  ℕ, String, ◌≡◌, refl, List, [], ◌∷◌, none, some, pos, arith, true, false, max, not, ◌==◌, ◌-◌,
  contains, keep, same, map, ◌++◌,
}
use p2p_app.Protocol.Message.{Message, MessageType}
use p2p_app.Protocol.RateLimiter
use p2p_app.Protocol.GossipEngine.{join, Platform, Instants, GossipEngine}
use p2p_app.Protocol.GossipEngine.Receive.{run}
use p2p_app.Protocol.MessageFactory.{Tools, MessageFactory, Fresh, create, create_sync_ack}
use p2p_app.Storage.Level.Memory.{memory, memory-IsLevel}
use p2p_app.Storage.Keys.{make_key}
use p2p_app.Storage.Level.{stored}
use p2p_app.Storage.MessageStore.{MessageStore, puts}
use p2p_app.Storage.SyncManager.{
  SyncManager, Running, Round, timed_out, rounds, finish, get_last_seen_lamport, receive_sync_batch,
  listed, gossiped, sent,
}
use p2p_app.Storage.SyncManager.Batches.{Delivers, rounds-Delivers}
use p2p_app.Storage.SyncManager.Mark.{get_last_seen_lamport-finish}
use p2p_app.Storage.SyncManager.Replay.{calls_of, receive_sync_batch-run}

abbrev chat : String → ℕ → Message
chat id lamport_timestamp = record {
  id = id;
  type = MessageType.chat;
  ttl = pos 5;
  lamport_timestamp = lamport_timestamp;
  sender = "s";
  sender_public_key = none;
  topic = "global";
  payload = "hi";
  signature = none;
  created_at = 0;
  pow_nonce = 1;
  routing_path = [];
}

abbrev tools : Tools
tools = record { solve_puzzle = λ id difficulty. 1; stringify = λ value. "json" }

abbrev manager : SyncManager memory
manager = record {
  store = (record { db = []; write_buffer = []; batch_timer = false; in_flight = [] });
  is_open = true;
  local_peer_id = "me";
  pending_acks = [];
}

-- Two messages to send to a peer that has seen nothing.
abbrev running : Running memory
running = record {
  factory = (record { logical_clock = 0 });
  manager = manager;
  session = (record {
    peer_id = "p";
    last_seen = 0;
    max_lamport = 7;
    rest = chat "a" 4 ∷ chat "b" 7 ∷ [];
  });
  effects = [];
}

abbrev lost_round : Round
lost_round = record { fresh = (record { id = "r"; created_at = 0 }); outcome = timed_out }

rounds-Delivers_example :
    (batches : List (List Message)) × Delivers tools running
      (rounds memory tools running (lost_round ∷ []))
      batches
rounds-Delivers_example = rounds-Delivers tools running (lost_round ∷ []) (omega arith)

get_last_seen_lamport-finish_example :
    get_last_seen_lamport memory
      (finish memory true (rounds memory tools running (lost_round ∷ [])))
      "p"
    ≡ max 0 7
unfolding get_last_seen_lamport
get_last_seen_lamport-finish_example =
    get_last_seen_lamport-finish memory-IsLevel tools running (lost_round ∷ []) refl refl

-- A store with a message in the database and one in the buffer.
abbrev kept : MessageStore memory
kept = record {
  db = (make_key "global" 7 "b", stored (chat "b" 7)) ∷ [];
  write_buffer = puts (chat "a" 4);
  batch_timer = true;
  in_flight = [];
}

abbrev platform : Platform
platform = record {
  verify_puzzle = λ id difficulty nonce. not (nonce == 0);
  keys = (record { public_key = "k"; sign = λ s. "sig"; verify = λ s sig key. true });
  parse_sub_ad = λ payload. some (record { topic = payload; sequence_number = 4; action = join });
  random_index = λ draw n. n - 1;
}

-- An engine that has seen one of the messages.
abbrev engine : GossipEngine
engine = record {
  connection_pool = (record { local_peer_id = "me"; outbound = []; inbound = ("p", 1) ∷ [] });
  lamport_clock = (record { value = 2 });
  security_manager = none;
  node_peer_id = none;
  seen_messages = "a" ∷ [];
  rate_limiter = RateLimiter.init 20 5 0 0;
  topic_router = (record { routes = [] });
}

abbrev instants : Instants
instants = record { limit_now = 1000; refill_now = 1000; route_now = 1000; topic_now = 1000 }

abbrev factory : MessageFactory
factory = record { logical_clock = 0 }

abbrev fresh : Fresh
fresh = record { id = "r"; created_at = 0 }

-- One of the messages has been seen.
abbrev batch : List (Message × Instants)
batch = (chat "a" 4, instants) ∷ (chat "b" 7, instants) ∷ (chat "c" 9, instants) ∷ []

abbrev sync_batch : Message
sync_batch = record (chat "z" 9) { type = MessageType.sync_batch }

receive_sync_batch-run_example :
    let (after, effects) =
      receive_sync_batch memory platform tools manager
        (factory, engine)
        fresh
        sync_batch
        (listed batch)
        "p" in
    let received =
      run platform engine (calls_of "p" ((chat "b" 7, instants) ∷ (chat "c" 9, instants) ∷ [])) in
    let ack = (create tools factory fresh manager.local_peer_id (create_sync_ack "z")).1 in
    (after.1 ≡ received.0) × (effects ≡ map gossiped received.1 ++ sent "p" ack ∷ [])
unfolding keep contains same
receive_sync_batch-run_example =
    receive_sync_batch-run platform tools manager factory engine fresh sync_batch batch "p"
      (refl, (refl, (refl, tt)))
