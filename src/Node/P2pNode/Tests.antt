-- ===== src/Node/P2pNode/Tests.antt =====
-- Runs of a node on small inputs, over the database in a list.
use p2p_app.Prelude.{
  ◌≡◌, refl, [], ◌∷◌, none, some, pos, true, false, ◌==◌, ◌-◌, contains, same, lookup, eqb,
  ne_of_eqb-false,
}
use p2p_app.Node.Commands.{summary, keypoints, command_of}
use p2p_app.Node.P2pNode.{Node, World, publish}
use p2p_app.Node.P2pNode.Arrivals.{Arrival, Hello, greeting, on_message_received}
use p2p_app.Node.P2pNode.Archive.{IsIndexed}
use p2p_app.Node.P2pNode.Own.{IsSound, publish-IsIndexed, on_message_received-trusts}
use p2p_app.Node.State
use p2p_app.Protocol.GossipEngine.{join}
use p2p_app.Protocol.Message.{Message, MessageType}
use p2p_app.Protocol.RateLimiter
use p2p_app.Security.{SecurityManager, KeyManager, verify_incoming_message, present}
use p2p_app.Storage.Level.Memory.{memory}
use p2p_app.Storage.SyncManager.{no_array}

commands :
    (command_of " \n/summary now" ≡ some summary)
    × (command_of "/keypoints" ≡ some keypoints)
    × (command_of "summary" ≡ none)
unfolding command_of
commands = (refl, refl, refl)

abbrev keys : KeyManager
keys = record { public_key = "k"; sign = λ s. "sig"; verify = λ s sig key. true }

abbrev pub world : World
world = record {
  platform = (record {
    verify_puzzle = λ id difficulty nonce. nonce == 9;
    keys = keys;
    parse_sub_ad = λ payload. some (record { topic = payload; sequence_number = 4; action = join });
    random_index = λ draw n. n - 1;
  });
  tools = (record { solve_puzzle = λ id difficulty. 9; stringify = λ value. "json" });
  fresh = (record { id = "new"; created_at = 0 });
  instants = (record { limit_now = 1000; refill_now = 1000; route_now = 1000; topic_now = 1000 });
}

world-IsSound : IsSound world
world-IsSound = record {
  verify_puzzle-solve_puzzle = λ id. refl;
  verify-sign = λ s. refl;
  sign_filled = λ s. ne_of_eqb-false "sig" "" refl;
  public_key_filled = ne_of_eqb-false "k" "" refl;
}

abbrev manager : SecurityManager
manager = record { peer_public_keys = ("me", "k") ∷ ("bob", "b") ∷ [] }

abbrev pub node : Node memory
node = record {
  peer_id = "me";
  engine = (record {
    connection_pool = (record { local_peer_id = "me"; outbound = []; inbound = ("p", 1) ∷ [] });
    lamport_clock = (record { value = 2 });
    security_manager = some manager;
    node_peer_id = none;
    seen_messages = [];
    rate_limiter = RateLimiter.init 20 5 0 0;
    topic_router = (record { routes = [] });
  });
  pending_acks = [];
  state = State.init;
  sync = (record {
    store = (record { db = []; write_buffer = []; batch_timer = false; in_flight = [] });
    is_open = true;
    local_peer_id = "me";
    pending_acks = [];
  });
  factory = (record { logical_clock = 0 });
  local_subscriptions = "global" ∷ [];
  local_sequences = [];
  new_messages_counter = [];
  active_summarizations = [];
  enable_auto_summary = true;
}

publish-IsIndexed_example :
    let ((after, effects), id) = publish memory world node "global" "hello" in
    (id ≡ some "new") × IsIndexed after.sync.store "new"
unfolding command_of lookup same contains
publish-IsIndexed_example =
    publish-IsIndexed world node manager "global" "hello" world-IsSound refl refl refl refl

abbrev chat : Message
chat = record {
  id = "c";
  type = MessageType.chat;
  ttl = pos 5;
  lamport_timestamp = 3;
  sender = "bob";
  sender_public_key = none;
  topic = "global";
  payload = "hi";
  signature = some "forged";
  created_at = 0;
  pow_nonce = 9;
  routing_path = [];
}

-- The neighbour 'mallory' names 'bob'.
abbrev arrival : Arrival
arrival = record {
  world = world;
  now = 1000;
  ack_id = none;
  batch = no_array;
  batch_id = none;
  db_ok = true;
}

abbrev picky : KeyManager
picky = record { public_key = "k"; sign = λ s. "sig"; verify = λ s sig key. eqb key "mine" }

on_message_received-trusts_example :
    let hello : Hello = record { peer_id = "bob"; public_key = "mine"; subscriptions = none } in
    (trusted : SecurityManager) × ((on_message_received memory arrival node
        (greeting hello)
        "mallory").0.engine.security_manager
      ≡ some trusted)
    × ((verify_incoming_message picky trusted chat).is_valid ≡ true)
unfolding present same
on_message_received-trusts_example =
    on_message_received-trusts arrival node
      (record { peer_id = "bob"; public_key = "mine"; subscriptions = none }) "mallory" manager
      picky chat "forged" refl (ne_of_eqb-false "mine" "" refl) refl refl refl
