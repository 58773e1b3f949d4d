-- ===== src/Storage/MessageStore/Tests.antt =====
-- Runs of the message store on small inputs, over the database in a list.
use p2p_app.Prelude.{
  ℕ, zero, suc, String, ◌≡◌, refl, List, [], ◌∷◌, none, pos, arith, inl, true, false,
}
use mathlib.Core.List.{Memᴰ}
use p2p_app.Protocol.Message.{Message, MessageType}
use p2p_app.Storage.Keys.{id_key, eq_key, make_key}
use p2p_app.Storage.Level.{written}
use p2p_app.Storage.Level.Memory.{memory, memory-IsLevel}
use p2p_app.Storage.MessageStore.{
  MessageStore, message, missing, message_key, save, get_by_id, get_by_topic,
}
use p2p_app.Storage.MessageStore.Buffer.{
  view, Event, saved, timer_fired, batch_landed, run, run-view, puts_of,
}
use p2p_app.Storage.MessageStore.Reads.{all_written, save-get_by_id, full-save-get_by_id}
use p2p_app.Storage.MessageStore.Scan.{IsTidy, run-IsTidy, mem-get_by_topic, subtopic-get_by_topic}

abbrev chat : String → String → ℕ → Message
chat id topic lamport_timestamp = record {
  id = id;
  type = MessageType.chat;
  ttl = pos 5;
  lamport_timestamp = lamport_timestamp;
  sender = "s";
  sender_public_key = none;
  topic = topic;
  payload = "hi";
  signature = none;
  created_at = 0;
  pow_nonce = 0;
  routing_path = [];
}

abbrev empty : MessageStore memory
empty = record { db = []; write_buffer = []; batch_timer = false; in_flight = [] }

-- One message in the database, one in flight, one in the buffer.
abbrev busy_events : List Event
busy_events =
    saved (chat "a" "dm" 3)
    ∷ timer_fired
    ∷ batch_landed
    ∷ saved (chat "b" "dm" 12)
    ∷ timer_fired
    ∷ saved (chat "c" "dm:zoe" 7)
    ∷ []

abbrev busy : MessageStore memory
busy = run empty busy_events

empty-IsTidy : IsTidy (view empty)
unfolding IsTidy written
empty-IsTidy k v h = absurd (grind arith)

busy-IsTidy : IsTidy (view busy)
busy-IsTidy = run-IsTidy memory-IsLevel busy_events empty empty-IsTidy

run-view_example :
    view busy (message_key (chat "b" "dm" 12))
    ≡ written (puts_of busy_events) (message_key (chat "b" "dm" 12)) none
unfolding written
run-view_example = run-view memory-IsLevel busy_events empty (message_key (chat "b" "dm" 12))

save-get_by_id_example :
    (get_by_id memory true [] (true ∷ []) (save memory busy (chat "d" "dm" 20)) "d").1
    ≡ message (chat "d" "dm" 20)
unfolding run
save-get_by_id_example =
    save-get_by_id memory-IsLevel [] (true ∷ []) busy (chat "d" "dm" 20) (omega arith)

mem-get_by_topic_example : Memᴰ (chat "b" "dm" 12) (get_by_topic memory true busy "dm" 3).1
unfolding run written eq_key id_key make_key
mem-get_by_topic_example =
    mem-get_by_topic memory-IsLevel busy 3 (chat "b" "dm" 12) (inl (omega arith)) busy-IsTidy refl
      (omega arith) (omega arith)

subtopic-get_by_topic_example : Memᴰ (chat "c" "dm:zoe" 7) (get_by_topic memory true busy "dm" 3).1
unfolding run written eq_key id_key make_key
subtopic-get_by_topic_example =
    subtopic-get_by_topic memory-IsLevel busy "dm" 3 122 (111 ∷ 101 ∷ []) (chat "c" "dm:zoe" 7)
      (inl (omega arith)) busy-IsTidy refl (omega arith) (omega arith) refl (omega arith)
      (omega arith)

-- As many saves as leave room for one more.
abbrev saves : ℕ → List Event
saves zero = []
saves (suc n) = saved (chat "e" "dm" n) ∷ saves n

abbrev nearly_full : MessageStore memory
nearly_full = run empty (saves 24)

full-save-get_by_id_example :
    let kept = save memory nearly_full (chat "d" "dm" 20) in
    ((get_by_id memory true [] [] kept "d").1 ≡ missing)
    × ((get_by_id memory true (all_written kept.in_flight) [] kept "d").1
        ≡ message (chat "d" "dm" 20))
unfolding run
full-save-get_by_id_example =
    full-save-get_by_id memory-IsLevel [] nearly_full (chat "d" "dm" 20) (omega arith) refl
