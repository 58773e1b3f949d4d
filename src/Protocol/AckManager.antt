-- ===== src/Protocol/AckManager.antt =====
-- protocol/ackManager.js: messages that wait for acknowledgements, with retries on a timer.
pub mod Delivery
mod Tests
use p2p_app.Prelude.{
  ℕ, suc, ◌+◌, ◌-◌, String, Bool, true, false, not, List, [], ◌∷◌, ◌++◌, map, Option, none, some,
  Dict, lookup, insert, remove, keys, keep, add_all, discard, eqb, leb, ◌==◌, if◌then◌else◌,
}
use p2p_app.Config.{max_retry_attempts}
use p2p_app.Protocol.LamportClock.{LamportClock, tick}
use p2p_app.Protocol.Message.{Message}
use p2p_app.Transport.ConnectionPool
use p2p_app.Transport.ConnectionPool.{ConnectionPool, broadcast, sent_out}

-- The timer of an entry is the effect `scheduled`.
pub record PendingAck : Type 0 where
  pub message : Message
  pub attempts : ℕ
  pub peers : List String
  pub start_time : ℕ

pub record AckManager : Type 0 where
  pub connection_pool : ConnectionPool
  pub lamport_clock : LamportClock
  pub pending_acks : Dict PendingAck

pub data Effect : Type 0 where
  pooled : ConnectionPool.Effect → Effect
  -- `setTimeout` and `clearTimeout` for a message id.
  scheduled cancelled : String → Effect
  -- `collector.record('message_latency_ms', ms)`.
  latency : ℕ → Effect
  -- `emit`, each with its counter.
  delivery_confirmed : String → Effect
  delivery_failed : String → List String → Effect

-- One round of the loop of `_transmit`.
unfoldable pub transmit_to : ConnectionPool → Message → String → List ConnectionPool.Effect
transmit_to pool message peer_id =
    let all_peers = keys pool.outbound in
    let fallback = broadcast pool message (keep (λ id. not (eqb id peer_id)) all_peers) in
    elim (lookup peer_id pool.outbound) [
      | none ↦ fallback
      | some client ↦ if client.is_connected then sent_out peer_id message ∷ [] else fallback
    ]

unfoldable pub transmit : ConnectionPool → Message → List String → List Effect
unfolding transmit_to
transmit pool message [] = []
transmit pool message (p ∷ peer_ids) =
    map pooled (transmit_to pool message p) ++ transmit pool message peer_ids

-- The message and the clock, ticked when the message has no timestamp.
unfoldable pub stamp : LamportClock → Message → LamportClock × Message
stamp clock message =
    let (ticked, time) = tick clock in
    if message.lamport_timestamp == 0
    then (ticked, record message { lamport_timestamp = time })
    else (clock, message)

unfoldable pub send_with_ack : AckManager → Message → List String → ℕ → AckManager × List Effect
unfolding transmit stamp
send_with_ack s message peer_ids now =
    let (clock, stamped) = stamp s.lamport_clock message in
    let entry : PendingAck = record {
      message = stamped;
      attempts = 1;
      peers = add_all [] peer_ids;
      start_time = now;
    } in
    (
      record s { lamport_clock = clock; pending_acks = insert stamped.id entry s.pending_acks },
      transmit s.connection_pool stamped peer_ids ++ scheduled stamped.id ∷ [],
    )

-- The timer of a message goes off.
unfoldable pub handle_timeout : AckManager → String → AckManager × List Effect
handle_timeout s message_id = elim (lookup message_id s.pending_acks) [
  | none ↦ (s, [])
  | some entry ↦
      if leb max_retry_attempts entry.attempts
      then (
        record s { pending_acks = remove message_id s.pending_acks },
        delivery_failed message_id entry.peers ∷ [],
      )
      else (
        record s {
          pending_acks =
              insert message_id (record entry { attempts = entry.attempts + 1 }) s.pending_acks;
        },
        transmit s.connection_pool entry.message entry.peers ++ scheduled message_id ∷ [],
      )
]

abbrev pub is_empty : List String → Bool
is_empty [] = true
is_empty (x ∷ xs) = false

-- `ack_id` is that of the parsed payload, or absent where parsing throws.
unfoldable pub receive_ack : AckManager → Option String → String → ℕ → AckManager × List Effect
receive_ack s none sender now = (s, [])
receive_ack s (some message_id) sender now = elim (lookup message_id s.pending_acks) [
  | none ↦ (s, [])
  | some entry ↦
      let left = discard sender entry.peers in
      if is_empty left
      then (
        record s { pending_acks = remove message_id s.pending_acks },
        cancelled message_id
            ∷ latency (now - entry.start_time)
            ∷ delivery_confirmed message_id
            ∷ [],
      )
      else (
        record s {
          pending_acks = insert message_id (record entry { peers = left }) s.pending_acks;
        },
        [],
      )
]
