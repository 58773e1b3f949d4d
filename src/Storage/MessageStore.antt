-- ===== src/Storage/MessageStore.antt =====
-- storage/messageStore.js: the stored messages, their index by id, and the buffer of writes. A
-- batch that was handed to the database is in flight until it lands; batches land in order.
pub mod Buffer
pub mod Reads
pub mod Scan
mod Tests
use p2p_app.Prelude.{
  ℕ, ◌+◌, String, Bool, true, false, List, [], ◌∷◌, ◌++◌, Option, none, some, length, ltb, leb,
  ◌==◌, if◌then◌else◌,
}
use p2p_app.Protocol.Message.{Message}
use p2p_app.Storage.Keys.{Key, make_key, id_key, receipt_key, start_key, end_key}
use p2p_app.Storage.Level.{Value, stored, reference, number, Op, put, del, Level}

abbrev pub max_buffer_size : ℕ
max_buffer_size = 50

-- What `getById` ends with: a message, null, or the error of the call that threw.
pub data Found : Type 0 where
  message : Message → Found
  missing broken : Found

-- A message without a timestamp has 0 here; the program writes 'undefined' into its key.
unfoldable pub message_key : Message → Key
message_key m = make_key m.topic m.lamport_timestamp m.id

unfoldable pub puts : Message → List Op
unfolding message_key
puts m = put (message_key m) (stored m) ∷ put (id_key m.id) (reference (message_key m)) ∷ []

-- The loop of `getByTopic`: a value that is no JSON ends it, a number has no timestamp.
unfoldable pub collect : ℕ → List (Key × Value) → List Message
collect since [] = []
collect since ((k, stored m) ∷ es) =
    let rest = collect since es in if ltb since m.lamport_timestamp then m ∷ rest else rest
collect since ((k, reference j) ∷ es) = []
collect since ((k, number n) ∷ es) = collect since es

-- The loop of `prune`: the operations for the messages created more than `older_than_ms` before
-- `now`, or `none` when the parser throws. A number has no date, so it is compared with NaN.
unfoldable pub deletions : ℕ → ℕ → List (Key × Value) → Option (List Op)
deletions now older_than_ms [] = some []
deletions now older_than_ms ((k, stored m) ∷ es) = elim (deletions now older_than_ms es) [
  | none ↦ none
  | some batch ↦
      some (
        if ltb (m.created_at + older_than_ms) now then del k ∷ del (id_key m.id) ∷ batch else batch)
]
deletions now older_than_ms ((k, reference j) ∷ es) = none
deletions now older_than_ms ((k, number n) ∷ es) = deletions now older_than_ms es

module _ (L : Level) where
  pub record MessageStore : Type 0 where
    pub db : L.State
    pub write_buffer : List Op
    -- Whether `batchTimer` is set.
    pub batch_timer : Bool
    pub in_flight : List (List Op)

  unfoldable pub init : L.State → MessageStore
  init db = record { db = db; write_buffer = []; batch_timer = false; in_flight = [] }

  -- The part of `flush` before its `await`.
  unfoldable pub flush : MessageStore → MessageStore
  flush s = if length s.write_buffer == 0 then s else record s {
    write_buffer = [];
    batch_timer = false;
    in_flight = s.in_flight ++ s.write_buffer ∷ [];
  }

  -- The oldest batch in flight is written, or it fails, which is only logged.
  unfoldable pub land : Bool → MessageStore → MessageStore
  land ok s = elim s.in_flight [
    | [] ↦ s
    | batch ∷ rest ↦ record s { db = if ok then L.batch s.db batch else s.db; in_flight = rest }
  ]

  -- Some of the batches in flight land, with their results.
  unfoldable pub land_all : List Bool → MessageStore → MessageStore
  unfolding land
  land_all [] s = s
  land_all (ok ∷ results) s = land_all results (land ok s)

  abbrev pub batches : L.State → List (List Op) → L.State
  batches db [] = db
  batches db (ops ∷ rest) = batches (L.batch db ops) rest

  -- `await this.flush()`, where `ok` says whether the batches it waits for are written. With an
  -- empty buffer it waits for nothing.
  unfoldable pub await_flush : Bool → MessageStore → MessageStore
  unfolding flush
  await_flush ok s =
      let started = flush s in
      if length s.write_buffer == 0 then s else record started {
        db = if ok then batches s.db started.in_flight else s.db;
        in_flight = [];
      }

  unfoldable pub save : MessageStore → Message → MessageStore
  unfolding puts flush
  save s m =
      let buffered = record s { write_buffer = s.write_buffer ++ puts m } in
      if leb max_buffer_size (length buffered.write_buffer)
      then flush buffered
      else record buffered { batch_timer = true }

  -- `getByTopic`: the store that it leaves, and what it returns; `getById` below is the same.
  unfoldable pub get_by_topic : Bool → MessageStore → String → ℕ → MessageStore × List Message
  unfolding await_flush collect start_key end_key
  get_by_topic ok s topic since =
      let flushed = await_flush ok s in
      (flushed, collect since (L.range flushed.db (start_key topic since) (end_key topic)))

  unfoldable pub parse : Option Value → Found
  parse none = missing
  parse (some (stored m)) = message m
  parse (some _) = broken

  -- The two reads, of the database at the time of each.
  unfoldable pub find_by_id : L.State → L.State → String → Found
  unfolding parse id_key
  find_by_id db later_db message_id = elim (L.get db (id_key message_id)) [
    | none ↦ missing
    | some (reference full_key) ↦ parse (L.get later_db full_key)
    | some _ ↦ missing
  ]

  -- `before_index` and `before_message` are the results of the batches in flight that land before the
  -- first and before the second read, when the flush has not waited for them.
  unfoldable pub get_by_id :
      Bool → List Bool → List Bool → MessageStore → String → MessageStore × Found
  unfolding await_flush land_all find_by_id
  get_by_id ok before_index before_message s message_id =
      let first = land_all before_index (await_flush ok s) in
      let second = land_all before_message first in
      (second, find_by_id first.db second.db message_id)

  unfoldable pub mark_delivered : Bool → MessageStore → String → String → ℕ → MessageStore
  unfolding receipt_key
  mark_delivered ok s message_id peer_id now =
      let written_db = L.batch s.db (put (receipt_key message_id peer_id) (number now) ∷ []) in
      record s { db = if ok then written_db else s.db }

  unfoldable pub prune : Bool → MessageStore → ℕ → ℕ → MessageStore
  unfolding await_flush deletions
  prune ok s now older_than_ms =
      let flushed = await_flush ok s in
      let entries =
        L.range flushed.db (109 ∷ 115 ∷ 103 ∷ 58 ∷ []) (109 ∷ 115 ∷ 103 ∷ 58 ∷ 126 ∷ []) in
      elim (deletions now older_than_ms entries) [
        | none ↦ flushed
        | some [] ↦ flushed
        | some (op ∷ ops) ↦ record flushed {
          db = if ok then L.batch flushed.db (op ∷ ops) else flushed.db;
        }
      ]
