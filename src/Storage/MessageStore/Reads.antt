-- ===== src/Storage/MessageStore/Reads.antt =====
-- storage/messageStore.js: what a read returns once the buffer is flushed.
use p2p_app.Prelude.{
  append-nil, Bool, ◌+◌, ◌≤◌, ◌<◌, ◌≡◌, refl, sym, ◌∙◌, ap, true, false, List, [], ◌∷◌, ◌++◌,
  Option, none, some, length, length-append, leb, ◌==◌, arith, Bool-cases, inl, inr, joined, ◌⊎◌,
}
use p2p_app.Protocol.Message.{Message}
use p2p_app.Storage.Keys.{Key, make_key, id_key, eq_key, topic_prefix}
use p2p_app.Storage.Level.{Value, stored, reference, Op, written, Level, IsLevel}
use p2p_app.Storage.Level.Written.{written-append, eq_key_self}
use p2p_app.Storage.MessageStore.{
  MessageStore, land, land_all, message, missing, message_key, puts, flush, save, await_flush,
  batches, max_buffer_size, get_by_id, find_by_id, parse,
}
use p2p_app.Storage.MessageStore.Buffer.{joined-snoc, flush-db, view, save-view}

pub puts-id_key :
    (m : Message) (v : Option Value)
    → written (puts m) (id_key m.id) v ≡ some (reference (message_key m))
unfolding puts written message_key make_key topic_prefix id_key eq_key
puts-id_key m v = rw (eq_key_self (id_key m.id)) refl

puts-message_key :
    (m : Message) (v : Option Value) → written (puts m) (message_key m) v ≡ some (stored m)
unfolding puts written message_key make_key topic_prefix id_key eq_key
puts-message_key m v = rw (eq_key_self (message_key m)) refl

find_by_id-stored :
    (L : Level) (db later_db : L.State) (m : Message)
    → L.get db (id_key m.id) ≡ some (reference (message_key m))
    → L.get later_db (message_key m) ≡ some (stored m)
    → find_by_id L db later_db m.id ≡ message m
unfolding find_by_id parse id_key message_key
find_by_id-stored L db later_db m at_id at_key = rw (find_by_id, at_id, at_key) refl

length_zero : (ops : List Op) → length ops ≡ 0 → ops ≡ []
length_zero [] h = refl
length_zero (op ∷ ops) h = absurd (omega arith)

-- All of the batches land and are written.
abbrev pub all_written : List (List Op) → List Bool
all_written [] = []
all_written (ops ∷ bs) = true ∷ all_written bs

module _ {L : Level} where
  batches-get :
      IsLevel L
      → (bs : List (List Op)) (db : L.State) (k : Key)
      → L.get (batches L db bs) k ≡ written (joined bs) k (L.get db k)
  unfolding written
  batches-get lawful [] db k = refl
  batches-get lawful (ops ∷ bs) db k =
      batches-get lawful bs (L.batch db ops) k
      ∙ (ap (written (joined bs) k) (lawful.get-batch db ops k)
          ∙ sym (written-append ops (joined bs) k (L.get db k)))

  -- `await this.flush()` waits for every write, since the buffer is not empty or nothing is in flight.
  abbrev pub Waits : MessageStore L → Type 0
  Waits s = (1 ≤ length s.write_buffer) ⊎ (s.in_flight ≡ [])

  pub await_flush-get :
      IsLevel L
      → (s : MessageStore L) (k : Key) → Waits s
      → L.get (await_flush L true s).db k ≡ view s k
  unfolding await_flush flush written
  await_flush-get lawful s k waits = elim (Bool-cases (length s.write_buffer == 0)) [
    | inl e ↦ elim waits [
      | inl filled ↦ absurd (ground arith)
      | inr idle ↦ rw (e, idle, length_zero s.write_buffer (ground arith)) refl
    ]
    | inr e ↦ rw e (
        batches-get lawful (s.in_flight ++ s.write_buffer ∷ []) s.db k
        ∙ ap (λ (more : List Op). written more k (L.get s.db k))
            (joined-snoc s.in_flight s.write_buffer))
  ]

  await_flush-idle : (s : MessageStore L) → Waits s → (await_flush L true s).in_flight ≡ []
  unfolding await_flush
  await_flush-idle s waits = elim (Bool-cases (length s.write_buffer == 0)) [
    | inl e ↦ elim waits [ inl filled ↦ absurd (ground arith) | inr idle ↦ rw e idle ]
    | inr e ↦ rw e refl
  ]

  land-idle : (ok : Bool) (s : MessageStore L) → s.in_flight ≡ [] → land L ok s ≡ s
  unfolding land
  land-idle ok s idle = simp (land, idle)

  land_all-idle :
      (results : List Bool) (s : MessageStore L) → s.in_flight ≡ [] → land_all L results s ≡ s
  unfolding land_all
  land_all-idle [] s idle = refl
  land_all-idle (ok ∷ results) s idle = rw (land-idle ok s idle) (land_all-idle results s idle)

  -- Over a lawful database, when the buffer has room for the two writes of a message and stays
  -- below its limit, looking the message up by its id right after `save` returns the message, if
  -- the batches that the lookup waits for are written, and whatever lands between its reads.
  pub save-get_by_id :
      IsLevel L
      → (before_index before_message : List Bool) (s : MessageStore L) (m : Message)
      → length s.write_buffer + 2 < max_buffer_size
      → (get_by_id L true before_index before_message (save L s m) m.id).1 ≡ message m
  unfolding get_by_id save puts
  save-get_by_id lawful before_index before_message s m fits =
      let not_full : leb max_buffer_size (length (s.write_buffer ++ puts m)) ≡ false =
        ground (arith, length-append s.write_buffer (puts m)) in
      let waits : Waits (save L s m) =
        rw not_full (inl (omega (arith, length-append s.write_buffer (puts m)))) in
      let flushed : MessageStore L = await_flush L true (save L s m) in
      let idle : flushed.in_flight ≡ [] = await_flush-idle (save L s m) waits in
      let first : land_all L before_index flushed ≡ flushed =
        land_all-idle before_index flushed idle in
      let second : land_all L before_message flushed ≡ flushed =
        land_all-idle before_message flushed idle in
      rw (get_by_id, first, second)
        (find_by_id-stored L flushed.db flushed.db m
          (await_flush-get lawful (save L s m) (id_key m.id) waits
            ∙ (save-view s m (id_key m.id) ∙ puts-id_key m (view s (id_key m.id))))
          (await_flush-get lawful (save L s m) (message_key m) waits
            ∙ (save-view s m (message_key m) ∙ puts-message_key m (view s (message_key m)))))

  land_all-written :
      (bs : List (List Op)) (s : MessageStore L)
      → s.in_flight ≡ bs
      → land_all L (all_written bs) s ≡ record s { db = batches L s.db bs; in_flight = [] }
  unfolding land_all land
  land_all-written [] s e = rw (← e) refl
  land_all-written (ops ∷ bs) s e =
      rw (land, e) (land_all-written bs (record s { db = L.batch s.db ops; in_flight = bs }) refl)

  land_all-batches :
      (s : MessageStore L)
      → land_all L (all_written s.in_flight) s
        ≡ record s { db = batches L s.db s.in_flight; in_flight = [] }
  land_all-batches s = land_all-written s.in_flight s refl

  -- Once the buffer was handed to the database and all has landed, the database is the view.
  land_all-get :
      IsLevel L
      → (s : MessageStore L) (k : Key) → s.write_buffer ≡ []
      → L.get (land_all L (all_written s.in_flight) s).db k ≡ view s k
  unfolding written
  land_all-get lawful s k handed =
      rw (land_all-batches s)
        (batches-get lawful s.in_flight s.db k ∙ rw (handed, append-nil (joined s.in_flight)) refl)

  await_flush-empty : (s : MessageStore L) → s.write_buffer ≡ [] → await_flush L true s ≡ s
  unfolding await_flush flush
  await_flush-empty s e = rw e refl

  flush-write_buffer : (s : MessageStore L) → (flush L s).write_buffer ≡ []
  unfolding flush
  flush-write_buffer s = elim (Bool-cases (length s.write_buffer == 0)) [
    | inl e ↦ rw (e, length_zero s.write_buffer (ground arith)) refl
    | inr e ↦ rw e refl
  ]

  -- When the two writes of a message bring the buffer to its limit, `save` has emptied the buffer and
  -- a lookup by the id right after its call does not wait for the batch in flight: what it returns
  -- depends on when that lands. If no batch lands before the first read and the database has no
  -- entry for the id, it is null; if all batches in flight have landed and were written, it is the
  -- message.
  pub full-save-get_by_id :
      IsLevel L
      → (later : List Bool) (s : MessageStore L) (m : Message)
      → max_buffer_size ≤ length s.write_buffer + 2
      → L.get s.db (id_key m.id) ≡ none
      → let kept = save L s m in
        ((get_by_id L true [] later kept m.id).1 ≡ missing)
        × ((get_by_id L true (all_written kept.in_flight) later kept m.id).1 ≡ message m)
  unfolding get_by_id save find_by_id land_all
  full-save-get_by_id lawful later s m full unknown =
      let full_test : leb max_buffer_size (length (s.write_buffer ++ puts m)) ≡ true =
        ground (arith, length-append s.write_buffer (puts m)) in
      let t : MessageStore L = record s { write_buffer = s.write_buffer ++ puts m } in
      let kept : MessageStore L = save L s m in
      let is_flush : kept ≡ flush L t = rw full_test refl in
      let handed : kept.write_buffer ≡ [] = rw is_flush (flush-write_buffer t) in
      let same_db : kept.db ≡ s.db = rw is_flush (flush-db t) in
      let unchanged : await_flush L true kept ≡ kept = await_flush-empty kept handed in
      let landed : MessageStore L = land_all L (all_written kept.in_flight) kept in
      let idle : landed.in_flight ≡ [] = rw (land_all-batches kept) refl in
      let quiet : land_all L later landed ≡ landed = land_all-idle later landed idle in
      (
        rw (get_by_id, unchanged, find_by_id, same_db, unknown) refl,
        rw (get_by_id, unchanged, quiet)
            (find_by_id-stored L landed.db landed.db m
              (land_all-get lawful kept (id_key m.id) handed
                ∙ (save-view s m (id_key m.id) ∙ puts-id_key m (view s (id_key m.id))))
              (land_all-get lawful kept (message_key m) handed
                ∙ (save-view s m (message_key m) ∙ puts-message_key m (view s (message_key m))))),
      )
