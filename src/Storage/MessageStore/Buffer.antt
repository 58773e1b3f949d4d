-- ===== src/Storage/MessageStore/Buffer.antt =====
-- storage/messageStore.js: the buffer of writes against a map that takes every write at once.
use p2p_app.Prelude.{
  ◌≡◌, refl, sym, ◌∙◌, ap, true, false, List, [], ◌∷◌, ◌++◌, append-nil, append_assoc, Option,
  length, leb, ◌==◌, Bool-cases, if-cases, inl, inr, List-cases, joined,
}
use p2p_app.Protocol.Message.{Message}
use p2p_app.Storage.Keys.{Key}
use p2p_app.Storage.Level.{Value, Op, written, Level, IsLevel}
use p2p_app.Storage.Level.Written.{written-append}
use p2p_app.Storage.MessageStore.{MessageStore, puts, flush, land, save, max_buffer_size}

pub joined-snoc : (bs : List (List Op)) (ops : List Op) → joined (bs ++ ops ∷ []) ≡ joined bs ++ ops
joined-snoc [] ops = append-nil ops
joined-snoc (b ∷ bs) ops = rw (joined-snoc bs ops, append_assoc b (joined bs) ops) refl

-- The writes of the saved messages, in order.
pub data Event : Type 0 where
  saved : Message → Event
  timer_fired batch_landed : Event

unfoldable pub puts_of : List Event → List Op
unfolding puts
puts_of [] = []
puts_of (saved m ∷ events) = puts m ++ puts_of events
puts_of (timer_fired ∷ events) = puts_of events
puts_of (batch_landed ∷ events) = puts_of events

module _ {L : Level} where
  -- The writes that the database has not got yet.
  abbrev pub pending : MessageStore L → List Op
  pending s = joined s.in_flight ++ s.write_buffer

  -- What stands under a key once every batch has landed.
  abbrev pub view : MessageStore L → Key → Option Value
  view s k = written (pending s) k (L.get s.db k)

  unfoldable pub step : MessageStore L → Event → MessageStore L
  unfolding save flush land
  step s (saved m) = save L s m
  step s timer_fired = flush L s
  step s batch_landed = land L true s

  unfoldable pub run : MessageStore L → List Event → MessageStore L
  unfolding step
  run s [] = s
  run s (event ∷ events) = run (step s event) events

  pub flush-pending : (s : MessageStore L) → pending (flush L s) ≡ pending s
  unfolding flush
  flush-pending s =
      if-cases (λ (t : MessageStore L). pending t ≡ pending s) (length s.write_buffer == 0) s
        (record s {
          write_buffer = [];
          batch_timer = false;
          in_flight = s.in_flight ++ s.write_buffer ∷ [];
        })
        (λ _. refl)
        (λ _.
          append-nil (joined (s.in_flight ++ s.write_buffer ∷ []))
          ∙ joined-snoc s.in_flight s.write_buffer)

  pub flush-db : (s : MessageStore L) → (flush L s).db ≡ s.db
  unfolding flush
  flush-db s = elim (Bool-cases (length s.write_buffer == 0)) [
    | inl e ↦ rw e refl
    | inr e ↦ rw e refl
  ]

  flush-view : (s : MessageStore L) (k : Key) → view (flush L s) k ≡ view s k
  flush-view s k = rw (flush-pending s, flush-db s) refl

  land-view : IsLevel L → (s : MessageStore L) (k : Key) → view (land L true s) k ≡ view s k
  unfolding land
  land-view lawful s k = elim (List-cases s.in_flight) [
    | inl e ↦ rw e refl
    | inr (batch, rest, e) ↦
        rw (e, lawful.get-batch s.db batch k, append_assoc batch (joined rest) s.write_buffer)
          (sym (written-append batch (joined rest ++ s.write_buffer) k (L.get s.db k)))
  ]

  pub save-view :
      (s : MessageStore L) (m : Message) (k : Key)
      → view (save L s m) k ≡ written (puts m) k (view s k)
  unfolding save
  save-view s m k =
      let buffered : MessageStore L = record s { write_buffer = s.write_buffer ++ puts m } in
      let later : view buffered k ≡ written (puts m) k (view s k) =
        ap (λ (ops : List Op). written ops k (L.get s.db k))
          (sym (append_assoc (joined s.in_flight) s.write_buffer (puts m)))
        ∙ written-append (pending s) (puts m) k (L.get s.db k) in
      if-cases (λ (t : MessageStore L). view t k ≡ written (puts m) k (view s k))
        (leb max_buffer_size (length (s.write_buffer ++ puts m))) (flush L buffered)
        (record buffered { batch_timer = true }) (λ _. flush-view buffered k ∙ later) (λ _. later)

  -- Over a lawful database, after any sequence of saves, expired timers and batches that land, what
  -- stands under each key once all batches have landed is what the writes of the saved messages,
  -- taken one by one in order, make of what stood there before: the buffer loses, repeats and
  -- reorders none.
  pub run-view :
      IsLevel L
      → (events : List Event) (s : MessageStore L) (k : Key)
      → view (run s events) k ≡ written (puts_of events) k (view s k)
  unfolding puts_of written step run save flush land
  run-view lawful [] s k = refl
  run-view lawful (saved m ∷ events) s k =
      run-view lawful events (save L s m) k
      ∙ (ap (written (puts_of events) k) (save-view s m k)
          ∙ sym (written-append (puts m) (puts_of events) k (view s k)))
  run-view lawful (timer_fired ∷ events) s k =
      run-view lawful events (flush L s) k ∙ ap (written (puts_of events) k) (flush-view s k)
  run-view lawful (batch_landed ∷ events) s k =
      run-view lawful events (land L true s) k
      ∙ ap (written (puts_of events) k) (land-view lawful s k)
