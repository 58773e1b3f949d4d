-- ===== src/Protocol/PendingQueue/Window.antt =====
-- protocol/pendingQueue.js: a queue holds the latest messages for its peer, oldest first.
use p2p_app.Prelude.{
  ℕ, zero, suc, ◌-◌, ◌≤◌, ◌<◌, String, same, ite, ◌≡◌, refl, ap, sym, ◌∙◌, ◌≢◌, List, [], ◌∷◌, ◌++◌,
  lookup, insert, append-nil, if_pos, if_neg, lookup-insert, lookup-remove, length, length-append,
  length-drop, drop, drop-append, dec_lt, ltb, if◌then◌else◌, arith, append_assoc,
}
use p2p_app.Protocol.PendingQueue.{PendingQueue, shift, init, queue_of, enqueue, flush}

module _ {ℓ} {M : Type ℓ} where
  -- The last `n` entries of a list, or all of a shorter one.
  abbrev pub last_n : ℕ → List M → List M
  last_n n xs = drop (length xs - n) xs

  drop-nil : (k : ℕ) → drop {A = M} k [] ≡ []
  drop-nil zero = refl
  drop-nil (suc k) = refl

  shift-drop : (k : ℕ) (xs : List M) → shift (drop k xs) ≡ drop (suc k) xs
  shift-drop zero [] = refl
  shift-drop zero (x ∷ xs) = refl
  shift-drop (suc k) [] = refl
  shift-drop (suc k) (x ∷ xs) = shift-drop k xs

  abbrev cap : ℕ → List M → List M
  cap n queue = if ltb n (length queue) then shift queue else queue

  cap_fits : (n : ℕ) (queue : List M) → length queue ≤ n → cap n queue ≡ queue
  cap_fits n queue h = ground arith

  cap_over : (n : ℕ) (queue : List M) → n < length queue → cap n queue ≡ shift queue
  cap_over n queue h = ground arith

  -- Appending to a window of `n` entries and capping is the window of the longer list.
  cap-last_n :
      (n : ℕ) (xs : List M) (m : M) → cap n (last_n n xs ++ m ∷ []) ≡ last_n n (xs ++ m ∷ [])
  cap-last_n n xs m = elim (dec_lt (length xs) n) [
    | yes short ↦
        let a : length xs - n ≡ 0 = omega arith in
        let b : length (xs ++ m ∷ []) - n ≡ 0 = omega (arith, length-append xs (m ∷ [])) in
        rw (a, b) (cap_fits n (xs ++ m ∷ []) (omega (arith, length-append xs (m ∷ []))))
    | no long ↦
        let b : length (xs ++ m ∷ []) - n ≡ suc (length xs - n) =
          omega (arith, length-append xs (m ∷ [])) in
        rw b (
          cap_over n (last_n n xs ++ m ∷ [])
            (omega (arith, length-append (last_n n xs) (m ∷ []), length-drop (length xs - n) xs))
          ∙ (ap shift (sym (drop-append (length xs - n) xs (m ∷ []) (omega arith)))
              ∙ shift-drop (length xs - n) (xs ++ m ∷ [])))
  ]

  -- The messages for one peer among those enqueued.
  unfoldable pub for_peer : String → List (String × M) → List M
  for_peer peer_id [] = []
  for_peer peer_id ((p, m) ∷ calls) =
      let rest = for_peer peer_id calls in ite (same p peer_id) (m ∷ rest) rest

  unfoldable pub enqueue_all : PendingQueue M → List (String × M) → PendingQueue M
  enqueue_all q [] = q
  enqueue_all q ((p, m) ∷ calls) = enqueue_all (enqueue q p m) calls

  -- The queue of `peer_id` holds the window of what was enqueued for it, `seen`.
  record Holds (n : ℕ) (peer_id : String) (seen : List M) (q : PendingQueue M) : Type ℓ where
    limit : q.max_queue_size ≡ n
    window : queue_of q peer_id ≡ last_n n seen

  queue_of-insert :
      (q : PendingQueue M) (p j : String) (xs : List M)
      → queue_of (record q { queues = insert p xs q.queues }) j ≡ ite (same p j) xs (queue_of q j)
  unfolding queue_of
  queue_of-insert q p j xs = ground (arith, lookup-insert p j xs q.queues)

  queue_of-enqueue :
      (q : PendingQueue M) (p j : String) (m : M)
      → queue_of (enqueue q p m) j
        ≡ ite (same p j) (cap q.max_queue_size (queue_of q p ++ m ∷ [])) (queue_of q j)
  unfolding enqueue
  queue_of-enqueue q p j m = queue_of-insert q p j (cap q.max_queue_size (queue_of q p ++ m ∷ []))

  enqueue-Holds :
      (peer_id p : String) (seen : List M) (q : PendingQueue M) (m : M) (n : ℕ)
      → Holds n peer_id seen q
      → Holds n peer_id (ite (same p peer_id) (seen ++ m ∷ []) seen) (enqueue q p m)
  enqueue-Holds peer_id p seen q m n h = elim (same p peer_id) [
    | yes hit ↦ rw (if_pos _ hit) (record {
      limit = unfold enqueue in h.limit;
      window =
          rw (queue_of-enqueue q p peer_id m, if_pos (same p peer_id) hit, hit, h.window, h.limit)
            (cap-last_n n seen m);
    })
    | no miss ↦ rw (if_neg _ miss) (record {
      limit = unfold enqueue in h.limit;
      window = rw (queue_of-enqueue q p peer_id m, if_neg (same p peer_id) miss) h.window;
    })
  ]

  enqueue_all-Holds :
      (peer_id : String) (n : ℕ) (seen : List M) (q : PendingQueue M) (calls : List (String × M))
      → Holds n peer_id seen q
      → Holds n peer_id (seen ++ for_peer peer_id calls) (enqueue_all q calls)
  unfolding for_peer enqueue_all
  enqueue_all-Holds peer_id n seen q [] h = rw append-nil h
  enqueue_all-Holds peer_id n seen q ((p, m) ∷ calls) h = elim (same p peer_id) [
    | yes hit ↦ rw (if_pos _ hit) (
        rw (← append_assoc seen (m ∷ []) (for_peer peer_id calls)) (
          enqueue_all-Holds peer_id n (seen ++ m ∷ []) (enqueue q p m) calls
            (rw (if_pos _ hit) at (enqueue-Holds peer_id p seen q m n h))))
    | no miss ↦ rw (if_neg _ miss) (
        enqueue_all-Holds peer_id n seen (enqueue q p m) calls
          (rw (if_neg _ miss) at (enqueue-Holds peer_id p seen q m n h)))
  ]

  flush-queue_of :
      (q : PendingQueue M) (peer_id : String) → (flush q peer_id).1 ≡ queue_of q peer_id
  unfolding flush queue_of
  flush-queue_of q peer_id = ground arith

  -- After any enqueues on fresh queues, for any peers in any order, flushing a peer returns the
  -- latest `max_queue_size` messages for that peer, or all of fewer, oldest first.
  pub flush-enqueue_all :
      (max_queue_size : ℕ) (calls : List (String × M)) (peer_id : String)
      → (flush (enqueue_all (init max_queue_size) calls) peer_id).1
        ≡ last_n max_queue_size (for_peer peer_id calls)
  flush-enqueue_all n calls peer_id =
      flush-queue_of (enqueue_all (init n) calls) peer_id
      ∙ (enqueue_all-Holds peer_id n [] (init n) calls init-Holds).window
    where
      init-Holds : Holds n peer_id [] (init n)
      init-Holds =
          unfold init queue_of lookup in (record { limit = refl; window = sym (drop-nil (0 - n)) })

  -- Flushing a peer empties its queue, so a second flush returns nothing, and leaves the queues of
  -- all other peers as they were.
  pub flush_again :
      (q : PendingQueue M) (peer_id other : String)
      → ((flush (flush q peer_id).0 peer_id).1 ≡ [])
        × (other ≢ peer_id → (flush (flush q peer_id).0 other).1 ≡ (flush q other).1)
  unfolding flush
  flush_again q peer_id other =
      ground (arith, lookup-remove peer_id peer_id q.queues, lookup-remove peer_id other q.queues)
