-- ===== src/Protocol/AckManager/Delivery.antt =====
-- protocol/ackManager.js: how a delivery ends.
use p2p_app.Prelude.{
  contains, same, map, sym, append_assoc, ℕ, zero, suc, ◌+◌, ◌≤◌, ◌<◌, String, ◌≡◌, refl, ◌∙◌, ap,
  true, false, List, [], ◌∷◌, ◌++◌, none, some, lookup, lookup-insert_self, lookup-remove_self,
  discard, if◌then◌else◌, arith, Bool-cases, inl, inr,
}
use p2p_app.Config.{max_retry_attempts}
use p2p_app.Protocol.Message.{Message}
use p2p_app.Transport.ConnectionPool.{ConnectionPool, Client, sent_out}
use p2p_app.Protocol.AckManager.{
  transmit_to, AckManager, PendingAck, Effect, pooled, scheduled, cancelled, latency,
  delivery_confirmed, delivery_failed, transmit, handle_timeout, is_empty, receive_ack,
}

-- `n` timeouts of one message with nothing in between.
unfoldable pub timeouts : ℕ → String → AckManager → AckManager × List Effect
timeouts zero id s = (s, [])
timeouts (suc n) id s =
    let (s1, effects) = handle_timeout s id in
    let (s2, more) = timeouts n id s1 in (s2, effects ++ more)

handle_timeout_retry :
    (s : AckManager) (id : String) (entry : PendingAck)
    → lookup id s.pending_acks ≡ some entry
    → entry.attempts < max_retry_attempts
    → (lookup id (handle_timeout s id).0.pending_acks
        ≡ some (record entry { attempts = entry.attempts + 1 }))
      × ((handle_timeout s id).0.connection_pool ≡ s.connection_pool)
      × ((handle_timeout s id).1
          ≡ transmit s.connection_pool entry.message entry.peers ++ scheduled id ∷ [])
unfolding handle_timeout
handle_timeout_retry s id entry here few =
    rw (here, handle_timeout)
      (ground (
        arith,
        lookup-insert_self id (record entry { attempts = entry.attempts + 1 }) s.pending_acks,
      ))

handle_timeout_fail :
    (s : AckManager) (id : String) (entry : PendingAck)
    → lookup id s.pending_acks ≡ some entry
    → max_retry_attempts ≤ entry.attempts
    → (lookup id (handle_timeout s id).0.pending_acks ≡ none)
      × ((handle_timeout s id).1 ≡ delivery_failed id entry.peers ∷ [])
unfolding handle_timeout
handle_timeout_fail s id entry here many =
    rw (here, handle_timeout) (ground (arith, lookup-remove_self id s.pending_acks))

-- What is transmitted to one of the peers whose connection is up stands in a transmission.
transmit-sent_out :
    (pool : ConnectionPool) (m : Message) (peers : List String) (p : String) (client : Client)
    → contains peers p ≡ true
    → lookup p pool.outbound ≡ some client
    → client.is_connected ≡ true
    → (front : List Effect) × (back : List Effect) × (transmit pool m peers
        ≡ front ++ pooled (sent_out p m) ∷ back)
unfolding transmit transmit_to contains
transmit-sent_out pool m [] p client among at_p up = cc
transmit-sent_out pool m (q ∷ peers) p client among at_p up = elim (same q p) [
  | yes e ↦
      let at_q : lookup q pool.outbound ≡ some client = rw e at_p in
      ([], transmit pool m peers, rw (← e) (rw (transmit_to, at_q, up) refl))
  | no ne ↦
      let (front, back, e) = transmit-sent_out pool m peers p client (ground arith) at_p up in
      let first = map pooled (transmit_to pool m q) in
      (first ++ front, back, rw e (sym (append_assoc first front (pooled (sent_out p m) ∷ back))))
]

-- Without any acknowledgement, a message just sent is transmitted twice more for the peers that are
-- awaited, each time with a new timer, and then given up: the third timeout forgets it and reports the
-- failure for all of them. Both times it is sent to each of them whose outbound connection is up.
pub timeouts-failed :
    (s : AckManager) (id : String) (entry : PendingAck)
    → lookup id s.pending_acks ≡ some entry
    → entry.attempts ≡ 1
    → let retry = transmit s.connection_pool entry.message entry.peers ++ scheduled id ∷ [] in
      (lookup id (timeouts 3 id s).0.pending_acks ≡ none)
      × ((timeouts 3 id s).1 ≡ retry ++ (retry ++ delivery_failed id entry.peers ∷ []))
      × ((p : String) (client : Client)
          → contains entry.peers p ≡ true
          → lookup p s.connection_pool.outbound ≡ some client
          → client.is_connected ≡ true
          → (front : List Effect) × (back : List Effect) × (retry
              ≡ front ++ pooled (sent_out p entry.message) ∷ back))
unfolding timeouts
timeouts-failed s id entry here once =
    let (a1, a2, a3) = handle_timeout_retry s id entry here (omega arith) in
    let s1 = (handle_timeout s id).0 in
    let e1 : PendingAck = record entry { attempts = entry.attempts + 1 } in
    let (b1, b2, b3) = handle_timeout_retry s1 id e1 a1 (omega arith) in
    let s2 = (handle_timeout s1 id).0 in
    let e2 : PendingAck = record e1 { attempts = e1.attempts + 1 } in
    let (c1, c2) = handle_timeout_fail s2 id e2 b1 (omega arith) in
    (
      c1,
      rw (a3, b3, a2, c2) refl,
      λ p client among at_p up.
          let (front, back, e) =
            transmit-sent_out s.connection_pool entry.message entry.peers p client among at_p up in
          (
            front,
            back ++ scheduled id ∷ [],
            rw e
                (append_assoc front (pooled (sent_out p entry.message) ∷ back) (scheduled id ∷ [])),
          ),
    )

-- Acknowledgements of one message from `senders`, in their order, at the same time `now`.
unfoldable pub acks : String → ℕ → List String → AckManager → AckManager × List Effect
acks id now [] s = (s, [])
acks id now (p ∷ senders) s =
    let (s1, effects) = receive_ack s (some id) p now in
    let (s2, more) = acks id now senders s1 in (s2, effects ++ more)

unfoldable pub discard_all : List String → List String → List String
discard_all [] peers = peers
discard_all (p ∷ senders) peers = discard_all senders (discard p peers)

discard_all_nil : (senders : List String) → discard_all senders [] ≡ []
unfolding discard_all discard
discard_all_nil [] = refl
discard_all_nil (p ∷ senders) = discard_all_nil senders

-- The ids of the deliveries that are reported as confirmed.
abbrev pub confirmed_ids : List Effect → List String
confirmed_ids [] = []
confirmed_ids (delivery_confirmed id ∷ effects) = id ∷ confirmed_ids effects
confirmed_ids (_ ∷ effects) = confirmed_ids effects

acks_gone :
    (id : String) (now : ℕ) (senders : List String) (s : AckManager)
    → lookup id s.pending_acks ≡ none
    → (lookup id (acks id now senders s).0.pending_acks ≡ none)
      × (confirmed_ids (acks id now senders s).1 ≡ [])
unfolding acks receive_ack
acks_gone id now [] s e = (e, refl)
acks_gone id now (p ∷ senders) s e = rw (e, receive_ack) (acks_gone id now senders s e)

receive_ack_last :
    (id p : String) (now : ℕ) (s : AckManager) (entry : PendingAck)
    → lookup id s.pending_acks ≡ some entry
    → is_empty (discard p entry.peers) ≡ true
    → (lookup id (receive_ack s (some id) p now).0.pending_acks ≡ none)
      × (confirmed_ids (receive_ack s (some id) p now).1 ≡ id ∷ [])
unfolding receive_ack
receive_ack_last id p now s entry here done =
    rw (here, receive_ack, done) (lookup-remove_self id s.pending_acks, refl)

receive_ack_more :
    (id p : String) (now : ℕ) (s : AckManager) (entry : PendingAck)
    → lookup id s.pending_acks ≡ some entry
    → is_empty (discard p entry.peers) ≡ false
    → (lookup id (receive_ack s (some id) p now).0.pending_acks
        ≡ some (record entry { peers = discard p entry.peers }))
      × ((receive_ack s (some id) p now).1 ≡ [])
unfolding receive_ack
receive_ack_more id p now s entry here more =
    rw (here, receive_ack, more)
      (lookup-insert_self id (record entry { peers = discard p entry.peers }) s.pending_acks, refl)

is_empty_nil : (xs : List String) → is_empty xs ≡ true → xs ≡ []
is_empty_nil [] e = refl
is_empty_nil (x ∷ xs) e = absurd (ground arith)

confirmed_ids-append :
    (xs ys : List Effect) → confirmed_ids (xs ++ ys) ≡ confirmed_ids xs ++ confirmed_ids ys
confirmed_ids-append [] ys = refl
confirmed_ids-append (delivery_confirmed id ∷ xs) ys = ap (◌∷◌ id) (confirmed_ids-append xs ys)
confirmed_ids-append (pooled x ∷ xs) ys = confirmed_ids-append xs ys
confirmed_ids-append (scheduled x ∷ xs) ys = confirmed_ids-append xs ys
confirmed_ids-append (cancelled x ∷ xs) ys = confirmed_ids-append xs ys
confirmed_ids-append (latency x ∷ xs) ys = confirmed_ids-append xs ys
confirmed_ids-append (delivery_failed x ps ∷ xs) ys = confirmed_ids-append xs ys

-- Acknowledgements from any peers in any order, repeated or not, confirm a delivery exactly when
-- they cover all its peers, and then once; otherwise the peers left are still awaited.
pub acks-confirmed :
    (id : String) (now : ℕ) (senders : List String) (s : AckManager) (entry : PendingAck)
    → lookup id s.pending_acks ≡ some entry
    → is_empty entry.peers ≡ false
    → let left = discard_all senders entry.peers in
      (lookup id (acks id now senders s).0.pending_acks
        ≡ (if is_empty left then none else some (record entry { peers = left })))
      × (confirmed_ids (acks id now senders s).1 ≡ (if is_empty left then id ∷ [] else []))
unfolding acks discard_all
acks-confirmed id now [] s entry here full = ground arith
acks-confirmed id now (p ∷ senders) s entry here full =
    elim (Bool-cases (is_empty (discard p entry.peers))) [
      | inl done ↦
          let (gone, once) = receive_ack_last id p now s entry here done in
          let s1 = (receive_ack s (some id) p now).0 in
          let (still_gone, quiet) = acks_gone id now senders s1 gone in
          let none_left : discard_all senders (discard p entry.peers) ≡ [] =
            ap (discard_all senders) (is_empty_nil (discard p entry.peers) done)
            ∙ discard_all_nil senders in
          rw none_left (
            still_gone,
            confirmed_ids-append (receive_ack s (some id) p now).1 (acks id now senders s1).1
                ∙ rw (once, quiet) refl,
          )
      | inr more ↦
          let (kept, quiet) = receive_ack_more id p now s entry here more in
          let s1 = (receive_ack s (some id) p now).0 in
          let (a, b) =
            acks-confirmed id now senders s1 (record entry { peers = discard p entry.peers }) kept
              more in
          (
            a,
            confirmed_ids-append (receive_ack s (some id) p now).1 (acks id now senders s1).1
                ∙ rw quiet b,
          )
    ]
