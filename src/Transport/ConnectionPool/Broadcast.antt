-- ===== src/Transport/ConnectionPool/Broadcast.antt =====
-- transport/connectionPool.js: who receives what is sent and broadcast.
use mathlib.Core.Path.{ap₂}
use p2p_app.Prelude.{
  ℕ, String, ◌≡◌, refl, ◌∙◌, ap, not, ◌&&◌, ◌||◌, List, [], ◌∷◌, ◌++◌, none, Dict, lookup,
  lookup-insert_self, lookup-remove_self, has_key, insert, keys, keep, contains, contains-append,
  contains-keep, contains-add_all, Distinct, Distinct-add_all, add_all, arith,
}
use p2p_app.Protocol.Message.{Message}
use p2p_app.Transport.ConnectionPool.{
  ConnectionPool, Effect, sent_out, sent_in, dialed, hung_up, closed, peer_connected, peer_failed,
  peer_disconnected, message_received, send, broadcast_to, broadcast, get_all_peer_ids,
  add_inbound_connection, on_inbound_close,
}

-- The peers that are given a message, once for each connection that it goes through.
abbrev pub recipients : List Effect → List String
recipients [] = []
recipients (sent_out p m ∷ effects) = p ∷ recipients effects
recipients (sent_in p m ∷ effects) = p ∷ recipients effects
recipients (_ ∷ effects) = recipients effects

recipients-append : (xs ys : List Effect) → recipients (xs ++ ys) ≡ recipients xs ++ recipients ys
recipients-append [] ys = refl
recipients-append (sent_out p m ∷ xs) ys = ap (◌∷◌ p) (recipients-append xs ys)
recipients-append (sent_in p m ∷ xs) ys = ap (◌∷◌ p) (recipients-append xs ys)
recipients-append (dialed h ∷ xs) ys = recipients-append xs ys
recipients-append (hung_up h ∷ xs) ys = recipients-append xs ys
recipients-append (closed h ∷ xs) ys = recipients-append xs ys
recipients-append (peer_connected p s ∷ xs) ys = recipients-append xs ys
recipients-append (peer_failed p ∷ xs) ys = recipients-append xs ys
recipients-append (peer_disconnected p ∷ xs) ys = recipients-append xs ys
recipients-append (message_received m p ∷ xs) ys = recipients-append xs ys

contains-keys {ℓ} : {V : Type ℓ} (m : Dict V) (p : String) → contains (keys m) p ≡ has_key p m
unfolding contains has_key
contains-keys [] p = refl
contains-keys ((k, v) ∷ m) p = ground (arith, contains-keys m p)

-- The ids of all peers are those of both maps, each once.
pub contains-get_all_peer_ids :
    (pool : ConnectionPool) (p : String)
    → contains (get_all_peer_ids pool) p ≡ (has_key p pool.outbound || has_key p pool.inbound)
unfolding get_all_peer_ids contains
contains-get_all_peer_ids pool p = ground (
  arith,
  contains-add_all [] (keys pool.outbound ++ keys pool.inbound) p,
  contains-append (keys pool.outbound) (keys pool.inbound) p,
  contains-keys pool.outbound p,
  contains-keys pool.inbound p,
)

pub get_all_peer_ids-Distinct : (pool : ConnectionPool) → Distinct (get_all_peer_ids pool)
unfolding get_all_peer_ids
get_all_peer_ids-Distinct pool = Distinct-add_all [] (keys pool.outbound ++ keys pool.inbound) tt

broadcast_to-out :
    {A : Type 0} (m : Message) (exclude : List String) (connections : Dict A)
    → recipients (broadcast_to (λ p. sent_out p m) exclude connections)
      ≡ keep (λ p. not (contains exclude p)) (keys connections)
unfolding broadcast_to keep
broadcast_to-out m exclude [] = refl
broadcast_to-out m exclude ((p, c) ∷ connections) =
    ground (arith, broadcast_to-out m exclude connections)

broadcast_to-in :
    {A : Type 0} (m : Message) (exclude : List String) (connections : Dict A)
    → recipients (broadcast_to (λ p. sent_in p m) exclude connections)
      ≡ keep (λ p. not (contains exclude p)) (keys connections)
unfolding broadcast_to keep
broadcast_to-in m exclude [] = refl
broadcast_to-in m exclude ((p, c) ∷ connections) =
    ground (arith, broadcast_to-in m exclude connections)

-- First the outbound connections, then the inbound ones, each in the order of its map.
recipients-broadcast :
    (pool : ConnectionPool) (m : Message) (exclude : List String)
    → let q = λ (p : String). not (contains (add_all [] exclude) p) in
      recipients (broadcast pool m exclude)
      ≡ keep q (keys pool.outbound) ++ keep q (keys pool.inbound)
unfolding broadcast
recipients-broadcast pool m exclude =
    let excluded = add_all [] exclude in
    recipients-append (broadcast_to (λ p. sent_out p m) excluded pool.outbound)
      (broadcast_to (λ p. sent_in p m) excluded pool.inbound)
    ∙ ap₂ (λ (xs ys : List String). xs ++ ys) (broadcast_to-out m excluded pool.outbound)
        (broadcast_to-in m excluded pool.inbound)

-- A broadcast reaches exactly the connected peers that are not excluded.
pub contains-recipients-broadcast :
    (pool : ConnectionPool) (m : Message) (exclude : List String) (p : String)
    → contains (recipients (broadcast pool m exclude)) p
      ≡ (contains (get_all_peer_ids pool) p && not (contains exclude p))
unfolding contains
contains-recipients-broadcast pool m exclude p =
    let q = λ (p : String). not (contains (add_all [] exclude) p) in
    ap (λ ps. contains ps p) (recipients-broadcast pool m exclude)
    ∙ ground (
      arith,
      contains-append (keep q (keys pool.outbound)) (keep q (keys pool.inbound)) p,
      contains-keep q (keys pool.outbound) p,
      contains-keep q (keys pool.inbound) p,
      contains-keys pool.outbound p,
      contains-keys pool.inbound p,
      contains-add_all [] exclude p,
      contains-get_all_peer_ids pool p,
    )

-- Excluding all peers but the selected ones reaches exactly the selected ones that are connected.
pub contains-recipients-selected :
    (pool : ConnectionPool) (m : Message) (selected : List String) (p : String)
    → contains
        (recipients
          (broadcast pool m (keep (λ q. not (contains selected q)) (get_all_peer_ids pool))))
        p
      ≡ (contains (get_all_peer_ids pool) p && contains selected p)
contains-recipients-selected pool m selected p =
    let exclude = keep (λ q. not (contains selected q)) (get_all_peer_ids pool) in
    ground (
      arith,
      contains-recipients-broadcast pool m exclude p,
      contains-keep (λ q. not (contains selected q)) (get_all_peer_ids pool) p,
    )

-- When a peer connects again before its old inbound connection has closed, the late close event of
-- the old one removes the new one: the peer is then not sent anything, unless it is outbound too.
pub late_close-drops :
    (pool : ConnectionPool) (p : String) (old new : ℕ) (subscriptions : List String) (m : Message)
    → lookup p pool.outbound ≡ none
    → let pool1 = (add_inbound_connection pool p old subscriptions).0 in
      let pool2 = (add_inbound_connection pool1 p new subscriptions).0 in
      let pool3 = (on_inbound_close pool2 p old).0 in
      (send pool2 p m ≡ sent_in p m ∷ []) × (send pool3 p m ≡ [])
unfolding send add_inbound_connection on_inbound_close
late_close-drops pool p old new subscriptions m e = ground (
  arith,
  lookup-insert_self p new (insert p old pool.inbound),
  lookup-remove_self p (insert p new (insert p old pool.inbound)),
)
