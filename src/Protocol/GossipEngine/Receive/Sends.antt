-- ===== src/Protocol/GossipEngine/Receive/Sends.antt =====
-- protocol/gossipEngine.js: the messages among the effects of the engine, with their recipients.
use p2p_app.Prelude.{
  String, ◌≡◌, refl, ◌∙◌, sym, ◌⊎◌, ap, true, false, not, List, [], ◌∷◌, ◌++◌, map, Dict, has_key,
  keep, add_all, contains, contains-add_all, contains-keep, if-cases, arith, All, All-append, inl,
  inr,
}
use p2p_app.Metrics.{Counter}
use p2p_app.Protocol.Message.{Message}
use p2p_app.Protocol.GossipEngine.{
  GossipEngine, Effect, counted, limited, pooled, message_new, broadcast_selected,
}
use p2p_app.Protocol.GossipEngine.Receive.Admission.{outward}
use p2p_app.Transport.ConnectionPool
use p2p_app.Transport.ConnectionPool.{
  ConnectionPool, sent_out, sent_in, dialed, hung_up, closed, peer_connected, peer_failed,
  peer_disconnected, message_received, broadcast_to, broadcast, get_all_peer_ids,
}
use p2p_app.Transport.ConnectionPool.Broadcast.{contains-get_all_peer_ids}

-- The messages that a call sends, each with its recipient.
abbrev pub sends : List Effect → List (String × Message)
sends [] = []
sends (pooled (sent_out p m) ∷ effects) = (p, m) ∷ sends effects
sends (pooled (sent_in p m) ∷ effects) = (p, m) ∷ sends effects
sends (pooled _ ∷ effects) = sends effects
sends (counted _ ∷ effects) = sends effects
sends (limited _ ∷ effects) = sends effects
sends (message_new _ ∷ effects) = sends effects

pub sends-append : (xs ys : List Effect) → sends (xs ++ ys) ≡ sends xs ++ sends ys
sends-append [] ys = refl
sends-append (pooled (sent_out p m) ∷ xs) ys = ap (◌∷◌ (p, m)) (sends-append xs ys)
sends-append (pooled (sent_in p m) ∷ xs) ys = ap (◌∷◌ (p, m)) (sends-append xs ys)
sends-append (pooled (dialed h) ∷ xs) ys = sends-append xs ys
sends-append (pooled (hung_up h) ∷ xs) ys = sends-append xs ys
sends-append (pooled (closed h) ∷ xs) ys = sends-append xs ys
sends-append (pooled (peer_connected p q) ∷ xs) ys = sends-append xs ys
sends-append (pooled (peer_failed p) ∷ xs) ys = sends-append xs ys
sends-append (pooled (peer_disconnected p) ∷ xs) ys = sends-append xs ys
sends-append (pooled (message_received m p) ∷ xs) ys = sends-append xs ys
sends-append (counted c ∷ xs) ys = sends-append xs ys
sends-append (limited x ∷ xs) ys = sends-append xs ys
sends-append (message_new m ∷ xs) ys = sends-append xs ys

pub sends-outward : (xs : List Effect) → sends (outward xs) ≡ sends xs
sends-outward [] = refl
sends-outward (pooled x ∷ xs) =
    sends-append (pooled x ∷ []) (outward xs)
    ∙ (ap (λ ys. sends (pooled x ∷ []) ++ ys) (sends-outward xs)
        ∙ sym (sends-append (pooled x ∷ []) xs))
sends-outward (counted c ∷ xs) = sends-outward xs
sends-outward (limited x ∷ xs) = sends-outward xs
sends-outward (message_new m ∷ xs) = sends-outward xs

-- A connected peer that is not among the excluded is among the selected.
chosen :
    (e : GossipEngine) (s : String) (selected : List String) (p : String)
    → (has_key p e.connection_pool.outbound ≡ true) ⊎ (has_key p e.connection_pool.inbound ≡ true)
    → contains
        (add_all []
          (keep (λ q. not (contains (s ∷ selected) q)) (get_all_peer_ids e.connection_pool)))
        p
      ≡ false
    → contains (s ∷ selected) p ≡ true
unfolding contains
chosen e s selected p h f =
    let active = get_all_peer_ids e.connection_pool in
    ground (
      arith,
      contains-get_all_peer_ids e.connection_pool p,
      contains-keep (λ q. not (contains (s ∷ selected) q)) active p,
      contains-add_all [] (keep (λ q. not (contains (s ∷ selected) q)) active) p,
    )

module _ {κ} (P : String × Message → Type κ) where
  pub All-sends-append :
      (xs ys : List Effect) → All P (sends xs) → All P (sends ys) → All P (sends (xs ++ ys))
  All-sends-append xs ys hx hy = rw (sends-append xs ys) (All-append P (sends xs) (sends ys) hx hy)

  -- A loop of a broadcast sends `m` to peers of its map that are not excluded.
  broadcast_out-sends :
      {A : Type 0} (m : Message) (exclude : List String) (connections : Dict A)
      → ((p : String) → has_key p connections ≡ true → contains exclude p ≡ false → P (p, m))
      → All P (sends (map pooled (broadcast_to (λ p. sent_out p m) exclude connections)))
  unfolding broadcast_to has_key
  broadcast_out-sends m exclude [] ok = tt
  broadcast_out-sends m exclude ((p, c) ∷ connections) ok =
      let rest = broadcast_out-sends m exclude connections (λ q h f. ok q (ground arith) f) in
      if-cases (λ xs. All P (sends (map pooled xs))) (contains exclude p) _ _ (λ h. rest)
        (λ h. (ok p (ground arith) h, rest))

  broadcast_in-sends :
      {A : Type 0} (m : Message) (exclude : List String) (connections : Dict A)
      → ((p : String) → has_key p connections ≡ true → contains exclude p ≡ false → P (p, m))
      → All P (sends (map pooled (broadcast_to (λ p. sent_in p m) exclude connections)))
  unfolding broadcast_to has_key
  broadcast_in-sends m exclude [] ok = tt
  broadcast_in-sends m exclude ((p, c) ∷ connections) ok =
      let rest = broadcast_in-sends m exclude connections (λ q h f. ok q (ground arith) f) in
      if-cases (λ xs. All P (sends (map pooled xs))) (contains exclude p) _ _ (λ h. rest)
        (λ h. (ok p (ground arith) h, rest))

  map-pooled-append :
      (xs ys : List ConnectionPool.Effect) → map pooled (xs ++ ys) ≡ map pooled xs ++ map pooled ys
  map-pooled-append [] ys = refl
  map-pooled-append (x ∷ xs) ys = ap (◌∷◌ (pooled x)) (map-pooled-append xs ys)

  pub broadcast_selected-sends :
      (e : GossipEngine) (m : Message) (selected : List String)
      → ((p : String) → contains selected p ≡ true → P (p, m))
      → All P (sends (broadcast_selected e m selected))
  unfolding broadcast_selected broadcast
  broadcast_selected-sends e m [] ok = tt
  broadcast_selected-sends e m (s ∷ selected) ok =
      let pool = e.connection_pool in
      let exclude = keep (λ q. not (contains (s ∷ selected) q)) (get_all_peer_ids pool) in
      let all = add_all [] exclude in
      let out = broadcast_to (λ p. sent_out p m) all pool.outbound in
      let inward = broadcast_to (λ p. sent_in p m) all pool.inbound in
      All-sends-append (map pooled (broadcast pool m exclude))
        (counted Counter.messages_forwarded_total ∷ [])
        (rw (map-pooled-append out inward) (
          All-sends-append (map pooled out) (map pooled inward)
            (broadcast_out-sends m all pool.outbound
              (λ p h f. ok p (chosen e s selected p (inl h) f)))
            (broadcast_in-sends m all pool.inbound
              (λ p h f. ok p (chosen e s selected p (inr h) f)))))
        tt
