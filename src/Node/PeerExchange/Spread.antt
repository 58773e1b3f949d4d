-- ===== src/Node/PeerExchange/Spread.antt =====
-- node/discovery/peerExchange.js: whom a peer is told of, and what a list of peers adds.
use p2p_app.Prelude.{
  All-take, ℕ, suc, ◌≤◌, String, ◌≡◌, ◌≢◌, refl, ap, Bool, true, false, not, ◌&&◌, List, [], ◌∷◌,
  map, Dict, has_key, keep, take, eqb, length, length-take-le, All, All-mono, arith, Bool-cases,
  if-cases, inl, inr, has_key-insert, same, ite,
}
use p2p_app.Node.State.{PeerInfo, has_peer, set_peer}
use p2p_app.Node.Peers.{Peers, add_peer}
use p2p_app.Node.PeerExchange.{
  Effect, Address, address_of, max_listed, shared_peers, handle_response,
}

module _ {A : Type 0} where
  keep_sound :
      (P : A → Type 0) (p : A → Bool) (xs : List A)
      → All P xs
      → All (λ (x : A). P x × (p x ≡ true)) (keep p xs)
  unfolding keep
  keep_sound P p [] all = tt
  keep_sound P p (x ∷ xs) all = elim (Bool-cases (p x)) [
    | inl e ↦ rw e ((all.0, e), keep_sound P p xs all.1)
    | inr e ↦ rw e (keep_sound P p xs all.1)
  ]

All-map_address :
    (P : Address → Type 0) (es : Dict PeerInfo)
    → All (λ (e : String × PeerInfo). P (address_of e)) es
    → All P (map address_of es)
All-map_address P [] all = tt
All-map_address P (e ∷ es) all = (all.0, All-map_address P es all.1)

length-map_address : (es : Dict PeerInfo) → length (map address_of es) ≡ length es
length-map_address [] = refl
length-map_address (e ∷ es) = ap suc (length-map_address es)

has_key-All : (m : Dict PeerInfo) → All (λ (e : String × PeerInfo). has_key e.0 m ≡ true) m
unfolding has_key
has_key-All [] = tt
has_key-All ((k, v) ∷ m) = (
  ground arith,
  All-mono (λ (e : String × PeerInfo). has_key e.0 m ≡ true)
      (λ (e : String × PeerInfo). has_key e.0 ((k, v) ∷ m) ≡ true) (λ e h. ground arith) m
      (has_key-All m),
)

apart_of_test : (a b : String) → not (eqb a b) ≡ true → a ≢ b
apart_of_test a b h p = ground arith

-- A requester is told of at most twenty peers, all of them known, and neither of itself nor of this
-- node.
pub shared_peers_sound :
    (s : Peers) (local_peer_id requester_id : String)
    → (length (shared_peers s local_peer_id requester_id) ≤ max_listed)
      × All
          (λ (a : Address).
            (has_peer s.state a.peer_id ≡ true)
            × (a.peer_id ≢ requester_id)
            × (a.peer_id ≢ local_peer_id))
          (shared_peers s local_peer_id requester_id)
unfolding shared_peers has_peer
shared_peers_sound s local_peer_id requester_id =
    let p : String × PeerInfo → Bool =
      λ e. not (eqb e.0 requester_id) && not (eqb e.0 local_peer_id) in
    let kept = keep p s.state.peers in
    (
      omega (arith, length-map_address (take max_listed kept), length-take-le max_listed kept),
      All-map_address _ (take max_listed kept) (
          All-take _ max_listed kept (
            All-mono (λ (e : String × PeerInfo). (has_key e.0 s.state.peers ≡ true) × (p e ≡ true))
              (λ (e : String × PeerInfo).
                (has_key e.0 s.state.peers ≡ true) × (e.0 ≢ requester_id) × (e.0 ≢ local_peer_id))
              (λ e h. (
                h.0,
                apart_of_test e.0 requester_id (ground arith),
                apart_of_test e.0 local_peer_id (ground arith),
              ))
              kept
              (keep_sound (λ (e : String × PeerInfo). has_key e.0 s.state.peers ≡ true) p
                s.state.peers (has_key-All s.state.peers)))),
    )

add_peer-known :
    (s : Peers) (peer_id host : String) (port handle now : ℕ) (id : String)
    → has_peer s.state peer_id ≡ false
    → has_peer (add_peer s peer_id host port handle now).0.state id
      ≡ ite (same peer_id id) true (has_peer s.state id)
unfolding add_peer has_peer set_peer
add_peer-known s peer_id host port handle now id new =
    rw new (has_key-insert peer_id id _ s.state.peers)

-- Every peer of a received list is known afterwards, unless it is the node itself.
pub handle_response-known :
    (handle : String → ℕ) (now : ℕ) (local_peer_id : String) (s : Peers) (peer_list : List Address)
    → let after = (handle_response handle now local_peer_id s peer_list).0 in
      ((id : String) → has_peer s.state id ≡ true → has_peer after.state id ≡ true)
      × All
          (λ (a : Address). a.peer_id ≢ local_peer_id → has_peer after.state a.peer_id ≡ true)
          peer_list
unfolding handle_response
handle_response-known handle now local_peer_id s [] = (λ id h. h, tt)
handle_response-known handle now local_peer_id s (a ∷ peer_list) =
    let added = (add_peer s a.peer_id a.host a.port (handle a.peer_id) now).0 in
    let (kept, known) = handle_response-known handle now local_peer_id added peer_list in
    let (kept2, known2) = handle_response-known handle now local_peer_id s peer_list in
    if-cases
      (λ (r : Peers × List Effect).
        ((id : String) → has_peer s.state id ≡ true → has_peer r.0.state id ≡ true)
        × ((a.peer_id ≢ local_peer_id → has_peer r.0.state a.peer_id ≡ true)
            × All (λ (b : Address). b.peer_id ≢ local_peer_id → has_peer r.0.state b.peer_id ≡ true)
                peer_list))
      (not (eqb a.peer_id local_peer_id) && not (has_peer s.state a.peer_id))
      ((handle_response handle now local_peer_id added peer_list).0, _)
      (handle_response handle now local_peer_id s peer_list)
      (λ unknown.
        let grows = add_peer-known s a.peer_id a.host a.port (handle a.peer_id) now in
        (
          λ id h. kept id (ground (arith, grows id (ground arith))),
          (λ other. kept a.peer_id (ground (arith, grows a.peer_id (ground arith))), known),
        ))
      (λ skipped. (kept2, (λ other. kept2 a.peer_id (ground arith), known2)))
