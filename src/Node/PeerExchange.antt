-- ===== src/Node/PeerExchange.antt =====
-- node/discovery/peerExchange.js: peers tell each other whom they know.
pub mod Spread
mod Tests
use p2p_app.Prelude.{
  ℕ, String, Bool, true, false, not, ◌&&◌, List, [], ◌∷◌, ◌++◌, map, Option, none, some, Dict, keys,
  keep, take, eqb, get_elem?, length, ◌==◌, if◌then◌else◌,
}
use p2p_app.Node.State.{PeerInfo, has_peer}
use p2p_app.Node.Peers
use p2p_app.Node.Peers.{Peers, add_peer}

-- An entry of a 'PEER_LIST'.
pub record Address : Type 0 where
  pub peer_id : String
  pub host : String
  pub port : ℕ

pub data Effect : Type 0 where
  -- A 'PEER_EXCHANGE' request broadcast in the name of a peer, and a 'PEER_LIST' sent to a peer.
  requested : String → Effect
  listed : String → List Address → Effect
  peered : Peers.Effect → Effect

abbrev pub max_listed : ℕ
max_listed = 20

abbrev pub address_of : String × PeerInfo → Address
address_of (id, info) = record { peer_id = id; host = info.host; port = info.port }

-- The peers that a requester is told of.
unfoldable pub shared_peers : Peers → String → String → List Address
shared_peers s local_peer_id requester_id = map address_of (
    take max_listed (
      keep (λ (e : String × PeerInfo). not (eqb e.0 requester_id) && not (eqb e.0 local_peer_id))
        s.state.peers))

unfoldable pub handle_request : Peers → String → String → List Effect
unfolding shared_peers
handle_request s local_peer_id requester_id =
    listed requester_id (shared_peers s local_peer_id requester_id) ∷ []

-- `handle` is that of the client that the pool makes for a peer.
unfoldable pub handle_response :
    (String → ℕ) → ℕ → String → Peers → List Address → Peers × List Effect
handle_response handle now local_peer_id s [] = (s, [])
handle_response handle now local_peer_id s (peer ∷ peer_list) =
    let (added, effects) = add_peer s peer.peer_id peer.host peer.port (handle peer.peer_id) now in
    let (last, more) = handle_response handle now local_peer_id added peer_list in
    let skipped = handle_response handle now local_peer_id s peer_list in
    if not (eqb peer.peer_id local_peer_id) && not (has_peer s.state peer.peer_id)
    then (last, map peered effects ++ more)
    else skipped

-- A packet that the listener looks at: a request, or a list, which may be no array.
pub data Packet : Type 0 where
  peer_exchange : Packet
  peer_list : Option (List Address) → Packet
  other : Packet

unfoldable pub on_message_received :
    (String → ℕ) → ℕ → String → Peers → Packet → String → Peers × List Effect
unfolding handle_request handle_response
on_message_received handle now local_peer_id s peer_exchange peer_id =
    (s, handle_request s local_peer_id peer_id)
on_message_received handle now local_peer_id s (peer_list (some peers)) peer_id =
    handle_response handle now local_peer_id s peers
on_message_received handle now local_peer_id s (peer_list none) peer_id = (s, [])
on_message_received handle now local_peer_id s other peer_id = (s, [])

unfoldable pub request_peers_from_all : String → List Effect
request_peers_from_all local_peer_id = requested local_peer_id ∷ []

-- `random_index n` is `Math.floor(Math.random() * n)`.
unfoldable pub gossip_peer_list : (ℕ → ℕ) → Peers → String → List Effect
unfolding handle_request
gossip_peer_list random_index s local_peer_id =
    let active_peers = keys s.connection_pool.outbound in
    elim (get_elem? active_peers (random_index (length active_peers))) [
      | none ↦ []
      | some target ↦ handle_request s local_peer_id target
    ]
