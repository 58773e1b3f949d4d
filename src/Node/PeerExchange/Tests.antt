-- ===== src/Node/PeerExchange/Tests.antt =====
-- Runs of the exchange on small inputs.
use p2p_app.Prelude.{◌≡◌, refl, List, [], ◌∷◌, keep, same}
use p2p_app.Node.State
use p2p_app.Node.State.{PeerInfo, active, has_peer}
use p2p_app.Node.Peers.{Peers}
use p2p_app.Node.PeerExchange.{Address, shared_peers}

abbrev info : PeerInfo
info = record { host = "h"; port = 1; last_seen = 0; status = active; lamport_time = 0 }

abbrev peers : Peers
peers = record {
  state = record State.init { peers = ("a", info) ∷ ("b", info) ∷ ("me", info) ∷ [] };
  connection_pool = (record { local_peer_id = "me"; outbound = []; inbound = [] });
}

told : shared_peers peers "me" "a" ≡ (record { peer_id = "b"; host = "h"; port = 1 }) ∷ []
unfolding shared_peers keep same State.init
told = refl

abbrev news : List Address
news =
    (record { peer_id = "c"; host = "h"; port = 2 })
    ∷ (record { peer_id = "me"; host = "x"; port = 3 })
    ∷ []
