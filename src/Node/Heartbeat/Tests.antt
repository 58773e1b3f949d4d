-- ===== src/Node/Heartbeat/Tests.antt =====
-- Runs of the heartbeat manager on small inputs.
use p2p_app.Prelude.{ℕ, ◌≡◌, refl, none, [], ◌∷◌, lookup, has_key, same}
use p2p_app.Node.State.{PeerInfo, Status, active, suspected}
use p2p_app.Node.Peers.{Peers}
use p2p_app.Node.Heartbeat.{tick}
use p2p_app.Node.Heartbeat.Detection.{advance, tick-lookup}
use p2p_app.Transport.ConnectionPool

abbrev info_with : Status → ℕ → PeerInfo
info_with status last_seen = record {
  host = "h";
  port = 1;
  last_seen = last_seen;
  status = status;
  lamport_time = 0;
}

-- An active peer and a suspected one.
abbrev peers : Peers
peers = record {
  state = (record {
    peers = ("a", info_with active 1000) ∷ ("b", info_with suspected 2000) ∷ [];
    seen_messages = [];
    topics = [];
  });
  connection_pool = ConnectionPool.init "me";
}

tick-lookup_example : lookup "b" (tick peers 40000).0.state.peers ≡ none
unfolding lookup has_key same advance
tick-lookup_example = tick-lookup peers 40000 "b" (refl, (refl, tt))
