-- ===== src/Transport/NativeTransport/Tests.antt =====
-- Runs of one connection on both servers.
use p2p_app.Prelude.{◌≡◌, refl, true, same, List, [], ◌∷◌, none, some}
use p2p_app.Transport.WsServer
use p2p_app.Transport.WsServer.{WsServer, Frame, malformed, hello, accept}
use p2p_app.Transport.WsServer.Handshake
use p2p_app.Transport.NativeTransport.{NativeServer, run, peer_at}
use p2p_app.Transport.NativeTransport.Relay.{relayed_of, opens_with_hello, run-relayed_of}

abbrev native : NativeServer
native = record {
  port = 3000;
  local_peer_id = "me";
  local_public_key = none;
  peers = (7, record { remote_peer_id = none }) ∷ [];
  is_running = true;
}

abbrev websocket : WsServer
websocket = record {
  local_peer_id = "me";
  port = 3000;
  local_public_key = none;
  active_connections = [];
}

abbrev frames : List Frame
frames = malformed ∷ hello "p" (some "k") [] ∷ hello "q" none [] ∷ []

run-relayed_of_example :
    relayed_of (run native ("global" ∷ []) 7 frames).1
    ≡ Handshake.relayed_of (WsServer.run websocket (accept 7) ("global" ∷ []) frames).2
unfolding peer_at opens_with_hello accept same
run-relayed_of_example =
    run-relayed_of ("global" ∷ []) native 7 websocket (accept 7) frames refl refl refl
