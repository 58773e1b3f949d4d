-- ===== src/Transport/WsServer/Tests.antt =====
-- Runs of one connection on small inputs.
use p2p_app.Prelude.{same, ◌≡◌, refl, List, [], ◌∷◌, none, some}
use p2p_app.Transport.WsServer.{WsServer, Frame, malformed, hello, accept, run}
use p2p_app.Transport.WsServer.Handshake.{relayed_of, behind_hello, run-behind_hello}

abbrev server : WsServer
server = record {
  local_peer_id = "me";
  port = 3000;
  local_public_key = none;
  active_connections = [];
}

-- A 'HELLO' without a peer id, one with it, and a later one.
abbrev frames : List Frame
frames = hello "" none [] ∷ malformed ∷ hello "p" (some "k") [] ∷ malformed ∷ hello "q" none [] ∷ []

run-behind_hello_example :
    relayed_of (run server (accept 7) ("global" ∷ []) frames).2 ≡ (hello "q" none [], "p") ∷ []
unfolding behind_hello accept same
run-behind_hello_example = run-behind_hello ("global" ∷ []) server (accept 7) frames refl
