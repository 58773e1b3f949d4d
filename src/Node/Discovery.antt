-- ===== src/Node/Discovery.antt =====
-- node/discovery/index.js: the orchestrator of the three ways to find peers, in its order.
pub mod Mdns
pub mod Bootstrap
pub mod Known
mod Tests
use p2p_app.Prelude.{ℕ, String, Bool, true, false, List, [], ◌∷◌, ◌++◌, map, if◌then◌else◌}
use p2p_app.Node.Discovery.Mdns
use p2p_app.Node.Discovery.Mdns.{MdnsDiscovery}
use p2p_app.Node.Discovery.Bootstrap
use p2p_app.Node.Discovery.Bootstrap.{Entry}
use p2p_app.Node.PeerExchange

pub data Effect : Type 0 where
  mdns_did : Mdns.Effect → Effect
  bootstrap_did : Bootstrap.Effect → Effect
  exchange_started exchange_stopped : Effect
  exchanged : PeerExchange.Effect → Effect
  request_after : ℕ → Effect
  request_cancelled : Effect

-- `pexTimeout` is whether a first request is pending.
pub record Discovery : Type 0 where
  pub local_peer_id : String
  pub port : ℕ
  pub bootstrap_nodes : List Entry
  pub mdns : MdnsDiscovery
  pub pex_timeout : Bool

unfoldable pub init : String → ℕ → List Entry → Discovery
init local_peer_id port bootstrap_nodes = record {
  local_peer_id = local_peer_id;
  port = port;
  bootstrap_nodes = bootstrap_nodes;
  mdns = (record { local_peer_id = local_peer_id; port = port; ad = false; browser = false });
  pex_timeout = false;
}

unfoldable pub start :
    Mdns.Available → Bootstrap.Urls → (ℕ → ℕ) → Discovery → Discovery × List Effect
start available urls jitter d =
    let (mdns, first) = Mdns.start available d.mdns in
    let second = Bootstrap.start urls jitter d.bootstrap_nodes in
    (
      record d { mdns = mdns; pex_timeout = true },
      map mdns_did first ++ map bootstrap_did second ++ exchange_started ∷ request_after 5000 ∷ [],
    )

-- The timer of the first request.
unfoldable pub on_timeout : Discovery → List Effect
on_timeout d = map exchanged (PeerExchange.request_peers_from_all d.local_peer_id)

unfoldable pub stop : Discovery → Discovery × List Effect
stop d = (
  record d { pex_timeout = false },
  (if d.pex_timeout then request_cancelled ∷ [] else [])
      ++ map mdns_did (Mdns.stop d.mdns)
      ++ exchange_stopped ∷ [],
)
