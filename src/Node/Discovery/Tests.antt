-- ===== src/Node/Discovery/Tests.antt =====
-- node/discovery/: runs of the three ways to find peers.
use p2p_app.Prelude.{◌≡◌, refl, true, List, [], ◌∷◌, some, lookup, insert, same, ne_of_eqb-false}
use p2p_app.Node.State
use p2p_app.Node.State.{has_peer, set_peer}
use p2p_app.Node.Peers.{Peers}
use p2p_app.Node.PeerExchange.{Address}
use p2p_app.Node.Discovery
use p2p_app.Node.Discovery.{bootstrap_did, exchange_started, request_after, mdns_did}
use p2p_app.Node.Discovery.Mdns
use p2p_app.Node.Discovery.Mdns.{MdnsDiscovery, Update, peer_of, read_txt}
use p2p_app.Node.Discovery.Bootstrap
use p2p_app.Node.Discovery.Bootstrap.{Urls, Entry, object, text, attempt_after, attempt_bootstrap}
use p2p_app.Node.Discovery.Known.{
  Found, announced, configured, listed, Surroundings, find_all, Grows, find_all-Grows,
}

abbrev urls : Urls
urls = record { parse = λ s. some ("seed", 0); placeholder = λ i. "bootstrap-0" }

abbrev seed : Address
seed = record { peer_id = "bootstrap-0"; host = "seed"; port = 80 }

-- The order of a start.
order :
    (Discovery.start
      (record { advertise = true; browse = true })
      urls
      (λ i. 700)
      (Discovery.init "me" 8080 (text "ws://seed" ∷ []))).1
    ≡ mdns_did Mdns.advertised
      ∷ mdns_did Mdns.browsed
      ∷ bootstrap_did (attempt_after 700 seed)
      ∷ exchange_started
      ∷ request_after 5000
      ∷ []
unfolding Discovery.start Discovery.init Mdns.start Bootstrap.start
order = refl

announcement :
    peer_of (λ s. 9000) (read_txt [] ("peerId=bob" ∷ "port=9000=x" ∷ [])) ("10.0.0.2" ∷ [])
    ≡ some ("bob", "10.0.0.2", 9000)
unfolding peer_of read_txt lookup insert same
announcement = refl

abbrev mdns : MdnsDiscovery
mdns = record { local_peer_id = "me"; port = 8080; ad = true; browser = true }

abbrev around : Surroundings
around = record { handle = λ id. 1; now = 1000; parse_int = λ s. 9000 }

abbrev nobody : Peers
nobody = record {
  state = State.init;
  connection_pool = (record { local_peer_id = "me"; outbound = []; inbound = [] });
}

abbrev finds : List Found
finds =
    configured seed
    ∷ announced (record { txt = some ("peerId=me" ∷ "port=9000" ∷ []); addresses = "h" ∷ [] })
    ∷ listed (record { peer_id = "bob"; host = "h"; port = 2 } ∷ [])
    ∷ []

find_all-Grows_example : Grows "me" nobody (find_all around mdns nobody finds)
find_all-Grows_example =
    find_all-Grows around mdns nobody finds
      (ne_of_eqb-false "bootstrap-0" "me" refl, (tt, (tt, tt)))
