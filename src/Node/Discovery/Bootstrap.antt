-- ===== src/Node/Discovery/Bootstrap.antt =====
-- node/discovery/bootstrapDiscovery.js: the nodes of the configuration. The parsing of a URL and the
-- text of a number are outside.
use p2p_app.Prelude.{ℕ, suc, String, List, [], ◌∷◌, Option, none, some, ◌==◌, if◌then◌else◌}
use p2p_app.Node.Peers
use p2p_app.Node.Peers.{Peers, add_peer}
use p2p_app.Node.PeerExchange.{Address}

-- An entry of `bootstrapNodes`: an object, or a text.
pub data Entry : Type 0 where
  object : Address → Entry
  text : String → Entry

-- `new URL(s)`, where it does not throw: the host name and the port, 0 where there is none. And the
-- text `bootstrap-${index}`.
pub record Urls : Type 0 where
  pub parse : String → Option (String × ℕ)
  pub placeholder : ℕ → String

pub data Effect : Type 0 where
  -- An attempt after the jitter, in milliseconds.
  attempt_after : ℕ → Address → Effect

module _ (urls : Urls) where
  unfoldable pub address_of : ℕ → Entry → Option Address
  address_of index (object node) = some node
  address_of index (text s) = elim (urls.parse s) [
    | none ↦ none
    | some (host, port) ↦ some (record {
      peer_id = urls.placeholder index;
      host = host;
      port = if port == 0 then 80 else port;
    })
  ]

  -- The loop, from the index on; `jitter index` is the random delay of the entry.
  unfoldable pub start_from : (ℕ → ℕ) → ℕ → List Entry → List Effect
  unfolding address_of
  start_from jitter index [] = []
  start_from jitter index (entry ∷ entries) =
      let rest = start_from jitter (suc index) entries in
      elim (address_of index entry) [
        | none ↦ rest
        | some node ↦ attempt_after (jitter index) node ∷ rest
      ]

  unfoldable pub start : (ℕ → ℕ) → List Entry → List Effect
  unfolding start_from
  start jitter bootstrap_nodes = start_from jitter 0 bootstrap_nodes

-- `#attemptBootstrap`
unfoldable pub attempt_bootstrap : (String → ℕ) → ℕ → Peers → Address → Peers × List Peers.Effect
attempt_bootstrap handle now s node =
    add_peer s node.peer_id node.host node.port (handle node.peer_id) now
