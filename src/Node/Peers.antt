-- ===== src/Node/Peers.antt =====
-- node/peerManager.js: the lifecycle of peers, over the shared store and the connection pool.
use p2p_app.Prelude.{ℕ, String, List, [], ◌∷◌, ◌++◌, map, Option, none, some, max, if◌then◌else◌}
use p2p_app.Node.State.{
  State, PeerInfo, Status, connecting, active, suspected, dead, set_peer, get_peer, has_peer,
  delete_peer, is_active, get_active_peer_count,
}
use p2p_app.Transport.ConnectionPool
use p2p_app.Transport.ConnectionPool.{ConnectionPool}

-- `peerManager` with what it shares: the store and the pool.
pub record Peers : Type 0 where
  pub state : State
  pub connection_pool : ConnectionPool

pub data Effect : Type 0 where
  pooled : ConnectionPool.Effect → Effect
  -- `collector.set('active_peers', n)`.
  active_peers : ℕ → Effect
  -- `emit`, and the heartbeat message on the connection of a peer.
  peer_removed peer_recovered peer_active peer_suspected peer_dead : String → Effect
  heartbeat : String → Effect

-- `handle` is that of the client that the pool makes.
unfoldable pub add_peer : Peers → String → String → ℕ → ℕ → ℕ → Peers × List Effect
add_peer s peer_id host port handle now =
    let info : PeerInfo = record {
      host = host;
      port = port;
      last_seen = now;
      status = connecting;
      lamport_time = 0;
    } in
    let (pool, effects) = ConnectionPool.connect s.connection_pool peer_id handle in
    if has_peer s.state peer_id then (s, []) else (
      record { state = set_peer s.state peer_id info; connection_pool = pool },
      map pooled effects,
    )

unfoldable pub remove_peer : Peers → String → Peers × List Effect
remove_peer s peer_id = elim (get_peer s.state peer_id) [
  | none ↦ (s, [])
  | some info ↦
      let marked = set_peer s.state peer_id (record info { status = dead }) in
      let (pool, effects) = ConnectionPool.disconnect s.connection_pool peer_id in
      let state = delete_peer marked peer_id in
      (
        record { state = state; connection_pool = pool },
        map pooled effects
            ++ active_peers (get_active_peer_count state) ∷ peer_removed peer_id ∷ [],
      )
]

-- The event for the status that a heartbeat ends.
unfoldable pub revival : Status → String → List Effect
revival suspected peer_id = peer_recovered peer_id ∷ []
revival connecting peer_id = peer_active peer_id ∷ []
revival _ peer_id = []

-- `lamport_time` is absent where the caller gives none.
unfoldable pub update_heartbeat : Peers → String → Option ℕ → ℕ → Peers × List Effect
unfolding revival
update_heartbeat s peer_id lamport_time now = elim (get_peer s.state peer_id) [
  | none ↦ (s, [])
  | some info ↦
      let seen : PeerInfo = record info {
        last_seen = now;
        lamport_time = elim lamport_time [
          | none ↦ info.lamport_time
          | some t ↦ max info.lamport_time t
        ];
        status = active;
      } in
      let state = set_peer s.state peer_id seen in
      (
        record s { state = state },
        if is_active info.status
            then []
            else revival info.status peer_id ++ active_peers (get_active_peer_count state) ∷ [],
      )
]
