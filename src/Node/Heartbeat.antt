-- ===== src/Node/Heartbeat.antt =====
-- node/heartbeatManager.js: one tick over the peers. `start` and `stop` only set and clear the timer.
pub mod Detection
mod Tests
use p2p_app.Prelude.{
  ℕ, ◌*◌, ◌-◌, String, Bool, true, false, ◌&&◌, List, [], ◌∷◌, ◌++◌, Option, none, some, Dict,
  lookup, ltb, if◌then◌else◌,
}
use p2p_app.Config.{peer_timeout_ms}
use p2p_app.Node.State.{PeerInfo, Status, suspected, is_active, set_peer}
use p2p_app.Node.Peers.{Peers, Effect, heartbeat, peer_suspected, peer_dead, remove_peer}

abbrev pub is_suspected : Status → Bool
is_suspected suspected = true
is_suspected _ = false

-- The heartbeat goes to an active peer whose outbound client is connected.
unfoldable pub send_heartbeat : Peers → String → PeerInfo → List Effect
send_heartbeat s peer_id info = elim (lookup peer_id s.connection_pool.outbound) [
  | none ↦ []
  | some client ↦
      if is_active info.status && client.is_connected then heartbeat peer_id ∷ [] else []
]

-- The timeouts of one peer.
unfoldable pub check_timeout : Peers → ℕ → String → PeerInfo → Peers × List Effect
check_timeout s now peer_id info =
    let silence = now - info.last_seen in
    let (removed, effects) = remove_peer s peer_id in
    if is_active info.status && ltb peer_timeout_ms silence
    then (
      record s { state = set_peer s.state peer_id (record info { status = suspected }) },
      peer_suspected peer_id ∷ [],
    )
    else if is_suspected info.status && ltb (2 * peer_timeout_ms) silence
    then (removed, peer_dead peer_id ∷ effects)
    else (s, [])

-- The loop of `_tick` over the entries that it took at the start.
unfoldable pub check_all : Peers → ℕ → Dict PeerInfo → Peers × List Effect
unfolding send_heartbeat check_timeout
check_all s now [] = (s, [])
check_all s now ((peer_id, info) ∷ entries) =
    let (checked, effects) = check_timeout s now peer_id info in
    let (after, more) = check_all checked now entries in
    (after, send_heartbeat s peer_id info ++ (effects ++ more))

unfoldable pub tick : Peers → ℕ → Peers × List Effect
unfolding check_all
tick s now = check_all s now s.state.peers
