-- ===== src/Protocol/GossipEngine/Forward.antt =====
-- protocol/gossipEngine.js: `forwardMessage`, to random peers that subscribe to the topic.
pub mod Selection
use p2p_app.Prelude.{
  ℕ, zero, suc, String, Bool, true, false, not, ◌&&◌, List, [], ◌∷◌, Option, none, some, add,
  contains, keep, length, get_elem?, min, ltb, eqb, if◌then◌else◌,
}
use p2p_app.Config.{gossip_fanout}
use p2p_app.Protocol.Message.{Message}
use p2p_app.Protocol.TopicRouter.{get_peers_for_topic}
use p2p_app.Protocol.GossipEngine.{Platform, GossipEngine, Effect, broadcast_selected, add_present}
use p2p_app.Transport.ConnectionPool.{get_all_peer_ids}

unfoldable pub is_scoped : String → Bool
is_scoped topic = not (eqb topic "") && not (eqb topic "global")

-- `availablePeers`, after topic scoping and without the sender and the last hop.
unfoldable pub available_peers : GossipEngine → Message → Option String → ℕ → List String
unfolding is_scoped
available_peers e m from_peer_id now =
    let active = get_all_peer_ids e.connection_pool in
    let subscribed_peers = get_peers_for_topic e.topic_router m.topic now in
    let exclude_base = add_present (add [] m.sender) from_peer_id in
    keep (λ p. not (contains exclude_base p))
      (if is_scoped m.topic then keep (contains subscribed_peers) active else active)

-- `availablePeers.splice(index, 1)`.
unfoldable pub splice : ℕ → List String → List String
splice i [] = []
splice zero (x ∷ xs) = xs
splice (suc i) (x ∷ xs) = x ∷ splice i xs

-- The loop that draws `k` peers. Each round takes one peer off `available`, so their number is
-- enough fuel. An index is in range by what `Math.random` returns.
unfoldable pub select_random : (ℕ → ℕ → ℕ) → ℕ → ℕ → ℕ → List String → List String → List String
unfolding splice
select_random random_index zero draw k selected available = selected
select_random random_index (suc fuel) draw k selected available =
    let index = random_index draw (length available) in
    let rest =
      select_random random_index fuel (suc draw) k
        (add_present selected (get_elem? available index)) (splice index available) in
    if ltb (length selected) k && ltb 0 (length available) then rest else selected

-- `selectedPeers`.
unfoldable pub selected_peers : Platform → GossipEngine → Message → Option String → ℕ → List String
unfolding select_random
selected_peers platform e m from_peer_id now =
    let available = available_peers e m from_peer_id now in
    select_random platform.random_index (length available) 0 (min gossip_fanout (length available))
      [] available

unfoldable pub forward_message : Platform → GossipEngine → Message → Option String → ℕ → List Effect
unfolding selected_peers
forward_message platform e m from_peer_id now =
    broadcast_selected e m (selected_peers platform e m from_peer_id now)
