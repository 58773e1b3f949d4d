-- ===== src/Protocol/GossipEngine/Receive.antt =====
-- protocol/gossipEngine.js: `receiveMessage`, the checks in their order and what follows them.
pub mod Announced
pub mod Dedup
pub mod Sends
pub mod Hops
pub mod Admission
pub mod Gate
pub mod Refusal
pub mod Accept
use p2p_app.Prelude.{
  ℕ, Bool, true, false, List, [], ◌∷◌, ◌++◌, Option, none, some, String, pred_ℤ, is_pos,
  if◌then◌else◌,
}
use p2p_app.Metrics.{messages_dropped_ttl}
use p2p_app.Protocol.Message.{Message, is_sub_ad}
use p2p_app.Protocol.TopicRouter
use p2p_app.Protocol.GossipEngine.{
  Platform, Instants, GossipEngine, Effect, counted, message_new, Stage, and_then, go_on,
  check_puzzle, check_rate, check_sender, check_duplicate, process_sub_ad,
}
use p2p_app.Protocol.GossipEngine.Forward.{forward_message}

-- The branch for a message that is no advertisement.
unfoldable pub process_gossip : Platform → Option String → ℕ → GossipEngine → Message → Stage
process_gossip platform from_peer_id topic_now e m =
    let next : Message = record m { ttl = pred_ℤ m.ttl } in
    if is_pos next.ttl
    then go_on e next (forward_message platform e next from_peer_id topic_now)
    else go_on e next (counted messages_dropped_ttl ∷ [])

unfoldable pub process : Platform → Option String → Instants → GossipEngine → Message → Stage
unfolding process_gossip
process platform from_peer_id t e m =
    if is_sub_ad m.type
    then process_sub_ad platform from_peer_id t.route_now e m
    else process_gossip platform from_peer_id t.topic_now e m

-- `this.emit('message:new', message)`.
unfoldable pub announce : GossipEngine → Message → Stage
announce e m = go_on e m (message_new m ∷ [])

unfoldable pub checks : Platform → Option String → Instants → GossipEngine → Message → Stage
checks platform from_peer_id t e m =
    and_then
      (and_then (and_then (check_puzzle platform e m) (check_rate from_peer_id t))
        (check_sender platform))
      check_duplicate

unfoldable pub receive_message :
    Platform → GossipEngine → Message → Option String → Instants → GossipEngine × List Effect
unfolding checks process announce
receive_message platform e m from_peer_id t =
    let s =
      and_then (checks platform from_peer_id t e m)
        (λ e2 m2. and_then (process platform from_peer_id t e2 m2) announce) in
    (s.engine, s.effects)

-- `subscribe` and `unsubscribe`.
unfoldable pub subscribe : GossipEngine → String → String → GossipEngine
subscribe e peer_id topic = record e {
  topic_router = TopicRouter.subscribe e.topic_router peer_id topic;
}

unfoldable pub unsubscribe : GossipEngine → String → String → GossipEngine
unsubscribe e peer_id topic = record e {
  topic_router = TopicRouter.unsubscribe e.topic_router peer_id topic;
}

-- A call of `receiveMessage`, and a run of calls with all that they did.
pub record Call : Type 0 where
  pub message : Message
  pub from_peer_id : Option String
  pub instants : Instants

unfoldable pub run : Platform → GossipEngine → List Call → GossipEngine × List Effect
run platform e [] = (e, [])
run platform e (c ∷ calls) =
    let (e1, effects) = receive_message platform e c.message c.from_peer_id c.instants in
    let (e2, more) = run platform e1 calls in (e2, effects ++ more)
