-- ===== src/Protocol/GossipEngine/Receive/Hops.antt =====
-- protocol/gossipEngine.js: to whom a received message is passed on, and in what form.
use mathlib.Core.Path.{subst}
use p2p_app.Prelude.{
  ℕ, zero, suc, ◌<◌, String, ◌≡◌, refl, ◌≢◌, Bool, true, false, not, ◌&&◌, List, [], ◌∷◌, Option,
  none, some, add, add_all, contains, contains-add, contains-add_all, contains-keep, if-cases,
  arith, All, is_pos, pred_ℤ, above_one, pos_part, ℤ, pos, negsuc, Option-cases, inl, inr,
}
use p2p_app.Protocol.Message.{Message, is_sub_ad}
use p2p_app.Protocol.TopicRouter.{update_route, remove_route}
use p2p_app.Protocol.GossipEngine.{
  Platform, Instants, GossipEngine, message_new, Stage, Action, join, leave, other, SubAd, flood,
  hop, flood_selected, apply_action, process_sub_ad, and_then, advertised_route, local_peer_id,
  add_present,
}
use p2p_app.Protocol.GossipEngine.Forward.{forward_message, selected_peers}
use p2p_app.Protocol.GossipEngine.Forward.Selection.{selected_peers_sound}
use p2p_app.Protocol.GossipEngine.Receive.{
  process_gossip, process, announce, checks, receive_message,
}
use p2p_app.Protocol.GossipEngine.Receive.Gate.{Checked, checks-Checked}
use p2p_app.Protocol.GossipEngine.Receive.Sends.{
  sends, sends-append, sends-outward, All-sends-append, broadcast_selected-sends,
}
use p2p_app.Transport.ConnectionPool.{ConnectionPool, get_all_peer_ids}

-- How a message `m` that came from a neighbour is passed on to a peer as `next`.
pub record Relayed (pool : ConnectionPool) (m : Message) (from_peer_id : Option String)
    (s : String × Message) : Type 0 where
  pub connected : contains (get_all_peer_ids pool) s.0 ≡ true
  pub not_origin : s.0 ≢ m.sender
  pub not_back : from_peer_id ≢ some s.0
  pub same_id : s.1.id ≡ m.id
  pub fewer_hops : pos_part s.1.ttl < pos_part m.ttl
  pub off_path : is_sub_ad m.type ≡ true → contains s.1.routing_path s.0 ≡ false

pred_ℤ-lt : (n : ℤ) → is_pos (pred_ℤ n) ≡ true → pos_part (pred_ℤ n) < pos_part n
pred_ℤ-lt (pos zero) h = absurd (ground arith)
pred_ℤ-lt (pos (suc n)) h = omega arith
pred_ℤ-lt (negsuc n) h = absurd (ground arith)

flood_selected-apart :
    (e : GossipEngine) (m : Message) (from_peer_id : Option String) (path : List String)
    (p : String)
    → contains (flood_selected e m from_peer_id path) p ≡ true
    → (contains (get_all_peer_ids e.connection_pool) p ≡ true)
      × (p ≢ m.sender)
      × (from_peer_id ≢ some p)
      × (contains path p ≡ false)
unfolding flood_selected add_present contains
flood_selected-apart e m none path p h =
    let base = add (add_all [] path) m.sender in
    ground (
      arith,
      contains-keep (λ q. not (contains base q)) (get_all_peer_ids e.connection_pool) p,
      contains-add (add_all [] path) m.sender p,
      contains-add_all [] path p,
    )
flood_selected-apart e m (some x) path p h =
    let base = add (add (add_all [] path) x) m.sender in
    ground (
      arith,
      contains-keep (λ q. not (contains base q)) (get_all_peer_ids e.connection_pool) p,
      contains-add (add (add_all [] path) x) m.sender p,
      contains-add (add_all [] path) x p,
      contains-add_all [] path p,
    )

flood-Relayed :
    (changed : Bool) (e : GossipEngine) (m : Message) (from_peer_id : Option String)
    → All
        (Relayed e.connection_pool m from_peer_id)
        (sends (flood changed e m from_peer_id).effects)
unfolding flood hop
flood-Relayed changed e m from_peer_id =
    if-cases (λ (s : Stage). All (Relayed e.connection_pool m from_peer_id) (sends s.effects))
      (changed && above_one m.ttl) _ _
      (λ h.
        broadcast_selected-sends (Relayed e.connection_pool m from_peer_id) e (hop e m)
          (flood_selected e m from_peer_id (hop e m).routing_path)
          (λ p c.
            let (connected, not_origin, not_back, off_path) =
              flood_selected-apart e m from_peer_id (hop e m).routing_path p c in
            record {
              connected = connected;
              not_origin = not_origin;
              not_back = not_back;
              same_id = refl;
              fewer_hops = pred_ℤ-lt m.ttl (ground arith);
              off_path = λ _. off_path;
            }))
      (λ h. tt)

apply_action-Relayed :
    (a : Action) (ad : SubAd) (from_peer_id : Option String) (now : ℕ) (e : GossipEngine)
    (m : Message)
    → All
        (Relayed e.connection_pool m from_peer_id)
        (sends (apply_action a ad from_peer_id now e m).effects)
unfolding apply_action
apply_action-Relayed join ad from_peer_id now e m =
    let updated =
      update_route e.topic_router ad.topic m.sender (advertised_route e m from_peer_id ad now) in
    flood-Relayed updated.1 (record e { topic_router = updated.0 }) m from_peer_id
apply_action-Relayed leave ad from_peer_id now e m =
    let removed = remove_route e.topic_router ad.topic m.sender in
    flood-Relayed removed.1 (record e { topic_router = removed.0 }) m from_peer_id
apply_action-Relayed other ad from_peer_id now e m = tt

process_sub_ad-Relayed :
    (platform : Platform) (from_peer_id : Option String) (now : ℕ) (e : GossipEngine) (m : Message)
    → All
        (Relayed e.connection_pool m from_peer_id)
        (sends (process_sub_ad platform from_peer_id now e m).effects)
unfolding process_sub_ad
process_sub_ad-Relayed platform from_peer_id now e m =
    elim (Option-cases (platform.parse_sub_ad m.payload)) [
      | inl h ↦ rw (h, process_sub_ad) tt
      | inr (ad, h) ↦
          rw (h, process_sub_ad)
            (if-cases
              (λ (s : Stage). All (Relayed e.connection_pool m from_peer_id) (sends s.effects))
              (contains m.routing_path (local_peer_id e)) _ _ (λ c. tt)
              (λ c. apply_action-Relayed ad.action ad from_peer_id now e m))
    ]

process-Relayed :
    (platform : Platform) (from_peer_id : Option String) (t : Instants) (e : GossipEngine)
    (m : Message)
    → All
        (Relayed e.connection_pool m from_peer_id)
        (sends (process platform from_peer_id t e m).effects)
unfolding process process_gossip forward_message
process-Relayed platform from_peer_id t e m =
    let next : Message = record m { ttl = pred_ℤ m.ttl } in
    let P = Relayed e.connection_pool m from_peer_id in
    if-cases (λ (s : Stage). All P (sends s.effects)) (is_sub_ad m.type) _ _
      (λ h. process_sub_ad-Relayed platform from_peer_id t.route_now e m)
      (λ h.
        if-cases (λ (s : Stage). All P (sends s.effects)) (is_pos (pred_ℤ m.ttl)) _ _
          (λ g.
            broadcast_selected-sends P e next
              (selected_peers platform e next from_peer_id t.topic_now)
              (λ p c.
                let (connected, not_origin, not_back, scoped) =
                  selected_peers_sound platform e next from_peer_id t.topic_now p c in
                record {
                  connected = connected;
                  not_origin = not_origin;
                  not_back = not_back;
                  same_id = refl;
                  fewer_hops = pred_ℤ-lt m.ttl g;
                  off_path = λ s. absurd (ground arith);
                }))
          (λ g. tt))

Relayed-Checked :
    (e : GossipEngine) (m : Message) (from_peer_id : Option String) (s : Stage)
    (next : GossipEngine → Message → Stage)
    → Checked e m s
    → ((e2 : GossipEngine) (m2 : Message)
        → All (Relayed e2.connection_pool m2 from_peer_id) (sends (next e2 m2).effects))
    → All
        (Relayed e.connection_pool m from_peer_id)
        (sends (and_then s (λ e2 m2. and_then (next e2 m2) announce)).effects)
unfolding and_then announce
Relayed-Checked e m from_peer_id s next c relayed =
    let P = Relayed e.connection_pool m from_peer_id in
    let q = next s.engine s.message in
    let quiet : sends s.effects ≡ [] = ground (arith, sends-outward s.effects, c.silent) in
    let mine : All P (sends q.effects) =
      subst (λ pool. All (Relayed pool m from_peer_id) (sends q.effects)) c.same_pool
        (subst
          (λ (m2 : Message).
            All (Relayed s.engine.connection_pool m2 from_peer_id) (sends q.effects))
          c.same_message (relayed s.engine s.message)) in
    if-cases (λ (a : Stage). All P (sends a.effects)) s.goes_on _ s
      (λ goes.
        rw (sends-append, quiet)
          (if-cases (λ (a : Stage). All P (sends a.effects)) q.goes_on _ q
            (λ h. All-sends-append P q.effects (message_new q.message ∷ []) mine tt) (λ h. mine)))
      (λ stops. rw quiet tt)

-- Every message that a call sends has the id of the message received and strictly fewer hops left,
-- and goes to a connected peer other than its origin and the neighbour that it came from. An
-- advertisement never goes to a peer that its routing path names.
pub receive_message-Relayed :
    (platform : Platform) (e : GossipEngine) (m : Message) (from_peer_id : Option String)
    (t : Instants)
    → All
        (Relayed e.connection_pool m from_peer_id)
        (sends (receive_message platform e m from_peer_id t).1)
unfolding receive_message
receive_message-Relayed platform e m from_peer_id t =
    Relayed-Checked e m from_peer_id (checks platform from_peer_id t e m)
      (process platform from_peer_id t) (checks-Checked platform from_peer_id t e m)
      (process-Relayed platform from_peer_id t)
