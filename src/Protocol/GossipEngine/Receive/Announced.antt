-- ===== src/Protocol/GossipEngine/Receive/Announced.antt =====
-- protocol/gossipEngine.js: what the engine emits to the node layer.
use p2p_app.Prelude.{
  ℕ, String, ◌≡◌, refl, ap, Bool, true, false, not, ◌&&◌, List, [], ◌∷◌, ◌++◌, map, Option,
  contains, if-cases, keep, is_pos, pred_ℤ, above_one, Option-cases, inl, inr,
}
use p2p_app.Metrics.{Counter}
use p2p_app.Protocol.Message.{Message, is_sub_ad}
use p2p_app.Protocol.TopicRouter.{update_route, remove_route}
use p2p_app.Protocol.GossipEngine.{
  Platform, Instants, GossipEngine, Effect, counted, limited, pooled, message_new, Stage, Action,
  join, leave, other, SubAd, broadcast_selected, flood, hop, apply_action, process_sub_ad,
  advertised_route, local_peer_id,
}
use p2p_app.Protocol.GossipEngine.Forward.{forward_message}
use p2p_app.Protocol.GossipEngine.Receive.{process_gossip, process}
use p2p_app.Protocol.GossipEngine.Receive.Admission.{outward}
use p2p_app.Transport.ConnectionPool
use p2p_app.Transport.ConnectionPool.{broadcast, get_all_peer_ids}

-- The ids of the messages that the engine emits to the node layer.
abbrev pub announced_ids : List Effect → List String
announced_ids [] = []
announced_ids (message_new m ∷ effects) = m.id ∷ announced_ids effects
announced_ids (_ ∷ effects) = announced_ids effects

pub announced_ids-append :
    (xs ys : List Effect) → announced_ids (xs ++ ys) ≡ announced_ids xs ++ announced_ids ys
announced_ids-append [] ys = refl
announced_ids-append (message_new m ∷ xs) ys = ap (◌∷◌ m.id) (announced_ids-append xs ys)
announced_ids-append (counted c ∷ xs) ys = announced_ids-append xs ys
announced_ids-append (limited x ∷ xs) ys = announced_ids-append xs ys
announced_ids-append (pooled x ∷ xs) ys = announced_ids-append xs ys

pub announced_ids-outward : (xs : List Effect) → announced_ids (outward xs) ≡ announced_ids xs
announced_ids-outward [] = refl
announced_ids-outward (message_new m ∷ xs) = ap (◌∷◌ m.id) (announced_ids-outward xs)
announced_ids-outward (counted c ∷ xs) = announced_ids-outward xs
announced_ids-outward (limited x ∷ xs) = announced_ids-outward xs
announced_ids-outward (pooled x ∷ xs) = announced_ids-outward xs

announced_ids_pooled :
    (xs : List ConnectionPool.Effect) (ys : List Effect)
    → announced_ids (map pooled xs ++ ys) ≡ announced_ids ys
announced_ids_pooled [] ys = refl
announced_ids_pooled (x ∷ xs) ys = announced_ids_pooled xs ys

broadcast_selected-announced_ids :
    (e : GossipEngine) (m : Message) (selected : List String)
    → announced_ids (broadcast_selected e m selected) ≡ []
unfolding broadcast_selected
broadcast_selected-announced_ids e m [] = refl
broadcast_selected-announced_ids e m (p ∷ selected) =
    announced_ids_pooled
      (broadcast e.connection_pool m
        (keep (λ q. not (contains (p ∷ selected) q)) (get_all_peer_ids e.connection_pool)))
      (counted Counter.messages_forwarded_total ∷ [])

-- Between the checks and the announcement, nothing is announced and the seen set stays.
pub record Processed (e : GossipEngine) (m : Message) (s : Stage) : Type 0 where
  pub none_announced : announced_ids s.effects ≡ []
  pub same_seen : s.engine.seen_messages ≡ e.seen_messages
  pub same_message_id : s.message.id ≡ m.id

unchanged-Processed :
    (e : GossipEngine) (m : Message) (b : Bool)
    → Processed e m (record { engine = e; message = m; effects = []; goes_on = b })
unchanged-Processed e m b = record {
  none_announced = refl;
  same_seen = refl;
  same_message_id = refl;
}

flood-Processed :
    (changed : Bool) (e : GossipEngine) (m : Message) (from_peer_id : Option String)
    → Processed e m (flood changed e m from_peer_id)
unfolding flood hop
flood-Processed changed e m from_peer_id =
    if-cases (Processed e m) (changed && above_one m.ttl) _ _
      (λ h. record {
        none_announced = broadcast_selected-announced_ids e _ _;
        same_seen = refl;
        same_message_id = refl;
      })
      (λ h. unchanged-Processed e m true)

apply_action-Processed :
    (a : Action) (ad : SubAd) (from_peer_id : Option String) (now : ℕ) (e : GossipEngine)
    (m : Message)
    → Processed e m (apply_action a ad from_peer_id now e m)
unfolding apply_action
apply_action-Processed join ad from_peer_id now e m =
    let p =
      flood-Processed
        (update_route e.topic_router ad.topic m.sender (advertised_route e m from_peer_id ad now)).1
        (record e {
          topic_router =
              (update_route e.topic_router ad.topic m.sender
                (advertised_route e m from_peer_id ad now)).0;
        })
        m from_peer_id in
    record {
      none_announced = p.none_announced;
      same_seen = p.same_seen;
      same_message_id = p.same_message_id;
    }
apply_action-Processed leave ad from_peer_id now e m =
    let p =
      flood-Processed (remove_route e.topic_router ad.topic m.sender).1
        (record e { topic_router = (remove_route e.topic_router ad.topic m.sender).0 }) m
        from_peer_id in
    record {
      none_announced = p.none_announced;
      same_seen = p.same_seen;
      same_message_id = p.same_message_id;
    }
apply_action-Processed other ad from_peer_id now e m = unchanged-Processed e m true

process_sub_ad-Processed :
    (platform : Platform) (from_peer_id : Option String) (now : ℕ) (e : GossipEngine) (m : Message)
    → Processed e m (process_sub_ad platform from_peer_id now e m)
unfolding process_sub_ad
process_sub_ad-Processed platform from_peer_id now e m =
    elim (Option-cases (platform.parse_sub_ad m.payload)) [
      | inl h ↦ rw (h, process_sub_ad) (unchanged-Processed e m false)
      | inr (ad, h) ↦
          rw (h, process_sub_ad)
            (if-cases (Processed e m) (contains m.routing_path (local_peer_id e)) _ _
              (λ c. unchanged-Processed e m false)
              (λ c. apply_action-Processed ad.action ad from_peer_id now e m))
    ]

pub process-Processed :
    (platform : Platform) (from_peer_id : Option String) (t : Instants) (e : GossipEngine)
    (m : Message)
    → Processed e m (process platform from_peer_id t e m)
unfolding process process_gossip forward_message
process-Processed platform from_peer_id t e m =
    if-cases (Processed e m) (is_sub_ad m.type) _ _
      (λ h. process_sub_ad-Processed platform from_peer_id t.route_now e m)
      (λ h.
        if-cases (Processed e m) (is_pos (pred_ℤ m.ttl)) _ _
          (λ p. record {
            none_announced = broadcast_selected-announced_ids e _ _;
            same_seen = refl;
            same_message_id = refl;
          })
          (λ p. record { none_announced = refl; same_seen = refl; same_message_id = refl }))
