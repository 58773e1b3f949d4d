-- ===== src/Protocol/GossipEngine/Receive/Gate.antt =====
-- protocol/gossipEngine.js: what a message must pass before it has any effect on other nodes.
use mathlib.Core.Path.{subst}
use p2p_app.Prelude.{
  String, ◌≡◌, refl, ◌∙◌, ◌⊎◌, true, false, List, [], ◌++◌, Option, add, contains, arith, if-cases,
  inl, inr,
}
use p2p_app.Protocol.Message.{Message}
use p2p_app.Protocol.GossipEngine.{
  Platform, Instants, GossipEngine, Stage, and_then, check_duplicate,
}
use p2p_app.Protocol.GossipEngine.Receive.{checks}
use p2p_app.Protocol.GossipEngine.Receive.Admission.{
  outward, outward-append, Quiet, admission, admission-Quiet,
}

-- The seen set after a stage: the id goes in, where it was not, or the handler returns.
abbrev pub Outcome : List String → String → Stage → Type 0
Outcome seen id s =
    ((s.goes_on ≡ true) × (contains seen id ≡ false) × (s.engine.seen_messages ≡ add seen id))
    ⊎ ((s.goes_on ≡ false) × (s.engine.seen_messages ≡ seen))

-- What the checks leave: nothing outward, and a message that goes on is new and now seen.
pub record Checked (e : GossipEngine) (m : Message) (s : Stage) : Type 0 where
  pub silent : outward s.effects ≡ []
  pub same_message : s.message ≡ m
  pub same_routes : s.engine.topic_router ≡ e.topic_router
  pub same_pool : s.engine.connection_pool ≡ e.connection_pool
  pub same_id : s.engine.node_peer_id ≡ e.node_peer_id
  pub seen : Outcome e.seen_messages m.id s

check_duplicate-Checked : (e : GossipEngine) (m : Message) → Checked e m (check_duplicate e m)
unfolding check_duplicate
check_duplicate-Checked e m =
    if-cases (Checked e m) (contains e.seen_messages m.id) _ _
      (λ h. record {
        silent = refl;
        same_message = refl;
        same_routes = refl;
        same_pool = refl;
        same_id = refl;
        seen = inr (refl, refl);
      })
      (λ h. record {
        silent = refl;
        same_message = refl;
        same_routes = refl;
        same_pool = refl;
        same_id = refl;
        seen = inl (refl, h, refl);
      })

and_then-Checked :
    (e : GossipEngine) (m : Message) (s : Stage) (next : GossipEngine → Message → Stage)
    → Quiet e m s
    → ((e2 : GossipEngine) (m2 : Message) → Checked e2 m2 (next e2 m2))
    → Checked e m (and_then s next)
unfolding and_then
and_then-Checked e m s next q next_checked =
    let t = next s.engine s.message in
    let n = next_checked s.engine s.message in
    if-cases (Checked e m) s.goes_on (record t { effects = s.effects ++ t.effects }) s
      (λ h. record {
        silent = ground (arith, outward-append s.effects t.effects, q.silent, n.silent);
        same_message = n.same_message ∙ q.same_message;
        same_routes = n.same_routes ∙ q.same_routes;
        same_pool = n.same_pool ∙ q.same_pool;
        same_id = n.same_id ∙ q.same_id;
        seen =
            subst (λ xs. Outcome xs m.id t) q.same_seen
              (subst (λ (m2 : Message). Outcome s.engine.seen_messages m2.id t) q.same_message
                n.seen);
      })
      (λ h. record {
        silent = q.silent;
        same_message = q.same_message;
        same_routes = q.same_routes;
        same_pool = q.same_pool;
        same_id = q.same_id;
        seen = inr (h, q.same_seen);
      })

pub checks-Checked :
    (platform : Platform) (from_peer_id : Option String) (t : Instants) (e : GossipEngine)
    (m : Message)
    → Checked e m (checks platform from_peer_id t e m)
unfolding checks admission
checks-Checked platform from_peer_id t e m =
    and_then-Checked e m _ check_duplicate (admission-Quiet platform from_peer_id t e m)
      check_duplicate-Checked
