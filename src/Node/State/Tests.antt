-- ===== src/Node/State/Tests.antt =====
-- Runs of the store on small inputs.
use p2p_app.Prelude.{◌≡◌, refl, true, [], ◌∷◌, arith, contains}
use p2p_app.Node.State.{init, add_seen_message, has_seen_message}
use p2p_app.Node.State.SeenMessages.{add_all_seen, add_all_seen-has_seen_message}

add_all_seen-has_seen_message_example :
    has_seen_message (add_all_seen (add_seen_message init "a") ("b" ∷ "c" ∷ [])) "a" ≡ true
unfolding init has_seen_message contains
add_all_seen-has_seen_message_example =
    add_all_seen-has_seen_message init "a" ("b" ∷ "c" ∷ []) refl (omega arith)
