-- ===== src/Protocol/PendingQueue/Tests.antt =====
-- Runs of protocol/pendingQueue.js.
use p2p_app.Prelude.{ℕ, String, same, ◌≡◌, refl, List, [], ◌∷◌, insert, lookup}
use p2p_app.Protocol.PendingQueue.{init, queue_of, enqueue, flush}
use p2p_app.Protocol.PendingQueue.Window.{for_peer, enqueue_all, flush-enqueue_all}

abbrev calls : List (String × ℕ)
calls = ("a", 1) ∷ ("b", 7) ∷ ("a", 2) ∷ ("a", 3) ∷ []

-- With room for two, the oldest message for a is gone.
dropped_oldest : (flush (enqueue_all (init 2) calls) "a").1 ≡ 2 ∷ 3 ∷ []
unfolding enqueue_all init enqueue queue_of flush insert lookup same
dropped_oldest = refl

flush-enqueue_all_example : (flush (enqueue_all (init 2) calls) "a").1 ≡ 2 ∷ 3 ∷ []
unfolding for_peer same
flush-enqueue_all_example = flush-enqueue_all 2 calls "a"
