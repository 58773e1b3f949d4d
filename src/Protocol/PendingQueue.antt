-- ===== src/Protocol/PendingQueue.antt =====
-- protocol/pendingQueue.js: the bounded queue of each peer that is not connected.
pub mod Window
mod Tests
use p2p_app.Prelude.{
  ℕ, String, Bool, List, [], ◌∷◌, ◌++◌, Option, none, some, Dict, lookup, has_key, insert, remove,
  length, ltb, if◌then◌else◌,
}

pub record PendingQueue {ℓ} (M : Type ℓ) : Type ℓ where
  pub queues : Dict (List M)
  pub max_queue_size : ℕ

-- `queue.shift()`.
abbrev pub shift {ℓ} : {M : Type ℓ} → List M → List M
shift [] = []
shift (m ∷ ms) = ms

module _ {ℓ} {M : Type ℓ} where
  unfoldable pub init : ℕ → PendingQueue M
  init max_queue_size = record { queues = []; max_queue_size = max_queue_size }

  -- The queue of a peer; a peer without one gets an empty queue first.
  unfoldable pub queue_of : PendingQueue M → String → List M
  queue_of q peer_id = elim (lookup peer_id q.queues) [ none ↦ [] | some queue ↦ queue ]

  unfoldable pub enqueue : PendingQueue M → String → M → PendingQueue M
  enqueue q peer_id message =
      let queue = queue_of q peer_id ++ message ∷ [] in
      let capped = if ltb q.max_queue_size (length queue) then shift queue else queue in
      record q { queues = insert peer_id capped q.queues }

  unfoldable pub flush : PendingQueue M → String → PendingQueue M × List M
  flush q peer_id = elim (lookup peer_id q.queues) [
    | none ↦ (q, [])
    | some messages ↦ (record q { queues = remove peer_id q.queues }, messages)
  ]
