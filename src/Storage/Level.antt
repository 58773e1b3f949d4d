-- ===== src/Storage/Level.antt =====
-- The LevelDB database that storage/messageStore.js and storage/syncManager.js call. It is a
-- third-party package, so it is a parameter here: what the callers use of it and what they rely on.
pub mod Written
pub mod Memory
use p2p_app.Prelude.{ℕ, ◌≡◌, Bool, true, List, [], ◌∷◌, Option, none, some, All, if◌then◌else◌}
use mathlib.Core.List.{Memᴰ}
use p2p_app.Protocol.Message.{Message}
use p2p_app.Storage.Keys.{Key, leq, eq_key}

-- The texts that the program stores: a message as JSON, a key, or a number.
pub data Value : Type 0 where
  stored : Message → Value
  reference : Key → Value
  number : ℕ → Value

pub data Op : Type 0 where
  put : Key → Value → Op
  del : Key → Op

-- What stands under the key `k` after the operations, when `v` stood there before.
unfoldable pub written : List Op → Key → Option Value → Option Value
written [] k v = v
written (put j w ∷ ops) k v = written ops k (if eq_key j k then some w else v)
written (del j ∷ ops) k v = written ops k (if eq_key j k then none else v)

-- `db.get` (`none` is LEVEL_NOT_FOUND), a `db.batch` that succeeds, and the entries that
-- `db.iterator({ gte, lte })` goes through.
pub record Level : Type 1 where
  pub State : Type 0
  pub get : State → Key → Option Value
  pub batch : State → List Op → State
  pub range : State → Key → Key → List (Key × Value)

-- The entries of a range are those of the database between the bounds.
pub record IsLevel (L : Level) : Type 0 where
  pub get-batch :
      (s : L.State) (ops : List Op) (k : Key) → L.get (L.batch s ops) k ≡ written ops k (L.get s k)
  pub range_sound :
      (s : L.State) (lo hi : Key)
      → All
          (λ (e : Key × Value).
            (L.get s e.0 ≡ some e.1) × (leq lo e.0 ≡ true) × (leq e.0 hi ≡ true))
          (L.range s lo hi)
  pub range_complete :
      (s : L.State) (lo hi k : Key) (v : Value)
      → L.get s k ≡ some v
      → leq lo k ≡ true
      → leq k hi ≡ true
      → Memᴰ (k, v) (L.range s lo hi)
