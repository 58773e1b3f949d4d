-- ===== src/Storage/Level/Written.antt =====
-- storage/messageStore.js: what a sequence of batches leaves under a key.
use p2p_app.Prelude.{◌≡◌, refl, true, List, [], ◌∷◌, ◌++◌, Option, some, arith, none, if◌then◌else◌}
use p2p_app.Storage.Keys.{Key, eq_key}
use p2p_app.Storage.Level.{Value, Op, put, del, written}

pub written-append :
    (ops more : List Op) (k : Key) (v : Option Value)
    → written (ops ++ more) k v ≡ written more k (written ops k v)
unfolding written
written-append [] more k v = refl
written-append (put j w ∷ ops) more k v =
    written-append ops more k (if eq_key j k then some w else v)
written-append (del j ∷ ops) more k v = written-append ops more k (if eq_key j k then none else v)

pub eq_key_self : (k : Key) → eq_key k k ≡ true
unfolding eq_key
eq_key_self [] = refl
eq_key_self (x ∷ k) = ground (arith, eq_key_self k)

pub eq_key-eq : (j k : Key) → eq_key j k ≡ true → j ≡ k
unfolding eq_key
eq_key-eq [] [] h = refl
eq_key-eq [] (y ∷ k) h = absurd (ground arith)
eq_key-eq (x ∷ j) [] h = absurd (ground arith)
eq_key-eq (x ∷ j) (y ∷ k) h = grind (arith, eq_key-eq j k)
