-- ===== src/Storage/SyncManager/Order.antt =====
-- storage/syncManager.js: the order in which messages are sent.
use p2p_app.Prelude.{
  ◌≤◌, refl, List, [], ◌∷◌, arith, if-cases, leb, leb→le, All, All-mono, Bool-cases, inl, inr,
}
use mathlib.Core.List.{Permᴰ}
use mathlib.Core.List.Permᴰ
use p2p_app.Protocol.Message.{Message}
use p2p_app.Storage.SyncManager.{sort, insert_sorted}

-- Every message is at most as late as those behind it.
abbrev pub Ascending : List Message → Type 0
Ascending [] = Unit
Ascending (m ∷ ms) =
    All (λ (n : Message). m.lamport_timestamp ≤ n.lamport_timestamp) ms × Ascending ms

insert_sorted-Perm : (m : Message) (ms : List Message) → Permᴰ (insert_sorted m ms) (m ∷ ms)
unfolding insert_sorted
insert_sorted-Perm m [] = Permᴰ.refl (m ∷ [])
insert_sorted-Perm m (n ∷ ms) =
    if-cases (λ (out : List Message). Permᴰ out (m ∷ n ∷ ms))
      (leb m.lamport_timestamp n.lamport_timestamp) (m ∷ n ∷ ms) (n ∷ insert_sorted m ms)
      (λ _. Permᴰ.refl (m ∷ n ∷ ms))
      (λ _. Permᴰ.trans (Permᴰ.cons refl (insert_sorted-Perm m ms)) (Permᴰ.swap refl refl))

sort-Perm : (ms : List Message) → Permᴰ (sort ms) ms
unfolding sort
sort-Perm [] = Permᴰ.nil
sort-Perm (m ∷ ms) = Permᴰ.trans (insert_sorted-Perm m (sort ms)) (Permᴰ.cons refl (sort-Perm ms))

insert_sorted-All :
    (P : Message → Type 0) (m : Message) (ms : List Message)
    → P m
    → All P ms
    → All P (insert_sorted m ms)
unfolding insert_sorted
insert_sorted-All P m [] h all = (h, tt)
insert_sorted-All P m (n ∷ ms) h all =
    if-cases (All P) (leb m.lamport_timestamp n.lamport_timestamp) (m ∷ n ∷ ms)
      (n ∷ insert_sorted m ms) (λ _. (h, all)) (λ _. (all.0, insert_sorted-All P m ms h all.1))

insert_sorted-Ascending :
    (m : Message) (ms : List Message) → Ascending ms → Ascending (insert_sorted m ms)
unfolding insert_sorted
insert_sorted-Ascending m [] h = (tt, tt)
insert_sorted-Ascending m (n ∷ ms) h =
    elim (Bool-cases (leb m.lamport_timestamp n.lamport_timestamp)) [
      | inl e ↦
          let first : m.lamport_timestamp ≤ n.lamport_timestamp =
            leb→le m.lamport_timestamp n.lamport_timestamp e in
          rw e (
            (
              first,
              All-mono (λ (o : Message). n.lamport_timestamp ≤ o.lamport_timestamp)
                  (λ (o : Message). m.lamport_timestamp ≤ o.lamport_timestamp)
                  (λ o later. omega (arith, first)) ms h.0,
            ),
            h,
          )
      | inr e ↦ rw e (
        insert_sorted-All (λ (o : Message). n.lamport_timestamp ≤ o.lamport_timestamp) m ms
            (ground arith) h.0,
        insert_sorted-Ascending m ms h.1,
      )
    ]

sort-Ascending : (ms : List Message) → Ascending (sort ms)
unfolding sort
sort-Ascending [] = tt
sort-Ascending (m ∷ ms) = insert_sorted-Ascending m (sort ms) (sort-Ascending ms)

-- The sent messages are the gathered ones in the order of their timestamps.
pub sort_lem : (ms : List Message) → Ascending (sort ms) × Permᴰ (sort ms) ms
sort_lem ms = (sort-Ascending ms, sort-Perm ms)
