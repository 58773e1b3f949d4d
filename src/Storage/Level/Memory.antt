-- ===== src/Storage/Level/Memory.antt =====
-- A database held in a list with the newest entries in front: an instance of the interface that
-- storage/messageStore.js relies on.
use p2p_app.Prelude.{
  ◌≡◌, refl, sym, ap, Bool, true, false, ◌&&◌, List, [], ◌∷◌, Option, none, some, All, All-mono,
  if◌then◌else◌, arith, Bool-cases, keep, inl, inr, if-cases,
}
use mathlib.Core.List.{Memᴰ}
use mathlib.Core.List.Memᴰ.{head, tail}
use p2p_app.Storage.Keys.{Key, leq, eq_key}
use p2p_app.Storage.Level.{Value, Op, put, del, written, Level, IsLevel}
use p2p_app.Storage.Level.Written.{eq_key_self, eq_key-eq}

abbrev Entries : Type 0
Entries = List (Key × Value)

abbrev find : Entries → Key → Option Value
find [] k = none
find ((j, v) ∷ es) k = let rest = find es k in if eq_key j k then some v else rest

abbrev erase : Key → Entries → Entries
erase k [] = []
erase k ((j, v) ∷ es) = let rest = erase k es in if eq_key k j then rest else (j, v) ∷ rest

abbrev apply : Entries → List Op → Entries
apply es [] = es
apply es (put k v ∷ ops) = apply ((k, v) ∷ es) ops
apply es (del k ∷ ops) = apply (erase k es) ops

-- The newest entry of each key.
abbrev newest : Entries → Entries
newest [] = []
newest ((k, v) ∷ es) = (k, v) ∷ erase k (newest es)

abbrev between : Entries → Key → Key → Entries
between es lo hi = keep (λ e. leq lo e.0 && leq e.0 hi) (newest es)

find-erase :
    (k j : Key) (es : Entries) → find (erase k es) j ≡ (if eq_key k j then none else find es j)
find-erase k j [] = ground arith
find-erase k j ((i, v) ∷ es) = grind (arith, eq_key-eq, find-erase k j es)

find-apply :
    (es : Entries) (ops : List Op) (k : Key) → find (apply es ops) k ≡ written ops k (find es k)
unfolding written
find-apply es [] k = refl
find-apply es (put j v ∷ ops) k = find-apply ((j, v) ∷ es) ops k
find-apply es (del j ∷ ops) k = rw (sym (find-erase j k es)) (find-apply (erase j es) ops k)

erase_sound :
    (P : Key × Value → Type 0) (k : Key) (es : Entries)
    → All P es
    → All (λ (e : Key × Value). P e × (eq_key k e.0 ≡ false)) (erase k es)
erase_sound P k [] h = tt
erase_sound P k ((j, v) ∷ es) h = elim (Bool-cases (eq_key k j)) [
  | inl e ↦ rw e (erase_sound P k es h.1)
  | inr e ↦ rw e ((h.0, e), erase_sound P k es h.1)
]

newest_sound : (es : Entries) → All (λ (e : Key × Value). find es e.0 ≡ some e.1) (newest es)
newest_sound [] = tt
newest_sound ((k, v) ∷ es) = (
  rw (eq_key_self k) refl,
  All-mono (λ (e : Key × Value). (find es e.0 ≡ some e.1) × (eq_key k e.0 ≡ false))
      (λ (e : Key × Value). find ((k, v) ∷ es) e.0 ≡ some e.1) (λ e h. rw h.1 h.0)
      (erase k (newest es))
      (erase_sound (λ (e : Key × Value). find es e.0 ≡ some e.1) k (newest es) (newest_sound es)),
)

erase_complete :
    (k j : Key) (v : Value) (es : Entries)
    → eq_key k j ≡ false
    → Memᴰ (j, v) es
    → Memᴰ (j, v) (erase k es)
erase_complete k j v [] e h = h
erase_complete k j v ((i, w) ∷ es) e (head p) =
    let other : eq_key k i ≡ false = rw (sym (ap (λ (x : Key × Value). x.0) p)) e in
    rw other (head p)
erase_complete k j v ((i, w) ∷ es) e (tail h) =
    let rest = erase_complete k j v es e h in
    if-cases (Memᴰ (j, v)) (eq_key k i) (erase k es) ((i, w) ∷ erase k es) (λ _. rest)
      (λ _. tail rest)

newest_complete :
    (es : Entries) (k : Key) (v : Value) → find es k ≡ some v → Memᴰ (k, v) (newest es)
newest_complete [] k v h = absurd (ground arith)
newest_complete ((j, w) ∷ es) k v h = elim (Bool-cases (eq_key j k)) [
  | inl e ↦ head (grind (arith, eq_key-eq j k e))
  | inr e ↦ tail (erase_complete j k v (newest es) e (newest_complete es k v (ground arith)))
]

keep_complete :
    (p : Key × Value → Bool) (e : Key × Value) (es : Entries)
    → p e ≡ true
    → Memᴰ e es
    → Memᴰ e (keep p es)
unfolding keep
keep_complete p e [] h m = m
keep_complete p e (d ∷ es) h (head q) = let holds : p d ≡ true = rw (sym q) h in rw holds (head q)
keep_complete p e (d ∷ es) h (tail m) =
    let rest = keep_complete p e es h m in
    if-cases (Memᴰ e) (p d) (d ∷ keep p es) (keep p es) (λ _. tail rest) (λ _. rest)

keep_sound :
    (P : Key × Value → Type 0) (p : Key × Value → Bool) (es : Entries)
    → All P es
    → All (λ (e : Key × Value). P e × (p e ≡ true)) (keep p es)
unfolding keep
keep_sound P p [] h = tt
keep_sound P p (d ∷ es) h = elim (Bool-cases (p d)) [
  | inl e ↦ rw e ((h.0, e), keep_sound P p es h.1)
  | inr e ↦ rw e (keep_sound P p es h.1)
]

abbrev pub memory : Level
memory = record { State = Entries; get = find; batch = apply; range = between }

pub memory-IsLevel : IsLevel memory
memory-IsLevel = record {
  get-batch = find-apply;
  range_sound = λ es lo hi.
      All-mono (λ (e : Key × Value). (find es e.0 ≡ some e.1) × (leq lo e.0 && leq e.0 hi ≡ true))
        (λ (e : Key × Value). (find es e.0 ≡ some e.1) × (leq lo e.0 ≡ true) × (leq e.0 hi ≡ true))
        (λ e h. (h.0, ground arith, ground arith)) (between es lo hi)
        (keep_sound (λ (e : Key × Value). find es e.0 ≡ some e.1) (λ e. leq lo e.0 && leq e.0 hi)
          (newest es) (newest_sound es));
  range_complete = λ es lo hi k v h below above.
      keep_complete (λ (e : Key × Value). leq lo e.0 && leq e.0 hi) (k, v) (newest es)
        (ground arith) (newest_complete es k v h);
}
