-- ===== src/Prelude/Maps.antt =====
-- A JavaScript `Map` with text keys: an association list in insertion order.
use Prim.Native.Nat.{◌+◌, ◌≤◌}
use Prim.Native.String.{String}
use mathlib.Core.Path.{◌≡◌, refl}
use mathlib.Core.Logic.{ite, ◌≢◌}
use mathlib.Core.Bool.{Bool, true, false}
use mathlib.Core.List.{List, [], ◌∷◌}
use mathlib.Core.Option.{Option, none, some}
use native.Mathlib.Omega.{arith}
use p2p_app.Prelude.Tests.{same, if◌then◌else◌}
use p2p_app.Prelude.Lists.{length, All, keep}

abbrev pub Dict {ℓ} : Type ℓ → Type ℓ
Dict V = List (String × V)

module _ {ℓ} {V : Type ℓ} where
  -- `m.get(k)`: `none` is `undefined`.
  unfoldable pub lookup : String → Dict V → Option V
  lookup k [] = none
  lookup k ((j, v) ∷ m) = ite (same j k) (some v) (lookup k m)

  -- `m.has(k)`.
  unfoldable pub has_key : String → Dict V → Bool
  has_key k [] = false
  has_key k ((j, v) ∷ m) = ite (same j k) true (has_key k m)

  -- `m.set(k, v)`: an old key keeps its place, a new one goes to the end.
  unfoldable pub insert : String → V → Dict V → Dict V
  insert k v [] = (k, v) ∷ []
  insert k v ((j, w) ∷ m) = ite (same j k) ((j, v) ∷ m) ((j, w) ∷ insert k v m)

  -- `m.delete(k)`.
  unfoldable pub remove : String → Dict V → Dict V
  remove k [] = []
  remove k ((j, w) ∷ m) = let rest = remove k m in ite (same j k) rest ((j, w) ∷ rest)

  -- `m.keys()`.
  abbrev pub keys : Dict V → List String
  keys [] = []
  keys ((k, v) ∷ m) = k ∷ keys m

  pub lookup-insert :
      (new asked : String) (v : V) (m : Dict V)
      → lookup asked (insert new v m) ≡ ite (same new asked) (some v) (lookup asked m)
  unfolding insert lookup
  lookup-insert new asked v [] = refl
  lookup-insert new asked v (entry ∷ m) = ground (arith, lookup-insert new asked v m)

  pub lookup-remove :
      (k j : String) (m : Dict V) → lookup j (remove k m) ≡ ite (same k j) none (lookup j m)
  unfolding lookup remove
  lookup-remove k j [] = ground arith
  lookup-remove k j ((i, w) ∷ m) = ground (arith, lookup-remove k j m)

  pub lookup-insert_self : (k : String) (v : V) (m : Dict V) → lookup k (insert k v m) ≡ some v
  lookup-insert_self k v m = ground (arith, lookup-insert k k v m)

  pub lookup-insert_ne :
      (k j : String) (v : V) (m : Dict V) → k ≢ j → lookup j (insert k v m) ≡ lookup j m
  lookup-insert_ne k j v m h = ground (arith, lookup-insert k j v m)

  pub lookup-remove_self : (k : String) (m : Dict V) → lookup k (remove k m) ≡ none
  lookup-remove_self k m = ground (arith, lookup-remove k k m)

  pub lookup-remove_ne : (k j : String) (m : Dict V) → k ≢ j → lookup j (remove k m) ≡ lookup j m
  lookup-remove_ne k j m h = ground (arith, lookup-remove k j m)

  pub has_key-lookup : (k : String) (m : Dict V) → has_key k m ≡ false → lookup k m ≡ none
  unfolding lookup has_key
  has_key-lookup k [] h = refl
  has_key-lookup k ((j, w) ∷ m) h = ground (arith, has_key-lookup k m)

  pub lookup-has_key : (k : String) {v : V} (m : Dict V) → lookup k m ≡ some v → has_key k m ≡ true
  unfolding lookup has_key
  lookup-has_key k {v} [] h = cc
  lookup-has_key k {v} ((j, w) ∷ m) h = ground (arith, lookup-has_key k {v = v} m)

  pub lookup-has_key-none : (k : String) (m : Dict V) → lookup k m ≡ none → has_key k m ≡ false
  unfolding lookup has_key
  lookup-has_key-none k [] h = refl
  lookup-has_key-none k ((j, w) ∷ m) h = ground (arith, lookup-has_key-none k m)

  pub has_key-insert :
      (k j : String) (v : V) (m : Dict V)
      → has_key j (insert k v m) ≡ ite (same k j) true (has_key j m)
  unfolding has_key insert
  has_key-insert k j v [] = refl
  has_key-insert k j v ((i, w) ∷ m) = ground (arith, has_key-insert k j v m)

  pub has_key-remove :
      (k j : String) (m : Dict V) → has_key j (remove k m) ≡ ite (same k j) false (has_key j m)
  unfolding has_key remove
  has_key-remove k j [] = ground arith
  has_key-remove k j ((i, w) ∷ m) = ground (arith, has_key-remove k j m)

  pub remove-insert_self : (k : String) (v : V) (m : Dict V) → remove k (insert k v m) ≡ remove k m
  unfolding remove insert
  remove-insert_self k v [] = ground arith
  remove-insert_self k v ((j, w) ∷ m) = ground (arith, remove-insert_self k v m)

  pub length-remove-le : (k : String) (m : Dict V) → length (remove k m) ≤ length m
  unfolding remove
  length-remove-le k [] = omega arith
  length-remove-le k ((j, w) ∷ m) = ground (arith, length-remove-le k m)

  pub length-insert :
      (k : String) (v : V) (m : Dict V)
      → length (insert k v m) ≡ length m + (if has_key k m then 0 else 1)
  unfolding insert has_key
  length-insert k v [] = refl
  length-insert k v ((j, w) ∷ m) = ground (arith, length-insert k v m)

  -- A predicate of every entry survives a write that meets it, and every removal.
  pub All-insert {κ} :
      (P : String × V → Type κ) (k : String) (v : V) (m : Dict V)
      → ((j : String) → j ≡ k → P (j, v))
      → All P m
      → All P (insert k v m)
  unfolding insert
  All-insert P k v [] hv h = (hv k refl, tt)
  All-insert P k v ((j, w) ∷ m) hv h = ground (arith, All-insert P k v m hv h.1, hv j)

  pub All-remove {κ} :
      (P : String × V → Type κ) (k : String) (m : Dict V) → All P m → All P (remove k m)
  unfolding remove
  All-remove P k [] h = tt
  All-remove P k ((j, w) ∷ m) h = ground (arith, All-remove P k m h.1)

  -- What holds of every entry holds of the one that is found.
  pub All-lookup {κ} :
      (P : V → Type κ) (k : String) {v : V} (m : Dict V)
      → All (λ e. P e.1) m
      → lookup k m ≡ some v
      → P v
  unfolding lookup
  All-lookup P k {v} [] h e = cc
  All-lookup P k {v} ((j, w) ∷ m) h e = ground (arith, All-lookup P k {v = v} m h.1)

module _ {ℓ} {V : Type ℓ} where
  -- No key stands twice, as in every `Map`.
  abbrev pub Unique : Dict V → Type 0
  Unique [] = Unit {0}
  Unique ((k, v) ∷ m) = (has_key k m ≡ false) × Unique m

  pub Unique-insert : (k : String) (v : V) (m : Dict V) → Unique m → Unique (insert k v m)
  unfolding insert has_key
  Unique-insert k v [] u = (refl, tt)
  Unique-insert k v ((j, w) ∷ m) u = ground (arith, Unique-insert k v m u.1, has_key-insert k j v m)

  pub Unique-remove : (k : String) (m : Dict V) → Unique m → Unique (remove k m)
  unfolding remove
  Unique-remove k [] u = tt
  Unique-remove k ((j, w) ∷ m) u = ground (arith, Unique-remove k m u.1, has_key-remove k j m)

  has_key-keep :
      (p : String × V → Bool) (k : String) (m : Dict V)
      → has_key k m ≡ false
      → has_key k (keep p m) ≡ false
  unfolding has_key keep
  has_key-keep p k [] h = refl
  has_key-keep p k ((j, w) ∷ m) h = ground (arith, has_key-keep p k m)

  pub Unique-keep : (p : String × V → Bool) (m : Dict V) → Unique m → Unique (keep p m)
  unfolding keep
  Unique-keep p [] u = tt
  Unique-keep p ((j, w) ∷ m) u = ground (arith, Unique-keep p m u.1, has_key-keep p j m)

  -- Filtering the entries of a map filters what each key finds.
  pub lookup-keep :
      (p : String × V → Bool) (k : String) (m : Dict V)
      → Unique m
      → lookup k (keep p m)
        ≡ elim (lookup k m) [ none ↦ none | some v ↦ if p (k, v) then some v else none ]
  unfolding lookup keep
  lookup-keep p k [] u = refl
  lookup-keep p k ((j, w) ∷ m) u = ground (
    arith,
    lookup-keep p k m u.1,
    has_key-lookup j m,
    has_key-keep p j m,
    has_key-lookup k (keep p m),
  )
