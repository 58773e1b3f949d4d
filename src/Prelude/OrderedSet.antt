-- ===== src/Prelude/OrderedSet.antt =====
-- A JavaScript `Set` of texts: a list without repetition, in insertion order.
use Prim.Native.Nat.{◌≤◌, ◌<◌}
use Prim.Native.String.{String}
use mathlib.Core.Path.{◌≡◌, refl}
use mathlib.Core.Logic.{ite}
use mathlib.Core.Bool.{Bool, true, false, ◌&&◌, ◌||◌}
use mathlib.Core.List.{List, [], ◌∷◌, ◌++◌}
use native.Mathlib.Omega.{arith}
use p2p_app.Prelude.Tests.{same, if◌then◌else◌}
use p2p_app.Prelude.Lists.{length, keep}

-- `s.has(a)`, and `xs.includes(a)` of an array.
unfoldable pub contains : List String → String → Bool
contains [] a = false
contains (x ∷ xs) a = ite (same x a) true (contains xs a)

-- `s.add(a)`.
unfoldable pub add : List String → String → List String
add xs a = if contains xs a then xs else xs ++ a ∷ []

-- `s.delete(a)`.
unfoldable pub discard : String → List String → List String
discard a [] = []
discard a (x ∷ xs) = let rest = discard a xs in ite (same x a) rest (x ∷ rest)

-- `new Set(xs)`, added to `acc` one by one.
unfoldable pub add_all : List String → List String → List String
add_all acc [] = acc
add_all acc (x ∷ xs) = add_all (add acc x) xs

-- No text stands twice.
abbrev pub Distinct : List String → Type 0
Distinct [] = Unit {0}
Distinct (x ∷ xs) = (contains xs x ≡ false) × Distinct xs

pub contains-append :
    (xs ys : List String) (a : String) → contains (xs ++ ys) a ≡ (contains xs a || contains ys a)
unfolding contains
contains-append [] ys a = refl
contains-append (x ∷ xs) ys a = ground (arith, contains-append xs ys a)

pub contains-add :
    (xs : List String) (a b : String) → contains (add xs a) b ≡ ite (same a b) true (contains xs b)
unfolding contains add
contains-add xs a b = ground (arith, contains-append xs (a ∷ []) b)

pub contains-discard :
    (a : String) (xs : List String) (b : String)
    → contains (discard a xs) b ≡ ite (same a b) false (contains xs b)
unfolding contains discard
contains-discard a [] b = ground arith
contains-discard a (x ∷ xs) b = ground (arith, contains-discard a xs b)

pub contains-keep :
    (p : String → Bool) (xs : List String) (a : String)
    → contains (keep p xs) a ≡ (contains xs a && p a)
unfolding contains keep
contains-keep p [] a = refl
contains-keep p (x ∷ xs) a = ground (arith, contains-keep p xs a)

pub contains-add_all :
    (acc xs : List String) (a : String)
    → contains (add_all acc xs) a ≡ (contains acc a || contains xs a)
unfolding contains add_all
contains-add_all acc [] a = ground arith
contains-add_all acc (x ∷ xs) a =
    ground (arith, contains-add_all (add acc x) xs a, contains-add acc x a)

pub length-discard-le : (a : String) (xs : List String) → length (discard a xs) ≤ length xs
unfolding discard
length-discard-le a [] = omega arith
length-discard-le a (x ∷ xs) = ground (arith, length-discard-le a xs)

-- Appending a new text keeps the set free of repetition.
pub Distinct-snoc :
    (xs : List String) (a : String) → contains xs a ≡ false → Distinct xs → Distinct (xs ++ a ∷ [])
unfolding contains
Distinct-snoc [] a h d = (refl, tt)
Distinct-snoc (x ∷ xs) a h d = ground (arith, Distinct-snoc xs a, contains-append xs (a ∷ []) x)

pub Distinct-add : (xs : List String) (a : String) → Distinct xs → Distinct (add xs a)
unfolding add
Distinct-add xs a d = ground (arith, Distinct-snoc xs a)

pub Distinct-discard : (a : String) (xs : List String) → Distinct xs → Distinct (discard a xs)
unfolding discard
Distinct-discard a [] d = tt
Distinct-discard a (x ∷ xs) d = ground (arith, Distinct-discard a xs d.1, contains-discard a xs x)

pub Distinct-keep : (p : String → Bool) (xs : List String) → Distinct xs → Distinct (keep p xs)
unfolding keep
Distinct-keep p [] d = tt
Distinct-keep p (x ∷ xs) d = ground (arith, Distinct-keep p xs d.1, contains-keep p xs x)

pub Distinct-add_all : (acc xs : List String) → Distinct acc → Distinct (add_all acc xs)
unfolding add_all
Distinct-add_all acc [] d = d
Distinct-add_all acc (x ∷ xs) d = Distinct-add_all (add acc x) xs (Distinct-add acc x d)

pub length-contains : (xs : List String) (a : String) → contains xs a ≡ true → 1 ≤ length xs
unfolding contains
length-contains [] a h = cc
length-contains (x ∷ xs) a h = omega arith

length-discard-lt :
    (a : String) (xs : List String) → contains xs a ≡ true → length (discard a xs) < length xs
unfolding contains discard
length-discard-lt a [] h = cc
length-discard-lt a (x ∷ xs) h = ground (arith, length-discard-lt a xs, length-discard-le a xs)

-- A set has no more members than a list that has them all.
pub Distinct-length-le :
    (xs ys : List String)
    → Distinct xs
    → ((a : String) → contains xs a ≡ true → contains ys a ≡ true)
    → length xs ≤ length ys
unfolding contains
Distinct-length-le [] ys d h = omega arith
Distinct-length-le (x ∷ xs) ys d h = omega (
  arith,
  length-discard-lt x ys (h x (ground arith)),
  Distinct-length-le xs (discard x ys) d.1 (λ a m. ground (arith, h a, contains-discard x ys a)),
)
