-- ===== src/Visualizer/Simulation/NewEdges.antt =====
-- visualizer/src/simulation/gossipEngine.js: the edges that the inner loop of
-- computeHealingEdges adds.
use p2p_app.Prelude.{
  String, ◌≡◌, refl, true, false, ◌||◌, List, [], ◌∷◌, ◌++◌, contains, All, All-append, eqb,
  if-cases, arith,
}
use p2p_app.Visualizer.Simulation.{Edge, already_exists, connect_one, connect}
use p2p_app.Visualizer.Simulation.Adjacency.{linked}

already_exists-append :
    (a b : String) (front back : List Edge)
    → already_exists a b (front ++ back) ≡ (already_exists a b front || already_exists a b back)
unfolding already_exists
already_exists-append a b [] back = refl
already_exists-append a b (e ∷ front) back = ground (arith, already_exists-append a b front back)

-- No two of the edges have the same ends.
abbrev pub NoneTwice : List Edge → Type 0
NoneTwice [] = Unit {0}
NoneTwice (e ∷ edges) = (already_exists e.source e.target edges ≡ false) × NoneTwice edges

NoneTwice-snoc :
    (edges : List Edge) (e : Edge)
    → already_exists e.source e.target edges ≡ false
    → NoneTwice edges
    → NoneTwice (edges ++ e ∷ [])
unfolding already_exists
NoneTwice-snoc [] e new h = ground arith
NoneTwice-snoc (d ∷ edges) e new h =
    ground (arith, NoneTwice-snoc edges e, already_exists-append d.source d.target edges (e ∷ []))

-- An edge between two nodes of the list.
pub record Joins (live : List String) (e : Edge) : Type 0 where
  pub from_live : contains live e.source ≡ true
  pub to_live : contains live e.target ≡ true
  pub apart : eqb e.source e.target ≡ false

-- Edges added to `before`.
pub record Adds (live : List String) (before after : List Edge) : Type 0 where
  pub kept : (a b : String) → already_exists a b before ≡ true → already_exists a b after ≡ true
  pub joins : All (Joins live) before → All (Joins live) after
  pub none_twice : NoneTwice before → NoneTwice after

pub Adds-refl : {live : List String} (edges : List Edge) → Adds live edges edges
Adds-refl edges = record { kept = λ a b h. h; joins = λ h. h; none_twice = λ h. h }

pub Adds-trans :
    {live : List String} {x y z : List Edge} → Adds live x y → Adds live y z → Adds live x z
Adds-trans one two = record {
  kept = λ a b h. two.kept a b (one.kept a b h);
  joins = λ h. two.joins (one.joins h);
  none_twice = λ h. two.none_twice (one.none_twice h);
}

-- A node that may be picked for `node`.
abbrev pub IsCandidate : List String → String → String → Type 0
IsCandidate live node p = (contains live p ≡ true) × (eqb node p ≡ false)

connect_one-Adds :
    (live : List String) (node : String) (edges : List Edge) (p : String)
    → contains live node ≡ true
    → IsCandidate live node p
    → Adds live edges (connect_one node edges p)
unfolding connect_one
connect_one-Adds live node edges p alive fit =
    let e : Edge = record { source = node; target = p; is_new = true } in
    if-cases (Adds live edges) (already_exists node p edges) _ _ (λ old. Adds-refl edges)
      (λ new. record {
        kept = λ a b h. ground (arith, already_exists-append a b edges (e ∷ []));
        joins = λ h.
            All-append (Joins live) edges (e ∷ []) h
              (record { from_live = alive; to_live = fit.0; apart = fit.1 }, tt);
        none_twice = NoneTwice-snoc edges e new;
      })

already_exists-connect_one :
    (node : String) (edges : List Edge) (p : String)
    → already_exists node p (connect_one node edges p) ≡ true
unfolding connect_one already_exists
already_exists-connect_one node edges p =
    let e : Edge = record { source = node; target = p; is_new = true } in
    ground (arith, already_exists-append node p edges (e ∷ []))

pub connect-Adds :
    (live : List String) (node : String) (picks : List String) (edges : List Edge)
    → contains live node ≡ true
    → ((p : String) → contains picks p ≡ true → IsCandidate live node p)
    → Adds live edges (connect node edges picks)
unfolding connect contains
connect-Adds live node [] edges alive good = Adds-refl edges
connect-Adds live node (p ∷ picks) edges alive good =
    Adds-trans (connect_one-Adds live node edges p alive (good p (ground arith)))
      (connect-Adds live node picks (connect_one node edges p) alive (λ q m. good q (ground arith)))

-- The node is connected to its first pick.
pub already_exists-connect :
    (live : List String) (node : String) (edges : List Edge) (p : String) (picks : List String)
    → contains live node ≡ true
    → ((q : String) → contains (p ∷ picks) q ≡ true → IsCandidate live node q)
    → already_exists node p (connect node edges (p ∷ picks)) ≡ true
unfolding connect contains
already_exists-connect live node edges p picks alive good =
    let rest =
      connect-Adds live node picks (connect_one node edges p) alive
        (λ q m. good q (ground arith)) in
    rest.kept node p (already_exists-connect_one node edges p)

-- An edge between live nodes links its ends.
pub already_exists-linked :
    (dead live : List String) (edges : List Edge) (a b : String)
    → ((n : String) → contains live n ≡ true → contains dead n ≡ false)
    → All (Joins live) edges
    → already_exists a b edges ≡ true
    → linked dead edges a b ≡ true
unfolding already_exists linked
already_exists-linked dead live [] a b alive h e = cc
already_exists-linked dead live (d ∷ edges) a b alive h e = ground (
  arith,
  already_exists-linked dead live edges a b alive h.1,
  alive d.source h.0.from_live,
  alive d.target h.0.to_live,
)
