-- ===== src/Protocol/GossipEngine/Forward/Selection.antt =====
-- protocol/gossipEngine.js: which peers `forwardMessage` selects.
use p2p_app.Prelude.{
  ℕ, zero, suc, ◌+◌, ◌-◌, ◌≤◌, ◌<◌, String, ◌≡◌, refl, ◌⊎◌, ◌≢◌, true, false, not, ◌&&◌, ◌||◌, List,
  [], ◌∷◌, Option, none, some, add, contains, contains-add, contains-keep, keep, length,
  length-append, Distinct, Distinct-keep, get_elem?, min, ltb, arith, Bool-cases, Option-cases, inl,
  inr,
}
use p2p_app.Config.{gossip_fanout}
use p2p_app.Protocol.Message.{Message}
use p2p_app.Protocol.TopicRouter.{get_peers_for_topic}
use p2p_app.Protocol.GossipEngine.{Platform, GossipEngine, add_present}
use p2p_app.Protocol.GossipEngine.Forward.{
  is_scoped, available_peers, splice, select_random, selected_peers,
}
use p2p_app.Transport.ConnectionPool.{get_all_peer_ids}
use p2p_app.Transport.ConnectionPool.Broadcast.{get_all_peer_ids-Distinct}

-- `Math.floor(Math.random() * n)` lies below `n`.
abbrev pub InRange : (ℕ → ℕ → ℕ) → Type 0
InRange random_index = (draw n : ℕ) → 0 < n → random_index draw n < n

contains-get_elem? :
    (i : ℕ) (xs : List String) (p : String) → get_elem? xs i ≡ some p → contains xs p ≡ true
unfolding contains
contains-get_elem? i [] p e = cc
contains-get_elem? zero (x ∷ xs) p e = ground arith
contains-get_elem? (suc i) (x ∷ xs) p e = ground (arith, contains-get_elem? i xs p e)

contains-splice :
    (i : ℕ) (xs : List String) (p : String) → contains (splice i xs) p ≡ true → contains xs p ≡ true
unfolding contains splice
contains-splice i [] p h = h
contains-splice zero (x ∷ xs) p h = ground arith
contains-splice (suc i) (x ∷ xs) p h = ground (arith, contains-splice i xs p)

contains-add_present :
    (xs : List String) (o : Option String) (p : String)
    → contains (add_present xs o) p ≡ true
    → (contains xs p ≡ true) ⊎ (o ≡ some p)
unfolding add_present
contains-add_present xs none p h = inl h
contains-add_present xs (some x) p h = ground (arith, contains-add xs x p)

select_random_sound :
    (random_index : ℕ → ℕ → ℕ) (fuel draw k : ℕ) (selected available : List String) (p : String)
    → contains (select_random random_index fuel draw k selected available) p ≡ true
    → (contains selected p ≡ true) ⊎ (contains available p ≡ true)
unfolding select_random
select_random_sound r zero draw k selected available p h = inl h
select_random_sound r (suc fuel) draw k selected available p h =
    let index = r draw (length available) in
    let next = add_present selected (get_elem? available index) in
    elim (Bool-cases (ltb (length selected) k && ltb 0 (length available))) [
      | inr e ↦ inl (ground arith)
      | inl e ↦
          elim (select_random_sound r fuel (suc draw) k next (splice index available) p
            (ground arith)) [
              | inr c ↦ inr (contains-splice index available p c)
              | inl c ↦ elim (contains-add_present selected (get_elem? available index) p c) [
                | inl s ↦ inl s
                | inr s ↦ inr (contains-get_elem? index available p s)
              ]
            ]
    ]

-- How the loop makes progress.
get_elem?-found :
    (i : ℕ) (xs : List String) → i < length xs → (x : String) × (get_elem? xs i ≡ some x)
get_elem?-found i [] h = absurd (omega arith)
get_elem?-found zero (x ∷ xs) h = (x, refl)
get_elem?-found (suc i) (x ∷ xs) h = get_elem?-found i xs (omega arith)

length-splice : (i : ℕ) (xs : List String) → i < length xs → length (splice i xs) ≡ length xs - 1
unfolding splice
length-splice i [] h = absurd (omega arith)
length-splice zero (x ∷ xs) h = omega arith
length-splice (suc i) (x ∷ []) h = absurd (omega arith)
length-splice (suc i) (x ∷ y ∷ xs) h = omega (arith, length-splice i (y ∷ xs) (omega arith))

splice-drops :
    (i : ℕ) (xs : List String) (x : String)
    → Distinct xs
    → get_elem? xs i ≡ some x
    → contains (splice i xs) x ≡ false
unfolding contains splice
splice-drops i [] x d e = refl
splice-drops zero (y ∷ xs) x d e = ground arith
splice-drops (suc i) (y ∷ xs) x d e =
    ground (arith, splice-drops i xs x d.1 e, contains-get_elem? i xs x e)

Distinct-splice : (i : ℕ) (xs : List String) → Distinct xs → Distinct (splice i xs)
unfolding contains splice
Distinct-splice i [] d = tt
Distinct-splice zero (x ∷ xs) d = d.1
Distinct-splice (suc i) (x ∷ xs) d =
    ground (arith, Distinct-splice i xs d.1, contains-splice i xs x)

Disjoint : List String → List String → Type 0
Disjoint selected available =
    (p : String) → contains available p ≡ true → contains selected p ≡ false

Disjoint-round :
    (i : ℕ) (selected available : List String) (x : String)
    → Distinct available
    → get_elem? available i ≡ some x
    → Disjoint selected available
    → Disjoint (add selected x) (splice i available)
unfolding Disjoint
Disjoint-round i selected available x d e apart p h = ground (
  arith,
  contains-add selected x p,
  splice-drops i available x d e,
  apart p (contains-splice i available p h),
)

length-add_new :
    (xs : List String) (x : String) → contains xs x ≡ false → length (add xs x) ≡ suc (length xs)
unfolding add
length-add_new xs x h = ground (arith, length-append xs (x ∷ []))

length-select_random :
    (r : ℕ → ℕ → ℕ) (fuel draw k : ℕ) (selected available : List String)
    → InRange r
    → length available ≤ fuel
    → length selected ≤ k
    → Distinct available
    → Disjoint selected available
    → length (select_random r fuel draw k selected available)
      ≡ min k (length selected + length available)
unfolding select_random add_present Disjoint
length-select_random r zero draw k selected available range enough small d apart = omega arith
length-select_random r (suc fuel) draw k selected available range enough small d apart =
    let index = r draw (length available) in
    elim (Bool-cases (ltb (length selected) k && ltb 0 (length available))) [
      | inr e ↦ ground arith
      | inl e ↦
          let inside : index < length available = range draw (length available) (ground arith) in
          let (x, found) = get_elem?-found index available inside in
          let longer =
            length-add_new selected x (apart x (contains-get_elem? index available x found)) in
          let shorter = length-splice index available inside in
          let induction =
            length-select_random r fuel (suc draw) k (add selected x) (splice index available) range
              (omega arith) (ground arith) (Distinct-splice index available d)
              (Disjoint-round index selected available x d found apart) in
          rw (e, found) (ground arith)
    ]

available_peers-Distinct :
    (e : GossipEngine) (m : Message) (from_peer_id : Option String) (now : ℕ)
    → Distinct (available_peers e m from_peer_id now)
unfolding available_peers
available_peers-Distinct e m from_peer_id now = elim (Bool-cases (is_scoped m.topic)) [
  | inl s ↦
      rw s (Distinct-keep _ _ (Distinct-keep _ _ (get_all_peer_ids-Distinct e.connection_pool)))
  | inr s ↦ rw s (Distinct-keep _ _ (get_all_peer_ids-Distinct e.connection_pool))
]

-- When the random indices are in range, the loop selects as many peers as the fanout, or as are
-- available when these are fewer: it ends, with no peer drawn twice.
pub length-selected_peers :
    (platform : Platform) (e : GossipEngine) (m : Message) (from_peer_id : Option String) (now : ℕ)
    → InRange platform.random_index
    → length (selected_peers platform e m from_peer_id now)
      ≡ min gossip_fanout (length (available_peers e m from_peer_id now))
unfolding selected_peers Disjoint contains
length-selected_peers platform e m from_peer_id now range =
    let available = available_peers e m from_peer_id now in
    let drawn =
      length-select_random platform.random_index (length available) 0
        (min gossip_fanout (length available)) [] available range (omega arith) (omega arith)
        (available_peers-Distinct e m from_peer_id now) (λ p h. refl) in
    omega arith

contains-available_peers :
    (e : GossipEngine) (m : Message) (from_peer_id : Option String) (now : ℕ) (p : String)
    → contains (available_peers e m from_peer_id now) p ≡ (
        contains (get_all_peer_ids e.connection_pool) p
        && (not (is_scoped m.topic) || contains (get_peers_for_topic e.topic_router m.topic now) p)
        && not (contains (add_present (add [] m.sender) from_peer_id) p))
unfolding available_peers
contains-available_peers e m from_peer_id now p =
    let active = get_all_peer_ids e.connection_pool in
    let subscribed = get_peers_for_topic e.topic_router m.topic now in
    let base = add_present (add [] m.sender) from_peer_id in
    ground (
      arith,
      contains-keep (contains subscribed) active p,
      contains-keep (λ q. not (contains base q)) (keep (contains subscribed) active) p,
      contains-keep (λ q. not (contains base q)) active p,
    )

-- A selected peer is connected, is neither the sender of the message nor the last hop, and, unless
-- the topic is empty or 'global', is the next hop of a live subscription to the topic.
pub selected_peers_sound :
    (platform : Platform) (e : GossipEngine) (m : Message) (from_peer_id : Option String) (now : ℕ)
    (p : String)
    → contains (selected_peers platform e m from_peer_id now) p ≡ true
    → (contains (get_all_peer_ids e.connection_pool) p ≡ true)
      × (p ≢ m.sender)
      × (from_peer_id ≢ some p)
      × (is_scoped m.topic ≡ true
          → contains (get_peers_for_topic e.topic_router m.topic now) p ≡ true)
unfolding selected_peers contains add_present
selected_peers_sound platform e m from_peer_id now p h =
    let available = available_peers e m from_peer_id now in
    elim (select_random_sound platform.random_index (length available) 0
      (min gossip_fanout (length available)) [] available p h) [
        | inl c ↦ cc
        | inr c ↦ elim (Option-cases from_peer_id) [
          | inl f ↦
              ground
                (arith, contains-available_peers e m from_peer_id now p, contains-add [] m.sender p)
          | inr (x, f) ↦ ground (
            arith,
            contains-available_peers e m from_peer_id now p,
            contains-add (add [] m.sender) x p,
            contains-add [] m.sender p,
          )
        ]
      ]
