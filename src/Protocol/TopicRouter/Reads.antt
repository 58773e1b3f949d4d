-- ===== src/Protocol/TopicRouter/Reads.antt =====
-- protocol/topicRouter.js: what `getPeersForTopic` and `getTopicsForPeer` return.
use mathlib.Core.Path.{subst}
use p2p_app.Prelude.{
  ℕ, String, same, ◌≡◌, ◌⊎◌, ◌↔◌, inl, inr, Bool, true, false, ◌&&◌, ◌||◌, List, [], ◌∷◌, none,
  some, Dict, lookup, has_key, Unique, has_key-lookup, add, contains, contains-add, eqb, Distinct,
  Distinct-add, if◌then◌else◌, arith, Bool-cases,
}
use p2p_app.Protocol.TopicRouter.{
  TopicRouter, Route, is_live, table_of, add_live, live_hops, get_peers_for_topic, topics_with,
  dm_topic, get_topics_for_peer,
}
use p2p_app.Protocol.TopicRouter.Invariant.{IsValid, table_of-Unique}

-- Some subscriber of the table is reached through `peer`, on a lease that has not ended.
abbrev pub Serves : ℕ → String → Dict Route → Type 0
Serves now peer table =
    (origin : String) × (route : Route) × (lookup origin table ≡ some route)
    × (is_live now route.expires_at ≡ true)
    × (route.next_hop ≡ peer)

lookup-later :
    (origin o : String) (x route : Route) (table : Dict Route)
    → has_key origin table ≡ false
    → lookup o table ≡ some x
    → lookup o ((origin, route) ∷ table) ≡ some x
unfolding lookup
lookup-later origin o x route table h found = ground (arith, has_key-lookup origin table)

Serves-later :
    (now : ℕ) (peer origin : String) (route : Route) (table : Dict Route)
    → has_key origin table ≡ false
    → Serves now peer table
    → Serves now peer ((origin, route) ∷ table)
Serves-later now peer origin route table h (o, x, found, live, hop) =
    (o, x, lookup-later origin o x route table h found, live, hop)

lookup-first :
    (origin : String) (x : Route) (table : Dict Route)
    → lookup origin ((origin, x) ∷ table) ≡ some x
unfolding lookup
lookup-first origin x table = ground arith

contains-add_live :
    (now : ℕ) (peers : List String) (route : Route) (peer : String)
    → contains (add_live now peers route) peer ≡ (
        if is_live now route.expires_at && eqb route.next_hop peer
        then true
        else contains peers peer)
unfolding add_live
contains-add_live now peers route peer = ground (arith, contains-add peers route.next_hop peer)

live_hops-Serves :
    (now : ℕ) (peer : String) (table : Dict Route) (peers : List String)
    → Unique table
    → contains (live_hops now peers table) peer ≡ true
    → (contains peers peer ≡ true) ⊎ Serves now peer table
unfolding live_hops
live_hops-Serves now peer [] peers u h = inl h
live_hops-Serves now peer ((origin, route) ∷ table) peers u h =
    elim (live_hops-Serves now peer table (add_live now peers route) u.1 h) [
      | inr s ↦ inr (Serves-later now peer origin route table u.0 s)
      | inl c ↦ elim (Bool-cases (is_live now route.expires_at && eqb route.next_hop peer)) [
        | inl e ↦ inr (origin, route, lookup-first origin route table, ground arith, ground arith)
        | inr e ↦ inl (ground (arith, contains-add_live now peers route peer))
      ]
    ]

contains-live_hops :
    (now : ℕ) (peer : String) (table : Dict Route) (peers : List String)
    → contains peers peer ≡ true
    → contains (live_hops now peers table) peer ≡ true
unfolding live_hops
contains-live_hops now peer [] peers h = h
contains-live_hops now peer ((origin, route) ∷ table) peers h =
    contains-live_hops now peer table (add_live now peers route)
      (ground (arith, contains-add_live now peers route peer))

Serves-live_hops :
    (now : ℕ) (origin : String) (route : Route) (table : Dict Route) (peers : List String)
    → lookup origin table ≡ some route
    → is_live now route.expires_at ≡ true
    → contains (live_hops now peers table) route.next_hop ≡ true
unfolding live_hops lookup
Serves-live_hops now origin route [] peers found live = cc
Serves-live_hops now origin route ((o, x) ∷ table) peers found live = elim (same o origin) [
  | yes hit ↦
      contains-live_hops now route.next_hop table (add_live now peers x)
        (ground (arith, contains-add_live now peers x route.next_hop))
  | no miss ↦ Serves-live_hops now origin route table (add_live now peers x) (ground arith) live
]

-- The neighbours for a topic are exactly the next hops of its routes whose leases have not ended.
pub contains-get_peers_for_topic :
    (r : TopicRouter) (topic : String) (now : ℕ) (peer : String)
    → IsValid r
    → (contains (get_peers_for_topic r topic now) peer ≡ true) ↔ Serves now peer (table_of r topic)
unfolding get_peers_for_topic contains
contains-get_peers_for_topic r topic now peer v = (
  λ h. elim (live_hops-Serves now peer (table_of r topic) [] (table_of-Unique r topic v) h) [
    | inl e ↦ cc
    | inr s ↦ s
  ],
  λ s.
      subst (λ p. contains (live_hops now [] (table_of r topic)) p ≡ true) s.4
        (Serves-live_hops now s.0 s.1 (table_of r topic) [] s.2 s.3),
)

-- A neighbour is listed once.
pub Distinct-live_hops :
    (now : ℕ) (table : Dict Route) (peers : List String)
    → Distinct peers
    → Distinct (live_hops now peers table)
unfolding live_hops add_live
Distinct-live_hops now [] peers d = d
Distinct-live_hops now ((origin, route) ∷ table) peers d =
    Distinct-live_hops now table (add_live now peers route)
      (ground (arith, Distinct-add peers route.next_hop))

-- The topics of `m` that have the peer among their subscribers.
holds : String → String → Dict (Dict Route) → Bool
holds peer_id t m = elim (lookup t m) [ none ↦ false | some table ↦ has_key peer_id table ]

contains-topics_with :
    (peer_id t : String) (m : Dict (Dict Route)) (topics : List String)
    → Unique m
    → contains (topics_with peer_id topics m) t ≡ (contains topics t || holds peer_id t m)
unfolding topics_with holds lookup
contains-topics_with peer_id t [] topics u = ground arith
contains-topics_with peer_id t ((topic, table) ∷ m) topics u = ground (
  arith,
  contains-topics_with peer_id t m (if has_key peer_id table then add topics topic else topics) u.1,
  contains-add topics topic t,
  has_key-lookup topic m,
)

-- A peer's topics are 'global', its direct channel, and those with a route to it, whether or not
-- the lease has ended.
pub contains-get_topics_for_peer :
    (r : TopicRouter) (peer_id t : String)
    → IsValid r
    → contains (get_topics_for_peer r peer_id) t
      ≡ (eqb "global" t || eqb (dm_topic peer_id) t || has_key peer_id (table_of r t))
unfolding get_topics_for_peer holds table_of contains has_key
contains-get_topics_for_peer r peer_id t v = ground (
  arith,
  contains-topics_with peer_id t r.routes (add (add [] "global") (dm_topic peer_id)) v.topics,
  contains-add (add [] "global") (dm_topic peer_id) t,
  contains-add [] "global" t,
)
