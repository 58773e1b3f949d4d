-- ===== src/Protocol/TopicRouter/Updates.antt =====
-- protocol/topicRouter.js: what `updateRoute` and `removeRoute` do to every route.
use p2p_app.Prelude.{
  ◌≤◌, ◌<◌, leb, ap, refl, String, same, ite, ◌≡◌, ◌⊎◌, ◌↔◌, ◌||◌, inl, inr, ◌≢◌, Bool-cases, true,
  false, ◌&&◌, [], ◌∷◌, none, some, Dict, lookup, insert, remove, lookup-insert, lookup-remove, eqb,
  ◌==◌, arith, Option-cases, has_key-lookup, lookup-has_key-none,
}
use p2p_app.Protocol.TopicRouter.{
  Expiry, at, never, latest, TopicRouter, Route, table_of, put_route, put_table, is_stale,
  is_no_shorter, refresh_lease, update_route, remove_route, route_to,
}

-- Which of two routes to the same subscriber is the better: the newer, then the shorter.
abbrev pub Improves : Route → Route → Type 0
Improves old new =
    (old.sequence_number < new.sequence_number)
    ⊎ ((old.sequence_number ≡ new.sequence_number) × (new.hop_count < old.hop_count))

table_of-insert :
    (r : TopicRouter) (topic t : String) (table : Dict Route)
    → table_of (record r { routes = insert topic table r.routes }) t
      ≡ ite (same topic t) table (table_of r t)
unfolding table_of
table_of-insert r topic t table = ground (arith, lookup-insert topic t table r.routes)

table_of-remove :
    (r : TopicRouter) (topic t : String)
    → table_of (record r { routes = remove topic r.routes }) t
      ≡ ite (same topic t) [] (table_of r t)
unfolding table_of
table_of-remove r topic t = ground (arith, lookup-remove topic t r.routes)

pub route_to-put_route :
    (r : TopicRouter) (topic origin t o : String) (route : Route)
    → route_to (put_route r topic origin route) t o
      ≡ ite (same topic t) (ite (same origin o) (some route) (route_to r t o)) (route_to r t o)
unfolding put_route
route_to-put_route r topic origin t o route = ground (
  arith,
  table_of-insert r topic t (insert origin route (table_of r topic)),
  lookup-insert origin o route (table_of r topic),
)

put_table-table_of :
    (r : TopicRouter) (topic t : String) (table : Dict Route)
    → table_of (put_table r topic table) t ≡ ite (same topic t) table (table_of r t)
unfolding put_table
put_table-table_of r topic t [] = table_of-remove r topic t
put_table-table_of r topic t (e ∷ table) = table_of-insert r topic t (e ∷ table)

-- The order of the instants at which leases end.
abbrev pub IsBefore : Expiry → Expiry → Type 0
IsBefore (at a) (at b) = a ≤ b
IsBefore e never = Unit
IsBefore never (at b) = ⊥

-- The route `kept` is `old`, but for a lease that ends at the later of the ends of `old` and `route`.
pub record Extends (old route kept : Route) : Type 0 where
  pub lease_only : kept ≡ record old { expires_at = kept.expires_at }
  pub one_of : (kept.expires_at ≡ old.expires_at) ⊎ (kept.expires_at ≡ route.expires_at)
  pub after_old : IsBefore old.expires_at kept.expires_at
  pub after_route : IsBefore route.expires_at kept.expires_at

-- The later of two instants, in their order.
latest-IsBefore :
    (a b : Expiry)
    → ((latest a b ≡ a) ⊎ (latest a b ≡ b)) × IsBefore a (latest a b) × IsBefore b (latest a b)
unfolding latest
latest-IsBefore (at a) (at b) = elim (Bool-cases (leb a b)) [
  | inl low ↦ (inr (ap at (ground arith)), omega arith, omega arith)
  | inr high ↦ (inl (ap at (ground arith)), omega arith, omega arith)
]
latest-IsBefore (at a) never = (inr refl, tt, tt)
latest-IsBefore never (at b) = (inl refl, tt, tt)
latest-IsBefore never never = (inl refl, tt, tt)

refresh_lease-Extends : (old route : Route) → Extends old route (refresh_lease old route)
unfolding refresh_lease
refresh_lease-Extends old route =
    let (one_of, after_old, after_route) = latest-IsBefore old.expires_at route.expires_at in
    record { lease_only = refl; one_of = one_of; after_old = after_old; after_route = after_route }

-- An advertisement is taken exactly when there is no route to the subscriber yet or it improves on
-- the one there; it is then the route. Otherwise the route stays, but for its lease, which an
-- advertisement with the same sequence number and next hop extends to the later of the two ends.
pub update_route-route_to :
    (r : TopicRouter) (topic origin : String) (route : Route)
    → (((update_route r topic origin route).1 ≡ true)
        × (route_to (update_route r topic origin route).0 topic origin ≡ some route)
        × ((old : Route) → route_to r topic origin ≡ some old → Improves old route))
      ⊎ ((old : Route) × ((update_route r topic origin route).1 ≡ false)
          × (route_to r topic origin ≡ some old)
          × ¬ Improves old route
          × (kept : Route) × (route_to (update_route r topic origin route).0 topic origin
              ≡ some kept)
          × ((route.sequence_number ≡ old.sequence_number)
                × (route.next_hop ≡ old.next_hop)
                × Extends old route kept
              ⊎ ((route.sequence_number ≢ old.sequence_number) ⊎ (route.next_hop ≢ old.next_hop))
                × (kept ≡ old)))
unfolding update_route is_stale is_no_shorter
update_route-route_to r topic origin route = elim (Option-cases (route_to r topic origin)) [
  | inl missing ↦ inl (
    ground arith,
    ground (arith, route_to-put_route r topic origin topic origin route),
    λ old p. ground arith,
  )
  | inr (old, found) ↦ elim (Bool-cases (is_stale old route || is_no_shorter old route)) [
    | inl stays ↦
        elim (Bool-cases
          (route.sequence_number == old.sequence_number && eqb route.next_hop old.next_hop)) [
            | inl again ↦ inr (
              old,
              ground arith,
              found,
              ground arith,
              refresh_lease old route,
              ground
                  (arith, route_to-put_route r topic origin topic origin (refresh_lease old route)),
              inl (ground arith, ground arith, refresh_lease-Extends old route),
            )
            | inr other ↦ inr (
              old,
              ground arith,
              found,
              ground arith,
              old,
              ground arith,
              inr (ground arith, refl),
            )
          ]
    | inr better ↦ inl (
      ground arith,
      ground (arith, route_to-put_route r topic origin topic origin route),
      λ o p. ground arith,
    )
  ]
]

-- No other route changes.
pub update_route_ne :
    (r : TopicRouter) (topic origin t o : String) (route : Route)
    → (topic ≢ t) ⊎ (origin ≢ o)
    → route_to (update_route r topic origin route).0 t o ≡ route_to r t o
unfolding update_route is_stale is_no_shorter
update_route_ne r topic origin t o route h = elim (Option-cases (route_to r topic origin)) [
  | inl missing ↦ ground (arith, route_to-put_route r topic origin t o route)
  | inr (old, found) ↦ ground (
    arith,
    route_to-put_route r topic origin t o route,
    route_to-put_route r topic origin t o (refresh_lease old route),
  )
]

-- Removing a subscriber from a topic deletes that route and no other, and reports whether it was
-- there.
pub remove_route-route_to :
    (r : TopicRouter) (topic origin t o : String)
    → (route_to (remove_route r topic origin).0 t o
        ≡ ite (same topic t) (ite (same origin o) none (route_to r t o)) (route_to r t o))
      × (((remove_route r topic origin).1 ≡ false) ↔ (route_to r topic origin ≡ none))
unfolding remove_route table_of lookup
remove_route-route_to r topic origin t o = elim (Option-cases (lookup topic r.routes)) [
  | inl missing ↦ (ground arith, ground arith)
  | inr (table, found) ↦ (
    ground
        (arith, put_table-table_of r topic t (remove origin table), lookup-remove origin o table),
    ground (arith, has_key-lookup origin table, lookup-has_key-none origin table),
  )
]
