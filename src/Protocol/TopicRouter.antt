-- ===== src/Protocol/TopicRouter.antt =====
-- protocol/topicRouter.js: the routing table of subscriptions, by topic and subscriber.
pub mod Invariant
pub mod Updates
pub mod Reads
pub mod Sweeps
mod Tests
use Prim.Native.String.{◌++◌ as text_append}
use p2p_app.Prelude.{
  ℕ, String, same, ite, Bool, true, false, not, ◌&&◌, ◌||◌, List, [], ◌∷◌, Option, none, some, Dict,
  lookup, has_key, insert, remove, add, keep, ltb, leb, eqb, ◌==◌, max, if◌then◌else◌,
}

-- A lease ends at an instant in milliseconds; `never` is `Infinity`.
pub data Expiry : Type 0 where
  at : ℕ → Expiry
  never : Expiry

-- `Math.max(a, b)`.
unfoldable pub latest : Expiry → Expiry → Expiry
latest (at a) (at b) = at (max a b)
latest _ _ = never

-- `now <= expires_at`.
unfoldable pub is_live : ℕ → Expiry → Bool
is_live now (at t) = leb now t
is_live now never = true

pub record Route : Type 0 where
  pub next_hop : String
  pub hop_count : ℕ
  pub sequence_number : ℕ
  pub path : List String
  pub expires_at : Expiry

pub record TopicRouter : Type 0 where
  pub routes : Dict (Dict Route)

unfoldable pub init : TopicRouter
init = record { routes = [] }

-- The routes of a topic; a topic without routes has an empty table.
unfoldable pub table_of : TopicRouter → String → Dict Route
table_of r topic = elim (lookup topic r.routes) [ none ↦ [] | some table ↦ table ]

pub put_route : TopicRouter → String → String → Route → TopicRouter
put_route r topic origin route = record r {
  routes = insert topic (insert origin route (table_of r topic)) r.routes;
}

-- The tests of `updateRoute` on a route that is there already.
unfoldable pub is_stale : Route → Route → Bool
is_stale existing route = ltb route.sequence_number existing.sequence_number

unfoldable pub is_no_shorter : Route → Route → Bool
is_no_shorter existing route =
    route.sequence_number == existing.sequence_number && leb existing.hop_count route.hop_count

-- `existing.expiresAt = Math.max(existing.expiresAt, expiresAt)`.
unfoldable pub refresh_lease : Route → Route → Route
refresh_lease existing route = record existing {
  expires_at = latest existing.expires_at route.expires_at;
}

-- The result is whether the route is new or better, and is to be passed on.
unfoldable pub update_route : TopicRouter → String → String → Route → TopicRouter × Bool
unfolding put_route is_stale is_no_shorter
update_route r topic origin route = elim (lookup origin (table_of r topic)) [
  | none ↦ (put_route r topic origin route, true)
  | some existing ↦
      if is_stale existing route
      then (r, false)
      else if is_no_shorter existing route
      then (if eqb route.next_hop existing.next_hop
          then (put_route r topic origin (refresh_lease existing route), false)
          else (r, false))
      else (put_route r topic origin route, true)
]

unfoldable pub subscribe : TopicRouter → String → String → TopicRouter
subscribe r peer_id topic =
    let route : Route = record {
      next_hop = peer_id;
      hop_count = 0;
      sequence_number = 0;
      path = [];
      expires_at = never;
    } in
    (update_route r topic peer_id route).0

-- A table that became empty is dropped with its topic.
pub put_table : TopicRouter → String → Dict Route → TopicRouter
put_table r topic [] = record r { routes = remove topic r.routes }
put_table r topic (e ∷ table) = record r { routes = insert topic (e ∷ table) r.routes }

unfoldable pub remove_route : TopicRouter → String → String → TopicRouter × Bool
unfolding put_table
remove_route r topic origin = elim (lookup topic r.routes) [
  | none ↦ (r, false)
  | some table ↦ (put_table r topic (remove origin table), has_key origin table)
]

unfoldable pub unsubscribe : TopicRouter → String → String → TopicRouter
unsubscribe r peer_id topic = (remove_route r topic peer_id).0

-- The loop of `getPeersForTopic` over the routes of one topic.
unfoldable pub add_live : ℕ → List String → Route → List String
add_live now peers route = if is_live now route.expires_at then add peers route.next_hop else peers

unfoldable pub live_hops : ℕ → List String → Dict Route → List String
unfolding add_live
live_hops now peers [] = peers
live_hops now peers ((origin, route) ∷ table) = live_hops now (add_live now peers route) table

unfoldable pub get_peers_for_topic : TopicRouter → String → ℕ → List String
unfolding live_hops
get_peers_for_topic r topic now = live_hops now [] (table_of r topic)

-- The loop of `getTopicsForPeer` over all topics.
unfoldable pub topics_with : String → List String → Dict (Dict Route) → List String
topics_with peer_id topics [] = topics
topics_with peer_id topics ((topic, table) ∷ rest) =
    topics_with peer_id (if has_key peer_id table then add topics topic else topics) rest

-- The channel for direct messages to a peer.
unfoldable pub dm_topic : String → String
dm_topic peer_id = text_append "dm:" peer_id

unfoldable pub get_topics_for_peer : TopicRouter → String → List String
unfolding topics_with
get_topics_for_peer r peer_id =
    topics_with peer_id (add (add [] "global") (dm_topic peer_id)) r.routes

-- A topic whose routes are all gone is deleted too.
unfoldable pub with_table : String → Dict Route → Dict (Dict Route) → Dict (Dict Route)
with_table topic [] rest = rest
with_table topic (e ∷ table) rest = (topic, e ∷ table) ∷ rest

-- The two nested loops of `clearRoutesForPeer` and `gc`: the routes that meet `gone` are deleted.
unfoldable pub sweep : (String × Route → Bool) → Dict (Dict Route) → Dict (Dict Route)
unfolding with_table
sweep gone [] = []
sweep gone ((topic, table) ∷ rest) =
    with_table topic (keep (λ e. not (gone e)) table) (sweep gone rest)

-- `route.nextHop === peerId || originPeerId === peerId`.
unfoldable pub involves : String → String × Route → Bool
involves peer_id (origin, route) = eqb route.next_hop peer_id || eqb origin peer_id

unfoldable pub clear_routes_for_peer : TopicRouter → String → TopicRouter
unfolding involves
clear_routes_for_peer r peer_id = record r { routes = sweep (involves peer_id) r.routes }

-- `now > route.expiresAt`.
unfoldable pub has_expired : ℕ → String × Route → Bool
has_expired now (origin, route) = not (is_live now route.expires_at)

unfoldable pub gc : TopicRouter → ℕ → TopicRouter
unfolding has_expired
gc r now = record r { routes = sweep (has_expired now) r.routes }

-- The route to a subscriber of a topic.
abbrev pub route_to : TopicRouter → String → String → Option Route
route_to r topic origin = lookup origin (table_of r topic)
