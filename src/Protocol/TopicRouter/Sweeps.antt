-- ===== src/Protocol/TopicRouter/Sweeps.antt =====
-- protocol/topicRouter.js: what `clearRoutesForPeer` and `gc` delete and what they leave.
use p2p_app.Prelude.{
  ℕ, ◌≤◌, String, same, ite, ◌≡◌, refl, ap, ◌∙◌, sym, ite-ap, Bool, false, not, List, [], ◌∷◌,
  Option, none, some, Dict, lookup, lookup-keep, has_key, has_key-lookup, Unique, keep,
  if◌then◌else◌, arith,
}
use p2p_app.Protocol.TopicRouter.{
  TopicRouter, Route, Expiry, at, never, is_live, table_of, add_live, live_hops,
  get_peers_for_topic, route_to, with_table, sweep, involves, clear_routes_for_peer, has_expired,
  gc,
}
use p2p_app.Protocol.TopicRouter.Invariant.{IsValid, table_of-Unique, has_key-sweep}

abbrev table_in : String → Dict (Dict Route) → Dict Route
table_in t m = elim (lookup t m) [ none ↦ [] | some table ↦ table ]

table_in-with_table :
    (topic t : String) (table : Dict Route) (m : Dict (Dict Route))
    → has_key topic m ≡ false
    → table_in t (with_table topic table m) ≡ ite (same topic t) table (table_in t m)
unfolding with_table lookup
table_in-with_table topic t [] m h = ground (arith, has_key-lookup topic m)
table_in-with_table topic t (e ∷ table) m h = ground arith

table_in-cons :
    (topic t : String) (table : Dict Route) (m : Dict (Dict Route))
    → table_in t ((topic, table) ∷ m) ≡ ite (same topic t) table (table_in t m)
unfolding lookup
table_in-cons topic t table m = ground arith

table_in-sweep :
    (gone : String × Route → Bool) (t : String) (m : Dict (Dict Route))
    → Unique m
    → table_in t (sweep gone m) ≡ keep (λ e. not (gone e)) (table_in t m)
unfolding sweep lookup keep
table_in-sweep gone t [] u = refl
table_in-sweep gone t ((topic, table) ∷ m) u =
    table_in-with_table topic t (keep (λ e. not (gone e)) table) (sweep gone m)
      (has_key-sweep gone topic m u.0)
    ∙ (ite-ap (same topic t) (keep (λ e. not (gone e))) table (table_in t m) _
          (table_in-sweep gone t m u.1)
        ∙ ap (keep (λ e. not (gone e))) (sym (table_in-cons topic t table m)))

-- The route left by a sweep.
abbrev unless_gone : (String × Route → Bool) → String → Option Route → Option Route
unless_gone gone origin none = none
unless_gone gone origin (some route) = if gone (origin, route) then none else some route

table_of-sweep :
    (gone : String × Route → Bool) (r : TopicRouter) (topic : String)
    → IsValid r
    → table_of (record r { routes = sweep gone r.routes }) topic
      ≡ keep (λ e. not (gone e)) (table_of r topic)
unfolding table_of
table_of-sweep gone r topic v = table_in-sweep gone topic r.routes v.topics

route_to-sweep :
    (gone : String × Route → Bool) (r : TopicRouter) (topic origin : String)
    → IsValid r
    → route_to (record r { routes = sweep gone r.routes }) topic origin
      ≡ unless_gone gone origin (route_to r topic origin)
route_to-sweep gone r topic origin v =
    ap (lookup origin) (table_of-sweep gone r topic v)
    ∙ (lookup-keep (λ e. not (gone e)) origin (table_of r topic) (table_of-Unique r topic v)
        ∙ keep-unless (route_to r topic origin))
  where
    keep-unless :
        (o : Option Route)
        → (elim o as (λ _. Option Route) [
          | none ↦ none
          | some x ↦ if not (gone (origin, x)) then some x else none
        ])
          ≡ unless_gone gone origin o
    keep-unless none = refl
    keep-unless (some x) = ground arith

-- When a peer is gone, exactly the routes through it and the routes to it are deleted.
pub clear_routes_for_peer-route_to :
    (r : TopicRouter) (peer_id topic origin : String)
    → IsValid r
    → route_to (clear_routes_for_peer r peer_id) topic origin
      ≡ unless_gone (involves peer_id) origin (route_to r topic origin)
unfolding clear_routes_for_peer
clear_routes_for_peer-route_to r peer_id topic origin v =
    route_to-sweep (involves peer_id) r topic origin v

-- Garbage collection deletes exactly the routes whose leases have ended.
pub gc-route_to :
    (r : TopicRouter) (now : ℕ) (topic origin : String)
    → IsValid r
    → route_to (gc r now) topic origin
      ≡ unless_gone (has_expired now) origin (route_to r topic origin)
unfolding gc
gc-route_to r now topic origin v = route_to-sweep (has_expired now) r topic origin v

-- A lease that has not ended had not ended before.
pub is_live_mono :
    (now later : ℕ) (e : Expiry) → now ≤ later → is_live now e ≡ false → is_live later e ≡ false
unfolding is_live
is_live_mono now later (at t) h e = ground arith
is_live_mono now later never h e = e

live_hops-keep :
    (now later : ℕ) (table : Dict Route) (peers : List String)
    → now ≤ later
    → live_hops later peers (keep (λ e. not (has_expired now e)) table)
      ≡ live_hops later peers table
unfolding live_hops add_live keep has_expired
live_hops-keep now later [] peers h = refl
live_hops-keep now later ((origin, route) ∷ table) peers h = ground (
  arith,
  live_hops-keep now later table (add_live later peers route) h,
  is_live_mono now later route.expires_at h,
)

-- Garbage collection is not seen by `getPeersForTopic`, then or later: it drops only routes that
-- are skipped anyway, and leaves the order of the rest.
pub gc-get_peers_for_topic :
    (r : TopicRouter) (now later : ℕ) (topic : String)
    → IsValid r
    → now ≤ later
    → get_peers_for_topic (gc r now) topic later ≡ get_peers_for_topic r topic later
unfolding get_peers_for_topic gc
gc-get_peers_for_topic r now later topic v h =
    ap (live_hops later []) (table_of-sweep (has_expired now) r topic v)
    ∙ live_hops-keep now later (table_of r topic) [] h
