-- ===== src/Protocol/TopicRouter/Invariant.antt =====
-- protocol/topicRouter.js: the shape of the table, and that every method keeps it.
use p2p_app.Prelude.{
  ℕ, String, ◌≡◌, refl, ◌≢◌, inl, inr, Bool, false, not, List, [], ◌∷◌, Dict, lookup, insert,
  remove, has_key, keep, All, All-insert, All-remove, All-lookup, Unique, Unique-insert,
  Unique-remove, Unique-keep, Option-cases, arith,
}
use p2p_app.Protocol.TopicRouter.{
  TopicRouter, Route, init, table_of, put_route, put_table, refresh_lease, update_route, subscribe,
  remove_route, unsubscribe, with_table, sweep, clear_routes_for_peer, gc,
}

-- A topic's table has routes, one for each subscriber.
abbrev pub IsTable : String × Dict Route → Type 0
IsTable (topic, table) = (table ≢ []) × Unique table

pub record IsValid (r : TopicRouter) : Type 0 where
  pub topics : Unique r.routes
  pub tables : All IsTable r.routes

pub table_of-Unique : (r : TopicRouter) (topic : String) → IsValid r → Unique (table_of r topic)
unfolding table_of
table_of-Unique r topic v = elim (Option-cases (lookup topic r.routes)) [
  | inl e ↦ rw (e, table_of) tt
  | inr (table, e) ↦
      rw (e, table_of) ((All-lookup (λ t. (t ≢ []) × Unique t) topic r.routes v.tables e).1)
]

insert-ne-nil {ℓ} : {V : Type ℓ} (k : String) (v : V) (m : Dict V) → insert k v m ≢ []
unfolding insert
insert-ne-nil k v [] h = cc
insert-ne-nil k v ((j, w) ∷ m) h = ground arith

put_route-IsValid :
    (r : TopicRouter) (topic origin : String) (route : Route)
    → IsValid r
    → IsValid (put_route r topic origin route)
unfolding put_route
put_route-IsValid r topic origin route v = record {
  topics = Unique-insert topic _ r.routes v.topics;
  tables =
      All-insert IsTable topic _ r.routes
        (λ j p. (
          insert-ne-nil origin route (table_of r topic),
          Unique-insert origin route _ (table_of-Unique r topic v),
        ))
        v.tables;
}

-- `updateRoute` leaves the table as it is or writes one route.
pub update_route_cases {ℓ} :
    (P : TopicRouter → Type ℓ) (r : TopicRouter) (topic origin : String) (route : Route)
    → P r
    → ((x : Route) → P (put_route r topic origin x))
    → P (update_route r topic origin route).0
unfolding update_route
update_route_cases P r topic origin route stay put =
    elim (Option-cases (lookup origin (table_of r topic))) [
      | inl e ↦ rw (e, update_route) (put route)
      | inr (old, e) ↦ ground (arith, put route, put (refresh_lease old route))
    ]

pub update_route-IsValid :
    (r : TopicRouter) (topic origin : String) (route : Route)
    → IsValid r
    → IsValid (update_route r topic origin route).0
update_route-IsValid r topic origin route v =
    update_route_cases IsValid r topic origin route v (λ x. put_route-IsValid r topic origin x v)

put_table-IsValid :
    (r : TopicRouter) (topic : String) (table : Dict Route)
    → Unique table
    → IsValid r
    → IsValid (put_table r topic table)
unfolding put_table
put_table-IsValid r topic [] u v = record {
  topics = Unique-remove topic r.routes v.topics;
  tables = All-remove IsTable topic r.routes v.tables;
}
put_table-IsValid r topic (e ∷ table) u v = record {
  topics = Unique-insert topic _ r.routes v.topics;
  tables = All-insert IsTable topic _ r.routes (λ j p. (λ h. cc, u)) v.tables;
}

pub remove_route-IsValid :
    (r : TopicRouter) (topic origin : String) → IsValid r → IsValid (remove_route r topic origin).0
unfolding remove_route
remove_route-IsValid r topic origin v = elim (Option-cases (lookup topic r.routes)) [
  | inl e ↦ rw (e, remove_route) v
  | inr (table, e) ↦
      rw (e, remove_route)
        (put_table-IsValid r topic (remove origin table)
          (Unique-remove origin table
            ((All-lookup (λ t. (t ≢ []) × Unique t) topic r.routes v.tables e).1))
          v)
]

has_key-with_table :
    (topic t : String) (table : Dict Route) (m : Dict (Dict Route))
    → topic ≢ t
    → has_key t m ≡ false
    → has_key t (with_table topic table m) ≡ false
unfolding has_key with_table
has_key-with_table topic t [] m ne h = h
has_key-with_table topic t (e ∷ table) m ne h = ground arith

pub has_key-sweep :
    (gone : String × Route → Bool) (t : String) (m : Dict (Dict Route))
    → has_key t m ≡ false
    → has_key t (sweep gone m) ≡ false
unfolding has_key sweep
has_key-sweep gone t [] h = refl
has_key-sweep gone t ((topic, table) ∷ m) h =
    has_key-with_table topic t (keep (λ e. not (gone e)) table) (sweep gone m) (ground arith)
      (has_key-sweep gone t m (ground arith))

with_table-Unique :
    (topic : String) (table : Dict Route) (m : Dict (Dict Route))
    → has_key topic m ≡ false
    → Unique m
    → Unique (with_table topic table m)
unfolding with_table
with_table-Unique topic [] m h u = u
with_table-Unique topic (e ∷ table) m h u = (h, u)

sweep-Unique :
    (gone : String × Route → Bool) (m : Dict (Dict Route)) → Unique m → Unique (sweep gone m)
unfolding sweep
sweep-Unique gone [] u = tt
sweep-Unique gone ((topic, table) ∷ m) u =
    with_table-Unique topic (keep (λ e. not (gone e)) table) (sweep gone m)
      (has_key-sweep gone topic m u.0) (sweep-Unique gone m u.1)

with_table-IsTable :
    (topic : String) (table : Dict Route) (m : Dict (Dict Route))
    → Unique table
    → All IsTable m
    → All IsTable (with_table topic table m)
unfolding with_table
with_table-IsTable topic [] m u h = h
with_table-IsTable topic (e ∷ table) m u h = ((λ p. cc, u), h)

sweep-IsTable :
    (gone : String × Route → Bool) (m : Dict (Dict Route))
    → All IsTable m
    → All IsTable (sweep gone m)
unfolding sweep
sweep-IsTable gone [] h = tt
sweep-IsTable gone ((topic, table) ∷ m) h =
    with_table-IsTable topic (keep (λ e. not (gone e)) table) (sweep gone m)
      (Unique-keep (λ e. not (gone e)) table h.0.1) (sweep-IsTable gone m h.1)

sweep-IsValid :
    (gone : String × Route → Bool) (r : TopicRouter)
    → IsValid r
    → IsValid (record r { routes = sweep gone r.routes })
sweep-IsValid gone r v = record {
  topics = sweep-Unique gone r.routes v.topics;
  tables = sweep-IsTable gone r.routes v.tables;
}

pub data Call : Type 0 where
  updates : String → String → Route → Call
  subscribes removes unsubscribes : String → String → Call
  clears : String → Call
  collects : ℕ → Call

unfoldable pub step : TopicRouter → Call → TopicRouter
step r (updates topic origin route) = (update_route r topic origin route).0
step r (removes topic origin) = (remove_route r topic origin).0
step r (subscribes peer_id topic) = subscribe r peer_id topic
step r (unsubscribes peer_id topic) = unsubscribe r peer_id topic
step r (clears peer_id) = clear_routes_for_peer r peer_id
step r (collects now) = gc r now

unfoldable pub run : TopicRouter → List Call → TopicRouter
run r [] = r
run r (c ∷ cs) = run (step r c) cs

step-IsValid : (r : TopicRouter) (c : Call) → IsValid r → IsValid (step r c)
unfolding step subscribe unsubscribe clear_routes_for_peer gc
step-IsValid r (updates topic origin route) v = update_route-IsValid r topic origin route v
step-IsValid r (removes topic origin) v = remove_route-IsValid r topic origin v
step-IsValid r (subscribes peer_id topic) v = update_route-IsValid r topic peer_id _ v
step-IsValid r (unsubscribes peer_id topic) v = remove_route-IsValid r topic peer_id v
step-IsValid r (clears peer_id) v = sweep-IsValid _ r v
step-IsValid r (collects now) v = sweep-IsValid _ r v

run-IsValid_from : (r : TopicRouter) (cs : List Call) → IsValid r → IsValid (run r cs)
unfolding run
run-IsValid_from r [] v = v
run-IsValid_from r (c ∷ cs) v = run-IsValid_from (step r c) cs (step-IsValid r c v)

-- After any calls on a new router, no topic and no subscriber of a topic stands twice, and no topic
-- is kept without routes.
pub run-IsValid : (cs : List Call) → IsValid (run init cs)
unfolding init
run-IsValid cs = run-IsValid_from init cs (record { topics = tt; tables = tt })
