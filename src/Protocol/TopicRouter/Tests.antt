-- ===== src/Protocol/TopicRouter/Tests.antt =====
-- Runs of protocol/topicRouter.js.
use p2p_app.Prelude.{
  ◌≢◌, same, ◌≡◌, refl, ◌⊎◌, ◌↔◌, true, false, List, [], ◌∷◌, none, some, lookup, insert, contains,
  add,
}
use p2p_app.Protocol.TopicRouter.{
  Route, at, init, update_route, remove_route, table_of, route_to, is_live, get_peers_for_topic,
  is_stale, is_no_shorter,
}
use p2p_app.Protocol.TopicRouter.Invariant.{IsValid, Call, updates, step, run, run-IsValid}
use p2p_app.Protocol.TopicRouter.Updates

abbrev near : Route
near = record {
  next_hop = "b";
  hop_count = 1;
  sequence_number = 4;
  path = "b" ∷ [];
  expires_at = at 30;
}

abbrev far : Route
far = record {
  next_hop = "c";
  hop_count = 2;
  sequence_number = 4;
  path = "b" ∷ "c" ∷ [];
  expires_at = at 90;
}

abbrev calls : List Call
calls = updates "news" "a" near ∷ updates "news" "d" far ∷ []

opened : Unit {0}
unfolding run step update_route insert lookup same table_of init is_stale is_no_shorter remove_route
opened = tt

table-IsValid : IsValid (run init calls)
table-IsValid = run-IsValid calls

peers_over_time :
    (get_peers_for_topic (run init calls) "news" 30 ≡ "b" ∷ "c" ∷ [])
    × (get_peers_for_topic (run init calls) "news" 31 ≡ "c" ∷ [])
unfolding opened get_peers_for_topic is_live add contains
peers_over_time = (refl, refl)

-- The longer path to the same subscriber is refused.
refused : (update_route (run init calls) "news" "a" far).1 ≡ false
unfolding opened
refused = refl

update_route-route_to_example :
    (((update_route init "news" "a" near).1 ≡ true)
      × (route_to (update_route init "news" "a" near).0 "news" "a" ≡ some near)
      × ((old : Route) → route_to init "news" "a" ≡ some old → Updates.Improves old near))
    ⊎ ((old : Route) × ((update_route init "news" "a" near).1 ≡ false)
        × (route_to init "news" "a" ≡ some old)
        × ¬ Updates.Improves old near
        × (kept : Route) × (route_to (update_route init "news" "a" near).0 "news" "a" ≡ some kept)
        × ((near.sequence_number ≡ old.sequence_number)
              × (near.next_hop ≡ old.next_hop)
              × Updates.Extends old near kept
            ⊎ ((near.sequence_number ≢ old.sequence_number) ⊎ (near.next_hop ≢ old.next_hop))
              × (kept ≡ old)))
update_route-route_to_example = Updates.update_route-route_to init "news" "a" near

remove_route-route_to_example :
    (route_to (remove_route (run init calls) "news" "a").0 "news" "d"
      ≡ route_to (run init calls) "news" "d")
    × (((remove_route (run init calls) "news" "a").1 ≡ false)
        ↔ (route_to (run init calls) "news" "a" ≡ none))
unfolding same
remove_route-route_to_example = Updates.remove_route-route_to (run init calls) "news" "a" "news" "d"
