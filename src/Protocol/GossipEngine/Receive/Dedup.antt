-- ===== src/Protocol/GossipEngine/Receive/Dedup.antt =====
-- protocol/gossipEngine.js: the seen set, and that the node layer gets each message once.
use p2p_app.Prelude.{
  String, ◌≡◌, ◌≢◌, refl, ◌∙◌, ◌⊎◌, true, false, List, [], ◌∷◌, ◌++◌, Option, add, contains,
  contains-add, contains-append, Distinct, if-cases, arith, inl, inr,
}
use p2p_app.Protocol.Message.{Message}
use p2p_app.Protocol.GossipEngine.{
  Platform, Instants, GossipEngine, Effect, message_new, Stage, and_then,
}
use p2p_app.Protocol.GossipEngine.Receive.{process, announce, checks, receive_message, Call, run}
use p2p_app.Protocol.GossipEngine.Receive.Gate.{Checked, checks-Checked}
use p2p_app.Protocol.GossipEngine.Receive.Announced.{
  announced_ids, announced_ids-append, announced_ids-outward, Processed, process-Processed,
}

-- What one call announces: nothing, or its message, if this was not seen and now is.
Announces : GossipEngine → String → GossipEngine × List Effect → Type 0
Announces e id (after, effects) =
    ((announced_ids effects ≡ []) × (after.seen_messages ≡ e.seen_messages))
    ⊎ (((announced_ids effects ≡ []) ⊎ (announced_ids effects ≡ id ∷ []))
        × (contains e.seen_messages id ≡ false)
        × (after.seen_messages ≡ add e.seen_messages id))

announce_after :
    (e : GossipEngine) (m : Message) (q : Stage)
    → Processed e m q
    → ((announced_ids (and_then q announce).effects ≡ [])
        ⊎ (announced_ids (and_then q announce).effects ≡ m.id ∷ []))
      × ((and_then q announce).engine.seen_messages ≡ e.seen_messages)
unfolding and_then announce
announce_after e m q p =
    if-cases
      (λ (a : Stage).
        ((announced_ids a.effects ≡ []) ⊎ (announced_ids a.effects ≡ m.id ∷ []))
        × (a.engine.seen_messages ≡ e.seen_messages))
      q.goes_on (record q { effects = q.effects ++ message_new q.message ∷ []; goes_on = true }) q
      (λ h. (
        inr (
            announced_ids-append q.effects (message_new q.message ∷ [])
            ∙ ground (arith, p.none_announced, p.same_message_id)),
        p.same_seen,
      ))
      (λ h. (inl p.none_announced, p.same_seen))

Announces-Checked :
    (e : GossipEngine) (m : Message) (s : Stage) (next : GossipEngine → Message → Stage)
    → Checked e m s
    → ((e2 : GossipEngine) (m2 : Message) → Processed e2 m2 (next e2 m2))
    → let a = and_then s (λ e2 m2. and_then (next e2 m2) announce) in
      Announces e m.id (a.engine, a.effects)
unfolding Announces and_then
Announces-Checked e m s next c processed =
    let quiet : announced_ids s.effects ≡ [] =
      ground (arith, announced_ids-outward s.effects, c.silent) in
    let rest = and_then (next s.engine s.message) announce in
    let (ids, kept) =
      announce_after s.engine s.message (next s.engine s.message) (processed s.engine s.message) in
    let ids2 : (announced_ids (s.effects ++ rest.effects) ≡ [])
        ⊎ (announced_ids (s.effects ++ rest.effects) ≡ m.id ∷ []) =
      ground (arith, announced_ids-append s.effects rest.effects, quiet, c.same_message) in
    if-cases (λ (a : Stage). Announces e m.id (a.engine, a.effects)) s.goes_on
      (record rest { effects = s.effects ++ rest.effects }) s
      (λ goes. elim c.seen [
        | inr (stops, same_set) ↦ absurd (ground arith)
        | inl (goes2, new, seen) ↦ inr (ids2, new, kept ∙ seen)
      ])
      (λ stops. elim c.seen [
        | inr (stops2, same_set) ↦ inl (quiet, same_set)
        | inl (goes, new, seen) ↦ absurd (ground arith)
      ])

receive_message-Announces :
    (platform : Platform) (e : GossipEngine) (m : Message) (from_peer_id : Option String)
    (t : Instants)
    → Announces e m.id (receive_message platform e m from_peer_id t)
unfolding receive_message
receive_message-Announces platform e m from_peer_id t =
    Announces-Checked e m (checks platform from_peer_id t e m) (process platform from_peer_id t)
      (checks-Checked platform from_peer_id t e m) (process-Processed platform from_peer_id t)

-- A call changes nothing about the other ids.
pub receive_message-seen_ne :
    (platform : Platform) (e : GossipEngine) (m : Message) (from_peer_id : Option String)
    (t : Instants) (x : String)
    → m.id ≢ x
    → contains (receive_message platform e m from_peer_id t).0.seen_messages x
      ≡ contains e.seen_messages x
unfolding Announces contains
receive_message-seen_ne platform e m from_peer_id t x other =
    elim (receive_message-Announces platform e m from_peer_id t) [
      | inl (quiet, same_set) ↦ rw same_set refl
      | inr (ids, new, seen) ↦ rw seen (ground (arith, contains-add e.seen_messages m.id x))
    ]

-- A set of seen ids only grows, and an id announced by a run was new to it.
Grows : GossipEngine → GossipEngine × List Effect → Type 0
Grows e (after, effects) =
    (x : String)
    → (contains e.seen_messages x ≡ true → contains after.seen_messages x ≡ true)
      × (contains (announced_ids effects) x ≡ true
          → (contains e.seen_messages x ≡ false) × (contains after.seen_messages x ≡ true))

Announces-Grows :
    (e : GossipEngine) (id : String) (r : GossipEngine × List Effect) → Announces e id r → Grows e r
unfolding Announces Grows contains
Announces-Grows e id (after, effects) a x = elim a [
  | inl (quiet, same_set) ↦ ground arith
  | inr (inl quiet, new, seen) ↦ ground (arith, contains-add e.seen_messages id x)
  | inr (inr once, new, seen) ↦ ground (arith, contains-add e.seen_messages id x)
]

Announces-Distinct :
    (e : GossipEngine) (id : String) (r : GossipEngine × List Effect)
    → Announces e id r
    → Distinct (announced_ids r.1)
unfolding Announces contains
Announces-Distinct e id (after, effects) a = elim a [
  | inl (quiet, same_set) ↦ rw quiet tt
  | inr (inl quiet, new, seen) ↦ rw quiet tt
  | inr (inr once, new, seen) ↦ rw once (refl, tt)
]

Distinct-append :
    (xs ys : List String)
    → Distinct xs
    → Distinct ys
    → ((x : String) → contains ys x ≡ true → contains xs x ≡ false)
    → Distinct (xs ++ ys)
unfolding contains
Distinct-append [] ys dx dy apart = dy
Distinct-append (x ∷ xs) ys dx dy apart = (
  ground (arith, contains-append xs ys x, apart x),
  Distinct-append xs ys dx.1 dy (λ y h. ground (arith, apart y h)),
)

run-Grows :
    (platform : Platform) (e : GossipEngine) (calls : List Call)
    → Grows e (run platform e calls) × Distinct (announced_ids (run platform e calls).1)
unfolding run Grows contains
run-Grows platform e [] = (λ x. (λ h. h, λ h. cc), tt)
run-Grows platform e (c ∷ calls) =
    let r = receive_message platform e c.message c.from_peer_id c.instants in
    let rest = run platform r.0 calls in
    let a = receive_message-Announces platform e c.message c.from_peer_id c.instants in
    let first = Announces-Grows e c.message.id r a in
    let (later, distinct) = run-Grows platform r.0 calls in
    (
      λ x. ground (
        arith,
        first x,
        later x,
        announced_ids-append r.1 rest.1,
        contains-append (announced_ids r.1) (announced_ids rest.1) x,
      ),
      rw (announced_ids-append r.1 rest.1) (
          Distinct-append (announced_ids r.1) (announced_ids rest.1)
            (Announces-Distinct e c.message.id r a) distinct
            (λ x h. ground (arith, first x, later x))),
    )

-- However often and by whatever neighbours a message is delivered, the engine emits it to the node
-- layer at most once: in a run of calls no id is announced twice, and none that was seen before.
pub run-announced_ids :
    (platform : Platform) (e : GossipEngine) (calls : List Call)
    → Distinct (announced_ids (run platform e calls).1)
      × ((id : String)
          → contains (announced_ids (run platform e calls).1) id ≡ true
          → (contains e.seen_messages id ≡ false)
            × (contains (run platform e calls).0.seen_messages id ≡ true))
unfolding Grows
run-announced_ids platform e calls =
    let (grows, distinct) = run-Grows platform e calls in (distinct, λ id h. (grows id).1 h)
