-- ===== src/Node/State/SeenMessages.antt =====
-- node/state.js: the cache of seen messages stays bounded and forgets only old ones.
use p2p_app.Prelude.{
  ℕ, zero, suc, ◌+◌, ◌-◌, ◌≤◌, String, ◌≡◌, refl, ◌∙◌, ap, true, false, List, [], ◌∷◌, ◌++◌, add,
  contains, contains-append, drop, length, length-append, length-drop, Distinct, Distinct-add,
  drop-append, append_assoc, ltb, if◌then◌else◌, if-cases, ltb→lt, arith, Bool-cases, inl, inr,
}
use p2p_app.Node.State.{
  State, init, max_seen_messages, cleanup_count, clean_up, add_seen_message, has_seen_message,
}

-- Ids that come in one after the other.
unfoldable pub add_all_seen : State → List String → State
add_all_seen s [] = s
add_all_seen s (id ∷ ids) = add_all_seen (add_seen_message s id) ids

pub record IsValid (s : State) : Type 0 where
  pub bounded : length s.seen_messages ≤ max_seen_messages
  pub distinct : Distinct s.seen_messages

length-add-le : (xs : List String) (x : String) → length (add xs x) ≤ suc (length xs)
unfolding add
length-add-le xs x = ground (arith, length-append xs (x ∷ []))

Distinct-drop : (n : ℕ) (xs : List String) → Distinct xs → Distinct (drop n xs)
Distinct-drop zero xs d = d
Distinct-drop (suc n) [] d = tt
Distinct-drop (suc n) (x ∷ xs) d = Distinct-drop n xs d.1

add_seen_message-IsValid : (s : State) (id : String) → IsValid s → IsValid (add_seen_message s id)
unfolding add_seen_message clean_up
add_seen_message-IsValid s id v =
    let seen = add s.seen_messages id in
    let longer = length-add-le s.seen_messages id in
    let distinct = Distinct-add s.seen_messages id v.distinct in
    record {
      bounded =
          if-cases (λ (xs : List String). length xs ≤ max_seen_messages)
            (ltb max_seen_messages (length seen)) (drop cleanup_count seen) seen
            (λ h. omega (arith, v.bounded, longer, length-drop cleanup_count seen))
            (λ h. ground arith);
      distinct =
          if-cases Distinct (ltb max_seen_messages (length seen)) _ _
            (λ h. Distinct-drop cleanup_count seen distinct) (λ h. distinct);
    }

add_all_seen-IsValid : (s : State) (ids : List String) → IsValid s → IsValid (add_all_seen s ids)
unfolding add_all_seen
add_all_seen-IsValid s [] v = v
add_all_seen-IsValid s (id ∷ ids) v =
    add_all_seen-IsValid (add_seen_message s id) ids (add_seen_message-IsValid s id v)

-- However many messages are seen, the cache of a new store never holds more than 10000 ids, none of
-- them twice.
pub add_all_seen-init-IsValid : (ids : List String) → IsValid (add_all_seen init ids)
unfolding init
add_all_seen-init-IsValid ids =
    add_all_seen-IsValid init ids (record { bounded = omega arith; distinct = tt })

-- The set is `older` followed by the ids that came at or after `id`, at most `n` of them.
record Recent (id : String) (n : ℕ) (s : State) : Type 0 where
  older : List String
  newer : List String
  split : s.seen_messages ≡ older ++ newer
  there : contains newer id ≡ true
  few : length newer ≤ n

-- The set after the clean-up, when it gets too long.
bound : List String → List String
bound seen = if ltb max_seen_messages (length seen) then drop cleanup_count seen else seen

bound-Recent :
    (id : String) (n : ℕ) (s : State) (older newer : List String)
    → s.seen_messages ≡ bound (older ++ newer)
    → contains newer id ≡ true
    → length newer ≤ n
    → n ≤ max_seen_messages - cleanup_count + 1
    → Recent id n s
unfolding bound
bound-Recent id n s older newer split there few small =
    elim (Bool-cases (ltb max_seen_messages (length (older ++ newer)))) [
      | inl long ↦ record {
        older = drop cleanup_count older;
        newer = newer;
        split =
            split
            ∙ (ground arith
                ∙ drop-append cleanup_count older newer (
                    omega (
                      arith,
                      small,
                      few,
                      ltb→lt max_seen_messages (length (older ++ newer)) long,
                      length-append older newer,
                    )));
        there = there;
        few = few;
      }
      | inr fits ↦ record {
        older = older;
        newer = newer;
        split = split ∙ ground arith;
        there = there;
        few = few;
      }
    ]

add_seen_message-bound :
    (s : State) (id : String)
    → (add_seen_message s id).seen_messages ≡ bound (add s.seen_messages id)
unfolding add_seen_message clean_up bound
add_seen_message-bound s id = refl

add_new : (xs : List String) (x : String) → contains xs x ≡ false → add xs x ≡ xs ++ x ∷ []
unfolding add
add_new xs x h = ground arith

add_old : (xs : List String) (x : String) → contains xs x ≡ true → add xs x ≡ xs
unfolding add
add_old xs x h = ground arith

add_seen_message-Recent :
    (id x : String) (n : ℕ) (s : State)
    → n + 1 ≤ max_seen_messages - cleanup_count + 1
    → Recent id n s
    → Recent id (n + 1) (add_seen_message s x)
unfolding contains
add_seen_message-Recent id x n s small r = elim (Bool-cases (contains s.seen_messages x)) [
  | inl old ↦
      bound-Recent id (n + 1) (add_seen_message s x) r.older r.newer
        (add_seen_message-bound s x ∙ ap bound (add_old s.seen_messages x old ∙ r.split)) r.there
        (omega (arith, r.few)) small
  | inr new ↦
      bound-Recent id (n + 1) (add_seen_message s x) r.older (r.newer ++ x ∷ [])
        (add_seen_message-bound s x
          ∙ ap bound (
              add_new s.seen_messages x new
              ∙ (ap (λ xs. xs ++ x ∷ []) r.split ∙ append_assoc r.older r.newer (x ∷ []))))
        (ground (arith, contains-append r.newer (x ∷ []) id, r.there))
        (omega (arith, r.few, length-append r.newer (x ∷ []))) small
]

add_all_seen-Recent :
    (id : String) (ids : List String) (n : ℕ) (s : State)
    → n + length ids ≤ max_seen_messages - cleanup_count + 1
    → Recent id n s
    → Recent id (n + length ids) (add_all_seen s ids)
unfolding add_all_seen
add_all_seen-Recent id [] n s small r = let same_n : n + 0 ≡ n = omega arith in rw same_n r
add_all_seen-Recent id (x ∷ ids) n s small r =
    let step : n + length (x ∷ ids) ≡ n + 1 + length ids = omega arith in
    rw step (
      add_all_seen-Recent id ids (n + 1) (add_seen_message s x) (omega arith)
        (add_seen_message-Recent id x n s (omega arith) r))

-- A message that is new is still known as seen after any 9000 further ones: the clean-up forgets
-- none of the latest 9001.
pub add_all_seen-has_seen_message :
    (s : State) (id : String) (ids : List String)
    → has_seen_message s id ≡ false
    → length ids ≤ max_seen_messages - cleanup_count
    → has_seen_message (add_all_seen (add_seen_message s id) ids) id ≡ true
unfolding has_seen_message contains
add_all_seen-has_seen_message s id ids new few =
    let first =
      bound-Recent id 1 (add_seen_message s id) s.seen_messages (id ∷ [])
        (add_seen_message-bound s id ∙ ap bound (add_new s.seen_messages id new)) (ground arith)
        (omega arith) (omega arith) in
    let r = add_all_seen-Recent id ids 1 (add_seen_message s id) (omega arith) first in
    ground (arith, r.split, r.there, contains-append r.older r.newer id)
