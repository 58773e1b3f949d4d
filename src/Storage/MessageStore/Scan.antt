-- ===== src/Storage/MessageStore/Scan.antt =====
-- storage/messageStore.js: which messages `getByTopic` returns.
use p2p_app.Prelude.{
  ℕ, ◌<◌, ◌^◌, String, ◌≡◌, sym, ◌∙◌, ap, Bool, true, false, List, [], ◌∷◌, ◌++◌, Option, some, ltb,
  if◌then◌else◌, arith, Bool-cases, if-cases, inl, inr, All, All-mono, lt→ltb, ltb→lt,
}
use mathlib.Core.List.{Memᴰ}
use mathlib.Core.List.Memᴰ.{head, tail, not-nil}
use p2p_app.Protocol.Message.{Message}
use p2p_app.Storage.Keys.{Key, id_key, eq_key, topic_prefix, leq, start_key, end_key, codes}
use p2p_app.Storage.Keys.Order.{
  start_key-make_key, make_key-end_key, start_key-longer, longer-end_key,
}
use p2p_app.Storage.Level.{Value, stored, reference, number, written, Level, IsLevel}
use p2p_app.Storage.MessageStore.{
  MessageStore, message_key, puts, await_flush, get_by_topic, collect,
}
use p2p_app.Storage.MessageStore.Buffer.{
  view, Event, saved, timer_fired, batch_landed, run, run-view, puts_of,
}
use p2p_app.Storage.MessageStore.Reads.{Waits, await_flush-get}

-- The keys that begin with 'm' hold messages.
abbrev pub is_stored : Value → Bool
is_stored (stored m) = true
is_stored _ = false

unfoldable pub IsTidy : (Key → Option Value) → Type 0
IsTidy at = (k : Key) (v : Value) → at (109 ∷ k) ≡ some v → is_stored v ≡ true

written-IsTidy :
    (events : List Event) (k : Key) (v : Option Value) (w : Value)
    → ((u : Value) → v ≡ some u → is_stored u ≡ true)
    → written (puts_of events) (109 ∷ k) v ≡ some w
    → is_stored w ≡ true
unfolding written puts_of puts id_key eq_key
written-IsTidy [] k v w tidy e = tidy w e
written-IsTidy (saved m ∷ events) k v w tidy e =
    written-IsTidy events k (if eq_key (message_key m) (109 ∷ k) then some (stored m) else v) w
      (λ u h. elim (Bool-cases (eq_key (message_key m) (109 ∷ k))) [
        | inl same_key ↦ grind arith
        | inr other ↦ tidy u (ground arith)
      ])
      e
written-IsTidy (timer_fired ∷ events) k v w tidy e = written-IsTidy events k v w tidy e
written-IsTidy (batch_landed ∷ events) k v w tidy e = written-IsTidy events k v w tidy e

collect_complete :
    (since : ℕ) (m : Message) (k : Key) (es : List (Key × Value))
    → All (λ (e : Key × Value). is_stored e.1 ≡ true) es
    → since < m.lamport_timestamp
    → Memᴰ (k, stored m) es
    → Memᴰ m (collect since es)
unfolding collect
collect_complete since m k ((j, stored n) ∷ es) all later (head p) =
    let equal : m ≡ n = ap (λ (e : Key × Value). elim e.1 [ stored o ↦ o | _ ↦ n ]) p in
    let newer : ltb since n.lamport_timestamp ≡ true =
      lt→ltb since n.lamport_timestamp (rw (sym equal) later) in
    rw newer (head equal)
collect_complete since m k ((j, stored n) ∷ es) all later (tail h) =
    let rest = collect_complete since m k es all.1 later h in
    if-cases (Memᴰ m) (ltb since n.lamport_timestamp) (n ∷ collect since es) (collect since es)
      (λ _. tail rest) (λ _. rest)
collect_complete since m k ((j, reference i) ∷ es) all later h = absurd (grind arith)
collect_complete since m k ((j, number n) ∷ es) all later h = absurd (grind arith)
collect_complete since m k [] all later h = absurd (not-nil h)

-- Between two keys that begin with 'm' there are only such keys.
between_m :
    (a b k : Key) → leq (109 ∷ a) k ≡ true → leq k (109 ∷ b) ≡ true → (j : Key) × (k ≡ 109 ∷ j)
unfolding leq
between_m a b [] below above = absurd (ground arith)
between_m a b (x ∷ k) below above = (k, ap (λ (c : ℕ). c ∷ k) (grind arith))

pub collect_sound :
    (P : Key × Value → Type 0) (since : ℕ) (es : List (Key × Value))
    → All P es
    → All
        (λ (m : Message). (since < m.lamport_timestamp) × ((k : Key) × P (k, stored m)))
        (collect since es)
unfolding collect
collect_sound P since [] all = tt
collect_sound P since ((k, stored m) ∷ es) all = elim (Bool-cases (ltb since m.lamport_timestamp)) [
  | inl e ↦ rw e ((ltb→lt since m.lamport_timestamp e, (k, all.0)), collect_sound P since es all.1)
  | inr e ↦ rw e (collect_sound P since es all.1)
]
collect_sound P since ((k, reference j) ∷ es) all = tt
collect_sound P since ((k, number n) ∷ es) all = collect_sound P since es all.1

module _ {L : Level} where
  -- A store that starts on a tidy database stays tidy.
  pub run-IsTidy :
      IsLevel L
      → (events : List Event) (s : MessageStore L) → IsTidy (view s)
      → IsTidy (view (run s events))
  unfolding IsTidy
  run-IsTidy lawful events s tidy k v e =
      written-IsTidy events k (view s (109 ∷ k)) v (λ u h. tidy k u h)
        (sym (run-view lawful events s (109 ∷ k)) ∙ e)

  -- The scan returns what a range holds whose bounds lie around the key.
  get_by_topic_complete :
      IsLevel L
      → (s : MessageStore L) (topic : String) (since : ℕ) (k : Key) (m : Message) → Waits s
      → IsTidy (view s)
      → view s k ≡ some (stored m)
      → since < m.lamport_timestamp
      → leq (start_key topic since) k ≡ true
      → leq k (end_key topic) ≡ true
      → Memᴰ m (get_by_topic L true s topic since).1
  unfolding get_by_topic IsTidy start_key end_key topic_prefix
  get_by_topic_complete lawful s topic since k m waits tidy at later below above =
      let db = (await_flush L true s).db in
      collect_complete since m k (L.range db (start_key topic since) (end_key topic))
        (All-mono
          (λ (e : Key × Value).
            (L.get db e.0 ≡ some e.1)
            × (leq (start_key topic since) e.0 ≡ true)
            × (leq e.0 (end_key topic) ≡ true))
          (λ (e : Key × Value). is_stored e.1 ≡ true)
          (λ e h.
            let (j, p) = between_m _ _ e.0 h.1 h.2 in
            tidy j e.1 (rw (sym p) (sym (await_flush-get lawful s e.0 waits) ∙ h.0)))
          (L.range db (start_key topic since) (end_key topic))
          (lawful.range_sound db (start_key topic since) (end_key topic)))
        later
        (lawful.range_complete db (start_key topic since) (end_key topic) k (stored m)
          (await_flush-get lawful s k waits ∙ at) below above)

  -- Over a lawful database whose keys in 'm' hold messages, when the read waits for all writes and
  -- they succeed, `getByTopic` returns every message that stands under its own key, belongs to the
  -- topic and is later than the bound, its timestamp having at most fifteen digits.
  pub mem-get_by_topic :
      IsLevel L
      → (s : MessageStore L) (since : ℕ) (m : Message) → Waits s
      → IsTidy (view s)
      → view s (message_key m) ≡ some (stored m)
      → since < m.lamport_timestamp
      → m.lamport_timestamp < 10 ^ 15
      → Memᴰ m (get_by_topic L true s m.topic since).1
  unfolding message_key
  mem-get_by_topic lawful s since m waits tidy at later small =
      get_by_topic_complete lawful s m.topic since (message_key m) m waits tidy at later
        (start_key-make_key m.topic m.id since m.lamport_timestamp later small)
        (make_key-end_key m.topic m.id m.lamport_timestamp small)

  -- Under the same conditions, with a bound of at most fifteen digits, the result also has every
  -- later message whose topic is another one: the given topic followed by a colon and a character
  -- between ':' and '~', which all letters are.
  pub subtopic-get_by_topic :
      IsLevel L
      → (s : MessageStore L) (topic : String) (since c : ℕ) (rest : Key) (m : Message) → Waits s
      → IsTidy (view s)
      → view s (message_key m) ≡ some (stored m)
      → since < m.lamport_timestamp
      → since < 10 ^ 15
      → codes m.topic ≡ codes topic ++ 58 ∷ c ∷ rest
      → 57 < c
      → c < 126
      → Memᴰ m (get_by_topic L true s topic since).1
  unfolding message_key
  subtopic-get_by_topic lawful s topic since c rest m waits tidy at later small longer low high =
      get_by_topic_complete lawful s topic since (message_key m) m waits tidy at later
        (start_key-longer topic m.topic m.id since c m.lamport_timestamp rest small low longer)
        (longer-end_key topic m.topic m.id c m.lamport_timestamp rest high longer)
