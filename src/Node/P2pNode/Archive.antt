-- ===== src/Node/P2pNode/Archive.antt =====
-- node/index.js: what the engine emits is in the message store.
use p2p_app.Prelude.{
  String, ◌≡◌, refl, sym, ◌∙◌, ap, false, ◌&&◌, List, [], ◌∷◌, Option, some, arith, if-cases,
  Bool-cases, inl, inr, if◌then◌else◌,
}
use mathlib.Core.Path.{subst}
use mathlib.Core.List.{Memᴰ}
use mathlib.Core.List.Memᴰ.{head, tail, not-nil}
use p2p_app.Node.P2pNode.{
  Node, on_message_new, handle_all, count_chat, begin_summary, gossip, Effect, emitted, with_store,
}
use p2p_app.Protocol.GossipEngine
use p2p_app.Protocol.GossipEngine.{Platform, Instants, counted, limited, pooled, message_new}
use p2p_app.Protocol.GossipEngine.Receive.{receive_message}
use p2p_app.Protocol.Message.{Message, is_sub_ad, is_chat}
use p2p_app.Storage.Keys.{Key, id_key, eq_key, make_key, topic_prefix}
use p2p_app.Storage.Level.{Level, Value, reference, written}
use p2p_app.Storage.MessageStore.{MessageStore, message_key, puts, save}
use p2p_app.Storage.MessageStore.Buffer.{view, save-view}
use p2p_app.Storage.SyncManager.{SyncManager}
use p2p_app.Storage.MessageStore.Reads.{puts-id_key}

puts-reference :
    (m : Message) (id : String) (k : Key) (v : Option Value)
    → v ≡ some (reference k)
    → (j : Key) × (written (puts m) (id_key id) v ≡ some (reference j))
unfolding puts written id_key eq_key message_key make_key topic_prefix
puts-reference m id k v e =
    if-cases (λ (o : Option Value). (j : Key) × (o ≡ some (reference j)))
      (eq_key (id_key m.id) (id_key id)) (some (reference (message_key m))) v
      (λ _. (message_key m, refl)) (λ _. (k, e))

module _ {L : Level} where
  -- The index of the store has an entry for the id, once every batch has landed.
  abbrev pub IsIndexed : MessageStore L → String → Type 0
  IsIndexed store id = (k : Key) × (view store (id_key id) ≡ some (reference k))

  save-IsIndexed_self : (store : MessageStore L) (m : Message) → IsIndexed (save L store m) m.id
  save-IsIndexed_self store m =
      (message_key m, save-view store m (id_key m.id) ∙ puts-id_key m (view store (id_key m.id)))

  save-IsIndexed :
      (store : MessageStore L) (m : Message) (id : String)
      → IsIndexed store id
      → IsIndexed (save L store m) id
  save-IsIndexed store m id (k, e) =
      let (j, p) = puts-reference m id k (view store (id_key id)) e in
      (j, save-view store m (id_key id) ∙ p)

  count_chat-store : (s : Node L) (topic : String) → (count_chat L s topic).0.sync ≡ s.sync
  unfolding count_chat begin_summary
  count_chat-store s topic = ground arith

  on_message_new-store :
      (s : Node L) (m : Message)
      → (on_message_new L s m).0.sync.store
        ≡ (if is_sub_ad m.type then s.sync.store else save L s.sync.store m)
  unfolding on_message_new
  on_message_new-store s m = elim (Bool-cases (is_sub_ad m.type)) [
    | inl e ↦ rw e refl
    | inr e ↦ rw e (
        let kept = with_store L s (save L s.sync.store m) in
        if-cases (λ (r : Node L × List Effect). r.0.sync.store ≡ save L s.sync.store m)
          (is_chat m.type && s.enable_auto_summary)
          ((count_chat L kept m.topic).0, emitted m ∷ (count_chat L kept m.topic).1)
          (kept, emitted m ∷ [])
          (λ _. ap (λ (x : SyncManager L). x.store) (count_chat-store kept m.topic)) (λ _. refl))
  ]

  on_message_new-IsIndexed :
      (s : Node L) (m : Message) (id : String)
      → IsIndexed s.sync.store id
      → IsIndexed (on_message_new L s m).0.sync.store id
  on_message_new-IsIndexed s m id h =
      subst (λ store. IsIndexed store id) (sym (on_message_new-store s m))
        (if-cases (λ store. IsIndexed store id) (is_sub_ad m.type) s.sync.store
          (save L s.sync.store m) (λ _. h) (λ _. save-IsIndexed s.sync.store m id h))

  handle_all-kept :
      (s : Node L) (effects : List GossipEngine.Effect) (id : String)
      → IsIndexed s.sync.store id
      → IsIndexed (handle_all L s effects).0.sync.store id
  unfolding handle_all
  handle_all-kept s [] id h = h
  handle_all-kept s (message_new m ∷ effects) id h =
      handle_all-kept (on_message_new L s m).0 effects id (on_message_new-IsIndexed s m id h)
  handle_all-kept s (counted c ∷ effects) id h = handle_all-kept s effects id h
  handle_all-kept s (limited x ∷ effects) id h = handle_all-kept s effects id h
  handle_all-kept s (pooled x ∷ effects) id h = handle_all-kept s effects id h

  handle_all-IsIndexed :
      (s : Node L) (effects : List GossipEngine.Effect) (m : Message)
      → is_sub_ad m.type ≡ false
      → Memᴰ (message_new m) effects
      → IsIndexed (handle_all L s effects).0.sync.store m.id
  unfolding handle_all
  handle_all-IsIndexed s [] m h mem = absurd (not-nil mem)
  handle_all-IsIndexed s (message_new n ∷ effects) m h (head p) =
      let same_one : m ≡ n =
        ap (λ (e : GossipEngine.Effect). elim e [ message_new o ↦ o | _ ↦ m ]) p in
      let no_ad : is_sub_ad n.type ≡ false =
        ap (λ (x : Message). is_sub_ad x.type) (sym same_one) ∙ h in
      let saved_here : (on_message_new L s n).0.sync.store ≡ save L s.sync.store n =
        on_message_new-store s n ∙ rw no_ad refl in
      subst
        (λ (x : Message).
          IsIndexed (handle_all L (on_message_new L s n).0 effects).0.sync.store x.id)
        (sym same_one)
        (handle_all-kept (on_message_new L s n).0 effects n.id (
          subst (λ store. IsIndexed store n.id) (sym saved_here)
            (save-IsIndexed_self s.sync.store n)))
  handle_all-IsIndexed s (message_new n ∷ effects) m h (tail mem) =
      handle_all-IsIndexed (on_message_new L s n).0 effects m h mem
  handle_all-IsIndexed s (counted c ∷ effects) m h (head p) = absurd (grind arith)
  handle_all-IsIndexed s (counted c ∷ effects) m h (tail mem) =
      handle_all-IsIndexed s effects m h mem
  handle_all-IsIndexed s (limited c ∷ effects) m h (head p) = absurd (grind arith)
  handle_all-IsIndexed s (limited c ∷ effects) m h (tail mem) =
      handle_all-IsIndexed s effects m h mem
  handle_all-IsIndexed s (pooled c ∷ effects) m h (head p) = absurd (grind arith)
  handle_all-IsIndexed s (pooled c ∷ effects) m h (tail mem) =
      handle_all-IsIndexed s effects m h mem

  -- When the engine emits a message that is no advertisement while it handles a message, the store
  -- of the node has an entry for its id afterwards, once every batch has landed.
  pub gossip-IsIndexed :
      (platform : Platform) (s : Node L) (m : Message) (from_peer_id : Option String) (t : Instants)
      (announced : Message)
      → is_sub_ad announced.type ≡ false
      → Memᴰ (message_new announced) (receive_message platform s.engine m from_peer_id t).1
      → IsIndexed (gossip L platform s m from_peer_id t).0.sync.store announced.id
  unfolding gossip
  gossip-IsIndexed platform s m from_peer_id t announced h mem =
      let (engine, effects) = receive_message platform s.engine m from_peer_id t in
      handle_all-IsIndexed (record s { engine = engine }) effects announced h mem
