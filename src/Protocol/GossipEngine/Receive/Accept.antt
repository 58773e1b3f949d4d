-- ===== src/Protocol/GossipEngine/Receive/Accept.antt =====
-- protocol/gossipEngine.js: a message of the node's own that passes every check.
use p2p_app.Prelude.{
  ◌≡◌, refl, ◌∙◌, ap, true, false, List, [], ◌∷◌, ◌++◌, append_assoc, map, none, some, contains,
  Bool-cases, inl, inr, pred_ℤ, is_pos, add, sym,
}
use mathlib.Core.List.{Memᴰ}
use mathlib.Core.List.Memᴰ.{head, tail}
use mathlib.Core.Path.{subst}
use p2p_app.Config.{pow_difficulty}
use p2p_app.Metrics.{messages_received_total, messages_dropped_ttl}
use p2p_app.Protocol.Message.{Message, is_sub_ad}
use p2p_app.Protocol.GossipEngine.{
  Platform, Instants, GossipEngine, Effect, counted, message_new, Stage, and_then, go_on,
  check_puzzle, check_rate, check_sender, check_duplicate, update_clock,
}
use p2p_app.Protocol.GossipEngine.Forward.{forward_message}
use p2p_app.Protocol.GossipEngine.Receive.{
  checks, receive_message, process, process_gossip, announce,
}
use p2p_app.Security.{SecurityManager, verify_incoming_message}

go_on-and_then :
    (s : Stage) (next : GossipEngine → Message → Stage) (e e2 : GossipEngine) (m m2 : Message)
    (fx fx2 : List Effect)
    → s ≡ go_on e m fx
    → next e m ≡ go_on e2 m2 fx2
    → and_then s next ≡ go_on e2 m2 (fx ++ fx2)
unfolding and_then
go_on-and_then s next e e2 m m2 fx fx2 p q =
    ap (λ (x : Stage). and_then x next) p
    ∙ ap (λ (t : Stage). record t { effects = fx ++ t.effects }) q

mem_last : (xs : List Effect) (x : Effect) → Memᴰ x (xs ++ x ∷ [])
mem_last [] x = head refl
mem_last (y ∷ xs) x = tail (mem_last xs x)

module _ (platform : Platform) (e : GossipEngine) (m : Message) (t : Instants)
    (manager : SecurityManager) where
  -- The engine after the signature and after the duplicate test.
  abbrev verified : GossipEngine
  verified = record e {
    security_manager = some (verify_incoming_message platform.keys manager m).manager;
  }

  abbrev marked : GossipEngine
  marked = record verified {
    lamport_clock = update_clock e.lamport_clock m;
    seen_messages = add e.seen_messages m.id;
  }

  checks-go_on :
      platform.verify_puzzle m.id pow_difficulty m.pow_nonce ≡ true
      → e.security_manager ≡ some manager
      → (verify_incoming_message platform.keys manager m).is_valid ≡ true
      → contains e.seen_messages m.id ≡ false
      → (fx : List Effect) × (checks platform none t e m ≡ go_on marked m fx)
  unfolding checks check_puzzle check_rate check_sender check_duplicate
  checks-go_on solved known valid new =
      let verdict = verify_incoming_message platform.keys manager m in
      let s1 : check_puzzle platform e m ≡ go_on e m (counted messages_received_total ∷ []) =
        rw solved refl in
      let s3 : check_sender platform e m ≡ go_on verified m (map counted verdict.counted) =
        rw (check_sender, known, valid) refl in
      let s4 : check_duplicate verified m ≡ go_on marked m [] = rw new refl in
      (
        _,
        go_on-and_then _ check_duplicate verified marked m m _ []
            (go_on-and_then _ (check_sender platform) e verified m m _ (map counted verdict.counted)
              (go_on-and_then _ (check_rate none t) e e m m _ [] s1 refl) s3)
            s4,
      )

  -- The message as it is passed on and emitted.
  abbrev pub aged : Message
  aged = record m { ttl = pred_ℤ m.ttl }

  process-go_on :
      (e2 : GossipEngine)
      → is_sub_ad m.type ≡ false
      → (fx : List Effect) × (process platform none t e2 m ≡ go_on e2 aged fx)
  unfolding process process_gossip
  process-go_on e2 gossip = elim (Bool-cases (is_pos (pred_ℤ m.ttl))) [
    | inl alive ↦ (forward_message platform e2 aged none t.topic_now, rw (gossip, alive) refl)
    | inr spent ↦ (counted messages_dropped_ttl ∷ [], rw (gossip, spent) refl)
  ]

  -- A message that the node makes itself, with its work done, validly signed and new, is emitted.
  pub receive_message-accepted :
      platform.verify_puzzle m.id pow_difficulty m.pow_nonce ≡ true
      → e.security_manager ≡ some manager
      → (verify_incoming_message platform.keys manager m).is_valid ≡ true
      → contains e.seen_messages m.id ≡ false
      → is_sub_ad m.type ≡ false
      → Memᴰ (message_new aged) (receive_message platform e m none t).1
  unfolding receive_message announce
  receive_message-accepted solved known valid new gossip =
      let (fx, c) = checks-go_on solved known valid new in
      let (more, p) = process-go_on marked gossip in
      let all =
        go_on-and_then (checks platform none t e m)
          (λ e2 m2. and_then (process platform none t e2 m2) announce) marked marked m aged fx
          (more ++ message_new aged ∷ []) c
          (go_on-and_then (process platform none t marked m) announce marked marked aged aged more
            (message_new aged ∷ []) p refl) in
      subst (λ (s : Stage). Memᴰ (message_new aged) s.effects) (sym all)
        (subst (λ (xs : List Effect). Memᴰ (message_new aged) xs)
          (append_assoc fx more (message_new aged ∷ [])) (mem_last (fx ++ more) (message_new aged)))
