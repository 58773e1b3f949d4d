-- ===== src/Storage/SyncManager/Replay.antt =====
-- storage/syncManager.js: a batch against the messages that the gossip engine has seen.
use p2p_app.Prelude.{
  ◌≡◌, refl, ap, String, true, false, List, [], ◌∷◌, ◌++◌, some, All, Bool-cases, inl, inr,
  contains, Distinct, keep, not, map, ◌≢◌, arith,
}
use p2p_app.Protocol.Message.{Message}
use p2p_app.Protocol.GossipEngine
use p2p_app.Protocol.GossipEngine.{Platform, Instants, GossipEngine}
use p2p_app.Protocol.GossipEngine.Receive.{receive_message, Call, run}
use p2p_app.Protocol.GossipEngine.Receive.Dedup.{receive_message-seen_ne}
use p2p_app.Protocol.MessageFactory.{Tools, MessageFactory, Fresh, create, create_sync_ack}
use p2p_app.Storage.Level.{Level}
use p2p_app.Storage.SyncManager.{
  SyncManager, sent, gossiped, receive_all, receive_sync_batch, listed,
}

abbrev pub ids_of : List (Message × Instants) → List String
ids_of [] = []
ids_of ((m, t) ∷ ms) = m.id ∷ ids_of ms

abbrev pub calls_of : String → List (Message × Instants) → List Call
calls_of from_peer_id [] = []
calls_of from_peer_id ((m, t) ∷ ms) =
    record { message = m; from_peer_id = some from_peer_id; instants = t }
    ∷ calls_of from_peer_id ms

-- The messages whose ids are not among `seen`.
abbrev pub unseen : List String → List (Message × Instants) → List (Message × Instants)
unseen seen ms = keep (λ (x : Message × Instants). not (contains seen x.0.id)) ms

-- The messages left depend on their own ids alone.
unseen-ne :
    (id : String) (before after : List String) (ms : List (Message × Instants))
    → ((x : String) → id ≢ x → contains after x ≡ contains before x)
    → contains (ids_of ms) id ≡ false
    → unseen after ms ≡ unseen before ms
unfolding keep contains
unseen-ne id before after [] others absent = refl
unseen-ne id before after ((m, t) ∷ ms) others absent =
    ground (arith, others m.id, unseen-ne id before after ms others (ground arith))

-- The messages of a batch reach the engine in order, those that it had seen before left out.
receive_all-run :
    (platform : Platform) (e : GossipEngine) (from_peer_id : String)
    (ms : List (Message × Instants))
    → Distinct (ids_of ms)
    → receive_all platform e from_peer_id ms
      ≡ run platform e (calls_of from_peer_id (unseen e.seen_messages ms))
unfolding receive_all run keep
receive_all-run platform e from_peer_id [] distinct = refl
receive_all-run platform e from_peer_id ((m, t) ∷ ms) distinct =
    elim (Bool-cases (contains e.seen_messages m.id)) [
      | inl seen ↦ rw seen (receive_all-run platform e from_peer_id ms distinct.1)
      | inr new ↦
          let r = receive_message platform e m (some from_peer_id) t in
          let same_rest : unseen r.0.seen_messages ms ≡ unseen e.seen_messages ms =
            unseen-ne m.id e.seen_messages r.0.seen_messages ms
              (receive_message-seen_ne platform e m (some from_peer_id) t) distinct.0 in
          let rest : receive_all platform r.0 from_peer_id ms
              ≡ run platform r.0 (calls_of from_peer_id (unseen e.seen_messages ms)) =
            rw (← same_rest) (receive_all-run platform r.0 from_peer_id ms distinct.1) in
          rw new (ap (λ (x : GossipEngine × List GossipEngine.Effect). (x.0, r.1 ++ x.1)) rest)
    ]

-- A batch in which no id stands twice: the engine is left as by a run of exactly the messages that it
-- had not seen before, in the order of the batch, and those that it had seen cost it nothing, not even
-- the rate of the neighbour; what the run does comes first, then the batch is acknowledged.
pub receive_sync_batch-run :
    {L : Level} (platform : Platform) (tools : Tools) (s : SyncManager L) (factory : MessageFactory)
    (e : GossipEngine) (fresh : Fresh) (sync_batch : Message) (ms : List (Message × Instants))
    (from_peer_id : String)
    → Distinct (ids_of ms)
    → let (after, effects) =
        receive_sync_batch L platform tools s
          (factory, e)
          fresh
          sync_batch
          (listed ms)
          from_peer_id in
      let received = run platform e (calls_of from_peer_id (unseen e.seen_messages ms)) in
      let ack = (create tools factory fresh s.local_peer_id (create_sync_ack sync_batch.id)).1 in
      (after.1 ≡ received.0) × (effects ≡ map gossiped received.1 ++ sent from_peer_id ack ∷ [])
unfolding receive_sync_batch
receive_sync_batch-run platform tools s factory e fresh sync_batch ms from_peer_id distinct =
    rw (receive_all-run platform e from_peer_id ms distinct) (refl, refl)

receive_all-seen :
    (platform : Platform) (e : GossipEngine) (from_peer_id : String)
    (ms : List (Message × Instants))
    → All (λ (x : Message × Instants). contains e.seen_messages x.0.id ≡ true) ms
    → receive_all platform e from_peer_id ms ≡ (e, [])
unfolding receive_all
receive_all-seen platform e from_peer_id [] seen = refl
receive_all-seen platform e from_peer_id ((m, t) ∷ ms) seen =
    rw seen.0 (receive_all-seen platform e from_peer_id ms seen.1)

-- A batch whose messages have all been seen changes nothing, but is acknowledged.
pub receive_sync_batch-seen :
    {L : Level} (platform : Platform) (tools : Tools) (s : SyncManager L) (factory : MessageFactory)
    (e : GossipEngine) (fresh : Fresh) (sync_batch : Message) (ms : List (Message × Instants))
    (from_peer_id : String)
    → All (λ (x : Message × Instants). contains e.seen_messages x.0.id ≡ true) ms
    → let (after, effects) =
        receive_sync_batch L platform tools s
          (factory, e)
          fresh
          sync_batch
          (listed ms)
          from_peer_id in
      let ack = (create tools factory fresh s.local_peer_id (create_sync_ack sync_batch.id)).1 in
      (after.1 ≡ e) × (effects ≡ sent from_peer_id ack ∷ [])
unfolding receive_sync_batch
receive_sync_batch-seen platform tools s factory e fresh sync_batch ms from_peer_id seen =
    rw (receive_all-seen platform e from_peer_id ms seen) (refl, refl)
