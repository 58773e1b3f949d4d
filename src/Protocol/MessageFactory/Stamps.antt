-- ===== src/Protocol/MessageFactory/Stamps.antt =====
-- protocol/messageFactory.js: what all messages of a factory have.
use p2p_app.Prelude.{
  ℕ, suc, ◌+◌, ◌≤◌, ◌<◌, String, ◌≡◌, refl, true, List, [], ◌∷◌, pos_part, arith, is_pos, Option,
  none,
}
use p2p_app.Config.{max_ttl, pow_difficulty}
use p2p_app.Protocol.Message.{
  Message, MessageType, chat, ack, heartbeat, peer_exchange, sync_batch, sync_ack, sub_ad, summary,
}
use p2p_app.Protocol.MessageFactory.{
  Tools, MessageFactory, Fresh, Create, create_chat, create_ack, create_heartbeat,
  create_peer_exchange, create_sync_batch, create_sync_ack, create_sub_ad, create_summary, ack_of,
  peers_known, batch_of, batch_done, advertised, summarised, init, create_base_message, create,
}

-- A message made when the clock stood at `clock`: its stamp, its hops and its proof of work.
pub record MadeAt (tools : Tools) (clock : ℕ) (m : Message) : Type 0 where
  pub stamped : m.lamport_timestamp ≡ clock + 1
  pub few_hops : pos_part m.ttl ≤ max_ttl
  pub can_travel : is_pos m.ttl ≡ true
  pub worked : m.pow_nonce ≡ tools.solve_puzzle m.id pow_difficulty

create_base_message-MadeAt :
    (tools : Tools) (f : MessageFactory) (fresh : Fresh) (type : MessageType)
    (sender payload topic : String) (ttl : ℕ) (key : Option String)
    → ttl < max_ttl
    → let made = create_base_message tools f fresh type sender payload topic (suc ttl) key in
      MadeAt tools f.logical_clock made.1 × (made.0.logical_clock ≡ f.logical_clock + 1)
unfolding create_base_message
create_base_message-MadeAt tools f fresh type sender payload topic ttl key h =
    (record { stamped = refl; few_hops = omega (arith, h); can_travel = refl; worked = refl }, refl)

create-MadeAt :
    (tools : Tools) (f : MessageFactory) (fresh : Fresh) (sender : String) (c : Create)
    → MadeAt tools f.logical_clock (create tools f fresh sender c).1
      × ((create tools f fresh sender c).0.logical_clock ≡ f.logical_clock + 1)
unfolding create
create-MadeAt tools f fresh sender (create_chat text topic key) =
    create_base_message-MadeAt tools f fresh chat sender text topic 9 key (omega arith)
create-MadeAt tools f fresh sender (create_ack id) =
    create_base_message-MadeAt tools f fresh ack sender (tools.stringify (ack_of id)) "global" 1
      none (omega arith)
create-MadeAt tools f fresh sender create_heartbeat =
    create_base_message-MadeAt tools f fresh heartbeat sender "ping" "global" 0 none (omega arith)
create-MadeAt tools f fresh sender (create_peer_exchange peers) =
    create_base_message-MadeAt tools f fresh peer_exchange sender
      (tools.stringify (peers_known peers)) "global" 2 none (omega arith)
create-MadeAt tools f fresh sender (create_sync_batch messages) =
    create_base_message-MadeAt tools f fresh sync_batch sender (tools.stringify (batch_of messages))
      "global" 0 none (omega arith)
create-MadeAt tools f fresh sender (create_sync_ack id) =
    create_base_message-MadeAt tools f fresh sync_ack sender (tools.stringify (batch_done id))
      "global" 0 none (omega arith)
create-MadeAt tools f fresh sender (create_sub_ad topic number action path key) =
    let (made, next) =
      create_base_message-MadeAt tools f fresh sub_ad sender
        (tools.stringify (advertised topic number action)) "global" 9 key (omega arith) in
    (
      record {
        stamped = made.stamped;
        few_hops = made.few_hops;
        can_travel = made.can_travel;
        worked = made.worked;
      },
      next,
    )
create-MadeAt tools f fresh sender (create_summary topic text metadata key) =
    create_base_message-MadeAt tools f fresh summary sender
      (tools.stringify (summarised text metadata)) topic 9 key (omega arith)

-- Messages made one after the other.
unfoldable pub create_all : Tools → MessageFactory → String → List (Fresh × Create) → List Message
create_all tools f sender [] = []
create_all tools f sender ((fresh, c) ∷ calls) =
    let (next, m) = create tools f fresh sender c in m ∷ create_all tools next sender calls

-- Each message of a list was made by a clock that starts at `clock` and counts them.
pub InSequence : Tools → ℕ → List Message → Type 0
InSequence tools clock [] = Unit {0}
InSequence tools clock (m ∷ messages) = MadeAt tools clock m × InSequence tools (clock + 1) messages

create_all-InSequence_from :
    (tools : Tools) (f : MessageFactory) (sender : String) (calls : List (Fresh × Create))
    → InSequence tools f.logical_clock (create_all tools f sender calls)
unfolding create_all InSequence
create_all-InSequence_from tools f sender [] = tt
create_all-InSequence_from tools f sender ((fresh, c) ∷ calls) =
    let (made, next) = create-MadeAt tools f fresh sender c in
    let rest = create_all-InSequence_from tools (create tools f fresh sender c).0 sender calls in
    (made, rw next at rest)

-- The messages of a new factory, of whatever kinds, carry the timestamps 1, 2, 3 and so on, at least
-- one hop and at most ten, and a nonce that was searched for their own id.
pub create_all-InSequence :
    (tools : Tools) (sender : String) (calls : List (Fresh × Create))
    → InSequence tools 0 (create_all tools init sender calls)
unfolding init
create_all-InSequence tools sender calls = create_all-InSequence_from tools init sender calls
