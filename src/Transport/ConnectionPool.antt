-- ===== src/Transport/ConnectionPool.antt =====
-- transport/connectionPool.js: the connections by peer. A client object is known here by a handle
-- and by what the pool reads of it; what is done to clients and listeners is a list of effects.
pub mod Broadcast
pub mod Limits
mod Tests
use p2p_app.Prelude.{
  ℕ, String, Bool, true, false, not, List, [], ◌∷◌, ◌++◌, map, Option, none, some, Dict, lookup,
  has_key, insert, remove, keys, contains, add_all, length, leb, if◌then◌else◌,
}
use p2p_app.Config.{max_peers}
use p2p_app.Protocol.Message.{Message}

-- A `WSClient`: `is_connecting` says that its socket's `readyState` is 0.
pub record Client : Type 0 where
  pub handle : ℕ
  pub is_connected : Bool
  pub is_connecting : Bool

pub record ConnectionPool : Type 0 where
  pub local_peer_id : String
  pub outbound : Dict Client
  -- The handle of the inbound client of each peer.
  pub inbound : Dict ℕ

pub data Effect : Type 0 where
  -- `client.connect()`, `client.disconnect()` and `client.close()`, by handle.
  dialed hung_up closed : ℕ → Effect
  -- `client.send(message)` on an outbound or an inbound client.
  sent_out sent_in : String → Message → Effect
  -- `emit`.
  peer_connected : String → List String → Effect
  peer_failed peer_disconnected : String → Effect
  message_received : Message → String → Effect

unfoldable pub init : String → ConnectionPool
init local_peer_id = record { local_peer_id = local_peer_id; outbound = []; inbound = [] }

-- `handle` is that of the new client.
unfoldable pub connect : ConnectionPool → String → ℕ → ConnectionPool × List Effect
connect pool peer_id handle =
    if has_key peer_id pool.outbound
    then (pool, [])
    else if leb max_peers (length pool.outbound)
    then (pool, [])
    else (
      record pool {
        outbound =
            insert peer_id (record { handle = handle; is_connected = false; is_connecting = true })
              pool.outbound;
      },
      dialed handle ∷ [],
    )

-- The 'connected', 'message' and 'failed' events of an outbound client.
unfoldable pub on_connected : ConnectionPool → String → ConnectionPool × List Effect
on_connected pool peer_id = (pool, peer_connected peer_id [] ∷ [])

unfoldable pub on_message : ConnectionPool → String → Message → ConnectionPool × List Effect
on_message pool peer_id message = (pool, message_received message peer_id ∷ [])

unfoldable pub on_failed : ConnectionPool → String → ConnectionPool × List Effect
on_failed pool peer_id =
    (record pool { outbound = remove peer_id pool.outbound }, peer_failed peer_id ∷ [])

unfoldable pub add_inbound_connection :
    ConnectionPool → String → ℕ → List String → ConnectionPool × List Effect
add_inbound_connection pool peer_id handle subscriptions = (
  record pool { inbound = insert peer_id handle pool.inbound },
  peer_connected peer_id subscriptions ∷ [],
)

-- The 'close' event of an inbound client of the peer. The handler does not look which one closed.
unfoldable pub on_inbound_close : ConnectionPool → String → ℕ → ConnectionPool × List Effect
on_inbound_close pool peer_id handle =
    (record pool { inbound = remove peer_id pool.inbound }, peer_disconnected peer_id ∷ [])

unfoldable pub disconnect : ConnectionPool → String → ConnectionPool × List Effect
disconnect pool peer_id = elim (lookup peer_id pool.outbound) [
  | none ↦ (pool, [])
  | some client ↦ (
    record pool { outbound = remove peer_id pool.outbound },
    hung_up client.handle ∷ peer_disconnected peer_id ∷ [],
  )
]

unfoldable pub send : ConnectionPool → String → Message → List Effect
send pool peer_id message = elim (lookup peer_id pool.outbound) [
  | some client ↦ sent_out peer_id message ∷ []
  | none ↦ elim (lookup peer_id pool.inbound) [
    | some handle ↦ sent_in peer_id message ∷ []
    | none ↦ []
  ]
]

-- The two loops of `broadcast`.
unfoldable pub broadcast_to : {A : Type 0} → (String → Effect) → List String → Dict A → List Effect
broadcast_to send_to exclude_set [] = []
broadcast_to send_to exclude_set ((peer_id, client) ∷ connections) =
    let rest = broadcast_to send_to exclude_set connections in
    if contains exclude_set peer_id then rest else send_to peer_id ∷ rest

unfoldable pub broadcast : ConnectionPool → Message → List String → List Effect
unfolding broadcast_to
broadcast pool message exclude_peer_ids =
    let exclude_set = add_all [] exclude_peer_ids in
    broadcast_to (λ p. sent_out p message) exclude_set pool.outbound
    ++ broadcast_to (λ p. sent_in p message) exclude_set pool.inbound

pub data PeerState : Type 0 where
  connected connecting disconnected unknown : PeerState

unfoldable pub get_peer_state : ConnectionPool → String → PeerState
get_peer_state pool peer_id = elim (lookup peer_id pool.outbound) [
  | none ↦ unknown
  | some client ↦
      if client.is_connected
      then connected
      else if client.is_connecting
      then connecting
      else disconnected
]

unfoldable pub get_all_peer_ids : ConnectionPool → List String
get_all_peer_ids pool = add_all [] (keys pool.outbound ++ keys pool.inbound)

-- The two loops of `clear`.
hang_up_all : Dict Client → List Effect
hang_up_all [] = []
hang_up_all ((peer_id, client) ∷ rest) = hung_up client.handle ∷ hang_up_all rest

close_all : Dict ℕ → List Effect
close_all [] = []
close_all ((peer_id, handle) ∷ rest) = closed handle ∷ close_all rest

unfoldable pub clear : ConnectionPool → ConnectionPool × List Effect
unfolding hang_up_all close_all
clear pool = (
  record pool { outbound = []; inbound = [] },
  hang_up_all pool.outbound ++ close_all pool.inbound,
)
