-- ===== src/Transport/WsServer.antt =====
-- transport/wsServer.js: the handshake of the connections that others open. A socket is known here
-- by a handle; what is done to sockets and listeners is a list of effects.
pub mod Handshake
mod Tests
use p2p_app.Prelude.{
  ℕ, String, Bool, true, false, List, [], ◌∷◌, ◌++◌, Option, none, some, Dict, insert, remove, eqb,
  if◌then◌else◌,
}
use p2p_app.Protocol.Message.{Message}

-- What a frame parses to: nothing, a 'HELLO' with its fields, or a message of another type. An
-- absent peer id is the empty text, and absent subscriptions are an empty list.
pub data Frame : Type 0 where
  malformed : Frame
  hello : String → Option String → List String → Frame
  data_frame : Message → Frame

pub record WsServer : Type 0 where
  pub local_peer_id : String
  pub port : ℕ
  pub local_public_key : Option String
  pub active_connections : Dict ℕ

-- The variables of the handler of one connection: `connectedPeerId`, which is set with
-- `isHandshaked`.
pub record Connection : Type 0 where
  pub handle : ℕ
  pub connected_peer_id : Option String

pub data Effect : Type 0 where
  -- The 'HELLO' response on a socket: peer id, port, public key and subscriptions.
  responded : ℕ → String → ℕ → Option String → List String → Effect
  -- `emit` of 'peer:connected', 'connection', 'peer:disconnected' and 'message:received'.
  peer_connected : String → Option String → Effect
  connection : String → ℕ → List String → Effect
  peer_disconnected : String → Effect
  message_received : Frame → String → Effect
  -- 'message' and 'close' on the inbound client.
  relayed : Frame → String → Effect
  client_closed : String → Effect
  -- `ws.close()`.
  closed : ℕ → Effect

unfoldable pub accept : ℕ → Connection
accept handle = record { handle = handle; connected_peer_id = none }

unfoldable pub handshake :
    WsServer
    → Connection
    → List String
    → String
    → Option String
    → List String
    → WsServer × Connection × List Effect
handshake s c local_subscriptions peer_id public_key subscriptions = (
  record s { active_connections = insert peer_id c.handle s.active_connections },
  record c { connected_peer_id = some peer_id },
  responded c.handle s.local_peer_id s.port s.local_public_key local_subscriptions
      ∷ peer_connected peer_id public_key
      ∷ connection peer_id c.handle subscriptions
      ∷ [],
)

-- The first frame that parses.
unfoldable pub first_message :
    WsServer → Connection → List String → Frame → WsServer × Connection × List Effect
unfolding handshake
first_message s c local_subscriptions malformed = (s, c, [])
first_message s c local_subscriptions (hello peer_id public_key subscriptions) =
    if eqb peer_id ""
    then (s, c, closed c.handle ∷ [])
    else handshake s c local_subscriptions peer_id public_key subscriptions
first_message s c local_subscriptions (data_frame m) = (s, c, closed c.handle ∷ [])

-- The frames after the handshake.
unfoldable pub next_message : String → Frame → List Effect
next_message peer_id malformed = []
next_message peer_id frame = relayed frame peer_id ∷ message_received frame peer_id ∷ []

-- The handler of 'message'; `local_subscriptions` are those that the server is given then.
unfoldable pub on_message :
    WsServer → Connection → List String → Frame → WsServer × Connection × List Effect
unfolding first_message next_message
on_message s c local_subscriptions frame = elim c.connected_peer_id [
  | none ↦ first_message s c local_subscriptions frame
  | some peer_id ↦ (s, c, next_message peer_id frame)
]

-- The handlers of 'close', in the order in which they were added.
unfoldable pub on_close : WsServer → Connection → WsServer × List Effect
on_close s c = elim c.connected_peer_id [
  | none ↦ (s, [])
  | some peer_id ↦ (
    record s { active_connections = remove peer_id s.active_connections },
    peer_disconnected peer_id ∷ client_closed peer_id ∷ [],
  )
]

-- The loop of `stop`.
unfoldable pub close_all : Dict ℕ → List Effect
close_all [] = []
close_all ((peer_id, handle) ∷ rest) = closed handle ∷ close_all rest

unfoldable pub stop : WsServer → WsServer × List Effect
unfolding close_all
stop s = (record s { active_connections = [] }, close_all s.active_connections)

-- The frames of one connection.
unfoldable pub run :
    WsServer → Connection → List String → List Frame → WsServer × Connection × List Effect
unfolding on_message
run s c local_subscriptions [] = (s, c, [])
run s c local_subscriptions (frame ∷ frames) =
    let (s1, c1, effects) = on_message s c local_subscriptions frame in
    let (s2, c2, more) = run s1 c1 local_subscriptions frames in (s2, c2, effects ++ more)
