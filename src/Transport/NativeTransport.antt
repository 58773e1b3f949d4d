-- ===== src/Transport/NativeTransport.antt =====
-- transport/nativeTransport.js: a server and a client over the native TCP add-on, which is C++ and
-- stays outside: its events are the steps, and what is done to it and to listeners are effects.
pub mod Relay
mod Tests
use p2p_app.Prelude.{
  ℕ, String, Bool, true, false, not, ◌||◌, List, [], ◌∷◌, ◌++◌, map, Option, none, some, eqb, ◌==◌,
  if◌then◌else◌,
}
use p2p_app.Protocol.Message.{Message}
use p2p_app.Transport.WsServer.{Frame, malformed, hello, data_frame}

-- A peer emitter: its `remotePeerId`, which is set with `_handshaked`.
pub record NativePeer : Type 0 where
  pub remote_peer_id : Option String

-- `peers` is a `Map` by file descriptor, and `is_running` says that `_native` is not null.
pub record NativeServer : Type 0 where
  pub port : ℕ
  pub local_peer_id : String
  pub local_public_key : Option String
  pub peers : List (ℕ × NativePeer)
  pub is_running : Bool

-- An event of the add-on. An empty payload has no effect.
pub data NativeEvent : Type 0 where
  connect close empty : ℕ → NativeEvent
  payload : ℕ → Frame → NativeEvent

pub data Effect : Type 0 where
  -- The 'HELLO' response on a descriptor: peer id, port, public key and subscriptions.
  responded : ℕ → String → ℕ → Option String → List String → Effect
  -- `emit` of 'peer:connected', 'connection', 'peer:disconnected' and 'message:received'.
  peer_connected : String → Option String → Effect
  connection : String → ℕ → Effect
  peer_disconnected : String → Effect
  message_received : Frame → String → Effect
  -- 'message' and 'close' on a peer emitter.
  relayed : Frame → String → Effect
  peer_closed : ℕ → Effect
  -- The add-on's `stop()`.
  stopped : Effect

unfoldable pub peer_at : ℕ → List (ℕ × NativePeer) → Option NativePeer
peer_at fd [] = none
peer_at fd ((other, peer) ∷ peers) =
    let rest = peer_at fd peers in if other == fd then some peer else rest

unfoldable pub put_peer : ℕ → NativePeer → List (ℕ × NativePeer) → List (ℕ × NativePeer)
put_peer fd peer [] = (fd, peer) ∷ []
put_peer fd peer ((other, old) ∷ peers) =
    let rest = put_peer fd peer peers in
    if other == fd then (other, peer) ∷ peers else (other, old) ∷ rest

unfoldable pub drop_peer : ℕ → List (ℕ × NativePeer) → List (ℕ × NativePeer)
drop_peer fd [] = []
drop_peer fd ((other, peer) ∷ peers) =
    let rest = drop_peer fd peers in if other == fd then rest else (other, peer) ∷ rest

unfoldable pub first_payload : NativeServer → List String → ℕ → Frame → NativeServer × List Effect
unfolding put_peer drop_peer
first_payload s local_subscriptions fd malformed = (s, [])
first_payload s local_subscriptions fd (hello peer_id public_key subscriptions) =
    if eqb peer_id "" then (record s { peers = drop_peer fd s.peers }, []) else (
      record s { peers = put_peer fd (record { remote_peer_id = some peer_id }) s.peers },
      responded fd s.local_peer_id s.port s.local_public_key local_subscriptions
          ∷ peer_connected peer_id public_key
          ∷ connection peer_id fd
          ∷ [],
    )
first_payload s local_subscriptions fd (data_frame m) =
    (record s { peers = drop_peer fd s.peers }, [])

unfoldable pub next_payload : String → Frame → List Effect
next_payload peer_id malformed = []
next_payload peer_id frame = relayed frame peer_id ∷ message_received frame peer_id ∷ []

unfoldable pub on_payload : NativeServer → List String → ℕ → Frame → NativeServer × List Effect
unfolding peer_at first_payload next_payload
on_payload s local_subscriptions fd frame = elim (peer_at fd s.peers) [
  | none ↦ (s, [])
  | some peer ↦ elim peer.remote_peer_id [
    | none ↦ first_payload s local_subscriptions fd frame
    | some peer_id ↦ (s, next_payload peer_id frame)
  ]
]

abbrev pub farewell : Option String → List Effect
farewell none = []
farewell (some peer_id) = peer_disconnected peer_id ∷ []

unfoldable pub on_native_event :
    NativeServer → List String → NativeEvent → NativeServer × List Effect
unfolding on_payload put_peer drop_peer
on_native_event s local_subscriptions (connect fd) =
    (record s { peers = put_peer fd (record { remote_peer_id = none }) s.peers }, [])
on_native_event s local_subscriptions (close fd) = elim (peer_at fd s.peers) [
  | none ↦ (s, [])
  | some peer ↦
      (record s { peers = drop_peer fd s.peers }, peer_closed fd ∷ farewell peer.remote_peer_id)
]
on_native_event s local_subscriptions (empty fd) = (s, [])
on_native_event s local_subscriptions (payload fd frame) = on_payload s local_subscriptions fd frame

unfoldable pub stop : NativeServer → NativeServer × List Effect
stop s =
    if s.is_running then (record s { is_running = false; peers = [] }, stopped ∷ []) else (s, [])

-- The client. `has_native` says that `_native` is not null.
pub record NativeClient : Type 0 where
  pub is_connected : Bool
  pub has_native : Bool
  pub message_queue : List Message

pub data ClientEffect : Type 0 where
  sent : Message → ClientEffect
  greeted disconnected_native : ClientEffect
  -- A read of the null `_native` throws.
  crashed : ClientEffect
  -- `emit` of 'connected', 'message', 'disconnected' and 'error'.
  connected disconnected failed : ClientEffect
  received : Frame → ClientEffect

pub data ClientEvent : Type 0 where
  opened shut broken : ClientEvent
  arrived : Frame → ClientEvent

unfoldable pub send : NativeClient → Message → NativeClient × List ClientEffect
send c m =
    if not c.is_connected || not c.has_native
    then (record c { message_queue = c.message_queue ++ m ∷ [] }, [])
    else (c, sent m ∷ [])

unfoldable pub disconnect : NativeClient → NativeClient × List ClientEffect
disconnect c = (
  record { is_connected = false; has_native = false; message_queue = [] },
  if c.has_native then disconnected_native ∷ [] else [],
)

-- `_flushQueue` when the client is connected and `_native` is there.
unfoldable pub flush_queue : NativeClient → NativeClient × List ClientEffect
flush_queue c = (record c { message_queue = [] }, map sent c.message_queue)

unfoldable pub on_client_event : NativeClient → ClientEvent → NativeClient × List ClientEffect
unfolding flush_queue
on_client_event c opened =
    let (flushed, effects) = flush_queue (record c { is_connected = true }) in
    if c.has_native
    then (flushed, greeted ∷ connected ∷ effects)
    else (record c { is_connected = true }, crashed ∷ [])
on_client_event c (arrived malformed) = (c, [])
on_client_event c (arrived frame) = (c, received frame ∷ [])
on_client_event c shut = (record c { is_connected = false }, disconnected ∷ [])
on_client_event c broken = (c, failed ∷ [])

-- The payloads of one descriptor.
unfoldable pub run : NativeServer → List String → ℕ → List Frame → NativeServer × List Effect
unfolding on_native_event
run s local_subscriptions fd [] = (s, [])
run s local_subscriptions fd (frame ∷ frames) =
    let (s1, effects) = on_native_event s local_subscriptions (payload fd frame) in
    let (s2, more) = run s1 local_subscriptions fd frames in (s2, effects ++ more)
