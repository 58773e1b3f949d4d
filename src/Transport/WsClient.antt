-- ===== src/Transport/WsClient.antt =====
-- transport/wsClient.js: one outbound connection. The `ws` socket is not part of the program: what
-- the client reads of it is its `readyState`, and its events arrive as calls. What the client does
-- to the outside is a list of effects, in order.
pub mod Fifo
pub mod Backoff
mod Tests
use p2p_app.Prelude.{
  ℕ, ◌+◌, ◌*◌, min, Bool, true, false, not, ◌&&◌, ◌||◌, List, [], ◌∷◌, ◌++◌, Option, none, some,
  leb, if◌then◌else◌,
}
use p2p_app.Config.{initial_reconnect_delay_ms, max_reconnect_delay_ms, max_reconnect_attempts}

pub data ReadyState : Type 0 where
  connecting opened closing closed : ReadyState

pub data Effect {ℓ} (M : Type ℓ) : Type ℓ where
  -- `ws.send` of the handshake, and of a message.
  hello : Effect M
  transmit : M → Effect M
  -- `emit`.
  connected disconnected failed : Effect M
  received : M → Effect M
  -- `setTimeout` of a reconnection, with its delay.
  schedule : ℕ → Effect M
  -- `ws.close`.
  close_socket : Effect M

-- `socket` is the state of `ws`, or `none` where `ws` is null.
pub record WsClient {ℓ} (M : Type ℓ) : Type ℓ where
  pub socket : Option ReadyState
  pub is_connected : Bool
  pub is_closed_intentionally : Bool
  -- Whether `new WebSocket(url)` takes the address.
  pub is_url_valid : Bool
  pub reconnect_attempts : ℕ
  pub reconnect_delay : ℕ
  pub reconnect_timer : Bool
  pub message_queue : List M

-- A method returns its effects, or throws: a `TypeError` on a null socket, a `SyntaxError` on an
-- address that is none.
pub data Outcome {ℓ} (M : Type ℓ) : Type ℓ where
  done : WsClient M → List (Effect M) → Outcome M
  type_error syntax_error : Outcome M

abbrev pub is_open : Option ReadyState → Bool
is_open (some ReadyState.opened) = true
is_open _ = false

-- `ws && (readyState === CONNECTING || readyState === OPEN)`.
abbrev pub is_busy : Option ReadyState → Bool
is_busy (some ReadyState.connecting) = true
is_busy (some ReadyState.opened) = true
is_busy _ = false

module _ {ℓ} {M : Type ℓ} where
  unfoldable pub init : Bool → WsClient M
  init is_url_valid = record {
    socket = none;
    is_connected = false;
    is_closed_intentionally = false;
    is_url_valid = is_url_valid;
    reconnect_attempts = 0;
    reconnect_delay = initial_reconnect_delay_ms;
    reconnect_timer = false;
    message_queue = [];
  }

  -- An outcome behind the effects that precede it, and one call after another.
  unfoldable pub behind : List (Effect M) → Outcome M → Outcome M
  behind effects type_error = type_error
  behind effects syntax_error = syntax_error
  behind effects (done c more) = done c (effects ++ more)

  unfoldable pub and_then : Outcome M → (WsClient M → Outcome M) → Outcome M
  unfolding behind
  and_then type_error next = type_error
  and_then syntax_error next = syntax_error
  and_then (done c effects) next = behind effects (next c)

  unfoldable pub connect : WsClient M → Outcome M
  connect c =
      if is_busy c.socket
      then done c []
      else if c.is_url_valid
      then done (record c { socket = some ReadyState.connecting; is_closed_intentionally = false })
          []
      else syntax_error

  -- The `while` loop of `#flushQueue`: its test reads nothing that it changes but the queue.
  unfoldable pub drain : List M → List (Effect M)
  drain [] = []
  drain (m ∷ queue) = transmit m ∷ drain queue

  unfoldable pub flush_queue : WsClient M → WsClient M × List (Effect M)
  unfolding drain
  flush_queue c =
      if c.is_connected && is_open c.socket
      then (record c { message_queue = [] }, drain c.message_queue)
      else (c, [])

  -- The 'message' event. `none` is a frame that is not JSON.
  unfoldable pub on_message : WsClient M → Option M → WsClient M × List (Effect M)
  on_message c none = (c, [])
  on_message c (some m) = (c, received m ∷ [])

  unfoldable pub handle_reconnect : WsClient M → WsClient M × List (Effect M)
  handle_reconnect c =
      if c.is_closed_intentionally
      then (c, [])
      else if leb max_reconnect_attempts c.reconnect_attempts
      then (c, failed ∷ [])
      else (
        record c {
          reconnect_attempts = c.reconnect_attempts + 1;
          reconnect_timer = true;
          reconnect_delay = min (c.reconnect_delay * 2) max_reconnect_delay_ms;
        },
        schedule c.reconnect_delay ∷ [],
      )

  -- The 'close' event.
  unfoldable pub on_close : WsClient M → WsClient M × List (Effect M)
  unfolding handle_reconnect
  on_close c =
      let (c', effects) = handle_reconnect (record c { is_connected = false }) in
      (c', disconnected ∷ effects)

  unfoldable pub send : WsClient M → M → Outcome M
  send c message = elim c.socket [
    | none ↦
        if c.is_connected
        then type_error
        else done (record c { message_queue = c.message_queue ++ message ∷ [] }) []
    | some state ↦
        if not c.is_connected || not (is_open (some state))
        then done (record c { message_queue = c.message_queue ++ message ∷ [] }) []
        else done c (transmit message ∷ [])
  ]

  unfoldable pub send_all : WsClient M → List M → Outcome M
  unfolding send and_then
  send_all c [] = done c []
  send_all c (m ∷ messages) = and_then (send c m) (λ c'. send_all c' messages)

  unfoldable pub flushed : WsClient M → Outcome M
  unfolding flush_queue
  flushed c = let (c', effects) = flush_queue c in done c' effects

  -- The 'open' event. `messages` are what the listeners of 'connected' send, which run before the
  -- queue is flushed.
  unfoldable pub on_open : WsClient M → List M → Outcome M
  unfolding behind and_then send_all flushed
  on_open c messages =
      let c' : WsClient M = record c {
        is_connected = true;
        reconnect_attempts = 0;
        reconnect_delay = initial_reconnect_delay_ms;
      } in
      behind (hello ∷ connected ∷ []) (and_then (send_all c' messages) flushed)

  unfoldable pub disconnect : WsClient M → WsClient M × List (Effect M)
  disconnect c =
      let c' : WsClient M = record c {
        socket = none;
        is_closed_intentionally = true;
        reconnect_timer = false;
        message_queue = [];
      } in
      (c', elim c.socket [ none ↦ [] | some _ ↦ close_socket ∷ [] ])

-- What happens to a client: calls of its methods, and events of its socket and its timer. The socket
-- opens only from connecting, may start to close by itself, and closes once; a socket that another one
-- has replaced may still report that it closed.
pub data Call {ℓ} (M : Type ℓ) : Type ℓ where
  connects starts_closing closes stale_closes fires disconnects : Call M
  opens : List M → Call M
  sends : M → Call M
  receives : Option M → Call M

module _ {ℓ} {M : Type ℓ} where
  unfoldable pub step : WsClient M → Call M → Outcome M
  unfolding connect on_open on_close disconnect send on_message
  step c connects = connect c
  step c (opens messages) = elim c.socket [
    | some ReadyState.connecting ↦ on_open (record c { socket = some ReadyState.opened }) messages
    | _ ↦ done c []
  ]
  step c starts_closing = elim c.socket [
    | some ReadyState.opened ↦ done (record c { socket = some ReadyState.closing }) []
    | _ ↦ done c []
  ]
  step c closes = elim c.socket [
    | none ↦ let (c', effects) = on_close c in done c' effects
    | some ReadyState.closed ↦ done c []
    | some _ ↦
        let (c', effects) = on_close (record c { socket = some ReadyState.closed }) in
        done c' effects
  ]
  step c stale_closes = let (c', effects) = on_close c in done c' effects
  step c fires =
      if c.reconnect_timer then connect (record c { reconnect_timer = false }) else done c []
  step c disconnects = let (c', effects) = disconnect c in done c' effects
  step c (sends m) = send c m
  step c (receives m) = let (c', effects) = on_message c m in done c' effects

  -- A run stops at an exception.
  unfoldable pub run : WsClient M → List (Call M) → Outcome M
  unfolding and_then step
  run c [] = done c []
  run c (call ∷ calls) = and_then (step c call) (λ c'. run c' calls)
