-- ===== src/Transport/WsClient/Tests.antt =====
-- Runs of transport/wsClient.js.
use p2p_app.Prelude.{All, ℕ, ◌≡◌, refl, List, [], ◌∷◌, ◌++◌, true, false, some, arith}
use p2p_app.Transport.WsClient.{
  WsClient, ReadyState, Effect, disconnected, failed, schedule, done, type_error, behind, and_then,
  send_all, flushed, init, connect, drain, flush_queue, on_open, on_message, handle_reconnect,
  on_close, send, disconnect, Call, connects, opens, closes, fires, sends, step, run,
}
use p2p_app.Transport.WsClient.Fifo
use p2p_app.Transport.WsClient.Backoff

opened : Unit {0}
unfolding init behind and_then send_all flushed connect drain flush_queue on_open on_message
    handle_reconnect on_close send disconnect step run
opened = tt

-- Two messages wait for the socket, a third follows it, and a fourth waits for the next one.
abbrev calls : List (Call ℕ)
calls = sends 1 ∷ connects ∷ sends 2 ∷ opens [] ∷ sends 3 ∷ closes ∷ sends 4 ∷ []

run-transmitted_example :
    (c : WsClient ℕ) × (effects : List (Effect ℕ)) × (run (init true) calls ≡ done c effects)
    × (Fifo.transmitted effects ++ c.message_queue ≡ 1 ∷ 2 ∷ 3 ∷ 4 ∷ [])
run-transmitted_example = Fifo.run-transmitted calls (omega arith)

abbrev live : WsClient ℕ
live = record {
  socket = some ReadyState.opened;
  is_connected = true;
  is_closed_intentionally = false;
  is_url_valid = true;
  reconnect_attempts = 0;
  reconnect_delay = 1000;
  reconnect_timer = false;
  message_queue = [];
}

send_throws : send (disconnect live).0 7 ≡ type_error
unfolding opened
send_throws = refl

abbrev losses : List (Call ℕ)
losses =
    connects ∷ closes ∷ fires ∷ closes ∷ fires ∷ closes ∷ fires ∷ closes ∷ fires ∷ closes ∷ fires
    ∷ closes ∷ []

abbrev given_up : WsClient ℕ
given_up = record live {
  socket = some ReadyState.closed;
  is_connected = false;
  reconnect_attempts = 5;
  reconnect_delay = 30000;
}

abbrev attempts : List (Effect ℕ)
attempts =
    disconnected
    ∷ schedule 1000
    ∷ disconnected
    ∷ schedule 2000
    ∷ disconnected
    ∷ schedule 4000
    ∷ disconnected
    ∷ schedule 8000
    ∷ disconnected
    ∷ schedule 16000
    ∷ disconnected
    ∷ failed
    ∷ []

five_attempts : run (init true) losses ≡ done given_up attempts
unfolding opened
five_attempts = refl

run-init-Bounded_example : Backoff.IsValid given_up × All Backoff.IsDue attempts
run-init-Bounded_example = Backoff.run-init-Bounded true losses given_up attempts five_attempts
