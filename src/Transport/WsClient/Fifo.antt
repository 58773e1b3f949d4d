-- ===== src/Transport/WsClient/Fifo.antt =====
-- transport/wsClient.js: messages wait in order while the socket is down, and none is lost.
use p2p_app.Prelude.{
  ◌≡◌, refl, sym, ap, true, false, ◌&&◌, List, [], ◌∷◌, ◌++◌, append-nil, append_assoc, none, All,
  arith,
}
use p2p_app.Transport.WsClient.{
  WsClient, Effect, hello, transmit, connected, disconnected, failed, received, schedule,
  close_socket, Outcome, done, type_error, is_open, init, behind, and_then, send_all, flushed,
  handle_reconnect, syntax_error, stale_closes, connect, drain, flush_queue, on_open, on_message,
  on_close, send, Call, connects, opens, starts_closing, closes, fires, disconnects, sends,
  receives, step, run,
}

module _ {ℓ} {M : Type ℓ} where
  -- The messages given to the socket, and those given to the client.
  abbrev pub transmitted : List (Effect M) → List M
  transmitted [] = []
  transmitted (transmit m ∷ effects) = m ∷ transmitted effects
  transmitted (_ ∷ effects) = transmitted effects

  abbrev pub asked : List (Call M) → List M
  asked [] = []
  asked (sends m ∷ calls) = m ∷ asked calls
  asked (_ ∷ calls) = asked calls

  -- No call but a disconnection, and no listener of 'connected' that sends.
  abbrev pub IsKept : Call M → Type 0
  IsKept disconnects = ⊥
  IsKept (opens (m ∷ messages)) = ⊥
  IsKept _ = Unit

  -- Nothing waits while the connection is up, and there is a socket whenever it is.
  record IsValid (c : WsClient M) : Type ℓ where
    emptied : (c.is_connected && is_open c.socket) ≡ true → c.message_queue ≡ []
    down : c.socket ≡ none → c.is_connected ≡ false
    address : c.is_url_valid ≡ true

  transmitted-append :
      (xs ys : List (Effect M)) → transmitted (xs ++ ys) ≡ transmitted xs ++ transmitted ys
  transmitted-append [] ys = refl
  transmitted-append (transmit m ∷ xs) ys = ap (◌∷◌ m) (transmitted-append xs ys)
  transmitted-append (hello ∷ xs) ys = transmitted-append xs ys
  transmitted-append (connected ∷ xs) ys = transmitted-append xs ys
  transmitted-append (disconnected ∷ xs) ys = transmitted-append xs ys
  transmitted-append (failed ∷ xs) ys = transmitted-append xs ys
  transmitted-append (received m ∷ xs) ys = transmitted-append xs ys
  transmitted-append (schedule d ∷ xs) ys = transmitted-append xs ys
  transmitted-append (close_socket ∷ xs) ys = transmitted-append xs ys

  transmitted-drain : (queue : List M) → transmitted (drain queue) ≡ queue
  unfolding drain
  transmitted-drain [] = refl
  transmitted-drain (m ∷ queue) = ap (◌∷◌ m) (transmitted-drain queue)

  -- The outcome of a step: no exception, and what went out and what waits is what waited and what
  -- was asked for.
  abbrev Conserves : WsClient M → Call M → Outcome M → Type ℓ
  Conserves c call type_error = ⊥ × (c ≡ c)
  Conserves c call syntax_error = ⊥ × (c ≡ c)
  Conserves c call (done c' effects) =
      IsValid c' × (transmitted effects ++ c'.message_queue ≡ c.message_queue ++ asked (call ∷ []))

  step-Conserves :
      (c : WsClient M) (call : Call M) → IsKept call → IsValid c → Conserves c call (step c call)
  unfolding step connect on_open behind and_then send_all flushed flush_queue on_close send
      on_message handle_reconnect
  step-Conserves c connects k v = ground (arith, append-nil c.message_queue, v.address)
  step-Conserves c (opens (m ∷ messages)) k v = absurd k
  step-Conserves c (opens []) k v = ground (
    arith,
    append-nil c.message_queue,
    v.address,
    transmitted-drain c.message_queue,
    append-nil (drain c.message_queue),
  )
  step-Conserves c starts_closing k v = ground (arith, append-nil c.message_queue, v.address)
  step-Conserves c closes k v = ground (arith, append-nil c.message_queue, v.address)
  step-Conserves c stale_closes k v = ground (arith, append-nil c.message_queue, v.address)
  step-Conserves c fires k v = ground (arith, append-nil c.message_queue, v.address)
  step-Conserves c disconnects k v = absurd k
  step-Conserves c (sends m) k v = ground (arith, append-nil c.message_queue, v.address)
  step-Conserves c (receives m) k v = ground (arith, append-nil c.message_queue, v.address)

  Conserves-done :
      (c : WsClient M) (call : Call M) (o : Outcome M)
      → Conserves c call o
      → (c' : WsClient M) × (effects : List (Effect M)) × (o ≡ done c' effects)
        × IsValid c'
        × (transmitted effects ++ c'.message_queue ≡ c.message_queue ++ asked (call ∷ []))
  Conserves-done c call type_error h = absurd h.0
  Conserves-done c call syntax_error h = absurd h.0
  Conserves-done c call (done c' effects) h = (c', effects, refl, h.0, h.1)

  asked-cons :
      (call : Call M) (calls : List (Call M))
      → asked (call ∷ calls) ≡ asked (call ∷ []) ++ asked calls
  asked-cons (sends m) calls = refl
  asked-cons connects calls = refl
  asked-cons (opens messages) calls = refl
  asked-cons starts_closing calls = refl
  asked-cons closes calls = refl
  asked-cons stale_closes calls = refl
  asked-cons fires calls = refl
  asked-cons disconnects calls = refl
  asked-cons (receives m) calls = refl

  run-Conserves :
      (calls : List (Call M)) (c : WsClient M)
      → All IsKept calls
      → IsValid c
      → (c' : WsClient M) × (effects : List (Effect M)) × (run c calls ≡ done c' effects)
        × (transmitted effects ++ c'.message_queue ≡ c.message_queue ++ asked calls)
  unfolding run and_then behind
  run-Conserves [] c k v = (c, [], refl, sym (append-nil c.message_queue))
  run-Conserves (call ∷ calls) c k v =
      let (c1, e1, p1, v1, q1) =
        Conserves-done c call (step c call) (step-Conserves c call k.0 v) in
      let (c2, e2, p2, q2) = run-Conserves calls c1 k.1 v1 in
      (
        c2,
        e1 ++ e2,
        rw p1 (rw p2 refl),
        grind (
          arith,
          transmitted-append e1 e2,
          append_assoc (transmitted e1) (transmitted e2) c2.message_queue,
          append_assoc (transmitted e1) c1.message_queue (asked calls),
          append_assoc c.message_queue (asked (call ∷ [])) (asked calls),
          asked-cons call calls,
          q1,
          q2,
        ),
      )

  -- Whatever happens to a new client whose address is valid, that is not disconnected on purpose and
  -- whose listeners do not send while it reports that it is connected: no method throws, and the
  -- messages given to its sockets, followed by those that wait, are the messages given to the
  -- client, in order: none is lost, repeated or overtaken.
  pub run-transmitted :
      (calls : List (Call M))
      → All IsKept calls
      → (c : WsClient M) × (effects : List (Effect M)) × (run (init true) calls ≡ done c effects)
        × (transmitted effects ++ c.message_queue ≡ asked calls)
  unfolding init
  run-transmitted calls k =
      run-Conserves calls (init true) k
        (record { emptied = λ h. refl; down = λ h. refl; address = refl })
