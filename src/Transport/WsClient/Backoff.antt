-- ===== src/Transport/WsClient/Backoff.antt =====
-- transport/wsClient.js: the delays between reconnections, and when the client gives up.
use native.Mathlib.Numerals.{add-one}
use mathlib.Core.Path.{subst}
use p2p_app.Prelude.{
  Bool, Bool-cases, ℕ, zero, suc, ◌+◌, ◌*◌, ◌≤◌, ◌<◌, min, ◌≡◌, refl, inl, inr, false, List, [],
  ◌∷◌, some, All, All-append, leb, arith,
}
use p2p_app.Config.{initial_reconnect_delay_ms, max_reconnect_delay_ms, max_reconnect_attempts}
use p2p_app.Transport.WsClient.{
  WsClient, ReadyState, Effect, hello, connected, schedule, Outcome, done, type_error, syntax_error,
  stale_closes, behind, and_then, send_all, flushed, init, connect, drain, flush_queue, on_open,
  on_message, handle_reconnect, on_close, send, disconnect, Call, connects, opens, starts_closing,
  closes, fires, disconnects, sends, receives, step, run,
}

-- The delay after some failures in a row: it doubles.
abbrev pub doubled : ℕ → ℕ
doubled zero = initial_reconnect_delay_ms
doubled (suc k) = 2 * doubled k

doubled-le : (k : ℕ) → k < max_reconnect_attempts → doubled k ≤ max_reconnect_delay_ms
doubled-le zero h = omega arith
doubled-le (suc zero) h = omega arith
doubled-le (suc (suc zero)) h = omega arith
doubled-le (suc (suc (suc zero))) h = omega arith
doubled-le (suc (suc (suc (suc zero)))) h = omega arith
doubled-le (suc (suc (suc (suc (suc k))))) h = absurd (omega arith)

doubled-suc : (k : ℕ) → doubled (k + 1) ≡ 2 * doubled k
doubled-suc k = simp add-one

module _ {ℓ} {M : Type ℓ} where
  pub record IsValid (c : WsClient M) : Type 0 where
    pub few : c.reconnect_attempts ≤ max_reconnect_attempts
    pub delay : c.reconnect_delay ≡ min (doubled c.reconnect_attempts) max_reconnect_delay_ms

  -- A delay that is asked for is that of one of the first attempts, and no other.
  abbrev pub IsDue : Effect M → Type 0
  IsDue (schedule d) = (k : ℕ) × (k < max_reconnect_attempts) × (d ≡ doubled k)
  IsDue _ = Unit

  abbrev Bounded : Outcome M → Type 0
  Bounded type_error = Unit
  Bounded syntax_error = Unit
  Bounded (done c effects) = IsValid c × All IsDue effects

  -- A lost connection schedules the next attempt, or the client gives up after the last.
  handle_reconnect-Bounded :
      (c : WsClient M)
      → IsValid c
      → IsValid (handle_reconnect c).0 × All IsDue (handle_reconnect c).1
  unfolding handle_reconnect
  handle_reconnect-Bounded c v = elim (Bool-cases c.is_closed_intentionally) [
    | inl e ↦ simp e (v, tt)
    | inr e ↦ simp e (elim (Bool-cases (leb max_reconnect_attempts c.reconnect_attempts)) [
      | inl over ↦ simp over (v, (tt, tt))
      | inr more ↦
          let k = c.reconnect_attempts in
          let h : k < max_reconnect_attempts = ground arith in
          simp more (
            record { few = omega arith; delay = omega (arith, doubled-suc k, v.delay) },
            ((k, h, omega (arith, doubled-le k h, v.delay)), tt),
          )
    ])
  ]

  on_close-Bounded :
      (c : WsClient M) → IsValid c → IsValid (on_close c).0 × All IsDue (on_close c).1
  unfolding on_close
  on_close-Bounded c v =
      let r =
        handle_reconnect-Bounded (record c { is_connected = false })
          (record { few = v.few; delay = v.delay }) in
      (r.0, (tt, r.1))

  drain-IsDue : (queue : List M) → All IsDue (drain queue)
  unfolding drain
  drain-IsDue [] = tt
  drain-IsDue (m ∷ queue) = (tt, drain-IsDue queue)

  behind-Bounded :
      (o : Outcome M) (effects : List (Effect M))
      → Bounded o
      → All IsDue effects
      → Bounded (behind effects o)
  unfolding behind
  behind-Bounded type_error effects b h = tt
  behind-Bounded syntax_error effects b h = tt
  behind-Bounded (done c more) effects b h = (b.0, All-append IsDue effects more h b.1)

  and_then-Bounded :
      (o : Outcome M) (next : WsClient M → Outcome M)
      → Bounded o
      → ((c : WsClient M) → IsValid c → Bounded (next c))
      → Bounded (and_then o next)
  unfolding and_then
  and_then-Bounded type_error next b h = tt
  and_then-Bounded syntax_error next b h = tt
  and_then-Bounded (done c effects) next b h = behind-Bounded (next c) effects (h c b.0) b.1

  connect-Bounded : (c : WsClient M) → IsValid c → Bounded (connect c)
  unfolding connect
  connect-Bounded c v = ground arith

  send-Bounded : (c : WsClient M) (m : M) → IsValid c → Bounded (send c m)
  unfolding send
  send-Bounded c m v = ground arith

  send_all-Bounded : (c : WsClient M) (ms : List M) → IsValid c → Bounded (send_all c ms)
  unfolding send_all
  send_all-Bounded c [] v = (v, tt)
  send_all-Bounded c (m ∷ ms) v =
      and_then-Bounded (send c m) (λ c'. send_all c' ms) (send-Bounded c m v)
        (λ c' v'. send_all-Bounded c' ms v')

  flushed-Bounded : (c : WsClient M) → IsValid c → Bounded (flushed c)
  unfolding flushed flush_queue
  flushed-Bounded c v = ground (arith, drain-IsDue c.message_queue)

  on_open-Bounded : (c : WsClient M) (ms : List M) → Bounded (on_open c ms)
  unfolding on_open
  on_open-Bounded c ms =
      behind-Bounded _ (hello ∷ connected ∷ [])
        (and_then-Bounded _ flushed
          (send_all-Bounded _ ms (record { few = omega arith; delay = refl })) flushed-Bounded)
        (tt, (tt, tt))

  step-Bounded : (c : WsClient M) (call : Call M) → IsValid c → Bounded (step c call)
  unfolding step disconnect on_message
  step-Bounded c connects v = connect-Bounded c v
  step-Bounded c (opens ms) v =
      ground (arith, on_open-Bounded (record c { socket = some ReadyState.opened }) ms)
  step-Bounded c starts_closing v = ground arith
  step-Bounded c closes v = ground (
    arith,
    on_close-Bounded c v,
    on_close-Bounded (record c { socket = some ReadyState.closed })
        (record { few = v.few; delay = v.delay }),
  )
  step-Bounded c stale_closes v = on_close-Bounded c v
  step-Bounded c fires v = ground (
    arith,
    connect-Bounded (record c { reconnect_timer = false })
        (record { few = v.few; delay = v.delay }),
  )
  step-Bounded c disconnects v = ground arith
  step-Bounded c (sends m) v = send-Bounded c m v
  step-Bounded c (receives m) v = ground arith

  run-Bounded : (calls : List (Call M)) (c : WsClient M) → IsValid c → Bounded (run c calls)
  unfolding run
  run-Bounded [] c v = (v, tt)
  run-Bounded (call ∷ calls) c v =
      and_then-Bounded (step c call) (λ c'. run c' calls) (step-Bounded c call v)
        (run-Bounded calls)

  -- In any run of a new client in which no method throws, every delay that is scheduled is one of the
  -- first five of a sequence that starts at 1000 ms and doubles, so it is never the cap of 30000 ms; and
  -- no more than five attempts are counted, with the next delay doubled for each up to the cap.
  pub run-init-Bounded :
      (is_url_valid : Bool) (calls : List (Call M)) (c : WsClient M) (effects : List (Effect M))
      → run (init is_url_valid) calls ≡ done c effects
      → IsValid c × All IsDue effects
  unfolding init
  run-init-Bounded is_url_valid calls c effects e =
      subst Bounded e
        (run-Bounded calls (init is_url_valid) (record { few = omega arith; delay = refl }))
