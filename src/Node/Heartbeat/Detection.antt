-- ===== src/Node/Heartbeat/Detection.antt =====
-- node/heartbeatManager.js: which peers a tick suspects and removes.
use p2p_app.Prelude.{
  ℕ, ◌+◌, ◌*◌, ◌-◌, ◌<◌, String, ◌≡◌, refl, ◌∙◌, false, ◌&&◌, List, [], ◌∷◌, Option, none, some,
  Dict, lookup, ltb, lookup-insert, lookup-remove, insert, Unique, Unique-insert, Unique-remove,
  has_key, has_key-lookup, same, ite, if◌then◌else◌, if-cases, arith, Option-cases, inl, inr,
}
use p2p_app.Config.{peer_timeout_ms}
use p2p_app.Node.State.{
  PeerInfo, active, suspected, dead, is_active, set_peer, get_peer, delete_peer,
}
use p2p_app.Node.Peers.{Peers, Effect, remove_peer}
use p2p_app.Node.Heartbeat.{is_suspected, check_timeout, check_all, tick}

-- What a tick makes of a peer: suspected after 15 seconds of silence, gone after 30 when suspected.
unfoldable pub advance : ℕ → PeerInfo → Option PeerInfo
advance now info =
    let silence = now - info.last_seen in
    if is_active info.status && ltb peer_timeout_ms silence
    then some (record info { status = suspected })
    else if is_suspected info.status && ltb (2 * peer_timeout_ms) silence
    then none
    else some info

remove_peer-lookup :
    (s : Peers) (p q : String) (info : PeerInfo)
    → lookup p s.state.peers ≡ some info
    → lookup q (remove_peer s p).0.state.peers ≡ ite (same p q) none (lookup q s.state.peers)
unfolding remove_peer get_peer set_peer delete_peer
remove_peer-lookup s p q info e =
    rw (e, remove_peer)
      (ground (
        arith,
        lookup-remove p q (insert p (record info { status = dead }) s.state.peers),
        lookup-insert p q (record info { status = dead }) s.state.peers,
      ))

remove_peer-Unique :
    (s : Peers) (p : String) → Unique s.state.peers → Unique (remove_peer s p).0.state.peers
unfolding remove_peer get_peer set_peer delete_peer
remove_peer-Unique s p u = elim (Option-cases (lookup p s.state.peers)) [
  | inl e ↦ rw (e, remove_peer) u
  | inr (info, e) ↦
      rw (e, remove_peer)
        (Unique-remove p (insert p (record info { status = dead }) s.state.peers)
          (Unique-insert p (record info { status = dead }) s.state.peers u))
]

check_timeout-lookup :
    (s : Peers) (now : ℕ) (p q : String) (info : PeerInfo)
    → lookup p s.state.peers ≡ some info
    → lookup q (check_timeout s now p info).0.state.peers
      ≡ ite (same p q) (advance now info) (lookup q s.state.peers)
unfolding check_timeout advance set_peer
check_timeout-lookup s now p q info e = ground (
  arith,
  remove_peer-lookup s p q info e,
  lookup-insert p q (record info { status = suspected }) s.state.peers,
)

-- The entries still to come stand in the store as they were taken.
Current : Peers → Dict PeerInfo → Type 0
Current s entries =
    (p : String) (info : PeerInfo)
    → lookup p entries ≡ some info
    → lookup p s.state.peers ≡ some info

head_Current :
    (s : Peers) (p : String) (info : PeerInfo) (entries : Dict PeerInfo)
    → Current s ((p, info) ∷ entries)
    → lookup p s.state.peers ≡ some info
unfolding Current lookup
head_Current s p info entries c = c p info (ground arith)

tail_Current :
    (s : Peers) (now : ℕ) (p : String) (info : PeerInfo) (entries : Dict PeerInfo)
    → has_key p entries ≡ false
    → Current s ((p, info) ∷ entries)
    → Current (check_timeout s now p info).0 entries
unfolding Current lookup
tail_Current s now p info entries fresh c q i found = ground (
  arith,
  check_timeout-lookup s now p q info (head_Current s p info entries (unfold Current in c)),
  c q i,
  has_key-lookup p entries,
)

check_all-lookup :
    (now : ℕ) (q : String) (entries : Dict PeerInfo) (s : Peers)
    → Unique entries
    → Current s entries
    → lookup q (check_all s now entries).0.state.peers
      ≡ elim (lookup q entries) [ none ↦ lookup q s.state.peers | some info ↦ advance now info ]
unfolding check_all lookup
check_all-lookup now q [] s u c = refl
check_all-lookup now q ((p, info) ∷ entries) s u c = ground (
  arith,
  check_all-lookup now q entries (check_timeout s now p info).0 u.1
      (tail_Current s now p info entries u.0 c),
  check_timeout-lookup s now p q info (head_Current s p info entries c),
  has_key-lookup p entries,
)

-- A tick suspects an active peer that was silent for more than the timeout, removes a suspected one
-- that was silent for more than twice the timeout, and leaves every other peer as it was.
pub tick-lookup :
    (s : Peers) (now : ℕ) (q : String)
    → Unique s.state.peers
    → lookup q (tick s now).0.state.peers
      ≡ elim (lookup q s.state.peers) [ none ↦ none | some info ↦ advance now info ]
unfolding tick Current
tick-lookup s now q u = check_all-lookup now q s.state.peers s u (λ p info e. e) ∙ ground arith

check_timeout-Unique :
    (s : Peers) (now : ℕ) (p : String) (info : PeerInfo)
    → Unique s.state.peers
    → Unique (check_timeout s now p info).0.state.peers
unfolding check_timeout set_peer
check_timeout-Unique s now p info u =
    if-cases (λ (r : Peers × List Effect). Unique r.0.state.peers)
      (is_active info.status && ltb peer_timeout_ms (now - info.last_seen)) _ _
      (λ h. Unique-insert p (record info { status = suspected }) s.state.peers u)
      (λ h.
        if-cases (λ (r : Peers × List Effect). Unique r.0.state.peers)
          (is_suspected info.status && ltb (2 * peer_timeout_ms) (now - info.last_seen)) _ _
          (λ g. remove_peer-Unique s p u) (λ g. u))

check_all-Unique :
    (now : ℕ) (entries : Dict PeerInfo) (s : Peers)
    → Unique s.state.peers
    → Unique (check_all s now entries).0.state.peers
unfolding check_all
check_all-Unique now [] s u = u
check_all-Unique now ((p, info) ∷ entries) s u =
    check_all-Unique now entries (check_timeout s now p info).0
      (check_timeout-Unique s now p info u)

advance-suspects :
    (now : ℕ) (info : PeerInfo)
    → info.status ≡ active
    → info.last_seen + peer_timeout_ms < now
    → advance now info ≡ some (record info { status = suspected })
unfolding advance
advance-suspects now info e h = ground arith

advance-removes :
    (now : ℕ) (info : PeerInfo)
    → info.status ≡ suspected
    → info.last_seen + 2 * peer_timeout_ms < now
    → advance now info ≡ none
unfolding advance
advance-removes now info e h = ground arith

-- An active peer from which nothing more is heard is suspected by the first tick after 15 seconds,
-- still in the store, and gone after the next tick that comes after 30 seconds.
pub tick-tick :
    (s : Peers) (now later : ℕ) (q : String) (info : PeerInfo)
    → Unique s.state.peers
    → lookup q s.state.peers ≡ some info
    → info.status ≡ active
    → info.last_seen + peer_timeout_ms < now
    → info.last_seen + 2 * peer_timeout_ms < later
    → let once = (tick s now).0 in
      (lookup q once.state.peers ≡ some (record info { status = suspected }))
      × (lookup q (tick once later).0.state.peers ≡ none)
tick-tick s now later q info u found e h g =
    let once = (tick s now).0 in
    let marked : lookup q once.state.peers ≡ some (record info { status = suspected }) =
      tick-lookup s now q u ∙ (rw found (advance-suspects now info e h)) in
    (
      marked,
      tick-lookup once later q (unfold tick in check_all-Unique now s.state.peers s u)
          ∙ rw marked (advance-removes later (record info { status = suspected }) refl g),
    )
