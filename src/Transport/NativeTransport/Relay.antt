-- ===== src/Transport/NativeTransport/Relay.antt =====
-- transport/nativeTransport.js: what a connection passes, against transport/wsServer.js.
use p2p_app.Prelude.{
  ℕ, String, ◌≡◌, refl, sym, ◌∙◌, ap, Bool, true, false, not, List, [], ◌∷◌, none, some, eqb, ◌==◌,
  arith, Bool-cases, inl, inr,
}
use p2p_app.Transport.WsServer
use p2p_app.Transport.WsServer.{WsServer, Connection, Frame, malformed, hello, data_frame}
use p2p_app.Transport.WsServer.Handshake
use p2p_app.Transport.WsServer.Handshake.{well_formed, behind_hello, run-behind_hello}
use p2p_app.Transport.NativeTransport.{
  NativeServer, NativePeer, Effect, relayed, peer_at, put_peer, first_payload, next_payload,
  on_payload, on_native_event, run,
}

-- The frames that a peer emitter gets, each with its peer.
abbrev pub relayed_of : List Effect → List (Frame × String)
relayed_of [] = []
relayed_of (relayed frame peer_id ∷ effects) = (frame, peer_id) ∷ relayed_of effects
relayed_of (_ ∷ effects) = relayed_of effects

-- Whether the first frame that parses is a 'HELLO' that names a peer.
unfoldable pub opens_with_hello : List Frame → Bool
opens_with_hello [] = true
opens_with_hello (malformed ∷ frames) = opens_with_hello frames
opens_with_hello (hello peer_id public_key subscriptions ∷ frames) = not (eqb peer_id "")
opens_with_hello (data_frame m ∷ frames) = false

peer_at-put_peer :
    (fd : ℕ) (peer : NativePeer) (peers : List (ℕ × NativePeer))
    → peer_at fd (put_peer fd peer peers) ≡ some peer
unfolding peer_at put_peer
peer_at-put_peer fd peer [] = ground arith
peer_at-put_peer fd peer ((other, old) ∷ peers) = elim (Bool-cases (other == fd)) [
  | inl e ↦ rw (e, e) refl
  | inr e ↦ rw (e, e) (peer_at-put_peer fd peer peers)
]

module _ (local_subscriptions : List String) where
  run-well_formed :
      (s : NativeServer) (fd : ℕ) (peer_id : String) (frames : List Frame)
      → peer_at fd s.peers ≡ some (record { remote_peer_id = some peer_id })
      → relayed_of (run s local_subscriptions fd frames).1 ≡ well_formed peer_id frames
  unfolding run on_native_event on_payload next_payload well_formed
  run-well_formed s fd peer_id [] e = refl
  run-well_formed s fd peer_id (malformed ∷ frames) e =
      rw (on_payload, e) (run-well_formed s fd peer_id frames e)
  run-well_formed s fd peer_id (hello p k subs ∷ frames) e =
      rw (on_payload, e)
        (ap (◌∷◌ (hello p k subs, peer_id)) (run-well_formed s fd peer_id frames e))
  run-well_formed s fd peer_id (data_frame m ∷ frames) e =
      rw (on_payload, e) (ap (◌∷◌ (data_frame m, peer_id)) (run-well_formed s fd peer_id frames e))

  native-behind_hello :
      (s : NativeServer) (fd : ℕ) (frames : List Frame)
      → peer_at fd s.peers ≡ some (record { remote_peer_id = none })
      → opens_with_hello frames ≡ true
      → relayed_of (run s local_subscriptions fd frames).1 ≡ behind_hello frames
  unfolding run on_native_event on_payload first_payload opens_with_hello behind_hello
  native-behind_hello s fd [] e h = refl
  native-behind_hello s fd (malformed ∷ frames) e h =
      rw (on_payload, e) (native-behind_hello s fd frames e h)
  native-behind_hello s fd (data_frame m ∷ frames) e h = absurd (ground arith)
  native-behind_hello s fd (hello p k subs ∷ frames) e h = elim (Bool-cases (eqb p "")) [
    | inl nameless ↦ absurd (ground arith)
    | inr named ↦
        rw (on_payload, e, named)
          (run-well_formed _ fd p frames
            (peer_at-put_peer fd (record { remote_peer_id = some p }) s.peers))
  ]

  -- On a fresh connection whose first frame that parses is a 'HELLO' that names a peer, the native
  -- server passes the same frames, in order and under the same peer id, as the WebSocket server.
  pub run-relayed_of :
      (s : NativeServer) (fd : ℕ) (ws : WsServer) (c : Connection) (frames : List Frame)
      → peer_at fd s.peers ≡ some (record { remote_peer_id = none })
      → c.connected_peer_id ≡ none
      → opens_with_hello frames ≡ true
      → relayed_of (run s local_subscriptions fd frames).1
        ≡ Handshake.relayed_of (WsServer.run ws c local_subscriptions frames).2
  run-relayed_of s fd ws c frames fresh new named =
      native-behind_hello s fd frames fresh named
      ∙ sym (run-behind_hello local_subscriptions ws c frames new)
