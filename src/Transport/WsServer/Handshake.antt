-- ===== src/Transport/WsServer/Handshake.antt =====
-- transport/wsServer.js: what passes a connection, and what closing one leaves.
use p2p_app.Prelude.{
  String, ◌≡◌, refl, ap, List, [], ◌∷◌, none, some, eqb, if◌then◌else◌, Bool-cases, inl, inr,
}
use p2p_app.Transport.WsServer.{
  WsServer, Connection, Frame, malformed, hello, data_frame, Effect, relayed, handshake,
  first_message, next_message, on_message, run,
}

-- The frames that an inbound client gets, each with its peer.
abbrev pub relayed_of : List Effect → List (Frame × String)
relayed_of [] = []
relayed_of (relayed frame peer_id ∷ effects) = (frame, peer_id) ∷ relayed_of effects
relayed_of (_ ∷ effects) = relayed_of effects

-- The frames that parse, under a peer id.
unfoldable pub well_formed : String → List Frame → List (Frame × String)
well_formed peer_id [] = []
well_formed peer_id (malformed ∷ frames) = well_formed peer_id frames
well_formed peer_id (frame ∷ frames) = (frame, peer_id) ∷ well_formed peer_id frames

-- The frames that parse behind the first 'HELLO' that names a peer, under the id that it names.
unfoldable pub behind_hello : List Frame → List (Frame × String)
unfolding well_formed
behind_hello [] = []
behind_hello (hello peer_id public_key subscriptions ∷ frames) =
    let rest = behind_hello frames in if eqb peer_id "" then rest else well_formed peer_id frames
behind_hello (_ ∷ frames) = behind_hello frames

module _ (local_subscriptions : List String) where
  run-well_formed :
      (s : WsServer) (c : Connection) (peer_id : String) (frames : List Frame)
      → c.connected_peer_id ≡ some peer_id
      → relayed_of (run s c local_subscriptions frames).2 ≡ well_formed peer_id frames
  unfolding run on_message next_message well_formed
  run-well_formed s c peer_id [] e = refl
  run-well_formed s c peer_id (malformed ∷ frames) e =
      rw (on_message, e) (run-well_formed s c peer_id frames e)
  run-well_formed s c peer_id (hello p k subs ∷ frames) e =
      rw (on_message, e) (ap (◌∷◌ (hello p k subs, peer_id)) (run-well_formed s c peer_id frames e))
  run-well_formed s c peer_id (data_frame m ∷ frames) e =
      rw (on_message, e) (ap (◌∷◌ (data_frame m, peer_id)) (run-well_formed s c peer_id frames e))

  -- On a connection without a handshake the inbound client gets exactly the frames that parse
  -- behind the first 'HELLO' that names a peer, in order and under that peer's id, and nothing
  -- else.
  pub run-behind_hello :
      (s : WsServer) (c : Connection) (frames : List Frame)
      → c.connected_peer_id ≡ none
      → relayed_of (run s c local_subscriptions frames).2 ≡ behind_hello frames
  unfolding run on_message first_message handshake behind_hello
  run-behind_hello s c [] e = refl
  run-behind_hello s c (malformed ∷ frames) e = rw (on_message, e) (run-behind_hello s c frames e)
  run-behind_hello s c (data_frame m ∷ frames) e =
      rw (on_message, e) (run-behind_hello s c frames e)
  run-behind_hello s c (hello p k subs ∷ frames) e = elim (Bool-cases (eqb p "")) [
    | inl empty ↦ rw (on_message, e, empty) (run-behind_hello s c frames e)
    | inr named ↦ rw (on_message, e, named) (run-well_formed _ _ p frames refl)
  ]
