-- ===== src/Security/Trust.antt =====
-- security/index.js: which keys `SecurityManager` trusts, and which messages it accepts.
use p2p_app.Prelude.{
  String, ◌≡◌, ◌≢◌, ◌↔◌, inl, inr, Option-cases, Bool-cases, ap, ◌∙◌, true, false, Option, none,
  some, lookup, lookup-insert, lookup-insert_self, arith,
}
use p2p_app.Protocol.Message.{Message}
use p2p_app.Security.{
  KeyManager, SecurityManager, payload_to_sign, present, register_peer_key, sender_key,
  sign_outgoing_message, check_signature, verify_incoming_message,
}

present-some : (t : String) → t ≢ "" → present (some t) ≡ some t
unfolding present
present-some t h = ground arith

signed_present : {o : Option String} {t : String} → o ≡ some t → t ≢ "" → present o ≡ some t
signed_present {o} {t} e h = ap present e ∙ present-some t h

sender_key-keeps_key :
    (s : SecurityManager) (m : Message) (peer_id key : String)
    → lookup peer_id s.peer_public_keys ≡ some key
    → key ≢ ""
    → lookup peer_id (sender_key s m).0.peer_public_keys ≡ some key
unfolding sender_key register_peer_key present
sender_key-keeps_key s m peer_id key known filled =
    elim (Option-cases (present m.sender_public_key)) [
      | inl e ↦ ground arith
      | inr (k, e) ↦ ground (arith, lookup-insert m.sender peer_id k s.peer_public_keys)
    ]

verify_incoming_message_manager {ℓ} :
    (P : SecurityManager → Type ℓ) (keys : KeyManager) (s : SecurityManager) (m : Message)
    → P s
    → P (sender_key s m).0
    → P (verify_incoming_message keys s m).manager
unfolding verify_incoming_message check_signature
verify_incoming_message_manager P keys s m old learned = elim (Option-cases (present m.signature)) [
  | inl e ↦ rw (e, verify_incoming_message) old
  | inr (signature, e) ↦ elim (Option-cases (sender_key s m).1) [
    | inl f ↦ rw (e, f, verify_incoming_message) learned
    | inr (k, f) ↦ rw (e, f, verify_incoming_message) learned
  ]
]

-- Once a key other than "" is registered for a peer, no message that is verified changes it,
-- whatever key and signature the message carries.
pub verify_incoming_message-keeps_key :
    (keys : KeyManager) (s : SecurityManager) (m : Message) (peer_id key : String)
    → lookup peer_id s.peer_public_keys ≡ some key
    → key ≢ ""
    → lookup peer_id (verify_incoming_message keys s m).manager.peer_public_keys ≡ some key
verify_incoming_message-keeps_key keys s m peer_id key known filled =
    verify_incoming_message_manager (λ t. lookup peer_id t.peer_public_keys ≡ some key) keys s m
      known (sender_key-keeps_key s m peer_id key known filled)

-- A message is accepted exactly when it has a signature, its sender's key is known or comes with
-- it, and the signature is one of the signed fields under that key.
pub verify_incoming_message-is_valid :
    (keys : KeyManager) (s : SecurityManager) (m : Message)
    → ((verify_incoming_message keys s m).is_valid ≡ true) ↔ (
        (signature : String) × (key : String) × (present m.signature ≡ some signature)
        × ((sender_key s m).1 ≡ some key)
        × (keys.verify (payload_to_sign m) signature key ≡ true))
unfolding verify_incoming_message
verify_incoming_message-is_valid keys s m = elim (Option-cases (present m.signature)) [
  | inl e ↦ (λ h. absurd (ground arith), λ (sig, key, p, q, v). absurd (ground arith))
  | inr (signature, e) ↦ elim (Option-cases (sender_key s m).1) [
    | inl f ↦ (λ h. absurd (ground arith), λ (sig, key, p, q, v). absurd (ground arith))
    | inr (k, f) ↦ (λ h. (signature, k, e, f, ground arith), λ (sig, key, p, q, v). ground arith)
  ]
]

-- Of two key managers that agree, what the first signs the second accepts, from a sender whose key
-- is registered or comes with the message.
pub verify_incoming_message-sign :
    (mine theirs : KeyManager) (s : SecurityManager) (m : Message)
    → theirs.verify (payload_to_sign m) (mine.sign (payload_to_sign m)) mine.public_key ≡ true
    → mine.sign (payload_to_sign m) ≢ ""
    → (sender_key s m).1 ≡ some mine.public_key
    → (verify_incoming_message theirs s (sign_outgoing_message mine m)).is_valid ≡ true
unfolding sign_outgoing_message sender_key payload_to_sign
verify_incoming_message-sign mine theirs s m correct filled known =
    (verify_incoming_message-is_valid theirs s (sign_outgoing_message mine m)).1
      (mine.sign (payload_to_sign m), mine.public_key, present-some _ filled, known, correct)

pub sender_key_known :
    (s : SecurityManager) (m : Message) (key : String)
    → lookup m.sender s.peer_public_keys ≡ some key
    → key ≢ ""
    → (sender_key s m).1 ≡ some key
unfolding sender_key present
sender_key_known s m key known filled = ground arith

-- What a message from an unknown sender teaches, whether or not it is accepted.
learned_key :
    (keys : KeyManager) (s : SecurityManager) (m : Message) (signature key : String)
    → lookup m.sender s.peer_public_keys ≡ none
    → present m.signature ≡ some signature
    → present m.sender_public_key ≡ some key
    → lookup m.sender (verify_incoming_message keys s m).manager.peer_public_keys ≡ some key
unfolding verify_incoming_message check_signature sender_key register_peer_key present
learned_key keys s m signature key unknown signed carried =
    ground (arith, lookup-insert_self m.sender key s.peer_public_keys)

-- Without a signature that verifies under the known key of its sender, a message is rejected.
rejected_under :
    (keys : KeyManager) (s : SecurityManager) (m : Message) (key : String)
    → lookup m.sender s.peer_public_keys ≡ some key
    → key ≢ ""
    → ((sig : String) → keys.verify (payload_to_sign m) sig key ≡ false)
    → (verify_incoming_message keys s m).is_valid ≡ false
rejected_under keys s m key known filled bad =
    elim (Bool-cases (verify_incoming_message keys s m).is_valid) [
      | inr e ↦ e
      | inl e ↦
          let (sig, k, p, q, v) = (verify_incoming_message-is_valid keys s m).0 e in
          let same_key : k ≡ key = ground (arith, sender_key_known s m key known filled) in
          absurd (ground (arith, bad sig))
    ]

-- A rejected message still registers the key that it carries: from then on the messages of its
-- true sender, whose signatures do not verify under that key, are rejected.
pub rejected_message-registers :
    (keys : KeyManager) (s : SecurityManager) (forged genuine : Message) (signature key : String)
    → lookup forged.sender s.peer_public_keys ≡ none
    → forged.signature ≡ some signature
    → signature ≢ ""
    → forged.sender_public_key ≡ some key
    → key ≢ ""
    → keys.verify (payload_to_sign forged) signature key ≡ false
    → genuine.sender ≡ forged.sender
    → ((sig : String) → keys.verify (payload_to_sign genuine) sig key ≡ false)
    → let verdict = verify_incoming_message keys s forged in
      (verdict.is_valid ≡ false)
      × ((verify_incoming_message keys verdict.manager genuine).is_valid ≡ false)
unfolding verify_incoming_message check_signature sender_key present
rejected_message-registers keys s forged genuine signature key unknown signed filled carried real
      bad same_sender other =
    let learned =
      learned_key keys s forged signature key unknown (signed_present signed filled)
        (signed_present carried real) in
    (
      ground arith,
      rejected_under keys (verify_incoming_message keys s forged).manager genuine key
          (ap (λ p. lookup p (verify_incoming_message keys s forged).manager.peer_public_keys)
              same_sender
            ∙ learned)
          real other,
    )
