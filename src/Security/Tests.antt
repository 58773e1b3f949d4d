-- ===== src/Security/Tests.antt =====
-- Runs of `SecurityManager` on small inputs.
use Prim.Native.String.{◌++◌ as text_append}
use p2p_app.Prelude.{
  String, ◌≡◌, refl, false, [], ◌∷◌, Option, none, some, lookup, pos, eqb, same, ne_of_eqb-false,
}
use p2p_app.Protocol.Message.{Message, MessageType}
use p2p_app.Security.{KeyManager, SecurityManager, verify_incoming_message}
use p2p_app.Security.Trust.{verify_incoming_message-keeps_key, rejected_message-registers}

-- Signatures that name the key and the payload.
abbrev keys : KeyManager
keys = record {
  public_key = "k";
  sign = λ s. text_append "k" s.payload;
  verify = λ s signature key. eqb signature (text_append key s.payload);
}

-- Only the key "y" verifies anything.
abbrev mute : KeyManager
mute = record { public_key = "k"; sign = λ s. "s"; verify = λ s signature key. eqb key "y" }

abbrev manager : SecurityManager
manager = record { peer_public_keys = ("alice", "k") ∷ [] }

abbrev note_from : String → Option String → Option String → Message
note_from sender key signature = record {
  id = "m1";
  type = MessageType.chat;
  ttl = pos 5;
  lamport_timestamp = 3;
  sender = sender;
  sender_public_key = key;
  topic = "global";
  payload = "hi";
  signature = signature;
  created_at = 0;
  pow_nonce = 0;
  routing_path = [];
}

verify_incoming_message-keeps_key_example :
    lookup "alice"
      (verify_incoming_message keys manager
        (note_from "alice" (some "x") (some "xhi"))).manager.peer_public_keys
    ≡ some "k"
unfolding lookup same
verify_incoming_message-keeps_key_example =
    verify_incoming_message-keeps_key keys manager (note_from "alice" (some "x") (some "xhi"))
      "alice" "k" refl (ne_of_eqb-false "k" "" refl)

rejected_message-registers_example :
    let forged = note_from "bob" (some "x") (some "bad") in
    let verdict = verify_incoming_message mute manager forged in
    (verdict.is_valid ≡ false)
    × ((verify_incoming_message mute verdict.manager (note_from "bob" none (some "yhi"))).is_valid
        ≡ false)
unfolding lookup same
rejected_message-registers_example =
    rejected_message-registers mute manager (note_from "bob" (some "x") (some "bad"))
      (note_from "bob" none (some "yhi")) "bad" "x" refl refl (ne_of_eqb-false "bad" "" refl) refl
      (ne_of_eqb-false "x" "" refl) refl refl (λ sig. refl)
