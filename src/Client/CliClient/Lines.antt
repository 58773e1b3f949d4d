-- ===== src/Client/CliClient/Lines.antt =====
-- client/cliClient.js: what becomes of the lines that the user types.
use Prim.Native.Char.{Char, code}
use p2p_app.Prelude.{
  String, ◌≡◌, ◌≢◌, refl, ◌∙◌, ap, inl, inr, Bool, true, false, List, [], ◌∷◌, none, some, lookup,
  lookup-insert_self, contains, same, ◌==◌, Bool-cases, arith,
}
use p2p_app.Node.Commands.{is_space, command_of, trimmed, starts_with}
use p2p_app.Node.P2pNode.{World, publish}
use p2p_app.Node.P2pNode.Subscriptions.{subscribe-contains, unsubscribe-contains}
use p2p_app.Protocol.MessageFactory.{create, create_base_message}
use p2p_app.Storage.Level.{Level}
use p2p_app.Client.CliClient.{
  appended, trim_start, trim_end, trim, split, Request, send, plain, join, leave, first_arg,
  other_args, request_of, command, parse_input, parse, Cli, handle, join_topic, leave_topic,
  on_line, publish_plain,
}
use p2p_app.Client.CliClient.Words.{
  IsWord, split-appended, join_words-split, Begins, empty, letter, trim-Begins, trim_end-appended,
  appended_filled,
}

-- `/send topic text`
unfoldable pub send_line : String → String → String
unfolding appended
send_line topic text =
    String.◌∷◌ "/" (appended "send" (String.◌∷◌ " " (appended topic (String.◌∷◌ " " text))))

trim-send_line :
    (topic text : String)
    → text ≢ ""
    → trim_end text ≡ text
    → trim (send_line topic text) ≡ send_line topic text
unfolding trim trim_start send_line appended
trim-send_line topic text filled kept =
    let t : String = appended topic (appended " " text) in
    let last = trim_end-appended " " text filled kept in
    let middle =
      trim_end-appended topic (appended " " text) (appended_filled " " text filled) last in
    trim_end-appended "/send " t
      (appended_filled topic (appended " " text) (appended_filled " " text filled)) middle

request_of-send :
    (args : List String) → request_of "send" args ≡ send (first_arg args) (other_args args)
unfolding request_of same
request_of-send args = refl

first_arg-some : (w : String) (ws : List String) → w ≢ "" → first_arg (w ∷ ws) ≡ some w
unfolding first_arg
first_arg-some w ws filled = ground arith

-- A line '/send', a topic that is one word and a text that does not end with a blank is taken apart
-- into that topic and that text, blanks inside the text included.
pub parse-send_line :
    (topic text : String)
    → IsWord topic
    → topic ≢ ""
    → text ≢ ""
    → trim_end text ≡ text
    → parse (send_line topic text) ≡ send (some topic) text
unfolding parse parse_input command other_args send_line appended
parse-send_line topic text word named filled kept =
    let tail : String = String.◌∷◌ " " (appended topic (String.◌∷◌ " " text)) in
    let first : split (appended "send" tail) ≡ "send" ∷ topic ∷ split text =
      split-appended "send" (appended topic (String.◌∷◌ " " text))
        (refl, (refl, (refl, (refl, tt))))
      ∙ ap (◌∷◌ "send") (split-appended topic text word) in
    let chosen : command ("send" ∷ topic ∷ split text) ≡ send (some topic) text =
      request_of-send (topic ∷ split text)
      ∙ rw (first_arg-some topic (split text) named, join_words-split text) refl in
    ap parse_input (trim-send_line topic text filled kept) ∙ ap command first ∙ chosen

-- A text that does not begin with a slash is no command of the node.
command_of-letter :
    (c : Char) (s : String)
    → is_space (code c) ≡ false
    → (code c == 47) ≡ false
    → command_of (String.◌∷◌ c s) ≡ none
unfolding command_of trimmed starts_with
command_of-letter c s first no_slash = rw (command_of, first) (ground arith)

-- A plain text begins with neither a blank nor a slash.
data IsPlain : String → Type 0 where
  begins :
      (c : Char) (s : String)
      → is_space (code c) ≡ false
      → (code c == 47) ≡ false
      → IsPlain (String.◌∷◌ c s)

abbrev is_plain : Request → Bool
is_plain (plain text) = true
is_plain _ = false

command-is_plain : (words : List String) → is_plain (command words) ≡ false
unfolding command request_of
command-is_plain [] = refl
command-is_plain (cmd ∷ args) = ground arith

-- A plain text is a trimmed line as it stands.
plain_input : {s text : String} → Begins s → parse_input s ≡ plain text → IsPlain text
unfolding parse_input
plain_input empty e = cc
plain_input {text} (letter c s first) e = elim (Bool-cases (code c == 47)) [
  | inl slash ↦ absurd (ground (arith, command-is_plain (split s)))
  | inr no_slash ↦
      let same_text : String.◌∷◌ c s ≡ text = ground arith in
      rw (← same_text) (begins c s first no_slash)
]

command_of-plain : {text : String} → IsPlain text → command_of text ≡ none
command_of-plain (begins c s first no_slash) = command_of-letter c s first no_slash

module _ (L : Level) (world : World) (active : List String) (c : Cli L) (line text : String) where
  publish_id :
      command_of text ≡ none → (publish L world c.node c.current_topic text).1 ≡ some world.fresh.id
  unfolding publish create create_base_message
  publish_id text_only = rw (publish, text_only) refl

  -- A line that is a plain text is no command of the node: its message goes to the current topic, with
  -- a new id under which the text is pending.
  pub on_line-plain :
      parse line ≡ plain text
      → let (after, effects) = on_line L world active c line in
        let ((node, did), id) = publish L world c.node c.current_topic text in
        (id ≡ some world.fresh.id)
        × (after.node ≡ node)
        × (after.current_topic ≡ c.current_topic)
        × (lookup world.fresh.id after.pending_messages ≡ some text)
  unfolding on_line parse handle publish_plain
  on_line-plain e =
      let text_only : command_of text ≡ none =
        command_of-plain (plain_input (trim-Begins line) e) in
      let new_id = publish_id text_only in
      rw (on_line, e)
        (new_id, refl, refl, rw (publish_plain, new_id) (lookup-insert_self world.fresh.id text _))

module _ (L : Level) (world : World) (active : List String) (c : Cli L) where
  -- After '/join' the topic is the current one, and the node is subscribed to it.
  pub handle-join :
      (topic : String)
      → let (after, effects) = handle L world active c (join (some topic)) in
        (after.current_topic ≡ topic) × (contains after.node.local_subscriptions topic ≡ true)
  unfolding handle join_topic
  handle-join topic = (refl, ground (arith, subscribe-contains L world c.node topic topic))

  -- After '/leave' without a topic, the node is no longer subscribed to the current topic, which is
  -- still the one that plain texts are published on.
  pub handle-leave :
      let (after, effects) = handle L world active c (leave none) in
      (after.current_topic ≡ c.current_topic)
      × (contains after.node.local_subscriptions c.current_topic ≡ false)
  unfolding handle leave_topic
  handle-leave =
      (refl, ground (arith, unsubscribe-contains L world c.node c.current_topic c.current_topic))
