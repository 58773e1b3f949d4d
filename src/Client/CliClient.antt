-- ===== src/Client/CliClient.antt =====
-- client/cliClient.js: the lines that the user types, and the events of the node. The colours and the
-- time in front of a line are left out.
pub mod Words
pub mod Lines
mod Tests
use Prim.Native.Char.{Char, code}
use p2p_app.Prelude.{
  ℕ, String, Bool, true, false, ◌&&◌, ◌||◌, List, [], ◌∷◌, ◌++◌, map, Option, none, some, Dict,
  lookup, insert, remove, has_key, keys, eqb, ◌==◌, if◌then◌else◌,
}
use p2p_app.Metrics.Snapshot.{Snapshot}
use p2p_app.Node.Commands.{is_space}
use p2p_app.Node.P2pNode
use p2p_app.Node.P2pNode.{Node, World, publish, send_dm, subscribe, unsubscribe}
use p2p_app.Protocol.Message.{Message}
use p2p_app.Storage.Level.{Level}

-- `s + t`
unfoldable pub appended : String → String → String
appended String.[] t = t
appended (String.◌∷◌ c s) t = String.◌∷◌ c (appended s t)

unfoldable pub trim_start : String → String
trim_start String.[] = String.[]
trim_start (String.◌∷◌ c s) =
    let rest = trim_start s in if is_space (code c) then rest else String.◌∷◌ c s

unfoldable pub trim_end : String → String
trim_end String.[] = String.[]
trim_end (String.◌∷◌ c s) =
    let rest = trim_end s in
    if is_space (code c) && eqb rest "" then String.[] else String.◌∷◌ c rest

-- `line.trim()`
unfoldable pub trim : String → String
trim s = trim_end (trim_start s)

unfoldable pub prepend : Char → List String → List String
prepend c [] = (String.◌∷◌ c String.[]) ∷ []
prepend c (w ∷ ws) = (String.◌∷◌ c w) ∷ ws

-- `s.split(' ')`
unfoldable pub split : String → List String
unfolding prepend
split String.[] = "" ∷ []
split (String.◌∷◌ c s) = let rest = split s in if code c == 32 then "" ∷ rest else prepend c rest

-- `words.join(' ')`
unfoldable pub join_words : List String → String
unfolding appended
join_words [] = ""
join_words (w ∷ []) = w
join_words (w ∷ v ∷ ws) = appended w (String.◌∷◌ " " (join_words (v ∷ ws)))

-- What a line asks for.
pub data Request : Type 0 where
  nothing : Request
  join leave : Option String → Request
  peers metrics help exit : Request
  send dm : Option String → String → Request
  unknown : String → Request
  plain : String → Request

-- `args[0]` where it is neither absent nor empty, and the others joined.
unfoldable pub first_arg : List String → Option String
first_arg [] = none
first_arg (w ∷ ws) = if eqb w "" then none else some w

unfoldable pub other_args : List String → String
unfolding join_words
other_args [] = ""
other_args (w ∷ ws) = join_words ws

-- The `switch`.
unfoldable pub request_of : String → List String → Request
unfolding first_arg other_args
request_of cmd args =
    if eqb cmd "join"
    then join (first_arg args)
    else if eqb cmd "leave"
    then leave (first_arg args)
    else if eqb cmd "peers"
    then peers
    else if eqb cmd "metrics"
    then metrics
    else if eqb cmd "send"
    then send (first_arg args) (other_args args)
    else if eqb cmd "dm"
    then dm (first_arg args) (other_args args)
    else if eqb cmd "help"
    then help
    else if eqb cmd "exit" || eqb cmd "quit"
    then exit
    else unknown cmd

-- `[cmd, ...args]`
unfoldable pub command : List String → Request
unfolding request_of
command [] = unknown ""
command (cmd ∷ args) = request_of cmd args

unfoldable pub parse_input : String → Request
unfolding command split
parse_input String.[] = nothing
parse_input (String.◌∷◌ c s) = if code c == 47 then command (split s) else plain (String.◌∷◌ c s)

unfoldable pub parse : String → Request
unfolding parse_input trim
parse line = parse_input (trim line)

-- What is written on the screen.
pub data Notice : Type 0 where
  joined_topic left_topic dm_sent unknown_command : String → Notice
  active_peers : List String → Notice
  usage_send usage_dm commands : Notice
  confirmed failed : String → Notice

pub data Effect : Type 0 where
  node_did : P2pNode.Effect → Effect
  notice : Notice → Effect
  snapshot : Effect
  -- The prefix '✓ ' or none, and the message.
  shown : Bool → Message → Effect
  stop_node : Effect

module _ (L : Level) where
  pub record Cli : Type 0 where
    pub node : Node L
    pub current_topic : String
    pub pending_messages : Dict String

  unfoldable pub node_effects : List P2pNode.Effect → List Effect
  node_effects effects = map node_did effects

  abbrev pub topic_or : String → Option String → String
  topic_or other none = other
  topic_or other (some topic) = topic

  -- Publishing on the topic, without a mark of the message.
  unfoldable pub publish_on : World → Cli → String → String → Cli × List Effect
  unfolding node_effects
  publish_on world c topic text =
      let ((node, effects), id) = publish L world c.node topic text in
      (record c { node = node }, node_effects effects)

  -- A plain text: the id is marked as pending. For an id that the code makes of the time there is no
  -- mark in the model; a plain text has none (`Lines`).
  unfoldable pub publish_plain : World → Cli → String → Cli × List Effect
  unfolding node_effects
  publish_plain world c text =
      let ((node, effects), id) = publish L world c.node c.current_topic text in
      let marked : Dict String = elim id [
        | none ↦ c.pending_messages
        | some i ↦ insert i text c.pending_messages
      ] in
      (record c { node = node; pending_messages = marked }, node_effects effects)

  unfoldable pub send_to_peer : World → Cli → String → String → Cli × List Effect
  unfolding node_effects
  send_to_peer world c peer_id text =
      let ((node, effects), id) = send_dm L world c.node peer_id text in
      (record c { node = node }, node_effects effects ++ notice (dm_sent peer_id) ∷ [])

  unfoldable pub join_topic : World → Cli → String → Cli × List Effect
  unfolding node_effects
  join_topic world c topic =
      let (node, effects) = subscribe L world c.node topic in
      (
        record c { node = node; current_topic = topic },
        node_effects effects ++ notice (joined_topic topic) ∷ [],
      )

  unfoldable pub leave_topic : World → Cli → String → Cli × List Effect
  unfolding node_effects
  leave_topic world c topic =
      let (node, effects) = unsubscribe L world c.node topic in
      (record c { node = node }, node_effects effects ++ notice (left_topic topic) ∷ [])

  -- `active` is what getActivePeers returns.
  unfoldable pub handle : World → List String → Cli → Request → Cli × List Effect
  unfolding join_topic leave_topic send_to_peer publish_on publish_plain
  handle world active c nothing = (c, [])
  handle world active c (join topic) = join_topic world c (topic_or "global" topic)
  handle world active c (leave topic) = leave_topic world c (topic_or c.current_topic topic)
  handle world active c peers = (c, notice (active_peers active) ∷ [])
  handle world active c metrics = (c, snapshot ∷ [])
  handle world active c (send none text) = (c, notice usage_send ∷ [])
  handle world active c (send (some topic) text) =
      if eqb text "" then (c, notice usage_send ∷ []) else publish_on world c topic text
  handle world active c (dm none text) = (c, notice usage_dm ∷ [])
  handle world active c (dm (some peer_id) text) =
      if eqb text "" then (c, notice usage_dm ∷ []) else send_to_peer world c peer_id text
  handle world active c help = (c, notice commands ∷ [])
  handle world active c exit = (c, stop_node ∷ [])
  handle world active c (unknown cmd) = (c, notice (unknown_command cmd) ∷ [])
  handle world active c (plain text) = publish_plain world c text

  unfoldable pub on_line : World → List String → Cli → String → Cli × List Effect
  unfolding handle parse
  on_line world active c line = handle world active c (parse line)

  -- The handlers of 'delivery:confirmed' and 'delivery:failed'. The notice shows the first characters
  -- of the text.
  unfoldable pub settle : (String → Notice) → Cli → String → Cli × List Effect
  settle outcome c message_id = elim (lookup message_id c.pending_messages) [
    | none ↦ (c, [])
    | some text ↦ (
      record c { pending_messages = remove message_id c.pending_messages },
      notice (outcome text) ∷ [],
    )
  ]

  unfoldable pub on_delivery_confirmed : Cli → String → Cli × List Effect
  unfolding settle
  on_delivery_confirmed c message_id = settle confirmed c message_id

  unfoldable pub on_delivery_failed : Cli → String → Cli × List Effect
  unfolding settle
  on_delivery_failed c message_id = settle failed c message_id

  -- The handler of 'message': an own message that is not pending is shown with a tick.
  unfoldable pub on_message : Cli → Message → List Effect
  on_message c m =
      shown
        (eqb m.sender c.node.peer_id && (if has_key m.id c.pending_messages then false else true)) m
      ∷ []
