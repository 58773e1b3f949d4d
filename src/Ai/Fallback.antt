-- ===== src/Ai/Fallback.antt =====
-- ai/aiClient.js with node/index.js: the node without the AI service.
use p2p_app.Prelude.{
  String, ◌≡◌, refl, Bool, false, List, [], none, contains, contains-discard, discard, length, ◌==◌,
  if◌then◌else◌, arith,
}
use p2p_app.Protocol.Message.{Message}
use p2p_app.Node.Commands.{Mode}
use p2p_app.Node.P2pNode.{Node, World, get_recent_messages, finish_summary}
use p2p_app.Storage.Level.{Level}
use p2p_app.Ai.{Request, Reply, result_of, request_for, summarize_messages}

-- The service is away: every call throws or is refused.
abbrev pub IsAway : (Request → Reply) → Type 0
IsAway fetch = (r : Request) → result_of (fetch r) ≡ none

summarize_messages-away :
    (fetch : Request → Reply) (topic : String) (mode : Mode) (messages : List Message)
    → IsAway fetch
    → summarize_messages fetch topic mode messages ≡ none
unfolding summarize_messages
summarize_messages-away fetch topic mode messages away =
    ground (arith, away (request_for topic mode messages))

module _ (L : Level) where
  -- While the service is away, a summary that was begun ends without a message and without any other
  -- effect, and the topic is free for the next one.
  pub finish_summary-away :
      (world : World) (ok : Bool) (s : Node L) (topic : String) (mode : Mode)
      (fetch : Request → Reply)
      → IsAway fetch
      → let (after, effects) =
          finish_summary L world ok s topic mode (summarize_messages fetch topic mode) in
        (effects ≡ []) × (contains after.active_summarizations topic ≡ false)
  unfolding finish_summary
  finish_summary-away world ok s topic mode fetch away =
      let (read, messages) = get_recent_messages L ok s topic 25 in
      let reply = summarize_messages fetch topic mode in
      let no_text : (if length messages == 0 then none else reply messages) ≡ none =
        ground (arith, summarize_messages-away fetch topic mode messages away) in
      let freed : contains (discard topic read.active_summarizations) topic ≡ false =
        ground (arith, contains-discard topic read.active_summarizations topic) in
      rw (finish_summary, no_text) (refl, freed)
