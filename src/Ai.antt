-- ===== src/Ai.antt =====
-- ai/aiClient.js: the request for a summary and what becomes of the reply.
pub mod Fallback
mod Tests
use p2p_app.Prelude.{
  ℕ, String, Bool, true, false, List, [], ◌∷◌, map, Option, none, some, length, eqb, ◌==◌,
  if◌then◌else◌,
}
use p2p_app.Protocol.Message.{Message}
use p2p_app.Node.Commands.{Mode}

-- An entry of the payload. `createdAt` is left out, as in the messages.
pub record Line : Type 0 where
  pub id : String
  pub sender : String
  pub topic : String
  pub payload : String

pub record Request : Type 0 where
  pub topic : String
  pub mode : Mode
  pub messages : List Line

-- How `fetch` ends: it throws, by its timeout or else; the service answers with an error; or it
-- answers, with the field `summary` or without.
pub data Reply : Type 0 where
  thrown : Reply
  refused : ℕ → Reply
  answered : Option String → Reply

unfoldable pub line_of : String → Message → Line
line_of topic m = record {
  id = m.id;
  sender = m.sender;
  topic = if eqb m.topic "" then topic else m.topic;
  payload = m.payload;
}

unfoldable pub request_for : String → Mode → List Message → Request
unfolding line_of
request_for topic mode messages = record {
  topic = topic;
  mode = mode;
  messages = map (line_of topic) messages;
}

-- `data.summary || null`
unfoldable pub filled : Option String → Option String
filled none = none
filled (some s) = if eqb s "" then none else some s

unfoldable pub result_of : Reply → Option String
unfolding filled
result_of thrown = none
result_of (refused status) = none
result_of (answered summary) = filled summary

-- `fetch` is what the service replies to a request.
unfoldable pub summarize_messages : (Request → Reply) → String → Mode → List Message → Option String
unfolding request_for result_of
summarize_messages fetch topic mode messages =
    if length messages == 0 then none else result_of (fetch (request_for topic mode messages))
