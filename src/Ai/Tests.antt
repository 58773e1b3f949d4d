-- ===== src/Ai/Tests.antt =====
-- ai/aiClient.js: runs against a service that is away.
use p2p_app.Prelude.{◌≡◌, refl, [], some, none, same}
use p2p_app.Node.Commands.{summary}
use p2p_app.Ai.{answered, result_of, summarize_messages}

-- An answer without text is no summary.
empty_answer : result_of (answered (some "")) ≡ none
unfolding result_of same
empty_answer = refl

-- Without messages the service is not asked.
nothing_to_summarise : summarize_messages (λ r. answered (some "text")) "global" summary [] ≡ none
unfolding summarize_messages
nothing_to_summarise = refl
