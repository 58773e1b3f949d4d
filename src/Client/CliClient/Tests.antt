-- ===== src/Client/CliClient/Tests.antt =====
-- client/cliClient.js: runs of the client on a few lines.
use p2p_app.Prelude.{◌≡◌, refl, [], none, some, lookup, same}
use p2p_app.Node.P2pNode.{publish}
use p2p_app.Node.P2pNode.Tests.{world, node}
use p2p_app.Storage.Level.Memory.{memory}
use p2p_app.Client.CliClient.{
  Cli, nothing, join, leave, send, plain, unknown, parse, trim_end, trim_start, on_line,
  on_delivery_confirmed,
}
use p2p_app.Client.CliClient.Lines.{on_line-plain}

requests :
    (parse "  " ≡ nothing)
    × (parse " /join news" ≡ join (some "news"))
    × (parse "/join  news" ≡ join none)
    × (parse "/leave" ≡ leave none)
    × (parse "/send a b  c " ≡ send (some "a") "b  c")
    × (parse "/summary" ≡ unknown "summary")
    × (parse " hello there " ≡ plain "hello there")
unfolding parse same trim_end trim_start
requests = (refl, refl, refl, refl, refl, refl, refl)

abbrev client : Cli memory
client = record { node = node; current_topic = "global"; pending_messages = [] }

-- A confirmation for a message that is not pending prints nothing.
nothing_pending : on_delivery_confirmed memory client "m1" ≡ (client, [])
unfolding on_delivery_confirmed lookup
nothing_pending = refl

on_line-plain_example :
    let (after, effects) = on_line memory world [] client "hello" in
    let ((next, did), id) = publish memory world node "global" "hello" in
    (id ≡ some "new")
    × (after.node ≡ next)
    × (after.current_topic ≡ "global")
    × (lookup "new" after.pending_messages ≡ some "hello")
on_line-plain_example =
    on_line-plain memory world [] client "hello" "hello"
      (unfold parse same trim_end trim_start in refl)
