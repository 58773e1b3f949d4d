-- ===== src/Protocol/LamportClock/Tests.antt =====
-- Runs of the clocks of protocol/lamportClock.js.
use p2p_app.Prelude.{◌<◌, String, ◌≡◌, refl, same, List, [], ◌∷◌}
use p2p_app.Protocol.LamportClock.{init, tick, update}
use p2p_app.Protocol.LamportClock.Causality

update_jumps : (update (record { value = 3 }) 10).1 ≡ 11
unfolding update
update_jumps = refl

-- Node a sends, and b receives and answers.
abbrev calls : List (String × Causality.Call)
calls =
    ("a", Causality.Call.sends "m")
    ∷ ("b", Causality.Call.receives (record { id = "m"; stamp = 1 }))
    ∷ []

abbrev sending : Causality.Event
sending = record {
  node = "a";
  action = Causality.Action.sent (record { id = "m"; stamp = 1 });
  stamp = 1;
}

abbrev receipt : Causality.Event
receipt = record {
  node = "b";
  action = Causality.Action.received (record { id = "m"; stamp = 1 });
  stamp = 2;
}

Precedes-lt_example : ◌<◌ 1 2
unfolding init Causality.run Causality.step tick update same
Precedes-lt_example = Causality.Precedes-lt calls {e = sending} {f = receipt} (
    Causality.Precedes.message (record { id = "m"; stamp = 1 })
      (Causality.Within.later Causality.Within.first) Causality.Within.first refl refl)
