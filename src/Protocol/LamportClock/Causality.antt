-- ===== src/Protocol/LamportClock/Causality.antt =====
-- protocol/lamportClock.js: many nodes, each with its clock, that stamp what happens to them.
use p2p_app.Prelude.{ℕ, ◌<◌, ◌≤◌, String, same, ite, ◌≡◌, refl, List, [], ◌∷◌, All, All-mono, arith}
use p2p_app.Protocol.LamportClock.{LamportClock, init, tick, update}

-- A message under way: its identity and the stamp that it carries.
pub record Envelope : Type 0 where
  pub id : String
  pub stamp : ℕ

pub data Action : Type 0 where
  internal : Action
  sent received : Envelope → Action

pub record Event : Type 0 where
  pub node : String
  pub action : Action
  pub stamp : ℕ

-- The clock of every node, and what happened, latest first.
pub record System : Type 0 where
  pub clock : String → LamportClock
  pub log : List Event

-- What a node does next. A message may arrive late, twice, or without having been sent.
pub data Call : Type 0 where
  acts : Call
  sends : String → Call
  receives : Envelope → Call

abbrev pub start : System
unfolding init
start = record { clock = λ _. init; log = [] }

set_clock : String → LamportClock → System → String → LamportClock
set_clock node c s n = ite (same node n) c (s.clock n)

unfoldable pub step : System → String × Call → System
unfolding set_clock
step s (node, acts) =
    let (c, t) = tick (s.clock node) in
    record {
      clock = set_clock node c s;
      log = record { node = node; action = internal; stamp = t } ∷ s.log;
    }
step s (node, sends id) =
    let (c, t) = tick (s.clock node) in
    record {
      clock = set_clock node c s;
      log =
          record { node = node; action = sent (record { id = id; stamp = t }); stamp = t } ∷ s.log;
    }
step s (node, receives m) =
    let (c, t) = update (s.clock node) m.stamp in
    record {
      clock = set_clock node c s;
      log = record { node = node; action = received m; stamp = t } ∷ s.log;
    }

unfoldable pub run : System → List (String × Call) → System
run s [] = s
run s (c ∷ cs) = run (step s c) cs

-- `e` is one of the events.
pub data Within (e : Event) : List Event → Type 0 where
  first : {log : List Event} → Within e (e ∷ log)
  later : {g : Event} {log : List Event} → Within e log → Within e (g ∷ log)

-- `e` stands before `f` in the log, which has the latest event first.
pub data Earlier (e f : Event) : List Event → Type 0 where
  here : {log : List Event} → Within e log → Earlier e f (f ∷ log)
  there : {g : Event} {log : List Event} → Earlier e f log → Earlier e f (g ∷ log)

-- Happened-before: the order of one node's events, from a sending to a receipt of the same
-- message, and chains of these.
pub data Precedes (log : List Event) : Event → Event → Type 0 where
  same_node : {e f : Event} → Earlier e f log → e.node ≡ f.node → Precedes log e f
  message :
      {e f : Event} (m : Envelope)
      → Within e log
      → Within f log
      → e.action ≡ sent m
      → f.action ≡ received m
      → Precedes log e f
  chain : {e f g : Event} → Precedes log e f → Precedes log f g → Precedes log e g

-- An event's stamp fits its message.
abbrev IsStamped : Event → Type 0
IsStamped e = elim e.action [
  | internal ↦ Unit {0}
  | sent m ↦ e.stamp ≡ m.stamp
  | received m ↦ m.stamp < e.stamp
]

abbrev Rises : List Event → Type 0
Rises [] = Unit {0}
Rises (f ∷ log) = All (λ e. e.node ≡ f.node → e.stamp < f.stamp) log × Rises log

record Inv (s : System) : Type 0 where
  clocks : All (λ e. e.stamp ≤ (s.clock e.node).value) s.log
  stamped : All IsStamped s.log
  rises : Rises s.log

-- An event with a stamp above its node's clock, which then shows that stamp, keeps the invariant.
push-Inv :
    (s : System) (node : String) (a : Action) (t : ℕ)
    → Inv s
    → (s.clock node).value < t
    → IsStamped (record { node = node; action = a; stamp = t })
    → Inv (record {
      clock = set_clock node (record { value = t }) s;
      log = record { node = node; action = a; stamp = t } ∷ s.log;
    })
unfolding set_clock
push-Inv s node a t v above fits = record {
  clocks = (ground arith, All-mono _ _ (λ e h. ground arith) s.log v.clocks);
  stamped = (fits, v.stamped);
  rises = (All-mono _ _ (λ e h p. ground arith) s.log v.clocks, v.rises);
}

step-Inv : (s : System) (c : String × Call) → Inv s → Inv (step s c)
unfolding step tick update
step-Inv s (node, acts) v = push-Inv s node internal _ v (omega arith) tt
step-Inv s (node, sends id) v = push-Inv s node (sent _) _ v (omega arith) refl
step-Inv s (node, receives m) v = push-Inv s node (received m) _ v (omega arith) (omega arith)

run-Inv : (s : System) (cs : List (String × Call)) → Inv s → Inv (run s cs)
unfolding run
run-Inv s [] v = v
run-Inv s (c ∷ cs) v = run-Inv (step s c) cs (step-Inv s c v)

All-Within {κ} :
    (P : Event → Type κ) {e : Event} {log : List Event} → All P log → Within e log → P e
All-Within P h first = h.0
All-Within P h (later w) = All-Within P h.1 w

Earlier-lt :
    {e f : Event} {log : List Event}
    → Rises log
    → Earlier e f log
    → e.node ≡ f.node
    → e.stamp < f.stamp
Earlier-lt h (here w) p = All-Within _ h.0 w p
Earlier-lt h (there r) p = Earlier-lt h.1 r p

sent-stamp : (e : Event) (m : Envelope) → IsStamped e → e.action ≡ sent m → e.stamp ≡ m.stamp
sent-stamp e m h p = ground arith

received-stamp :
    (e : Event) (m : Envelope) → IsStamped e → e.action ≡ received m → m.stamp < e.stamp
received-stamp e m h p = ground arith

Precedes-Inv : {s : System} {e f : Event} → Inv s → Precedes s.log e f → e.stamp < f.stamp
Precedes-Inv v (same_node r p) = Earlier-lt v.rises r p
Precedes-Inv v (message {e = e} {f = f} m we wf pe pf) = omega (
  arith,
  sent-stamp e m (All-Within IsStamped v.stamped we) pe,
  received-stamp f m (All-Within IsStamped v.stamped wf) pf,
)
Precedes-Inv v (chain r q) = omega (arith, Precedes-Inv v r, Precedes-Inv v q)

-- Whatever the nodes do from fresh clocks, and however messages are delayed, duplicated or forged,
-- an event that happened before another has the smaller stamp.
pub Precedes-lt :
    (cs : List (String × Call)) {e f : Event} → Precedes (run start cs).log e f → e.stamp < f.stamp
unfolding init
Precedes-lt cs r =
    Precedes-Inv (run-Inv start cs (record { clocks = tt; stamped = tt; rises = tt })) r
