-- ===== src/Transport/ConnectionPool/Limits.antt =====
-- transport/connectionPool.js: the pool never dials more than its limit of peers.
use p2p_app.Prelude.{
  ℕ, ◌≤◌, String, true, false, List, [], ◌∷◌, length, length-insert, length-remove-le, arith,
}
use p2p_app.Config.{max_peers}
use p2p_app.Transport.ConnectionPool.{
  ConnectionPool, init, connect, on_failed, add_inbound_connection, on_inbound_close, disconnect,
  clear,
}

-- What changes a pool.
pub data Call : Type 0 where
  connects : String → ℕ → Call
  fails disconnects : String → Call
  accepts : String → ℕ → List String → Call
  closes : String → ℕ → Call
  clears : Call

unfoldable pub step : ConnectionPool → Call → ConnectionPool
step pool (connects p h) = (connect pool p h).0
step pool (fails p) = (on_failed pool p).0
step pool (disconnects p) = (disconnect pool p).0
step pool (accepts p h s) = (add_inbound_connection pool p h s).0
step pool (closes p h) = (on_inbound_close pool p h).0
step pool clears = (clear pool).0

unfoldable pub run : ConnectionPool → List Call → ConnectionPool
run pool [] = pool
run pool (c ∷ cs) = run (step pool c) cs

step-le :
    (pool : ConnectionPool) (c : Call)
    → length pool.outbound ≤ max_peers
    → length (step pool c).outbound ≤ max_peers
unfolding step connect on_failed disconnect add_inbound_connection on_inbound_close clear
step-le pool (connects p h) v = ground (
  arith,
  length-insert p (record { handle = h; is_connected = false; is_connecting = true }) pool.outbound,
)
step-le pool (fails p) v = omega (arith, length-remove-le p pool.outbound)
step-le pool (disconnects p) v = ground (arith, length-remove-le p pool.outbound)
step-le pool (accepts p h s) v = v
step-le pool (closes p h) v = v
step-le pool clears v = omega arith

run-le :
    (pool : ConnectionPool) (cs : List Call)
    → length pool.outbound ≤ max_peers
    → length (run pool cs).outbound ≤ max_peers
unfolding run
run-le pool [] v = v
run-le pool (c ∷ cs) v = run-le (step pool c) cs (step-le pool c v)

-- Whatever happens to a new pool, it never has more outbound connections than `MAX_PEERS`.
pub run-init-le :
    (local_peer_id : String) (cs : List Call)
    → length (run (init local_peer_id) cs).outbound ≤ max_peers
unfolding init
run-init-le local_peer_id cs = run-le (init local_peer_id) cs (omega arith)
