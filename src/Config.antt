-- ===== src/Config.antt =====
-- config/default.js: the constants of the network. Values that the environment may set are
-- arguments of the definitions that use them.
use p2p_app.Prelude.{ℕ}

abbrev pub gossip_fanout : ℕ
gossip_fanout = 3

abbrev pub max_ttl : ℕ
max_ttl = 10

abbrev pub peer_timeout_ms : ℕ
peer_timeout_ms = 15000

abbrev pub max_retry_attempts : ℕ
max_retry_attempts = 3

abbrev pub max_peers : ℕ
max_peers = 50

abbrev pub initial_reconnect_delay_ms : ℕ
initial_reconnect_delay_ms = 1000

abbrev pub max_reconnect_delay_ms : ℕ
max_reconnect_delay_ms = 30000

abbrev pub max_reconnect_attempts : ℕ
max_reconnect_attempts = 5

abbrev pub pow_difficulty : ℕ
pow_difficulty = 500
