-- ===== src/Node.antt =====
-- node/: the peers of a node and what it has seen.
pub mod State
pub mod Peers
pub mod Heartbeat
pub mod Commands
pub mod P2pNode
pub mod PeerExchange
pub mod Discovery
