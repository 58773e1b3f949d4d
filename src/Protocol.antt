-- ===== src/Protocol.antt =====
-- protocol/: the gossip protocol of one node.
pub mod Message
pub mod LamportClock
pub mod PendingQueue
pub mod RateLimiter
pub mod TopicRouter
pub mod GossipEngine
pub mod AckManager
pub mod MessageFactory
