-- ===== src/Transport.antt =====
-- transport/: the connections of one node.
pub mod WsClient
pub mod ConnectionPool
pub mod WsServer
pub mod NativeTransport
