-- ===== src/Metrics.antt =====
-- metrics/collector.js: the counters that the protocol increments.
pub mod Collector
pub mod Snapshot
pub mod Reporter

pub data Counter : Type 0 where
  messages_received_total messages_dropped_pow messages_dropped_ratelimit : Counter
  invalid_signature_count messages_dropped_duplicate messages_dropped_ttl : Counter
  messages_forwarded_total sync_batches_sent_total sync_acks_received_total : Counter
