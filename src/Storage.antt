-- ===== src/Storage.antt =====
-- storage/: messages on disk and their exchange after a reconnection.
pub mod Keys
pub mod Level
pub mod MessageStore
pub mod SyncManager
