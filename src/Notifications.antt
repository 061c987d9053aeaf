-- ===== src/Notifications.antt =====
-- workers/notifications: the delivery of notifications.
pub mod Outbox
pub mod Discovery
pub mod Batch
mod Runs
mod DiscoveryRuns
