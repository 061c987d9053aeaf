-- ===== src/Retention.antt =====
-- workers/retention: the removal of old data.
pub mod Cursor
pub mod Telemetry
pub mod Policies
mod Runs
mod PolicyRuns
