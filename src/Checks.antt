-- ===== src/Checks.antt =====
-- workers/checks/src: the scheduled worker that runs the checks.
pub mod Schedule
pub mod SchedulerState
pub mod Result
pub mod Confirmation
pub mod Latest
pub mod ServiceState
pub mod Rollups
pub mod Assertions
pub mod Hostname
pub mod Http
pub mod Tcp
pub mod Liveness
pub mod Batches
pub mod Deadline
mod Runs
mod StateRuns
mod LatestRuns
mod HttpRuns
