-- ===== src/Contracts.antt =====
-- packages/contracts/src: the wire formats and claims that the workers and the web app share.
pub mod Protobuf
pub mod MetricFields
pub mod LiveFrame
pub mod MachineReport
pub mod Telemetry
pub mod LiveTicket
mod Runs
mod TicketRuns
