-- ===== src/Live.antt =====
-- workers/live: the hub that passes live frames from agents to viewers.
pub mod Sequences
pub mod Connections
mod Runs
