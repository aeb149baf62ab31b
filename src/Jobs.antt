-- ===== src/Jobs.antt =====
-- daemon/jobs: the sink of a job's events, the compute pool, the orchestrator.
pub mod Sink
pub mod World
pub mod Orchestrator
pub mod Compute
pub mod Submit
pub mod Cancel
