-- ===== src/Tests.antt =====
-- The theorems at work on small inputs.
mod Samples
mod State
mod Spool
mod Jobs
mod Slots
mod History
mod Identify
mod Drive
mod Requests
