-- ===== src/Pipelines.antt =====
-- daemon/pipelines: what the pipelines of the disc types share.
pub mod DriveRole
pub mod Options
pub mod Output
pub mod Titles
pub mod Steps
