-- ===== src/State.antt =====
-- daemon/state: the resource types, the disc lifecycle, the store's job rows, the event broadcaster.
pub mod Types
pub mod Rows
pub mod Store
pub mod Events
pub mod Lifecycle
pub mod Settings
pub mod Sweeper
pub mod Broadcaster
pub mod DriveError
