-- ===== src/Identify.antt =====
-- daemon/identify/classify.go and cdgameprobe.go: how the type of an inserted disc is found.
pub mod Watcher
pub mod Retry
pub mod CdGame
pub mod Classify
