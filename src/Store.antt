-- ===== src/Store.antt =====
-- center/server/store.go: the statistics of the store, and its file on disk.
pub mod Stats
pub mod StatsLaws
pub mod Disk
pub mod DiskLaws
