-- ===== src/Storage.antt =====
-- storage.go and wal.go: what a Raft member saves, on disk first and then in memory.
pub mod Disk
pub mod Save
pub mod Durable
pub mod Open
pub mod Recovery
pub mod Replayed
