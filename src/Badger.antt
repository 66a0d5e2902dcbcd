-- ===== src/Badger.antt =====
-- badger.go: the single-node store over a BadgerDB instance.
pub mod Api
pub mod Reads
pub mod Writes
pub mod Scan
pub mod Pages
pub mod Messages
pub mod Laws
