-- ===== src/Tso.antt =====
-- tso.go: the timestamp oracle.
pub mod Stamp
pub mod Marks
pub mod State
pub mod Clock
pub mod Monotone
pub mod Window
pub mod Conflict
pub mod Readers
pub mod Commit
pub mod Leak
pub mod History
