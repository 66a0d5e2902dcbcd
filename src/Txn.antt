-- ===== src/Txn.antt =====
-- txn.go: a transaction buffers sub-commands, and is committed or discarded through the oracle.
-- The locks of a transaction and of the write channel are not modelled: a call runs as a whole.
pub mod State
pub mod Reads
pub mod Writes
pub mod Commit
pub mod Tracked
