-- ===== src/Distributed.antt =====
-- distributed.go: the replicated store. A write runs a transaction on the leader and gives its command
-- to Raft; a read is served from the local database.
pub mod Propose
pub mod Calls
pub mod Ends
pub mod Leadership
pub mod Increments
pub mod Loops
