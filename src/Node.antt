-- ===== src/Node.antt =====
-- node.go: a Raft member's own state, and what it does with a batch of the Raft library, by the function that
-- its event loop calls for it; and the readers that wait for read states.
pub mod State
pub mod Apply
pub mod Ready
pub mod Replay
pub mod Waiting
pub mod Order
pub mod Linear
pub mod Snapshots
