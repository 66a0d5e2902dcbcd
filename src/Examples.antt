-- ===== src/Examples.antt =====
-- Concrete instances of the interfaces, and runs of the model on small inputs.
mod Marks
mod Commits
mod Messages
mod Peers
mod Proposals
mod Readers
mod Snapshots
mod Stores
mod Oracle
mod Database
mod Transactions
mod Nodes
mod Disks
mod Configs
