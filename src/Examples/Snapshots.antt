-- ===== src/Examples/Snapshots.antt =====
-- A snapshot of node.go that is due, on a disk whose second write fails.
