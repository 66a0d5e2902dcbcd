-- ===== src/Lib.antt =====
-- Verification of omashu: a replicated key-value store in Go, with serialisable transactions, on top of
-- BadgerDB (versioned storage) and etcd's Raft.
--
-- The program. A client calls the replicated store (distributed.go). A write is a transaction (txn.go)
-- on the leader: it begins at a read timestamp of the timestamp oracle (tso.go), buffers sub-commands
-- and records the keys that it reads and writes, and on Commit the oracle tests it for conflicts and
-- gives it a commit timestamp. The command goes to Raft; when it is committed, the node (node.go) of
-- every member hands it to the state machine (fsm.go), which applies it to the store (badger.go) at
-- its commit timestamp. A leader keeps its timestamps below a bound that it has persisted, so that the
-- next leader can begin above them.
--
-- The files.
--   Base         tests on numbers, lists, byte strings (Go's string and []byte), bit_or
--   Errors       errors.go; a call ends in a value, an error or a panic
--   Types        types/types.pb.go and types/methods.go: the command and its constructors;
--                Types/Delta is the interface of the JSON and Protobuf libraries, Types/Dynamic is
--                types/dynamic.go (look-ups and merges), with its proofs in Lookup and Merge
--   Counter      utils/utils.go: Uint64ToBytes and BytesToUint64
--   Config       config.go: validate, which also registers the schemas of types/dynamic.go; proofs in Valid
--   Tso          tso.go: Stamp (timeStamp), Marks (the interface of BadgerDB's watermarks), State (what
--                is done under the mutex, and ReadTs), Clock (allocate, newCommitTs, the window, StartServing);
--                proofs in Monotone, Window, Conflict, Readers, Leak, Commit and History
--   Badger       badger.go: Api (the interface of BadgerDB), Reads and Writes; Laws states what is
--                relied on of BadgerDB, its conflict test included, and what the writes do to a view; proofs in Scan, Pages and Messages (Protobuf updates)
--   Fsm          fsm.go and replication.go: Apply, applyTransaction, snapshots; Spec says what a command
--                means for a view, Footprint and Agree which keys it reads and writes, Commit and Batch
--                what applying it does to the database, Log and Overtaken what several commands
--                do; PrefixDelete is about DELETE_BY_PREFIX
--   Txn          txn.go: State, Writes and Commit; Reads holds the reads of distributed.go that record
--                keys; Tracked is the invariant of a transaction, with how it ends
--   Distributed  distributed.go: Propose (NewTransaction, proposeTxnSubCommand, proposeAndWait), Calls
--                (the calls of the client), Leadership (onLeaderChange); proofs in Ends and Increments;
--                Loops interleaves the goroutines of proposeAndWait, listenProposeResponses and
--                node.go's proposeHandler; its proofs are in Invariant, Answers, Stuck and Late
--   Node         node.go: State, Apply (getEntriesToApply, applyEntries, applyConfChange, snapshots),
--                Ready (processReady, read states), Snapshots (takeSnapshotIfNeeded, with its proofs);
--                proofs in Replay, Waiting and Order. Linear interleaves the readers of ReadIndex and
--                WaitForReadState; its proofs are in Handed and Fresh
--   Storage      storage.go and wal.go: Disk (the writes, each of which may fail), Save (SaveState,
--                CreateSnapshot), Open (newWal, Wal.Open, Initialize); proofs in Durable,
--                Recovery and Replayed
--   Transport    transport.go: Start and the calls that change the peers; proofs in Peers
--   Examples     instances of the interfaces, and each result applied at a concrete input
--
-- How code is rendered. A function that changes a struct returns it anew, after its guards and early
-- returns; a mutex makes its section one step, and what follows it is another: ReadTs begins its read
-- mark after it has released the mutex, and what comes in between is an argument (Tso/State) or other
-- steps (Tso/History). A Go map is a list of pairs with one entry for each key. Numbers are natural:
-- uint64 arithmetic that can wrap is written with % 2 ^ 64. The int64 parts of a stamp are readings of
-- the clock and counts, and so are not negative. The clock is the list of its coming readings, one for
-- each call of time.Now; a call that still waits when they end is `none`. A context is the number of
-- polls that still find it live. A fresh uuid, the answer of a channel and what other goroutines do
-- meanwhile are arguments.
--
-- Bounds. `pages` runs on fuel, one more than the number of stored keys with the prefix;
-- its theorem shows that this is enough. Everything else is recursion on lists. Stamps are taken to
-- have 46 bits of milliseconds, until the year 4199.
--
-- Libraries. BadgerDB, its watermarks, Raft, JSON and Protobuf are interfaces, records of operations
-- with, where a theorem relies on them, records of laws; Examples has instances that satisfy the
-- laws.
--
-- Not modelled: the reads that storage.go hands to the in-memory log, PeerDialTimeout, sending and
-- serving in transport.go, logger.go, the timers and the status calls of node.go's event loops,
-- opening and closing BadgerDB, and the collection of garbage in its value log; entries that expire;
-- deps/etcd, which is a copy of another project. static_dep_check.go and store.go hold no behaviour.
pub mod Base
pub mod Errors
pub mod Types
pub mod Counter
pub mod Config
pub mod Badger
pub mod Fsm
pub mod Tso
pub mod Txn
pub mod Distributed
pub mod Node
pub mod Storage
pub mod Transport
pub mod Examples
