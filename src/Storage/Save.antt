-- ===== src/Storage/Save.antt =====
-- storage.go: SaveState and CreateSnapshot. The in-memory log of the Raft library is an interface.
use omashu.Base.{ℕ, Bool, ◌&&◌, List, ◌==◌, if◌then◌else◌}
use omashu.Base.Bytes.{Bytes}
use omashu.Errors.{snap_out_of_date, compacted, Result, ok, err, panic}
use omashu.Node.State.{Entry}
use omashu.Storage.Disk.{
  HardState, Disk, wal_save, wal_sync, wal_release, attempt, and_then, save_snap,
}

pub record SnapshotMeta : Type 0 where
  pub index : ℕ
  pub term : ℕ
  pub body : Bytes

-- raft.MemoryStorage
pub record MemoryApi : Type 1 where
  pub Memory : Type 0
  pub apply_snapshot : Memory → SnapshotMeta → Result Memory
  pub set_hard_state : Memory → HardState → Result Memory
  pub append : Memory → List Entry → Result Memory
  pub compact : Memory → ℕ → Result Memory
  pub term : Memory → ℕ → Result ℕ

pub record Ready : Type 0 where
  pub snapshot : SnapshotMeta
  pub hard_state : HardState
  pub entries : List Entry

-- raft.IsEmptySnap and raft.IsEmptyHardState
abbrev pub is_empty_snap : SnapshotMeta → Bool
is_empty_snap snapshot = snapshot.index == 0

abbrev pub is_empty_hard_state : HardState → Bool
is_empty_hard_state h = (h.term == 0) && (h.vote == 0) && (h.commit == 0)

unfoldable pub save_state_to_wal : Disk → Ready → Disk × Result (Unit {0})
save_state_to_wal disk rd =
    let saved =
      if is_empty_snap rd.snapshot then (disk, ok tt) else save_snap disk rd.snapshot.index in
    and_then saved (λ d.
      and_then (attempt d (wal_save rd.hard_state rd.entries))
        (λ e. and_then (attempt e wal_sync) (λ f. attempt f (wal_release rd.snapshot.index))))

module _ (api : MemoryApi) where
  open api use {Memory, apply_snapshot, set_hard_state, append, compact, term}

  -- The storage: the disk and the in-memory log.
  abbrev pub Stored : Type 0
  Stored = Disk × Memory

  -- An error that is not an error: the log stays as it was.
  abbrev pub unless_out_of_date : Memory → Result Memory → Result Memory
  unless_out_of_date memory (err snap_out_of_date) = ok memory
  unless_out_of_date memory r = r

  abbrev pub unless_compacted : Memory → Result Memory → Result Memory
  unless_compacted memory (err compacted) = ok memory
  unless_compacted memory r = r

  -- The next step, from the log that a step leaves; a step that fails leaves the log as it was.
  abbrev pub remembered :
      Memory → Result Memory → (Memory → Memory × Result (Unit {0})) → Memory × Result (Unit {0})
  remembered memory (ok m) next = next m
  remembered memory (err e) next = (memory, err e)
  remembered memory panic next = (memory, panic)

  abbrev pub finished : Memory → Memory × Result (Unit {0})
  finished memory = (memory, ok tt)

  -- The part of SaveState after saveStateToWal, on the in-memory log.
  unfoldable pub save_in_memory : Memory → Ready → Memory × Result (Unit {0})
  save_in_memory memory rd =
      let snapped =
        if is_empty_snap rd.snapshot
        then ok memory
        else unless_out_of_date memory (apply_snapshot memory rd.snapshot) in
      remembered memory snapped (λ m.
        remembered m
          (if is_empty_hard_state rd.hard_state then ok m else set_hard_state m rd.hard_state)
          (λ n. remembered n (append n rd.entries) finished))

  abbrev pub after_disk :
      Memory
      → (Memory → Memory × Result (Unit {0}))
      → Disk × Result (Unit {0})
      → Stored × Result (Unit {0})
  after_disk memory next (disk, ok _) = let (m, r) = next memory in ((disk, m), r)
  after_disk memory next (disk, err e) = ((disk, memory), err e)
  after_disk memory next (disk, panic) = ((disk, memory), panic)

  -- SaveState
  unfoldable pub save_state : Stored → Ready → Stored × Result (Unit {0})
  unfolding save_in_memory
  save_state (disk, memory) rd =
      after_disk memory (λ m. save_in_memory m rd) (save_state_to_wal disk rd)

  -- compact, for which a log that is compacted already is no error
  unfoldable pub storage_compact : Memory → ℕ → Memory × Result (Unit {0})
  storage_compact memory index =
      remembered memory (unless_compacted memory (compact memory index)) finished

  -- CreateSnapshot from its ApplySnapshot on, in the two halves that the disk's writes part.
  abbrev pub release_and_compact : Disk → Memory → ℕ → Stored × Result (Unit {0})
  release_and_compact disk memory index =
      after_disk memory (λ m. storage_compact m index)
        (and_then (attempt disk wal_sync) (λ d. attempt d (wal_release index)))

  abbrev pub snapshot_applied : Disk → Memory → ℕ → Result Memory → Stored × Result (Unit {0})
  snapshot_applied disk memory index (ok m) = release_and_compact disk m index
  snapshot_applied disk memory index (err e) = ((disk, memory), err e)
  snapshot_applied disk memory index panic = ((disk, memory), panic)

  abbrev pub snapshot_saved :
      Memory → SnapshotMeta → Disk × Result (Unit {0}) → Stored × Result (Unit {0})
  snapshot_saved memory snapshot (disk, ok _) =
      snapshot_applied disk memory snapshot.index
        (unless_out_of_date memory (apply_snapshot memory snapshot))
  snapshot_saved memory snapshot (disk, err e) = ((disk, memory), err e)
  snapshot_saved memory snapshot (disk, panic) = ((disk, memory), panic)

  abbrev pub snapshot_at : Stored → ℕ → Bytes → Result ℕ → Stored × Result (Unit {0})
  snapshot_at (disk, memory) index body (ok at) =
      snapshot_saved memory (record { index = index; term = at; body = body })
        (save_snap disk index)
  snapshot_at stored index body (err e) = (stored, err e)
  snapshot_at stored index body panic = (stored, panic)

  -- CreateSnapshot; its errors are wrapped with a text, which is not kept here.
  unfoldable pub create_snapshot : Stored → ℕ → Bytes → Stored × Result (Unit {0})
  unfolding storage_compact
  create_snapshot stored index body = snapshot_at stored index body (term stored.1 index)
