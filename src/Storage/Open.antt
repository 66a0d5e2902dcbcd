-- ===== src/Storage/Open.antt =====
-- storage.go and wal.go: opening the log and the snapshots of an earlier run, and replaying them into the
-- in-memory log: newWal, Wal.Open and Storage.Initialize. The vendored packages wal and snap are the
-- interface `WalApi`; what they read is the disk, which only wal.Create changes.
use omashu.Base.{ℕ, Bool, true, false, not, Option, none, some, List, [], ◌∷◌, if◌then◌else◌}
use omashu.Errors.{no_snapshot, Result, ok, err, panic, ◌>>=◌}
use omashu.Node.State.{Entry}
use omashu.Storage.Disk.{HardState, Write}
use omashu.Storage.Save.{SnapshotMeta, MemoryApi, is_empty_snap, is_empty_hard_state}

-- A snapshot entry of the log: its index and its term.
abbrev pub SnapEntry : Type 0
SnapEntry = ℕ × ℕ

pub record WalApi : Type 1 where
  -- an open log
  pub Log : Type 0
  pub exist : List Write → Bool
  pub create : List Write → Result (List Write)
  pub valid_snapshot_entries : List Write → Result (List SnapEntry)
  pub load_newest_available : List Write → List SnapEntry → Result SnapshotMeta
  -- the newest snapshot file, whatever the log says
  pub load : List Write → Result SnapshotMeta
  pub open_at : List Write → SnapEntry → Result Log
  pub read_all : Log → Result (HardState × List Entry)
  pub close : Log → Result (Unit {0})

module _ (w : WalApi) where
  open w use {
    Log, exist, create, valid_snapshot_entries, load_newest_available, load, open_at, read_all,
    close,
  }

  -- Wal: whether there was a log before, the log that was opened, if any, and whether it is closed.
  pub record Wal : Type 0 where
    pub existing_wal : Bool
    pub log : Option Log
    pub is_closed : Bool

  -- newWal, from the answers of the calls that make the two directories and remove temporary files.
  unfoldable pub new_wal :
      List Write → Result (Unit {0}) → Result (Unit {0}) → Result (Unit {0}) → Result Wal
  new_wal disk wal_dir snap_dir removed = wal_dir >>= λ _. snap_dir >>= λ _.
      removed >>= λ _. ok (record { existing_wal = exist disk; log = none; is_closed = false })

  -- An empty snapshot.
  abbrev pub empty_snapshot : SnapshotMeta
  empty_snapshot = record { index = 0; term = 0; body = [] }

  -- The nil snapshot is `none`.
  abbrev pub unless_none : Result SnapshotMeta → Result (Option SnapshotMeta)
  unless_none (ok snapshot) = ok (some snapshot)
  unless_none (err no_snapshot) = ok none
  unless_none (err e) = err e
  unless_none panic = panic

  unfoldable pub load_latest_snapshot : List Write → Result (Option SnapshotMeta)
  load_latest_snapshot disk =
      if not (exist disk)
      then ok (some empty_snapshot)
      else valid_snapshot_entries disk >>= λ entries.
          unless_none (load_newest_available disk entries)

  abbrev pub start_at : Option SnapshotMeta → SnapEntry
  start_at none = (0, 0)
  start_at (some snapshot) = (snapshot.index, snapshot.term)

  abbrev pub open_created :
      List Write → Option SnapshotMeta → Result (List Write) → List Write × Result Log
  open_created disk snapshot (ok d) = (d, open_at d (start_at snapshot))
  open_created disk snapshot (err e) = (disk, err e)
  open_created disk snapshot panic = (disk, panic)

  -- openWAL: the disk, on which a log is created when there is none, and the open log.
  unfoldable pub open_wal : List Write → Option SnapshotMeta → List Write × Result Log
  open_wal disk snapshot =
      open_created disk snapshot (if not (exist disk) then create disk else ok disk)

  -- What Open returns besides an error.
  abbrev pub Found : Type 0
  Found = Option SnapshotMeta × HardState × List Entry

  abbrev pub read_from :
      Wal → Option SnapshotMeta → List Write × Result Log → Wal × List Write × Result Found
  read_from wal snapshot (disk, ok log) = (
    record wal { log = some log },
    disk,
    read_all log >>= λ found. ok (snapshot, found.0, found.1),
  )
  read_from wal snapshot (disk, err e) = (wal, disk, err e)
  read_from wal snapshot (disk, panic) = (wal, disk, panic)

  abbrev pub loaded :
      Wal → List Write → Result (Option SnapshotMeta) → Wal × List Write × Result Found
  loaded wal disk (ok snapshot) = read_from wal snapshot (open_wal disk snapshot)
  loaded wal disk (err e) = (wal, disk, err e)
  loaded wal disk panic = (wal, disk, panic)

  -- Wal.Open
  unfoldable pub open_ : Wal → List Write → Wal × List Write × Result Found
  unfolding open_wal
  open_ wal disk = loaded wal disk (load_latest_snapshot disk)

  abbrev close_opened : Wal → Option Log → Wal × Result (Unit {0})
  close_opened wal none = (wal, ok tt)
  close_opened wal (some log) = (record wal { is_closed = true }, close log)

  -- Wal.Close
  unfoldable pub close_wal : Wal → Wal × Result (Unit {0})
  close_wal wal = close_opened wal wal.log

  abbrev exists_or : Bool → Result SnapshotMeta → Result (Bool × Bool)
  exists_or wal_exists (ok snapshot) = ok (wal_exists, true)
  exists_or wal_exists (err no_snapshot) = ok (wal_exists, false)
  exists_or wal_exists (err e) = err e
  exists_or wal_exists panic = panic

  -- Wal.Exists
  unfoldable pub exists : List Write → Result (Bool × Bool)
  exists disk = exists_or (exist disk) (load disk)

  module _ (api : MemoryApi) (new_memory : api.Memory) where
    open api use {Memory, apply_snapshot, set_hard_state, append}

    abbrev pub with_snapshot : Option SnapshotMeta → Result Memory
    with_snapshot none = ok new_memory
    with_snapshot (some s) = if is_empty_snap s then ok new_memory else apply_snapshot new_memory s

    abbrev pub with_entries : Memory → List Entry → Result Memory
    with_entries m [] = ok m
    with_entries m (e ∷ es) = append m (e ∷ es)

    -- Initialize after Open, without its closing.
    unfoldable pub replay : Found → Result Memory
    replay (snapshot, hard_state, entries) = with_snapshot snapshot >>= λ m.
        (if is_empty_hard_state hard_state then ok m else set_hard_state m hard_state) >>= λ n.
        with_entries n entries

    -- When a step of the replay fails, the log is closed, and what Close answers is dropped.
    abbrev pub replayed : Wal → List Write → Result Memory → Wal × List Write × Result Memory
    replayed wal disk (ok m) = (wal, disk, ok m)
    replayed wal disk (err e) = (record wal { is_closed = true }, disk, err e)
    replayed wal disk panic = (wal, disk, panic)

    abbrev pub found_then : Wal × List Write × Result Found → Wal × List Write × Result Memory
    found_then (wal, disk, ok found) = replayed wal disk (replay found)
    found_then (wal, disk, err e) = (wal, disk, err e)
    found_then (wal, disk, panic) = (wal, disk, panic)

    unfoldable pub initialize : Wal → List Write → Wal × List Write × Result Memory
    unfolding open_ replay
    initialize wal disk = found_then (open_ wal disk)
