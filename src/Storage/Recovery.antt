-- ===== src/Storage/Recovery.antt =====
-- What Storage.Initialize of storage.go finds after a run whose saves left the disk durable.
use omashu.Base.{
  ℕ, ◌≤◌, ◌≡◌, refl, Bool, true, false, ◌||◌, ◌==◌, ==_iff, Bool-cases, inl, inr, ◌⊎◌, Option, none,
  some, List, [], ◌∷◌, All, suc,
}
use omashu.Errors.{no_snapshot, Result, ok, err, ◌>>=◌}
use omashu.Node.State.{Entry}
use omashu.Storage.Disk.{HardState, Write, snap_file, wal_snap, wal_save, wal_sync, wal_release}
use omashu.Storage.Save.{SnapshotMeta, MemoryApi}
use omashu.Storage.Durable.{has_file, IsDurable, Save, save_all, saves-IsDurable}
use omashu.Storage.Open.{
  SnapEntry, WalApi, Wal, Found, load_latest_snapshot, open_wal, start_at, loaded, open_,
  unless_none,
}

-- The log has an entry for a snapshot of this index.
abbrev pub has_entry : ℕ → List Write → Bool
has_entry index [] = false
has_entry index (wal_snap i ∷ log) = (i == index) || has_entry index log
has_entry index (w ∷ log) = has_entry index log

-- Of a durable disk, each snapshot entry has its file.
has_entry-has_file :
    (index : ℕ) (log : List Write)
    → IsDurable log
    → has_entry index log ≡ true
    → has_file index log ≡ true
has_entry-has_file index [] d h = h
has_entry-has_file index (snap_file i ∷ log) d h =
    either (i == index) (has_file index log) (has_entry-has_file index log d h)
  where
    either : (x y : Bool) → y ≡ true → (x || y) ≡ true
    either true y e = refl
    either false y e = e
has_entry-has_file index (wal_snap i ∷ log) d h = elim (Bool-cases (i == index)) [
  | inl same ↦ rw ((==_iff i index).0 same) at d.0
  | inr other ↦ has_entry-has_file index log d.1 (rw other at h)
]
has_entry-has_file index (wal_save hs es ∷ log) d h = has_entry-has_file index log d h
has_entry-has_file index (wal_sync ∷ log) d h = has_entry-has_file index log d h
has_entry-has_file index (wal_release i ∷ log) d h = has_entry-has_file index log d.1 h

abbrev pub IsOneOf : SnapEntry → List SnapEntry → Type 0
IsOneOf e [] = ⊥
IsOneOf e (x ∷ xs) = (e ≡ x) ⊎ IsOneOf e xs

abbrev pub Newest : List SnapEntry → SnapshotMeta → Type 0
Newest entries s = All (λ (e : SnapEntry). e.0 ≤ s.index) entries

-- What is relied on of the packages wal and snap.
pub record WalLaws (w : WalApi) : Type 1 where
  -- the valid entries of an existing log, which are entries of the log
  pub valid : List Write → List SnapEntry
  pub valid_lem :
      (disk : List Write) → w.exist disk ≡ true → w.valid_snapshot_entries disk ≡ ok (valid disk)
  pub valid-has_entry :
      (disk : List Write) → All (λ (e : SnapEntry). has_entry e.0 disk ≡ true) (valid disk)
  -- without an entry there is no snapshot; when every entry has its file, the newest one is loaded
  pub load-none : (disk : List Write) → w.load_newest_available disk [] ≡ err no_snapshot
  pub load-newest :
      (disk : List Write) (e : SnapEntry) (entries : List SnapEntry)
      → All (λ (e : SnapEntry). has_file e.0 disk ≡ true) (e ∷ entries)
      → (s : SnapshotMeta) × (w.load_newest_available disk (e ∷ entries) ≡ ok s)
        × Newest (e ∷ entries) s
        × IsOneOf (s.index, s.term) (e ∷ entries)
  -- an existing log opens at a valid entry and at its start
  pub open_at-valid :
      (disk : List Write) (e : SnapEntry)
      → w.exist disk ≡ true
      → IsOneOf e ((0, 0) ∷ valid disk)
      → (log : w.Log) × (w.open_at disk e ≡ ok log)
  -- the entries that are read follow the snapshot at which the log was opened
  pub read_all-first :
      (disk : List Write) (e : SnapEntry) (log : w.Log) (h : HardState) (x : Entry)
      (entries : List Entry)
      → w.open_at disk e ≡ ok log
      → w.read_all log ≡ ok (h, x ∷ entries)
      → x.index ≡ suc e.0

module _ (w : WalApi) (laws : WalLaws w) where
  open laws use {valid, valid_lem, valid-has_entry, load-none, load-newest, open_at-valid}

  -- The snapshot to start from: the newest of the valid entries, or none.
  abbrev pub StartsFrom : List SnapEntry → Option SnapshotMeta → Type 0
  StartsFrom entries none = entries ≡ []
  StartsFrom entries (some s) = Newest entries s × IsOneOf (s.index, s.term) entries

  entries_have_files :
      (disk : List Write) (entries : List SnapEntry)
      → IsDurable disk
      → All (λ (e : SnapEntry). has_entry e.0 disk ≡ true) entries
      → All (λ (e : SnapEntry). has_file e.0 disk ≡ true) entries
  entries_have_files disk [] d h = tt
  entries_have_files disk (e ∷ es) d h =
      (has_entry-has_file e.0 disk d h.0, entries_have_files disk es d h.1)

  loads_newest :
      (disk : List Write) (entries : List SnapEntry)
      → All (λ (e : SnapEntry). has_file e.0 disk ≡ true) entries
      → (o : Option SnapshotMeta) × (unless_none w (w.load_newest_available disk entries) ≡ ok o)
        × StartsFrom entries o
  loads_newest disk [] h = (none, rw (load-none disk) refl, refl)
  loads_newest disk (e ∷ es) h =
      let (s, found, newest, one) = load-newest disk e es h in
      (some s, rw found refl, (newest, one))

  valid_start :
      (entries : List SnapEntry) (o : Option SnapshotMeta)
      → StartsFrom entries o
      → IsOneOf (start_at w o) ((0, 0) ∷ entries)
  valid_start entries none h = inl refl
  valid_start entries (some s) h = inr h.1

  -- The outcome of Open on an existing log: it starts from the newest valid snapshot, and only reading
  -- the records can fail.
  abbrev pub Recovers : Wal w → List Write → Wal w × List Write × Result (Found w) → Type 0
  Recovers wal disk r =
      (o : Option SnapshotMeta) × (log : w.Log) × StartsFrom (valid disk) o
      × (w.open_at disk (start_at w o) ≡ ok log)
      × (r ≡ (
        record wal { log = some log },
        disk,
        w.read_all log >>= λ found. ok (o, found.0, found.1),
      ))

  opens_at :
      (wal : Wal w) (disk : List Write) (o : Option SnapshotMeta) (log : w.Log)
      → w.exist disk ≡ true
      → w.open_at disk (start_at w o) ≡ ok log
      → loaded w wal disk (ok o) ≡ (
        record wal { log = some log },
        disk,
        w.read_all log >>= λ found. ok (o, found.0, found.1),
      )
  unfolding open_wal
  opens_at wal disk o log exists at = rw (exists, at) refl

  durable-Recovers :
      (wal : Wal w) (disk : List Write)
      → IsDurable disk
      → w.exist disk ≡ true
      → Recovers wal disk (open_ w wal disk)
  unfolding open_ load_latest_snapshot open_wal
  durable-Recovers wal disk d exists =
      let (o, found, from) =
        loads_newest disk (valid disk)
          (entries_have_files disk (valid disk) d (valid-has_entry disk)) in
      let (log, at) = open_at-valid disk (start_at w o) exists (valid_start (valid disk) o from) in
      (
        o,
        log,
        from,
        at,
        rw (exists, valid_lem disk exists, found) (opens_at wal disk o log exists at),
      )

  module _ (api : MemoryApi) (memory : api.Memory) where
    -- What is on disk after some saves.
    abbrev pub saved : List (Result (Unit {0})) → List (Save api) → List Write
    saved answers saves =
        (save_all api (record { done = []; answers = answers }, memory) saves).0.done

    -- After any saves on an empty disk, whichever of their writes fail, and by the documented behaviour
    -- of the log and of the snapshotter: if there is a log, Wal.Open starts from the newest snapshot that
    -- the log holds as valid, or from none when it holds none, opens the log there, and fails only if
    -- reading the records fails.
    pub saves-Recovers :
        (answers : List (Result (Unit {0}))) (saves : List (Save api)) (wal : Wal w)
        → w.exist (saved answers saves) ≡ true
        → Recovers wal (saved answers saves) (open_ w wal (saved answers saves))
    saves-Recovers answers saves wal exists =
        durable-Recovers wal _ (saves-IsDurable api memory answers saves) exists
