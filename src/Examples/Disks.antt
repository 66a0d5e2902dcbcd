-- ===== src/Examples/Disks.antt =====
-- Runs of the storage of storage.go; its in-memory log is its last index.
use omashu.Base.{
  ℕ, ◌≡◌, refl, [], ◌∷◌, leb, if◌then◌else◌, List, ◌≤◌, ==_iff, All, Option, none, true, false,
  Bool-cases, inl, inr, arith, ◌⊎◌, subst, sym, suc,
}
use omashu.Errors.{Error, no_snapshot, Result, snap_out_of_date, other, ok, err, panic}
use omashu.Node.State.{Entry, normal}
use omashu.Storage.Disk.{Write, snap_file, wal_save, wal_sync, wal_release, wal_snap}
use omashu.Storage.Save.{SnapshotMeta, MemoryApi, Ready}
use omashu.Storage.Open.{Wal, start_at, initialize, SnapEntry, WalApi}
use omashu.Storage.Recovery.{has_entry, IsOneOf, WalLaws, StartsFrom, saved}
use omashu.Storage.Replayed.{NewMemoryLaws, Initialized, saves-Initialized}
use omashu.Storage.Durable.{Save, IsDurable, batch, own_snapshot, save_all, saves-IsDurable}

abbrev last_index : Entry → List Entry → ℕ
last_index e [] = e.index
last_index e (x ∷ xs) = last_index x xs

-- The last index after an append, which panics on a gap.
abbrev append_after : ℕ → List Entry → Result ℕ
append_after m [] = ok m
append_after m (e ∷ es) = if leb e.index (suc m) then ok (last_index e es) else panic

abbrev pub index_memory : MemoryApi
index_memory = record {
  Memory = ℕ;
  apply_snapshot = λ m s. if leb s.index m then err snap_out_of_date else ok s.index;
  set_hard_state = λ m h. ok m;
  append = append_after;
  compact = λ m i. ok m;
  term = λ m i. ok 1;
}

abbrev received : Ready
received = record {
  snapshot = record { index = 4; term = 1; body = [] };
  hard_state = record { term = 1; vote = 1; commit = 4 };
  entries = [];
}

abbrev pub a_failure : Error
a_failure = other 7

-- The second write of the first save fails.
saves-IsDurable_example :
    IsDurable
      (save_all index_memory
        (record { done = []; answers = ok tt ∷ err a_failure ∷ [] }, 0)
        (batch received ∷ own_snapshot 5 [] ∷ [])).0.done
saves-IsDurable_example =
    saves-IsDurable index_memory 0 (ok tt ∷ err a_failure ∷ [])
      (batch received ∷ own_snapshot 5 [] ∷ [])

-- A log whose entries are all valid, with files of term 1; it is open at an index.
abbrev snap_entries : List Write → List SnapEntry
snap_entries [] = []
snap_entries (wal_snap i ∷ log) = (i, 1) ∷ snap_entries log
snap_entries (w ∷ log) = snap_entries log

abbrev later : SnapEntry → SnapEntry → SnapEntry
later e f = if leb e.0 f.0 then f else e

abbrev newest : SnapEntry → List SnapEntry → SnapEntry
newest e [] = e
newest e (x ∷ xs) = later e (newest x xs)

abbrev load_newest : List SnapEntry → Result SnapshotMeta
load_newest [] = err no_snapshot
load_newest (e ∷ es) = ok (record { index = (newest e es).0; term = (newest e es).1; body = [] })

abbrev small_wal : WalApi
small_wal = record {
  Log = ℕ;
  exist = λ disk. true;
  create = λ disk. ok disk;
  valid_snapshot_entries = λ disk. ok (snap_entries disk);
  load_newest_available = λ disk entries. load_newest entries;
  load = λ disk. load_newest (snap_entries disk);
  open_at = λ disk e. ok e.0;
  read_all = λ log. ok (
    record { term = 1; vote = 1; commit = log },
    record { index = suc log; type = normal; data_ = [] } ∷ [],
  );
  close = λ log. ok tt;
}

later_one : (e f : SnapEntry) → (later e f ≡ e) ⊎ (later e f ≡ f)
later_one e f = elim (Bool-cases (leb e.0 f.0)) [
  | inl le ↦ inr (rw le refl)
  | inr gt ↦ inl (rw gt refl)
]

newest-Newest :
    (e : SnapEntry) (es : List SnapEntry) (n : ℕ)
    → (newest e es).0 ≤ n
    → All (λ (x : SnapEntry). x.0 ≤ n) (e ∷ es)
newest-Newest e [] n h = (h, tt)
newest-Newest e (x ∷ xs) n h = (ground arith, newest-Newest x xs n (ground arith))

newest-IsOneOf : (e : SnapEntry) (es : List SnapEntry) → IsOneOf (newest e es) (e ∷ es)
newest-IsOneOf e [] = inl refl
newest-IsOneOf e (x ∷ xs) = elim (later_one e (newest x xs)) [
  | inl is ↦ inl is
  | inr is ↦ inr (subst (λ y. IsOneOf y (x ∷ xs)) (sym is) (newest-IsOneOf x xs))
]

All-logged :
    (i : ℕ) (disk : List Write) (es : List SnapEntry)
    → All (λ (e : SnapEntry). has_entry e.0 disk ≡ true) es
    → All (λ (e : SnapEntry). has_entry e.0 (wal_snap i ∷ disk) ≡ true) es
All-logged i disk [] h = tt
All-logged i disk (e ∷ es) h = (ground arith, All-logged i disk es h.1)

snap_entries_logged :
    (disk : List Write) → All (λ (e : SnapEntry). has_entry e.0 disk ≡ true) (snap_entries disk)
snap_entries_logged [] = tt
snap_entries_logged (wal_snap i ∷ log) =
    (rw ((==_iff i i).1 refl) refl, All-logged i log (snap_entries log) (snap_entries_logged log))
snap_entries_logged (snap_file i ∷ log) = snap_entries_logged log
snap_entries_logged (wal_save h es ∷ log) = snap_entries_logged log
snap_entries_logged (wal_sync ∷ log) = snap_entries_logged log
snap_entries_logged (wal_release i ∷ log) = snap_entries_logged log

small_laws : WalLaws small_wal
small_laws = record {
  valid = snap_entries;
  valid_lem = λ disk h. refl;
  valid-has_entry = snap_entries_logged;
  load-none = λ disk. refl;
  load-newest = λ disk e es h. (
    record { index = (newest e es).0; term = (newest e es).1; body = [] },
    refl,
    newest-Newest e es (newest e es).0 (omega arith),
    newest-IsOneOf e es,
  );
  open_at-valid = λ disk e h one. (e.0, refl);
  read_all-first = λ disk e log h x es opened found. cc;
}

fresh_memory : NewMemoryLaws index_memory 0
fresh_memory = record {
  last = λ m. m;
  last-new = refl;
  apply_snapshot-new = λ s full. (s.index, ground arith, refl);
  set_hard_state-ok = λ m h. (m, refl, refl);
  append-ok = λ m e es le. (last_index e es, ground arith);
}

abbrev reopened : Wal small_wal
reopened = record { existing_wal = true; log = none; is_closed = false }

-- A batch with a snapshot is saved, and then an own snapshot.
abbrev two_saves : List (Save index_memory)
two_saves = batch received ∷ own_snapshot 5 [] ∷ []

abbrev left_on_disk : List Write
left_on_disk = saved small_wal small_laws index_memory 0 [] two_saves

saves-Initialized_example :
    (o : Option SnapshotMeta) × (log : ℕ) × StartsFrom small_wal small_laws
      (small_laws.valid left_on_disk)
      o
    × (small_wal.open_at left_on_disk (start_at small_wal o) ≡ ok log)
    × Initialized small_wal small_laws index_memory 0 fresh_memory reopened left_on_disk o log
        (small_wal.read_all log)
        (initialize small_wal index_memory 0 reopened left_on_disk)
saves-Initialized_example =
    saves-Initialized small_wal small_laws index_memory 0 fresh_memory 0 [] two_saves reopened refl
