-- ===== src/Storage/Durable.antt =====
-- What is on disk after any saves, whichever of them fail: the snapshot file of every snapshot entry,
-- and no release of old segments before what was saved is synced.
use omashu.Base.{
  ℕ, ◌≡◌, refl, sym, subst, Bool, true, false, List, [], ◌∷◌, ◌||◌, ◌==◌, Bool-cases, inl, inr,
  ==_iff,
}
use omashu.Base.Bytes.{Bytes}
use omashu.Errors.{Error, Result, ok, err, panic}
use omashu.Storage.Disk.{
  Write, snap_file, wal_snap, wal_save, wal_sync, wal_release, Disk, attempt, answered_with,
  and_then, save_snap,
}
use omashu.Storage.Save.{
  MemoryApi, Ready, SnapshotMeta, is_empty_snap, save_state_to_wal, save_state, save_in_memory,
  create_snapshot, after_disk, snapshot_at, snapshot_saved, snapshot_applied, Stored,
}

-- The snapshot file of an index is on disk.
abbrev pub has_file : ℕ → List Write → Bool
has_file index [] = false
has_file index (snap_file i ∷ log) = (i == index) || has_file index log
has_file index (w ∷ log) = has_file index log

-- Nothing was saved to the log since the last sync.
abbrev pub is_synced : List Write → Bool
is_synced [] = true
is_synced (wal_sync ∷ log) = true
is_synced (wal_save h es ∷ log) = false
is_synced (w ∷ log) = is_synced log

-- The writes, the newest first: a snapshot entry has its file before it, and a release has a sync
-- between it and the last save.
abbrev pub IsDurable : List Write → Type 0
IsDurable [] = Unit
IsDurable (wal_snap index ∷ log) = (has_file index log ≡ true) × IsDurable log
IsDurable (wal_release index ∷ log) = (is_synced log ≡ true) × IsDurable log
IsDurable (w ∷ log) = IsDurable log

-- A write that may come next leaves the disk durable, done or not; what follows starts from there.
attempt_then :
    (disk : Disk) (write : Write) (next : Disk → Disk × Result (Unit {0}))
    → IsDurable disk.done
    → IsDurable (write ∷ disk.done)
    → ((d : Disk) → d.done ≡ write ∷ disk.done → IsDurable (next d).0.done)
    → IsDurable (and_then (attempt disk write) next).0.done
unfolding attempt
attempt_then disk write next h h' go = by_answers disk.answers
  where
    by_answers :
        (rs : List (Result (Unit {0})))
        → IsDurable (and_then (answered_with disk write rs) next).0.done
    by_answers [] = go _ refl
    by_answers (ok _ ∷ rs) = go _ refl
    by_answers (err e ∷ rs) = h
    by_answers (panic ∷ rs) = h

attempt_last :
    (disk : Disk) (write : Write)
    → IsDurable disk.done
    → IsDurable (write ∷ disk.done)
    → IsDurable (attempt disk write).0.done
unfolding attempt
attempt_last disk write h h' = by_answers disk.answers
  where
    by_answers : (rs : List (Result (Unit {0}))) → IsDurable (answered_with disk write rs).0.done
    by_answers [] = h'
    by_answers (ok _ ∷ rs) = h'
    by_answers (err e ∷ rs) = h
    by_answers (panic ∷ rs) = h

save_snap-IsDurable :
    (disk : Disk) (index : ℕ) → IsDurable disk.done → IsDurable (save_snap disk index).0.done
unfolding save_snap
save_snap-IsDurable disk index h =
    attempt_then disk (snap_file index) (λ d. attempt d (wal_snap index)) h h
      (λ d e.
        attempt_last d (wal_snap index) (subst IsDurable (sym e) h)
          (rw e ((rw ((==_iff index index).1 refl) refl), h)))

synced_release :
    (disk : Disk) (index : ℕ)
    → IsDurable disk.done
    → IsDurable (and_then (attempt disk wal_sync) (λ d. attempt d (wal_release index))).0.done
synced_release disk index h =
    attempt_then disk wal_sync (λ d. attempt d (wal_release index)) h h
      (λ d e. attempt_last d (wal_release index) (subst IsDurable (sym e) h) (rw e (refl, h)))

save_state_to_wal-IsDurable :
    (disk : Disk) (rd : Ready) → IsDurable disk.done → IsDurable (save_state_to_wal disk rd).0.done
unfolding save_state_to_wal
save_state_to_wal-IsDurable disk rd h = elim (Bool-cases (is_empty_snap rd.snapshot)) [
  | inl none_ ↦ rw none_ (log_saved disk h)
  | inr some_ ↦
      rw some_
        (from (save_snap disk rd.snapshot.index) (save_snap-IsDurable disk rd.snapshot.index h))
]
  where
    log_saved :
        (d : Disk)
        → IsDurable d.done
        → IsDurable
            (and_then (attempt d (wal_save rd.hard_state rd.entries)) (λ e.
              and_then
                (attempt e wal_sync)
                (λ f. attempt f (wal_release rd.snapshot.index)))).0.done
    log_saved d h =
        attempt_then d (wal_save rd.hard_state rd.entries) _ h h
          (λ e same. synced_release e rd.snapshot.index (subst IsDurable (sym same) h))

    from :
        (r : Disk × Result (Unit {0}))
        → IsDurable r.0.done
        → IsDurable
            (and_then r (λ d. and_then (attempt d (wal_save rd.hard_state rd.entries)) (λ e.
              and_then
                (attempt e wal_sync)
                (λ f. attempt f (wal_release rd.snapshot.index))))).0.done
    from (d, ok _) h = log_saved d h
    from (d, err e) h = h
    from (d, panic) h = h

module _ (api : MemoryApi) where
  open api use {Memory}

  -- A save that the node makes, of a batch or of a snapshot of its own.
  pub data Save : Type 0 where
    batch : Ready → Save
    own_snapshot : ℕ → Bytes → Save

  abbrev pub save : Stored api → Save → Stored api × Result (Unit {0})
  save stored (batch rd) = save_state api stored rd
  save stored (own_snapshot index body) = create_snapshot api stored index body

  -- The storage after saves in a row, whatever each returns.
  abbrev pub save_all : Stored api → List Save → Stored api
  save_all stored [] = stored
  save_all stored (s ∷ ss) = save_all (save stored s).0 ss

  after_disk-done :
      (memory : Memory) (next : Memory → Memory × Result (Unit {0})) (r : Disk × Result (Unit {0}))
      → (after_disk api memory next r).0.0.done ≡ r.0.done
  after_disk-done memory next (d, ok _) = refl
  after_disk-done memory next (d, err e) = refl
  after_disk-done memory next (d, panic) = refl

  applied-IsDurable :
      (disk : Disk) (memory : Memory) (index : ℕ) (r : Result Memory)
      → IsDurable disk.done
      → IsDurable (snapshot_applied api disk memory index r).0.0.done
  applied-IsDurable disk memory index (ok m) h =
      rw
        (after_disk-done m _
          (and_then (attempt disk wal_sync) (λ d. attempt d (wal_release index))))
        (synced_release disk index h)
  applied-IsDurable disk memory index (err e) h = h
  applied-IsDurable disk memory index panic h = h

  saved-IsDurable :
      (memory : Memory) (snapshot : SnapshotMeta) (r : Disk × Result (Unit {0}))
      → IsDurable r.0.done
      → IsDurable (snapshot_saved api memory snapshot r).0.0.done
  saved-IsDurable memory snapshot (d, ok _) h = applied-IsDurable d memory snapshot.index _ h
  saved-IsDurable memory snapshot (d, err e) h = h
  saved-IsDurable memory snapshot (d, panic) h = h

  snapshot_at-IsDurable :
      (stored : Stored api) (index : ℕ) (body : Bytes) (at : Result ℕ)
      → IsDurable stored.0.done
      → IsDurable (snapshot_at api stored index body at).0.0.done
  snapshot_at-IsDurable (disk, memory) index body (ok at) h =
      saved-IsDurable memory _ (save_snap disk index) (save_snap-IsDurable disk index h)
  snapshot_at-IsDurable stored index body (err e) h = h
  snapshot_at-IsDurable stored index body panic h = h

  pub save-IsDurable :
      (stored : Stored api) (s : Save)
      → IsDurable stored.0.done
      → IsDurable (save stored s).0.0.done
  unfolding save_state create_snapshot
  save-IsDurable (disk, memory) (batch rd) h =
      rw (after_disk-done memory _ (save_state_to_wal disk rd))
        (save_state_to_wal-IsDurable disk rd h)
  save-IsDurable stored (own_snapshot index body) h = snapshot_at-IsDurable stored index body _ h

  -- After any saves of batches and of own snapshots on an empty disk, whichever of their writes fail:
  -- every snapshot entry of the log was written after its snapshot file, and no old segment was
  -- released while something saved after the last sync was not synced.
  pub saves-IsDurable :
      (memory : Memory) (answers : List (Result (Unit {0}))) (saves : List Save)
      → IsDurable (save_all (record { done = []; answers = answers }, memory) saves).0.done
  saves-IsDurable memory answers saves =
      from (record { done = []; answers = answers }, memory) saves tt
    where
      from :
          (stored : Stored api) (saves : List Save)
          → IsDurable stored.0.done
          → IsDurable (save_all stored saves).0.done
      from stored [] h = h
      from stored (s ∷ ss) h = from (save stored s).0 ss (save-IsDurable stored s h)

  -- When a write to disk fails while a batch is saved, SaveState returns that error, and the in-memory
  -- log is as it was.
  pub failed_disk_keeps_memory :
      (disk : Disk) (memory : Memory) (rd : Ready) (e : Error)
      → (save_state_to_wal disk rd).1 ≡ err e
      → ((save_state api (disk, memory) rd).0.1 ≡ memory)
        × ((save_state api (disk, memory) rd).1 ≡ err e)
  unfolding save_state
  failed_disk_keeps_memory disk memory rd e h = from (save_state_to_wal disk rd) h
    where
      from :
          (r : Disk × Result (Unit {0}))
          → r.1 ≡ err e
          → ((after_disk api memory (λ m. save_in_memory api m rd) r).0.1 ≡ memory)
            × ((after_disk api memory (λ m. save_in_memory api m rd) r).1 ≡ err e)
      from (d, ok _) failed = cc
      from (d, err x) failed = (refl, failed)
      from (d, panic) failed = cc
