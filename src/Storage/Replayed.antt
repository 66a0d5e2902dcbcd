-- ===== src/Storage/Replayed.antt =====
-- Storage.Initialize of storage.go after a run whose saves left the disk durable.
use omashu.Base.{
  ◌≡◌, refl, Bool-cases, inl, inr, Option, none, some, List, [], ◌∷◌, true, false, if◌then◌else◌, ℕ,
  suc, ◌≤◌, arith, sym, ◌∙◌, ==_iff, subst,
}
use omashu.Errors.{Result, ok, err, panic, ◌>>=◌}
use omashu.Node.State.{Entry}
use omashu.Storage.Disk.{HardState, Write}
use omashu.Storage.Save.{SnapshotMeta, MemoryApi, is_empty_snap, is_empty_hard_state}
use omashu.Storage.Durable.{Save}
use omashu.Storage.Open.{
  WalApi, Wal, start_at, replay, with_snapshot, with_entries, found_then, initialize,
}
use omashu.Storage.Recovery.{WalLaws, StartsFrom, saved, saves-Recovers}

-- What is relied on of the in-memory log of the Raft library: it has a last index, at first none; a
-- snapshot applied to a new log moves it; a hard state is always taken; and entries are appended unless
-- that leaves a gap, on which Append panics.
pub record NewMemoryLaws (api : MemoryApi) (memory : api.Memory) : Type 0 where
  pub last : api.Memory → ℕ
  pub last-new : last memory ≡ 0
  pub apply_snapshot-new :
      (s : SnapshotMeta)
      → is_empty_snap s ≡ false
      → (m : api.Memory) × (api.apply_snapshot memory s ≡ ok m) × (last m ≡ s.index)
  pub set_hard_state-ok :
      (m : api.Memory) (h : HardState)
      → (n : api.Memory) × (api.set_hard_state m h ≡ ok n) × (last n ≡ last m)
  pub append-ok :
      (m : api.Memory) (e : Entry) (es : List Entry)
      → e.index ≤ suc (last m)
      → (n : api.Memory) × (api.append m (e ∷ es) ≡ ok n)

module _ (w : WalApi) (laws : WalLaws w) (api : MemoryApi) (memory : api.Memory)
    (fresh : NewMemoryLaws api memory) where
  open fresh use {last}

  with_snapshot-ok :
      (o : Option SnapshotMeta)
      → (m : api.Memory) × (with_snapshot w api memory o ≡ ok m) × (last m ≡ (start_at w o).0)
  with_snapshot-ok none = (memory, refl, fresh.last-new)
  with_snapshot-ok (some s) = elim (Bool-cases (is_empty_snap s)) [
    | inl empty ↦ (memory, rw empty refl, fresh.last-new ∙ sym ((==_iff s.index 0).0 empty))
    | inr full ↦ let (m, e, at) = fresh.apply_snapshot-new s full in (m, rw (full, e) refl, at)
  ]

  with_hard_state-ok :
      (m : api.Memory) (h : HardState)
      → (n : api.Memory) × ((if is_empty_hard_state h then ok m else api.set_hard_state m h) ≡ ok n)
        × (last n ≡ last m)
  with_hard_state-ok m h = elim (Bool-cases (is_empty_hard_state h)) [
    | inl empty ↦ (m, rw empty refl, refl)
    | inr full ↦ let (n, e, at) = fresh.set_hard_state-ok m h in (n, rw (full, e) refl, at)
  ]

  -- The entries begin right behind a position.
  abbrev Follows : ℕ → List Entry → Type 0
  Follows at [] = Unit
  Follows at (e ∷ es) = e.index ≡ suc at

  with_entries-ok :
      (m : api.Memory) (es : List Entry)
      → Follows (last m) es
      → (n : api.Memory) × (with_entries w api memory m es ≡ ok n)
  with_entries-ok m [] h = (m, refl)
  with_entries-ok m (e ∷ es) h = fresh.append-ok m e es (omega (arith, h))

  replay-ok :
      (o : Option SnapshotMeta) (h : HardState) (es : List Entry)
      → Follows (start_at w o).0 es
      → (n : api.Memory) × (replay w api memory (o, h, es) ≡ ok n)
  unfolding replay
  replay-ok o h es follows =
      let (m, with_o, at) = with_snapshot-ok o in
      let (n, with_h, same) = with_hard_state-ok m h in
      let (p, with_es) =
        with_entries-ok n es (subst (λ k. Follows k es) (sym (same ∙ at)) follows) in
      (p, rw with_o (rw with_h with_es))

  read-Follows :
      (disk : List Write) (o : Option SnapshotMeta) (log : w.Log) (h : HardState) (es : List Entry)
      → w.open_at disk (start_at w o) ≡ ok log
      → w.read_all log ≡ ok (h, es)
      → Follows (start_at w o).0 es
  read-Follows disk o log h [] opened found = tt
  read-Follows disk o log h (e ∷ es) opened found =
      laws.read_all-first disk (start_at w o) log h e es opened found

  -- The outcome of Initialize with what reading the records gives, from the snapshot `o` and the open log.
  abbrev pub Initialized :
      Wal w
      → List Write
      → Option SnapshotMeta
      → w.Log
      → Result (HardState × List Entry)
      → Wal w × List Write × Result api.Memory
      → Type 0
  Initialized wal disk o log (ok (h, es)) r =
      (m : api.Memory) × (replay w api memory (o, h, es) ≡ ok m)
      × (r ≡ (record wal { log = some log }, disk, ok m))
  Initialized wal disk o log (err e) r = r ≡ (record wal { log = some log }, disk, err e)
  Initialized wal disk o log panic r = r ≡ (record wal { log = some log }, disk, panic)

  found-Initialized :
      (wal : Wal w) (disk : List Write) (o : Option SnapshotMeta) (log : w.Log)
      (records : Result (HardState × List Entry))
      → w.open_at disk (start_at w o) ≡ ok log
      → w.read_all log ≡ records
      → Initialized wal disk o log records (
          found_then w api memory
            (record wal { log = some log }, disk, records >>= λ found. ok (o, found.0, found.1)))
  found-Initialized wal disk o log (ok (h, es)) opened found =
      let (m, e) = replay-ok o h es (read-Follows disk o log h es opened found) in (m, e, rw e refl)
  found-Initialized wal disk o log (err e) opened found = refl
  found-Initialized wal disk o log panic opened found = refl

  -- After any saves on an empty disk, whichever of their writes fail, by the documented behaviour of the
  -- log, of the snapshotter and of a new in-memory log: if there is a log, Initialize starts from the
  -- newest snapshot that the log holds as valid, or from none when it holds none; when the records can
  -- be read, it succeeds with that snapshot, the hard state and the entries replayed; and else it
  -- returns the error of reading them, and leaves the log open.
  pub saves-Initialized :
      (start : api.Memory) (answers : List (Result (Unit {0}))) (saves : List (Save api))
      (wal : Wal w)
      → w.exist (saved w laws api start answers saves) ≡ true
      → (o : Option SnapshotMeta) × (log : w.Log) × StartsFrom w laws
          (laws.valid (saved w laws api start answers saves))
          o
        × (w.open_at (saved w laws api start answers saves) (start_at w o) ≡ ok log)
        × Initialized wal
            (saved w laws api start answers saves)
            o
            log
            (w.read_all log)
            (initialize w api memory wal (saved w laws api start answers saves))
  unfolding initialize
  saves-Initialized start answers saves wal exists =
      let (o, log, from, at, opens) = saves-Recovers w laws api start answers saves wal exists in
      (o, log, from, at, rw opens (found-Initialized wal _ o log (w.read_all log) at refl))
