-- ===== src/Storage/Disk.antt =====
-- wal.go: the writes that reach the disk, each through the vendored packages, which answer each call
-- with success or an error. The disk is the list of the writes that succeeded, the newest first, and
-- the answers still to come; when none are left, calls succeed.
use omashu.Base.{ℕ, List, [], ◌∷◌}
use omashu.Errors.{Result, ok, err, panic}
use omashu.Node.State.{Entry}

pub record HardState : Type 0 where
  pub term : ℕ
  pub vote : ℕ
  pub commit : ℕ

pub data Write : Type 0 where
  -- the snapshot file, and the entry of the log that refers to it
  snap_file wal_snap : ℕ → Write
  wal_save : HardState → List Entry → Write
  wal_sync : Write
  wal_release : ℕ → Write

pub record Disk : Type 0 where
  pub done : List Write
  pub answers : List (Result (Unit {0}))

abbrev pub answered_with : Disk → Write → List (Result (Unit {0})) → Disk × Result (Unit {0})
answered_with disk write [] = (record disk { done = write ∷ disk.done }, ok tt)
answered_with disk write (ok _ ∷ rest) =
    (record { done = write ∷ disk.done; answers = rest }, ok tt)
answered_with disk write (err e ∷ rest) = (record disk { answers = rest }, err e)
answered_with disk write (panic ∷ rest) = (record disk { answers = rest }, panic)

-- One call of the log or of the snapshotter: Save, Sync and ReleaseLockTo under the names of wal.go.
unfoldable pub attempt : Disk → Write → Disk × Result (Unit {0})
attempt disk write = answered_with disk write disk.answers

abbrev pub and_then :
    Disk × Result (Unit {0}) → (Disk → Disk × Result (Unit {0})) → Disk × Result (Unit {0})
and_then (disk, ok _) next = next disk
and_then (disk, err e) next = (disk, err e)
and_then (disk, panic) next = (disk, panic)

-- Wal.SaveSnap
unfoldable pub save_snap : Disk → ℕ → Disk × Result (Unit {0})
save_snap disk index = and_then (attempt disk (snap_file index)) (λ d. attempt d (wal_snap index))
