-- ===== src/Node/Snapshots.antt =====
-- node.go: takeSnapshotIfNeeded, with fsm.go's CreateSnapshot and storage.go's CreateSnapshot. The indices
-- are read one after the other; what is read is an argument.
use omashu.Base.{ℕ, Bool, if◌then◌else◌}
use omashu.Base.Bytes.{Bytes}
use omashu.Errors.{Result, ok}
use omashu.Types.Delta.{Codec}
use omashu.Badger.Api.{BadgerApi}
use omashu.Fsm.{take_snapshot}
use omashu.Storage.Save.{MemoryApi, Stored, create_snapshot}
use omashu.Node.Ready.{needs_snapshot}

module _ (b : BadgerApi) (codec : Codec) (api : MemoryApi) where
  -- Errors are only logged.
  abbrev pub stored_snapshot : Stored api → ℕ → Result (ℕ × Bytes) → Stored api
  stored_snapshot stored applied (ok (upto, data_)) = (create_snapshot api stored applied data_).0
  stored_snapshot stored applied _ = stored

  unfoldable pub take_snapshot_if_needed : Bool → ℕ → ℕ → b.Db → Stored api → Stored api
  take_snapshot_if_needed force applied snapshot_index db stored =
      if needs_snapshot force applied snapshot_index
      then stored_snapshot stored applied (take_snapshot b codec db)
      else stored
