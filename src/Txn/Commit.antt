-- ===== src/Txn/Commit.antt =====
-- txn.go: BeginTxn, Commit and Discard, which go through the oracle of tso.go.
use omashu.Base.{ℕ, Bool, true, ◌&&◌, Option, none, some, List, ltb, ◌==◌, if◌then◌else◌}
use omashu.Base.Bytes.{Bytes}
use omashu.Errors.{conflict, discarded_txn, batch_too_big, cancelled, Result, ok, err}
use omashu.Types.{Command, count, sub_commands}
use omashu.Tso.Marks.{WaterMark}
use omashu.Tso.State.{Tso, Others, read_ts, done_read, done_commit, is_empty}
use omashu.Tso.Clock.{◌>>=◌, new_commit_ts}
use omashu.Txn.State.{Txn, new_txn_value, with_commit_ts}

abbrev pub max_batch_size : ℕ
max_batch_size = 100

-- `len(txn.writes) == 0 && len(txn.cmd.SubCommands) == 0`
abbrev pub has_nothing : Txn → Bool
has_nothing t = is_empty t.writes && (count (sub_commands t.cmd) == 0)

abbrev pub too_big : Txn → Bool
too_big t = ltb max_batch_size (count (sub_commands t.cmd))

module _ (w : WaterMark) where
  -- BeginTxn: `waited` is whether the wait for the transaction mark ended before the context did, and
  -- `others` what other goroutines do in between.
  unfoldable pub begin_txn : Others w → Tso w → Bytes → Bytes → Bool → Bool → Tso w × Result Txn
  begin_txn others s id cmd_id update waited =
      let (s', served, ts) = read_ts w others s waited in
      (s', if served then ok (new_txn_value id cmd_id ts update) else err cancelled)

  unfoldable pub discard : Tso w → Txn → Tso w × Txn
  discard s txn =
      if txn.discarded
      then (s, txn)
      else (done_read w s txn.read_ts, record txn { discarded = true })

  -- The callback of Commit, run between newCommitTs and DoneCommit.
  abbrev pub stamp : Txn → ℕ → Txn
  stamp txn ts = record txn { cmd = with_commit_ts ts txn.cmd; commit_ts = ts }

  -- TSO.Commit with that callback: the conflict is an error.
  abbrev pub committed_with :
      Txn → Option ℕ × Tso w × List ℕ → Tso w × Txn × Result (Option Command)
  committed_with txn (none, s, clock) = (s, txn, err conflict)
  committed_with txn (some ts, s, clock) =
      let stamped = stamp txn ts in (done_commit w s ts, stamped, ok (some stamped.cmd))

  -- `defer txn.Discard()`
  abbrev pub deferred :
      Tso w × Txn × Result (Option Command) → Tso w × Txn × Result (Option Command)
  deferred (s, txn, r) = let (s', txn') = discard s txn in (s', txn', r)

  -- Commit: `none` while the oracle still waits for its clock, and `ok none` for (nil, nil).
  unfoldable pub commit : Tso w → Txn → List ℕ → Option (Tso w × Txn × Result (Option Command))
  commit s txn clock =
      if txn.discarded
      then some (s, txn, err discarded_txn)
      else if has_nothing txn
      then some (deferred (s, txn, ok none))
      else if too_big txn
      then some (deferred (s, txn, err batch_too_big))
      else (new_commit_ts w s txn.reads txn.read_ts txn.conflict_keys clock >>= λ r.
          some (deferred (committed_with txn r)))
