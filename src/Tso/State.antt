-- ===== src/Tso/State.antt =====
-- tso.go: the oracle's state, what it does under its mutex, but for the clock (Tso/Clock.antt), and ReadTs,
-- part of which is outside.
-- Sets and maps with empty values are lists; a key of a set is added once.
use omashu.Base.{ℕ, Bool, true, false, not, List, [], ◌∷◌, any, filter, leb, ◌==◌, if◌then◌else◌}
use omashu.Base.Bytes.{Bytes, bytes_eq}
use omashu.Tso.Stamp.{TimeStamp, new_empty_time_stamp, compose}
use omashu.Tso.Marks.{WaterMark}

pub record CommittedTxn : Type 0 where
  pub ts : ℕ
  pub conflict_keys : List Bytes

-- `_, has := set[key]`
unfoldable pub has_key : List Bytes → Bytes → Bool
unfolding bytes_eq
has_key keys key = any (λ k. bytes_eq k key) keys

unfoldable pub has_reader : List ℕ → ℕ → Bool
has_reader readers ts = any (λ r. r == ts) readers

-- `readers[ts] = struct{}{}`
unfoldable pub add_reader : List ℕ → ℕ → List ℕ
unfolding has_reader
add_reader readers ts = if has_reader readers ts then readers else ts ∷ readers

-- `delete(readers, ts)`
unfoldable pub delete_reader : List ℕ → ℕ → List ℕ
delete_reader readers ts = filter (λ r. not (r == ts)) readers

-- The test of `hasConflict` on one committed transaction.
unfoldable pub conflicts_with : List Bytes → ℕ → CommittedTxn → Bool
unfolding has_key
conflicts_with reads read_ts c =
    if leb c.ts read_ts then false else any (has_key c.conflict_keys) reads

abbrev pub is_empty {ℓ} : {A : Type ℓ} → List A → Bool
is_empty [] = true
is_empty (x ∷ xs) = false

unfoldable pub has_conflict : List CommittedTxn → List Bytes → ℕ → Bool
unfolding conflicts_with
has_conflict committed reads read_ts =
    if is_empty reads then false else any (conflicts_with reads read_ts) committed

-- What `cleanupCommittedTransactions` keeps.
abbrev pub is_recent : ℕ → CommittedTxn → Bool
is_recent max_read_ts c = not (leb c.ts max_read_ts)

module _ (w : WaterMark) where
  open w use {Mark, begin, done, done_until}

  pub record Tso : Type 0 where
    pub current : TimeStamp
    pub saved : TimeStamp
    pub txn_mark : Mark
    pub read_mark : Mark
    pub readers : List ℕ
    pub last_cleanup_ts : ℕ
    pub committed_txns : List CommittedTxn

  -- newTSO, with the two fresh watermarks
  unfoldable pub new_tso : Mark → Mark → Tso
  unfolding new_empty_time_stamp
  new_tso txn_mark read_mark = record {
    current = new_empty_time_stamp;
    saved = new_empty_time_stamp;
    txn_mark = txn_mark;
    read_mark = read_mark;
    readers = [];
    last_cleanup_ts = 0;
    committed_txns = [];
  }

  unfoldable pub current_read_ts : Tso → ℕ
  current_read_ts s = compose s.current

  -- The part of `ReadTs` under the mutex.
  unfoldable pub reserve_read : Tso → Tso × ℕ
  unfolding current_read_ts add_reader
  reserve_read s =
      let ts = current_read_ts s in (record s { readers = add_reader s.readers ts }, ts)

  -- `readMark.Begin`, once the mutex is released
  unfoldable pub mark_read : Tso → ℕ → Tso
  mark_read s ts = record s { read_mark = begin s.read_mark ts }

  -- The end of `ReadTs` when the wait for the transaction mark failed.
  unfoldable pub fail_read : Tso → ℕ → Tso
  fail_read s ts = record s { read_mark = done s.read_mark ts }

  -- What other goroutines do to the oracle during one `ReadTs`: between the release of the mutex and
  -- the Begin of the read mark, and from there to the end of the wait.
  pub record Others : Type 0 where
    pub before_mark : Tso → Tso
    pub while_waiting : Tso → Tso

  abbrev pub alone : Others
  alone = record { before_mark = λ s. s; while_waiting = λ s. s }

  -- `ReadTs` up to the end of its wait for the transaction mark.
  unfoldable pub begin_read : Others → Tso → Tso × ℕ
  unfolding reserve_read mark_read
  begin_read others s =
      let (reserved, ts) = reserve_read s in
      (others.while_waiting (mark_read (others.before_mark reserved) ts), ts)

  unfoldable pub done_read : Tso → ℕ → Tso
  unfolding has_reader delete_reader
  done_read s ts =
      if has_reader s.readers ts
      then record s { read_mark = done s.read_mark ts; readers = delete_reader s.readers ts }
      else s

  -- ReadTs: `waited` is the answer of `txnMark.WaitForMark`, an error when the context ended first.
  unfoldable pub read_ts : Others → Tso → Bool → Tso × Bool × ℕ
  unfolding begin_read fail_read
  read_ts others s waited =
      let (s', ts) = begin_read others s in
      if waited then (s', true, ts) else (fail_read s' ts, false, 0)

  unfoldable pub cleanup_committed_transactions : Tso → Tso
  cleanup_committed_transactions s =
      let max_read_ts = done_until s.read_mark in
      if max_read_ts == s.last_cleanup_ts then s else record s {
        last_cleanup_ts = max_read_ts;
        committed_txns = filter (is_recent max_read_ts) s.committed_txns;
      }

  unfoldable pub done_commit : Tso → ℕ → Tso
  done_commit s ts = record s { txn_mark = done s.txn_mark ts }

  unfoldable pub discard_at : Tso → ℕ
  discard_at s = done_until s.read_mark
