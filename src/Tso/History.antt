-- ===== src/Tso/History.antt =====
-- The oracle of tso.go as a system of transactions that begin, commit and are discarded in any order,
-- and the history of the commits that it has let through, newest first.
pub mod Kept
pub mod Invariant
pub mod Serial
use omashu.Base.{ℕ, ◌<◌, ◌≤◌, ◌≡◌, Bool, true, false, some, List, [], ◌∷◌, ◌++◌, any, map, All}
use omashu.Base.Bytes.{Bytes}
use omashu.Tso.Stamp.{compose}
use omashu.Tso.Marks.{WaterMark}
use omashu.Tso.State.{
  CommittedTxn, Tso, has_key, conflicts_with, reserve_read, mark_read, fail_read, done_read,
  done_commit,
}
use omashu.Tso.Clock.{new_commit_ts, save_window}
use omashu.Tso.Readers.{count, remove_one}

pub record Commit : Type 0 where
  pub read_at : ℕ
  pub commit_at : ℕ
  pub reads : List Bytes
  pub keys : List Bytes

abbrev pub as_committed : Commit → CommittedTxn
as_committed c = record { ts = c.commit_at; conflict_keys = c.keys }

abbrev pub later_writes : List Commit → List Bytes → ℕ → Bool
later_writes history reads read_at = any (conflicts_with reads read_at) (map as_committed history)

-- The verdicts by which the commits passed: no older commit, later than the read timestamp, had written
-- a key that was read; timestamps are above the read timestamp and above those of all older commits.
abbrev pub HasPassed : List Commit → Type 0
HasPassed [] = Unit
HasPassed (c ∷ older) =
    (later_writes older c.reads c.read_at ≡ false)
    × (c.read_at < c.commit_at)
    × All (λ d. d.commit_at < c.commit_at) older
    × HasPassed older

-- No commit has read a key that an older commit, later than its read timestamp, has written, and the
-- timestamps rise: the commits have the effect of running one at a time, in this order.
abbrev pub IsSerial : List Commit → Type 0
IsSerial [] = Unit
IsSerial (c ∷ older) =
    All (λ d. c.read_at < d.commit_at → All (λ key. has_key d.keys key ≡ false) c.reads) older
    × (c.read_at < c.commit_at)
    × All (λ d. d.commit_at < c.commit_at) older
    × IsSerial older

module _ (w : WaterMark) where
  -- `reserved` holds the read timestamps of the calls of ReadTs that have released the mutex and not yet
  -- begun the read mark, `active` those of the transactions that have, and have not ended.
  pub record System : Type 0 where
    pub tso : Tso w
    pub reserved : List ℕ
    pub active : List ℕ
    pub history : List Commit

  abbrev pub after_reserve : System → System
  after_reserve s = record s {
    tso = (reserve_read w s.tso).0;
    reserved = (reserve_read w s.tso).1 ∷ s.reserved;
  }

  abbrev pub after_mark : System → ℕ → System
  after_mark s r = record s {
    tso = mark_read w s.tso r;
    reserved = remove_one r s.reserved;
    active = r ∷ s.active;
  }

  abbrev pub after_commit : System → Tso w → Commit → System
  after_commit s tso' c = record {
    tso = tso';
    reserved = s.reserved;
    active = remove_one c.read_at s.active;
    history = c ∷ s.history;
  }

  -- The calls that the transaction manager makes, each in the parts that nothing comes between: the
  -- mutex is held during a part, or a part is one call on the read mark.
  pub data Step : System → System → Type 0 where
    -- ReadTs up to the release of the mutex
    reserve : (s : System) → Step s (after_reserve s)
    -- `readMark.Begin` of ReadTs
    mark : (s : System) (r : ℕ) → 0 < count r s.reserved → Step s (after_mark s r)
    -- ReadTs gives up its wait for the transaction mark
    fail_wait :
        (s : System) (r : ℕ)
        → 0 < count r s.active
        → Step s (record s { tso = fail_read w s.tso r; active = remove_one r s.active })
    -- Discard of a transaction that has not committed: it wrote nothing, failed, or was refused
    give_up :
        (s : System) (r : ℕ)
        → 0 < count r s.active
        → Step s (record s { tso = done_read w s.tso r; active = remove_one r s.active })
    -- newCommitTs that lets a transaction through
    commit :
        (s : System) (c : Commit) (clock : List ℕ) (tso' : Tso w) (rest : List ℕ)
        → 0 < count c.read_at s.active
        → new_commit_ts w s.tso c.reads c.read_at c.keys clock ≡ some (some c.commit_at, tso', rest)
        → Step s (after_commit s tso' c)
    -- DoneCommit after that
    complete :
        (s : System) (c : Commit) (newer older : List Commit)
        → s.history ≡ newer ++ c ∷ older
        → Step s (record s { tso = done_commit w s.tso c.commit_at })
    -- Discard after Commit
    discard :
        (s : System) (c : Commit) (newer older : List Commit)
        → s.history ≡ newer ++ c ∷ older
        → Step s (record s { tso = done_read w s.tso c.read_at })
    -- the background goroutine has persisted a new bound
    extend_window : (s : System) (bound : ℕ) → Step s (record s { tso = save_window w s.tso bound })

  pub data Reach (s : System) : System → Type 0 where
    here : Reach s s
    next : {t u : System} → Reach s t → Step t u → Reach s u

  -- A Begin comes before the read mark has passed its timestamp, and a commit timestamp is above the
  -- current one.
  abbrev pub StepInOrder : {s t : System} → Step s t → Type 0
  StepInOrder (reserve s) = Unit
  StepInOrder (mark s r p) = w.done_until s.tso.read_mark ≤ r
  StepInOrder (fail_wait s r p) = Unit
  StepInOrder (give_up s r p) = Unit
  StepInOrder (commit s c clock tso' rest p e) = compose s.tso.current < c.commit_at
  StepInOrder (complete s c newer older e) = Unit
  StepInOrder (discard s c newer older e) = Unit
  StepInOrder (extend_window s bound) = Unit

  -- Of a run: each of its steps is.
  abbrev pub InOrder : {s t : System} → Reach s t → Type 0
  InOrder here = Unit
  InOrder (next run step) = InOrder run × StepInOrder step
