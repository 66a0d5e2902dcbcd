-- ===== src/Examples/Oracle.antt =====
-- Runs of the oracle of tso.go: a leader at 100 ms whose window is open until 2100 ms.
use omashu.Base.{
  ℕ, ◌<◌, ◌≤◌, ◌≡◌, refl, inr, none, some, List, [], ◌∷◌, arith, ◌^◌, ◌/◌, ◌%◌, ◌⊎◌, ◌*◌, ◌+◌,
}
use omashu.Errors.{ok}
use omashu.Counter.{uint64_to_bytes, bytes_to_uint64, bytes_to_uint64-uint64_to_bytes}
use omashu.Tso.Stamp.{TimeStamp, Fits, max_logical, compose, compose_parts}
use omashu.Tso.State.{
  CommittedTxn, Tso, has_conflict, discard_at, reserve_read, mark_read, done_read,
  cleanup_committed_transactions, done_commit,
}
use omashu.Tso.Clock.{allocate, new_commit_ts, start_clock, start_serving}
use omashu.Tso.Monotone.{allocate_increasing}
use omashu.Tso.Window.{allocate_in_window, leader_stalls, takeover}
use omashu.Tso.History.{
  Commit, System, Reach, InOrder, here, next, reserve, mark, commit, complete, discard,
  after_reserve, after_mark, after_commit, IsSerial,
}
use omashu.Tso.History.Serial.{serializable, discard_safe}
use omashu.Examples.Marks.{counted_marks, counted_laws, fresh_mark}

abbrev pub oracle : Tso counted_marks
oracle = record {
  current = record { physical = 100; logical = 0 };
  saved = record { physical = 2100; logical = 0 };
  txn_mark = fresh_mark;
  read_mark = fresh_mark;
  readers = [];
  last_cleanup_ts = 0;
  committed_txns = [];
}

abbrev stamp_at_100 : TimeStamp
stamp_at_100 = record { physical = 100; logical = 0 }

stamp_at_100-Fits : Fits stamp_at_100
stamp_at_100-Fits = record { physical_fits = omega arith; logical_fits = omega arith }

abbrev stamp_at_101 : TimeStamp
stamp_at_101 = record { physical = 101; logical = 3 }

stamp_at_101-Fits : Fits stamp_at_101
stamp_at_101-Fits = record { physical_fits = omega arith; logical_fits = omega arith }

compose_parts_example : (compose stamp_at_101 / 2 ^ 18 ≡ 101) × (compose stamp_at_101 % 2 ^ 18 ≡ 3)
compose_parts_example = compose_parts stamp_at_101 stamp_at_101-Fits

bytes_to_uint64-uint64_to_bytes_example : bytes_to_uint64 (uint64_to_bytes 258) ≡ ok 258
bytes_to_uint64-uint64_to_bytes_example = bytes_to_uint64-uint64_to_bytes 258 (omega arith)

allocate_increasing_example :
    (ts : ℕ) × (s' : Tso counted_marks) × (allocate counted_marks oracle (150 ∷ [])
      ≡ some (ts, s', []))
    × (ts ≡ compose s'.current)
    × (compose stamp_at_100 < ts)
    × Fits s'.current
allocate_increasing_example =
    allocate_increasing counted_marks oracle 150 [] stamp_at_100-Fits (omega arith) (omega arith)
      (omega arith) (inr (omega arith))

abbrev oracle_at_150 : Tso counted_marks
oracle_at_150 = record oracle { current = record { physical = 150; logical = 1 } }

allocated_at_150 : allocate counted_marks oracle (150 ∷ []) ≡ some (39321601, oracle_at_150, [])
unfolding allocate compose
allocated_at_150 = refl

allocate_in_window_example :
    (39321601 / 2 ^ 18 < 2100)
    ⊎ ((oracle_at_150.current.logical ≡ max_logical + 1) × (39321601 ≡ 2100 * 2 ^ 18))
allocate_in_window_example =
    allocate_in_window counted_marks oracle (150 ∷ []) (omega arith) (omega arith) allocated_at_150

-- A counter at its maximum in an odd millisecond.
abbrev full_oracle : Tso counted_marks
full_oracle = record oracle { current = record { physical = 101; logical = max_logical } }

-- The current millisecond is past the window, and the clock goes back into it.
abbrev late_oracle : Tso counted_marks
late_oracle = record oracle { current = record { physical = 2200; logical = 0 } }

allocated_back :
    allocate counted_marks late_oracle (2100 ∷ 2000 ∷ [])
    ≡ some (
      compose (record { physical = 2000; logical = 1 }),
      record oracle { current = record { physical = 2000; logical = 1 } },
      [],
    )
unfolding allocate
allocated_back = refl

leader_stalls_example :
    allocate counted_marks (start_serving counted_marks oracle none 5000) (7000 ∷ 7001 ∷ []) ≡ none
unfolding start_clock
leader_stalls_example =
    leader_stalls counted_marks oracle none 5000 (7000 ∷ 7001 ∷ []) (omega arith, (omega arith, tt))

takeover_example : 39321601 < compose (start_serving counted_marks oracle (some 2100) 1900).current
takeover_example =
    takeover counted_marks oracle oracle (150 ∷ []) 1900 (omega arith) (omega arith) (omega arith)
      allocated_at_150 (omega arith)

abbrev two_commits : List CommittedTxn
two_commits =
    record { ts = 5; conflict_keys = (1 ∷ []) ∷ [] }
    ∷ record { ts = 9; conflict_keys = (2 ∷ []) ∷ [] }
    ∷ []

abbrev started : System counted_marks
started = record { tso = oracle; reserved = []; active = []; history = [] }

-- Two transactions begin at 100 ms, the second between the two parts of the first.
abbrev both_reserved : System counted_marks
both_reserved = after_reserve counted_marks (after_reserve counted_marks started)

abbrev one_marked : System counted_marks
one_marked = after_mark counted_marks both_reserved (compose stamp_at_100)

abbrev both_begun : System counted_marks
both_begun = after_mark counted_marks one_marked (compose stamp_at_100)

-- It has read key 1 and writes key 2.
abbrev first_commit : Commit
first_commit = record {
  read_at = compose stamp_at_100;
  commit_at = compose (record { physical = 150; logical = 1 });
  reads = (1 ∷ []) ∷ [];
  keys = (2 ∷ []) ∷ [];
}

abbrev after_first : Tso counted_marks
after_first = record {
  current = record { physical = 150; logical = 1 };
  saved = record { physical = 2100; logical = 0 };
  txn_mark = record {
    until = 0;
    newest = first_commit.commit_at;
    waiting = first_commit.commit_at ∷ [];
  };
  read_mark = record {
    until = 0;
    newest = first_commit.read_at;
    waiting = first_commit.read_at ∷ [];
  };
  readers = [];
  last_cleanup_ts = 0;
  committed_txns = record { ts = first_commit.commit_at; conflict_keys = first_commit.keys } ∷ [];
}

first_committed :
    new_commit_ts counted_marks both_begun.tso first_commit.reads first_commit.read_at
      first_commit.keys
      (150 ∷ [])
    ≡ some (some first_commit.commit_at, after_first, [])
unfolding new_commit_ts allocate compose reserve_read mark_read done_read has_conflict
    cleanup_committed_transactions
first_committed = refl

abbrev one_committed : System counted_marks
one_committed = after_commit counted_marks both_begun after_first first_commit

abbrev one_completed : System counted_marks
one_completed = record one_committed {
  tso = done_commit counted_marks one_committed.tso first_commit.commit_at;
}

-- Both begin, the first commits and is discarded once more; the other still reads.
run :
    (r : Reach counted_marks started (record one_completed {
      tso = done_read counted_marks one_completed.tso first_commit.read_at;
    }))
    × InOrder counted_marks r
unfolding compose reserve_read mark_read done_commit
run = (
  next
      (next
        (next
          (next
            (next
              (next (next here (reserve started)) (reserve (after_reserve counted_marks started)))
              (mark both_reserved (compose stamp_at_100) (omega arith)))
            (mark one_marked (compose stamp_at_100) (omega arith)))
          (commit both_begun first_commit (150 ∷ []) after_first [] (omega arith) first_committed))
        (complete one_committed first_commit [] [] refl))
      (discard one_completed first_commit [] [] refl),
  (((((((tt, tt), tt), omega arith), omega arith), omega arith), tt), tt),
)

serializable_example : IsSerial (first_commit ∷ [])
unfolding counted_laws
serializable_example =
    serializable counted_marks counted_laws oracle _ (refl, refl, refl, (omega arith, omega arith))
      run.0 run.1

discard_safe_example :
    discard_at counted_marks (done_read counted_marks one_completed.tso first_commit.read_at)
    ≤ compose stamp_at_100
unfolding compose reserve_read mark_read done_commit counted_laws
discard_safe_example =
    discard_safe counted_marks counted_laws oracle _ (compose stamp_at_100)
      (refl, refl, refl, (omega arith, omega arith)) run.0 run.1 (omega arith)
