-- ===== src/Examples/Transactions.antt =====
-- Runs of transactions on the leader at 100 ms.
use omashu.Base.{◌==◌, ℕ, ◌≤◌, ◌≡◌, refl, true, false, Option, some, List, [], ◌∷◌, ◌++◌, arith}
use omashu.Base.Bytes.{Bytes, bytes_eq}
use omashu.Errors.{conflict, Result, ok, err}
use omashu.Types.{
  CommandType, transaction, set, zero_fields, Command, command, nil, cons, fields, sub_commands,
  new_set_command, new_transaction_command, new_incr_by_command,
}
use omashu.Tso.Stamp.{compose}
use omashu.Tso.State.{
  CommittedTxn, Tso, has_key, has_reader, has_conflict, alone, reserve_read, mark_read, begin_read,
  read_ts, done_read, done_commit, cleanup_committed_transactions,
}
use omashu.Tso.Clock.{allocate, new_commit_ts}
use omashu.Tso.Conflict.{NoStaleRead}
use omashu.Txn.State.{Txn, new_txn_value, validate, add_sub}
use omashu.Txn.Writes.{txn_set, txn_incr_by}
use omashu.Txn.Commit.{max_batch_size, commit, discard, begin_txn}
use omashu.Txn.Tracked.{IsTracked, AllSubs, tracks}
use omashu.Txn.Tracked.Steps.{Op, set, perform_all, performed-IsTracked}
use omashu.Txn.Tracked.Ends.{committed_command}
use omashu.Txn.Tracked.Stale.{stale_reader_refused}
use omashu.Distributed.Propose.{
  Propose, propose_and_wait, answered, new_transaction, propose_txn_sub_command,
}
use omashu.Distributed.Ends.{transact, performed, transaction_released, transaction_proposes}
use omashu.Distributed.Calls.{Call, dist_incr_by}
use omashu.Distributed.Increments.{increment, increment_proposed}
use omashu.Distributed.Leadership.{absent, Service, leaders, Runs, leaders-Runs}
use omashu.Examples.Marks.{counted_marks}
use omashu.Examples.Commits.{function_store}
use omashu.Examples.Stores.{plain_codec}
use omashu.Examples.Oracle.{oracle}

abbrev at_100 : ℕ
at_100 = 26214400

abbrev at_150 : ℕ
at_150 = 39321601

-- It sets key 2.
abbrev sets_key_2 : List (Op function_store plain_codec)
sets_key_2 = set [] (2 ∷ []) (7 ∷ []) [] ∷ []

performed-IsTracked_example :
    IsTracked at_100
      (perform_all function_store plain_codec sets_key_2 (new_txn_value [] [] at_100 true))
performed-IsTracked_example =
    performed-IsTracked function_store plain_codec sets_key_2 [] [] at_100 true

abbrev set_command : Command
set_command = command (record (zero_fields [] CommandType.set) { key = 2 ∷ []; value = 7 ∷ [] }) nil

abbrev writer : Txn
writer = record {
  id = [];
  cmd = command (record (zero_fields [] transaction) { read_ts = at_100 }) (cons set_command nil);
  read_ts = at_100;
  commit_ts = 0;
  reads = [];
  conflict_keys = (2 ∷ []) ∷ [];
  writes = (2 ∷ []) ∷ [];
  update = true;
  discarded = false;
}

writer-IsTracked : IsTracked at_100 writer
unfolding has_key bytes_eq
writer-IsTracked = ((refl, tt), (refl, tt), (refl, tt), refl, refl, refl, refl)

abbrev begun_oracle : Tso counted_marks
begun_oracle = record oracle {
  read_mark = record { until = 0; newest = at_100; waiting = at_100 ∷ [] };
  readers = at_100 ∷ [];
}

abbrev committed_oracle : Tso counted_marks
committed_oracle = record oracle {
  current = record { physical = 150; logical = 1 };
  txn_mark = record { until = at_150; newest = at_150; waiting = [] };
  read_mark = record { until = at_100; newest = at_100; waiting = [] };
  last_cleanup_ts = at_100;
  committed_txns = record { ts = at_150; conflict_keys = (2 ∷ []) ∷ [] } ∷ [];
}

abbrev committed_cmd : Command
committed_cmd =
    command (record (zero_fields [] transaction) { read_ts = at_100; commit_ts = at_150 })
      (cons set_command nil)

abbrev committed_writer : Txn
committed_writer = record writer { cmd = committed_cmd; commit_ts = at_150; discarded = true }

writer_commits :
    commit counted_marks begun_oracle writer (150 ∷ [])
    ≡ some (committed_oracle, committed_writer, ok (some committed_cmd))
unfolding commit discard new_commit_ts allocate compose done_read done_commit has_conflict
    cleanup_committed_transactions
writer_commits = refl

committed_command_example :
    (transaction ≡ transaction)
    × (at_100 ≡ at_100)
    × (cons set_command nil ≡ cons set_command nil)
    × (1 ≤ max_batch_size)
    × NoStaleRead [] [] at_100
    × (older : List CommittedTxn) × (keys : List Bytes) × (committed_oracle.committed_txns
        ≡ older ++ record { ts = at_150; conflict_keys = keys } ∷ [])
    × AllSubs (λ sub. tracks keys sub ≡ true) (cons set_command nil)
committed_command_example =
    committed_command counted_marks begun_oracle writer (150 ∷ []) writer-IsTracked writer_commits

-- It began with the writer, and has read the key that the writer sets.
abbrev reader : Txn
reader = record writer {
  reads = (2 ∷ []) ∷ [];
  conflict_keys = (3 ∷ []) ∷ [];
  writes = (3 ∷ []) ∷ [];
}

stale_reader_refused_example :
    commit counted_marks committed_oracle reader (160 ∷ [])
    ≡ some (
      (discard counted_marks committed_oracle reader).0,
      (discard counted_marks committed_oracle reader).1,
      err conflict,
    )
unfolding has_key bytes_eq
stale_reader_refused_example =
    stale_reader_refused counted_marks begun_oracle writer reader (150 ∷ []) (160 ∷ [])
      writer-IsTracked writer_commits (omega arith) refl refl refl refl

abbrev encode : Command → Result Bytes
encode c = ok (1 ∷ [])

abbrev ask :
    List (Op function_store plain_codec)
    → Option (Tso counted_marks × Option Propose × Result (Unit {0}))
ask ops =
    transact counted_marks encode (some (ok tt)) function_store plain_codec oracle [] []
      (alone counted_marks) (λ s. s) ops (150 ∷ [])

proposal :
    ask sets_key_2 ≡ some (committed_oracle, some (record { cmd_id = []; cmd = 1 ∷ [] }), ok tt)
unfolding commit discard new_commit_ts allocate compose done_read done_commit has_conflict
    cleanup_committed_transactions new_transaction begin_txn read_ts begin_read reserve_read
    mark_read txn_set validate add_sub propose_and_wait new_txn_value new_transaction_command
    new_set_command has_key bytes_eq
proposal = refl

transaction_released_example : has_reader committed_oracle.readers (compose oracle.current) ≡ false
transaction_released_example =
    transaction_released counted_marks encode (some (ok tt)) function_store plain_codec oracle [] []
      (alone counted_marks) (λ s. s) sets_key_2 (150 ∷ []) proposal

transaction_proposes_example :
    (c : Command) × (encode c ≡ ok (1 ∷ []))
    × ([] ≡ (fields c).id)
    × (ok tt ≡ answered (some (ok tt)))
    × ((fields c).type ≡ transaction)
    × ((fields c).read_ts ≡ compose oracle.current)
    × (sub_commands c
        ≡ sub_commands
            (performed counted_marks encode
              (some (ok tt))
              function_store
              plain_codec
              oracle
              []
              []
              sets_key_2).cmd)
    × (older : List CommittedTxn) × (keys : List Bytes) × (committed_oracle.committed_txns
        ≡ older ++ record { ts = (fields c).commit_ts; conflict_keys = keys } ∷ [])
    × AllSubs (λ sub. tracks keys sub ≡ true) (sub_commands c)
transaction_proposes_example =
    transaction_proposes counted_marks encode (some (ok tt)) function_store plain_codec oracle [] []
      (alone counted_marks) (λ s. s) sets_key_2 (150 ∷ []) proposal

-- A call of IncrBy during which another transaction commits a write of key 2.
abbrev overtaken_call : Call counted_marks
overtaken_call = record {
  is_leader = true;
  txn_id = [];
  txn_cmd_id = [];
  sub_id = [];
  waited = true;
  others = alone counted_marks;
  meanwhile =
      λ s. record s { committed_txns = record { ts = at_150; conflict_keys = (2 ∷ []) ∷ [] } ∷ [] };
  clock = 160 ∷ [];
  encode = encode;
  answer = some (ok tt);
}

overtaken_call_proposes :
    (s' : Tso counted_marks) × (dist_incr_by counted_marks overtaken_call oracle (2 ∷ []) 1
      ≡ some (s', some (record { cmd_id = []; cmd = 1 ∷ [] }), ok tt))
unfolding commit discard new_commit_ts allocate compose done_read done_commit has_conflict
    cleanup_committed_transactions dist_incr_by propose_txn_sub_command begin_txn read_ts begin_read
    reserve_read mark_read txn_incr_by validate add_sub propose_and_wait new_txn_value
    new_transaction_command new_incr_by_command has_key bytes_eq
overtaken_call_proposes = (_, refl)

increment_proposed_example :
    (ts : ℕ) × ((some (record { cmd_id = []; cmd = 1 ∷ [] }), ok tt)
      ≡ propose_and_wait encode
          (some (ok tt))
          (increment counted_marks overtaken_call oracle (2 ∷ []) 1 ts))
increment_proposed_example =
    increment_proposed counted_marks overtaken_call oracle 2 [] 1 refl refl
      overtaken_call_proposes.1

abbrev idle : Service
idle = record { stop_notifier = absent; leader_change_notifier = false; hook_calls = [] }

-- Node 1 leads, loses to node 2, and leads again.
leaders-Runs_example :
    (t : Service) × (last : ℕ) × (leaders 1 idle 0 (1 ∷ 2 ∷ 1 ∷ []) ≡ ok (t, last))
    × Runs t (last == 1)
leaders-Runs_example = leaders-Runs 1 0 idle (1 ∷ 2 ∷ 1 ∷ []) ((λ e. cc), refl)
