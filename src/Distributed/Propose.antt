-- ===== src/Distributed/Propose.antt =====
-- distributed.go: NewTransaction, proposeTxnSubCommand and proposeAndWait. `encode` is Command.Encode,
-- `answer` what comes on the proposal's channel, `none` for nothing before the timeout, `others`
-- what other goroutines do to the oracle during BeginTxn, and `meanwhile` what they do to it while the
-- caller's operations run.
use omashu.Base.{ℕ, Bool, true, not, Option, none, some, List, if◌then◌else◌}
use omashu.Base.Bytes.{Bytes}
use omashu.Errors.{not_leader, propose_timeout, Result, ok, err, panic}
use omashu.Types.{Command, Commands, nil, cons, fields, sub_commands}
use omashu.Tso.Marks.{WaterMark}
use omashu.Tso.State.{Tso, Others}
use omashu.Tso.Clock.{◌>>=◌}
use omashu.Txn.State.{Txn, with_read_ts, with_commit_ts}
use omashu.Txn.Commit.{begin_txn, commit, deferred}

-- A proposal: the command's id, under which its answer is routed, and its bytes.
pub record Propose : Type 0 where
  pub cmd_id : Bytes
  pub cmd : Bytes

abbrev pub answered : Option (Result (Unit {0})) → Result (Unit {0})
answered none = err propose_timeout
answered (some r) = r

abbrev pub proposed_as :
    Bytes → Option (Result (Unit {0})) → Result Bytes → Option Propose × Result (Unit {0})
proposed_as id answer (ok bytes) = (some (record { cmd_id = id; cmd = bytes }), answered answer)
proposed_as id answer (err e) = (none, err e)
proposed_as id answer panic = (none, panic)

-- proposeAndWait: the proposal that is sent, and what the call returns.
unfoldable pub propose_and_wait :
    (Command → Result Bytes)
    → Option (Result (Unit {0}))
    → Command
    → Option Propose × Result (Unit {0})
propose_and_wait encode answer cmd = proposed_as (fields cmd).id answer (encode cmd)

-- `cmd := txnCmd.SubCommands[0]`, with the transaction's timestamps
abbrev pub stamped : Txn → Command → Command
stamped t c = with_commit_ts t.commit_ts (with_read_ts t.read_ts c)

module _ (w : WaterMark) (encode : Command → Result Bytes)
    (answer : Option (Result (Unit {0}))) where
  -- The end of NewTransaction. `cmd.Id` of the nil command is a panic.
  abbrev pub propose_command : Txn → Result (Option Command) → Option Propose × Result (Unit {0})
  propose_command t (ok none) = (none, panic)
  propose_command t (ok (some cmd)) = propose_and_wait encode answer cmd
  propose_command t (err e) = (none, err e)
  propose_command t panic = (none, panic)

  abbrev pub propose_first : Txn → Commands → Option Propose × Result (Unit {0})
  propose_first t nil = (none, ok tt)
  propose_first t (cons c cs) = propose_and_wait encode answer (stamped t c)

  -- The end of proposeTxnSubCommand. `txnCmd.SubCommands` of the nil command is a panic.
  abbrev pub propose_sub_command :
      Txn → Result (Option Command) → Option Propose × Result (Unit {0})
  propose_sub_command t (ok none) = (none, panic)
  propose_sub_command t (ok (some cmd)) = propose_first t (sub_commands cmd)
  propose_sub_command t (err e) = (none, err e)
  propose_sub_command t panic = (none, panic)

  -- The transaction from performOps to Commit, whose error the caller returns.
  abbrev pub after_ops :
      Tso w → List ℕ → Txn × Result (Unit {0}) → Option (Tso w × Txn × Result (Option Command))
  after_ops s clock (t, ok _) = commit w s t clock
  after_ops s clock (t, err e) = some (s, t, err e)
  after_ops s clock (t, panic) = some (s, t, panic)

  abbrev pub run_txn :
      (Tso w → Tso w)
      → (Txn → Txn × Result (Unit {0}))
      → List ℕ
      → (Txn → Result (Option Command) → Option Propose × Result (Unit {0}))
      → Tso w × Result Txn
      → Option (Tso w × Option Propose × Result (Unit {0}))
  run_txn meanwhile perform_ops clock finish (s, ok txn) =
      after_ops (meanwhile s) clock (perform_ops txn) >>= λ e.
      let (s', t, r) = deferred w e in let (sent, result) = finish t r in some (s', sent, result)
  run_txn meanwhile perform_ops clock finish (s, err e) = some (s, none, err e)
  run_txn meanwhile perform_ops clock finish (s, panic) = some (s, none, panic)

  -- `none` while the oracle still waits for its clock.
  unfoldable pub new_transaction :
      Bool
      → Tso w
      → Bytes
      → Bytes
      → Bool
      → Others w
      → (Tso w → Tso w)
      → (Txn → Txn × Result (Unit {0}))
      → List ℕ
      → Option (Tso w × Option Propose × Result (Unit {0}))
  new_transaction is_leader s id cmd_id waited others meanwhile perform_ops clock =
      if not is_leader
      then some (s, none, err not_leader)
      else run_txn meanwhile perform_ops clock propose_command
          (begin_txn w others s id cmd_id true waited)

  unfoldable pub propose_txn_sub_command :
      Tso w
      → Bytes
      → Bytes
      → Bool
      → Others w
      → (Tso w → Tso w)
      → (Txn → Txn × Result (Unit {0}))
      → List ℕ
      → Option (Tso w × Option Propose × Result (Unit {0}))
  propose_txn_sub_command s id cmd_id waited others meanwhile perform_ops clock =
      run_txn meanwhile perform_ops clock propose_sub_command
        (begin_txn w others s id cmd_id true waited)
