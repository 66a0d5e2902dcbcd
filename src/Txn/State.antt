-- ===== src/Txn/State.antt =====
-- txn.go: a transaction's own state, and what records a key in it.
use omashu.Base.{ℕ, Bool, false, not, List, [], ◌∷◌, ◌++◌, if◌then◌else◌, some}
use omashu.Base.Bytes.{Bytes}
use omashu.Errors.{read_only_txn, discarded_txn, empty_key, Result, ok, err, panic, ◌>>=◌}
use omashu.Types.{Command, command, fields, sub_commands, new_transaction_command, add_sub_command}
use omashu.Tso.State.{has_key, is_empty}

pub record Txn : Type 0 where
  pub id : Bytes
  pub cmd : Command
  pub read_ts : ℕ
  pub commit_ts : ℕ
  pub reads : List Bytes
  pub conflict_keys : List Bytes
  pub writes : List Bytes
  pub update : Bool
  pub discarded : Bool

-- `set[key] = struct{}{}`
unfoldable pub add_key : List Bytes → Bytes → List Bytes
unfolding has_key
add_key keys key = if has_key keys key then keys else key ∷ keys

abbrev pub with_read_ts : ℕ → Command → Command
with_read_ts ts c = command (record (fields c) { read_ts = ts }) (sub_commands c)

abbrev pub with_commit_ts : ℕ → Command → Command
with_commit_ts ts c = command (record (fields c) { commit_ts = ts }) (sub_commands c)

-- The value that BeginTxn returns, with two fresh uuids.
unfoldable pub new_txn_value : Bytes → Bytes → ℕ → Bool → Txn
unfolding new_transaction_command
new_txn_value id cmd_id ts update = record {
  id = id;
  cmd = with_read_ts ts (new_transaction_command cmd_id);
  read_ts = ts;
  commit_ts = 0;
  reads = [];
  conflict_keys = [];
  writes = [];
  update = update;
  discarded = false;
}

unfoldable pub add_read_key : Txn → Bytes → Txn
add_read_key txn key = record txn { reads = txn.reads ++ key ∷ [] }

unfoldable pub add_write_key : Txn → Bytes → Txn
add_write_key txn key = record txn { writes = txn.writes ++ key ∷ [] }

unfoldable pub validate : Txn → Bytes → Result Txn
unfolding add_key
validate txn key =
    if not txn.update
    then err read_only_txn
    else if txn.discarded
    then err discarded_txn
    else if is_empty key
    then err empty_key
    else ok (record txn {
      conflict_keys = add_key txn.conflict_keys key;
      writes = txn.writes ++ key ∷ [];
    })

-- `txn.cmd.AddSubCommand(sub)`
unfoldable pub add_sub : Txn → Command → Result Txn
unfolding add_sub_command
add_sub txn sub = add_sub_command txn.cmd (some sub) >>= λ cmd. ok (record txn { cmd = cmd })

-- A call on a transaction that stands as `txn` if it fails.
abbrev pub or_unchanged : Txn → Result Txn → Txn × Result (Unit {0})
or_unchanged txn (ok t) = (t, ok tt)
or_unchanged txn (err e) = (txn, err e)
or_unchanged txn panic = (txn, panic)

abbrev pub and_then :
    Txn × Result (Unit {0}) → (Txn → Txn × Result (Unit {0})) → Txn × Result (Unit {0})
and_then (t, ok _) f = f t
and_then (t, err e) f = (t, err e)
and_then (t, panic) f = (t, panic)
