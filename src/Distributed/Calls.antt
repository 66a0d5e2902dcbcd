-- ===== src/Distributed/Calls.antt =====
-- distributed.go: the calls of DBReadOps, DBWriteOps and DBDeleteOps. `Call` gathers what a write needs
-- besides its own arguments: whether the node leads, fresh uuids, and what comes from outside.
use omashu.Base.{ℕ, Bool, false, not, Option, none, some, List, if◌then◌else◌}
use omashu.Base.Bytes.{Bytes}
use omashu.Errors.{not_leader, Result, ok, err, ◌>>=◌}
use omashu.Types.{Command}
use omashu.Types.Delta.{Codec}
use omashu.Badger.Api.{BadgerApi, Ctx}
use omashu.Badger.Reads.{get_value, exists}
use omashu.Tso.Marks.{WaterMark}
use omashu.Tso.State.{Tso, Others}
use omashu.Txn.State.{Txn}
use omashu.Txn.Writes.{
  txn_incr_by, txn_decr_by, txn_set, txn_delete, txn_delete_by_prefix, txn_update_json,
  txn_update_protobuf,
}
use omashu.Distributed.Propose.{Propose, propose_txn_sub_command}

pub record Call (w : WaterMark) : Type 0 where
  pub is_leader : Bool
  pub txn_id : Bytes
  pub txn_cmd_id : Bytes
  pub sub_id : Bytes
  pub waited : Bool
  pub others : Others w
  pub meanwhile : Tso w → Tso w
  pub clock : List ℕ
  pub encode : Command → Result Bytes
  pub answer : Option (Result (Unit {0}))

-- waitForReadState: the answers of ReadIndex and of WaitForReadState, the first error of the two.
unfoldable pub wait_for_read_state : Result ℕ → Result ℕ → Result (Unit {0})
wait_for_read_state read_index read_state =
    read_index >>= λ applied_index. read_state >>= λ rs_index. ok tt

module _ (b : BadgerApi) where
  abbrev exists_after : b.Db → Bytes → Result (Unit {0}) → Bool
  exists_after db key (ok _) = exists b db key
  exists_after db key _ = false

  unfoldable pub dist_exists : b.Db → Result (Unit {0}) → Bytes → Bool
  dist_exists db read_state key = exists_after db key read_state

  -- getVal; Get is `get_val db read_state key false`.
  unfoldable pub get_val : b.Db → Result (Unit {0}) → Bytes → Bool → Result (Option Bytes)
  get_val db read_state key skip_linearizable =
      (if skip_linearizable then ok tt else read_state) >>= λ _. get_value b db key

module _ (w : WaterMark) where
  abbrev pub Ended : Type 0
  Ended = Option (Tso w × Option Propose × Result (Unit {0}))

  -- The common shape of the write calls: the leader's guard, then a transaction of one operation.
  abbrev pub single : Call w → Tso w → (Txn → Txn × Result (Unit {0})) → Ended
  single c s op =
      if not c.is_leader
      then some (s, none, err not_leader)
      else propose_txn_sub_command w c.encode c.answer s c.txn_id c.txn_cmd_id c.waited c.others
          c.meanwhile op c.clock

  unfoldable pub dist_decr_by : Call w → Tso w → Bytes → ℕ → Ended
  dist_decr_by c s key delta = single c s (λ t. txn_decr_by c.sub_id t key delta)

  unfoldable pub dist_incr_by : Call w → Tso w → Bytes → ℕ → Ended
  dist_incr_by c s key delta = single c s (λ t. txn_incr_by c.sub_id t key delta)

  unfoldable pub dist_set : Call w → Tso w → Bytes → Bytes → List ℕ → Ended
  dist_set c s key value ttl = single c s (λ t. txn_set c.sub_id t key value ttl)

  unfoldable pub dist_delete : Call w → Tso w → Bytes → Ended
  dist_delete c s key = single c s (λ t. txn_delete c.sub_id t key)

  unfoldable pub dist_delete_by_prefix :
      (b : BadgerApi) → Ctx → b.Db → Call w → Tso w → Bytes → Ended
  dist_delete_by_prefix b ctx db c s prefix =
      single c s (λ t. txn_delete_by_prefix b ctx db c.sub_id t prefix)

  unfoldable pub dist_update_json :
      (codec : Codec) → Call w → Tso w → Bytes → Option (List (Bytes × codec.Json)) → List ℕ → Ended
  dist_update_json codec c s key delta ttl =
      single c s (λ t. txn_update_json codec c.sub_id t key delta ttl)

  abbrev update_if_given :
      (codec : Codec) → Call w → Tso w → Bytes → Option codec.Message → List ℕ → Ended
  update_if_given codec c s key none ttl = some (s, none, ok tt)
  update_if_given codec c s key (some delta) ttl =
      single c s (λ t. txn_update_protobuf codec c.sub_id t key delta ttl)

  -- A nil message is `none`; the leader's guard comes first.
  unfoldable pub dist_update_protobuf :
      (codec : Codec) → Call w → Tso w → Bytes → Option codec.Message → List ℕ → Ended
  dist_update_protobuf codec c s key delta ttl =
      if not c.is_leader
      then some (s, none, err not_leader)
      else update_if_given codec c s key delta ttl
