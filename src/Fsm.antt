-- ===== src/Fsm.antt =====
-- fsm.go: applying a committed command to the store, with UnmarshalUpdateDelta of types/methods.go.
-- A snapshot is replication.go's.
pub mod Footprint
pub mod Spec
pub mod Agree
pub mod Commit
pub mod Batch
pub mod PrefixDelete
pub mod Log
pub mod Overtaken
use omashu.Base.{ℕ, ◌≡◌, refl, Option, none, some, List, [], ◌∷◌}
use omashu.Base.Bytes.{Bytes}
use omashu.Errors.{Error, unknown_op, other, Result, ok, err, panic, ◌>>=◌}
use omashu.Types.{
  CommandType, unknown, set, delete, decr_by, incr_by, transaction, delete_by_prefix, update,
  UpdateDeltaType, unknown_delta, json, protobuf, UpdateMeta, Fields, Command, command, Commands,
  nil, cons, fields,
}
use omashu.Types.Delta.{Codec}
use omashu.Badger.Api.{BadgerApi, Ctx}
use omashu.Badger.Writes.{
  set_with_txn, delete_with_txn, delete_by_prefix_with_txn, incr_by_with_txn, decr_by_with_txn,
  update_json_with_txn, update_protobuf_with_txn, new_txn_at,
}

-- errors.New("invalid update command")
abbrev pub invalid_update_command : Error
invalid_update_command = other 1

abbrev ttl_list : Option ℕ → List ℕ
ttl_list none = []
ttl_list (some d) = d ∷ []

unfoldable pub get_ttl : Fields → List ℕ
get_ttl cmd = ttl_list cmd.ttl

module _ (codec : Codec) where
  open codec use {Json, Message, json_unmarshal, new_message, proto_unmarshal}

  pub data Delta : Type 0 where
    json_delta : Option (List (Bytes × Json)) → Delta
    proto_delta : Message → Delta

  abbrev unmarshal_as : UpdateMeta → Bytes → UpdateDeltaType → Result Delta
  unmarshal_as meta value unknown_delta = err invalid_update_command
  unmarshal_as meta value json = json_unmarshal value >>= λ m. ok (json_delta m)
  unmarshal_as meta value protobuf = new_message meta.message_name >>= λ empty.
      proto_unmarshal value empty >>= λ msg. ok (proto_delta msg)

  abbrev unmarshal_meta : CommandType → Option UpdateMeta → Bytes → Result Delta
  unmarshal_meta update (some meta) value = unmarshal_as meta value meta.update_delta_type
  unmarshal_meta update none value = err invalid_update_command
  unmarshal_meta _ _ value = err invalid_update_command

  unfoldable pub unmarshal_update_delta : Fields → Result Delta
  unmarshal_update_delta cmd = unmarshal_meta cmd.type cmd.update_meta cmd.value

module _ (b : BadgerApi) (codec : Codec) where
  open b use {Db, Tx, drop_all, load, backup}

  -- The type assertions `v.(proto.Message)` and `v.(map[string]any)` follow the delta type.
  unfoldable pub apply_delta : Fields → Tx → Delta codec → Result Tx
  unfolding get_ttl
  apply_delta cmd txn (json_delta m) = update_json_with_txn b codec txn cmd.key m (get_ttl cmd)
  apply_delta cmd txn (proto_delta msg) =
      update_protobuf_with_txn b codec txn cmd.key msg (get_ttl cmd)

  abbrev pub by_delta_type : Option UpdateMeta → Result Tx → Result Tx
  by_delta_type none op = panic
  by_delta_type (some meta) op = elim meta.update_delta_type [
    | unknown_delta ↦ err unknown_op
    | json ↦ op
    | protobuf ↦ op
  ]

  -- The update of applyUpdate and of applyTransaction: the delta type is read through a pointer.
  unfoldable pub apply_update : Fields → Tx → Result Tx
  unfolding unmarshal_update_delta apply_delta
  apply_update cmd txn =
      by_delta_type cmd.update_meta (unmarshal_update_delta codec cmd >>= apply_delta cmd txn)

  abbrev pub sub_command_as : CommandType → Fields → Tx → Result Tx
  sub_command_as set cmd txn = set_with_txn b txn cmd.key cmd.value (get_ttl cmd)
  sub_command_as update cmd txn = apply_update cmd txn
  sub_command_as delete cmd txn = delete_with_txn b txn cmd.key
  sub_command_as incr_by cmd txn = incr_by_with_txn b txn cmd.key cmd.incr_or_decr_delta
  sub_command_as decr_by cmd txn = decr_by_with_txn b txn cmd.key cmd.incr_or_decr_delta
  sub_command_as _ cmd txn = err unknown_op

  -- One turn of the loop of applyTransaction.
  unfoldable pub apply_sub_command : Command → Tx → Result Tx
  apply_sub_command cmd txn = sub_command_as (fields cmd).type (fields cmd) txn

  unfoldable pub apply_sub_commands : Commands → Tx → Result Tx
  apply_sub_commands nil txn = ok txn
  apply_sub_commands (cons cmd cmds) txn =
      apply_sub_command cmd txn >>= λ t. apply_sub_commands cmds t

  abbrev pub op_as : CommandType → Ctx → Fields → Commands → Option (Tx → Result Tx)
  op_as set ctx cmd subs = some (λ txn. set_with_txn b txn cmd.key cmd.value (get_ttl cmd))
  op_as update ctx cmd subs = some (apply_update cmd)
  op_as delete ctx cmd subs = some (λ txn. delete_with_txn b txn cmd.key)
  op_as delete_by_prefix ctx cmd subs = some (λ txn. delete_by_prefix_with_txn b ctx txn cmd.prefix)
  op_as incr_by ctx cmd subs = some (λ txn. incr_by_with_txn b txn cmd.key cmd.incr_or_decr_delta)
  op_as decr_by ctx cmd subs = some (λ txn. decr_by_with_txn b txn cmd.key cmd.incr_or_decr_delta)
  op_as transaction ctx cmd subs = some (apply_sub_commands subs)
  op_as unknown ctx cmd subs = none

  abbrev pub run_op : Db → Fields → Option (Tx → Result Tx) → Result Db
  run_op db cmd none = err unknown_op
  run_op db cmd (some op) = new_txn_at b db cmd.read_ts cmd.commit_ts op

  -- applySet to applyTransaction, by the switch of Apply on the command's type.
  unfoldable pub apply_command : Ctx → Db → Command → Result Db
  apply_command ctx db (command cmd subs) = run_op db cmd (op_as cmd.type ctx cmd subs)

  -- FSM.Apply, where `decode` is types.DecodeCommand, proto.Unmarshal into a command.
  unfoldable pub apply : (Bytes → Result Command) → Ctx → Db → Bytes → Result Db
  unfolding apply_command
  apply decode ctx db bytes = decode bytes >>= apply_command ctx db

  abbrev pub max_restore_pending_txns : ℕ
  max_restore_pending_txns = 256

  -- replication.go
  unfoldable pub restore : Db → Bytes → Result Db
  restore db snapshot = drop_all db >>= λ empty. load empty snapshot max_restore_pending_txns

  unfoldable pub take_snapshot : Db → Result (ℕ × Bytes)
  take_snapshot db = backup db 0
