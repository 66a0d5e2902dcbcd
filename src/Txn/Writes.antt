-- ===== src/Txn/Writes.antt =====
-- txn.go: the operations that buffer a sub-command. The fresh uuid of a command is an argument.
use omashu.Base.{ℕ, Bool, true, false, Option, List, [], ◌∷◌}
use omashu.Base.Bytes.{Bytes}
use omashu.Errors.{unknown_proto_msg, Result, ok, err, panic, ◌>>=◌}
use omashu.Types.{
  Command, json, protobuf, new_set_command, new_update_command, new_delete_command,
  new_delete_by_prefix_command, new_incr_by_command, new_decr_by_command,
}
use omashu.Types.Delta.{Codec}
use omashu.Badger.Api.{BadgerApi, Ctx}
use omashu.Txn.State.{Txn, validate, add_sub, or_unchanged, and_then}
use omashu.Txn.Reads.{txn_get_keys_by_prefix}

-- The common course of an operation on one key: a failure after `validate` keeps what it recorded.
abbrev pub buffer_key : Txn → Bytes → Result Command → Txn × Result (Unit {0})
buffer_key txn key sub =
    and_then (or_unchanged txn (validate txn key)) (λ t. or_unchanged t (sub >>= λ c. add_sub t c))

unfoldable pub txn_incr_by : Bytes → Txn → Bytes → ℕ → Txn × Result (Unit {0})
txn_incr_by id txn key delta = buffer_key txn key (ok (new_incr_by_command id key delta))

unfoldable pub txn_decr_by : Bytes → Txn → Bytes → ℕ → Txn × Result (Unit {0})
txn_decr_by id txn key delta = buffer_key txn key (ok (new_decr_by_command id key delta))

unfoldable pub txn_set : Bytes → Txn → Bytes → Bytes → List ℕ → Txn × Result (Unit {0})
txn_set id txn key value ttl = buffer_key txn key (ok (new_set_command id key value ttl))

unfoldable pub txn_delete : Bytes → Txn → Bytes → Txn × Result (Unit {0})
txn_delete id txn key = buffer_key txn key (ok (new_delete_command id key))

unfoldable pub validate_all : Txn → List Bytes → Txn × Result (Unit {0})
validate_all txn [] = (txn, ok tt)
validate_all txn (key ∷ keys) =
    and_then (or_unchanged txn (validate txn key)) (λ t. validate_all t keys)

module _ (b : BadgerApi) where
  open b use {Db}

  abbrev pub after_keys : Bytes → Bytes → Txn × Result (List Bytes) → Txn × Result (Unit {0})
  after_keys id prefix (t, ok keys) =
      and_then (validate_all t keys)
        (λ u. or_unchanged u (add_sub u (new_delete_by_prefix_command id prefix)))
  after_keys id prefix (t, err e) = (t, err e)
  after_keys id prefix (t, panic) = (t, panic)

  unfoldable pub txn_delete_by_prefix : Ctx → Db → Bytes → Txn → Bytes → Txn × Result (Unit {0})
  txn_delete_by_prefix ctx db id txn prefix =
      after_keys id prefix (txn_get_keys_by_prefix b ctx db txn prefix)

module _ (codec : Codec) where
  open codec use {Json, Message, json_marshal, proto_marshal, is_valid_message, message_name}

  unfoldable pub txn_update_json :
      Bytes → Txn → Bytes → Option (List (Bytes × Json)) → List ℕ → Txn × Result (Unit {0})
  txn_update_json id txn key delta ttl =
      buffer_key txn key
        (json_marshal delta >>= λ bytes. ok (new_update_command id key bytes json [] ttl))

  abbrev pub known : Result Bool → Result (Unit {0})
  known (ok true) = ok tt
  known (ok false) = err unknown_proto_msg
  known (err e) = err unknown_proto_msg
  known panic = panic

  unfoldable pub txn_update_protobuf :
      Bytes → Txn → Bytes → Message → List ℕ → Txn × Result (Unit {0})
  txn_update_protobuf id txn key delta ttl = buffer_key txn key (
      proto_marshal delta >>= λ bytes. known (is_valid_message (message_name delta)) >>= λ _.
      ok (new_update_command id key bytes protobuf (message_name delta) ttl))
