-- ===== src/Fsm/Spec.antt =====
-- What a sub-command means as a change of a view, and that the store's operations implement it.
use omashu.Base.{refl, subst, Option, none, some}
use omashu.Base.Bytes.{Bytes}
use omashu.Errors.{unknown_op, Result, ok, err, panic, ◌>>=◌}
use omashu.Types.{
  CommandType, set, delete, decr_by, incr_by, update, UpdateDeltaType, unknown_delta, json,
  protobuf, UpdateMeta, Fields, command, Commands, nil, cons, fields,
}
use omashu.Types.Delta.{Codec}
use omashu.Badger.Api.{BadgerApi}
use omashu.Badger.Writes.{
  copy_into, entries, decode_stored, merge_stored, update_json_with_txn, update_protobuf_with_txn,
}
use omashu.Badger.Laws.{
  View, StoreLaws, Refines, Refines-bind, get_with_txn-view, spec_set, spec_delete, spec_incr,
  spec_decr, set_with_txn-Refines, set_after_get-Refines, Refines-from, delete_with_txn-Refines,
  incr_by_with_txn-Refines, decr_by_with_txn-Refines,
}
use omashu.Fsm.{
  get_ttl, Delta, json_delta, proto_delta, unmarshal_update_delta, apply_delta, apply_update,
  apply_sub_command, apply_sub_commands, by_delta_type, sub_command_as,
}

module _ (b : BadgerApi) (codec : Codec) where
  open codec use {json_marshal}

  -- A delta is merged into what is stored, and stored in its place.
  abbrev pub spec_delta : View → Bytes → Delta codec → Result View
  spec_delta v key (json_delta m) = do
    full ← decode_stored b codec (v key)
    merged ← copy_into full (entries m)
    bytes ← json_marshal merged
    spec_set v key bytes
  spec_delta v key (proto_delta msg) = do
    bytes ← merge_stored b codec (v key) msg
    spec_set v key bytes

  abbrev pub spec_by_type : Option UpdateMeta → Result View → Result View
  spec_by_type none op = panic
  spec_by_type (some meta) op = elim meta.update_delta_type [
    | unknown_delta ↦ err unknown_op
    | json ↦ op
    | protobuf ↦ op
  ]

  abbrev pub spec_sub_command : CommandType → Fields → View → Result View
  spec_sub_command set cmd v = spec_set v cmd.key cmd.value
  spec_sub_command update cmd v =
      spec_by_type cmd.update_meta (unmarshal_update_delta codec cmd >>= spec_delta v cmd.key)
  spec_sub_command delete cmd v = spec_delete v cmd.key
  spec_sub_command incr_by cmd v = spec_incr v cmd.key cmd.incr_or_decr_delta
  spec_sub_command decr_by cmd v = spec_decr v cmd.key cmd.incr_or_decr_delta
  spec_sub_command _ cmd v = err unknown_op

  abbrev pub spec_sub_commands : Commands → View → Result View
  spec_sub_commands nil v = ok v
  spec_sub_commands (cons cmd cmds) v =
      spec_sub_command (fields cmd).type (fields cmd) v >>= λ u. spec_sub_commands cmds u

module _ (b : BadgerApi) (laws : StoreLaws b) (codec : Codec) where
  open laws use {view}
  open codec use {json_marshal}

  apply_delta-Refines :
      (cmd : Fields) (t : b.Tx) (d : Delta codec)
      → Refines b laws t (apply_delta b codec cmd t d) (spec_delta b codec (view t) cmd.key d)
  unfolding apply_delta update_json_with_txn update_protobuf_with_txn
  apply_delta-Refines cmd t (json_delta m) = rw (get_with_txn-view b laws t cmd.key) (
      Refines-bind b laws t (decode_stored b codec (view t cmd.key)) _ _ (λ full.
        Refines-bind b laws t (copy_into full (entries m)) _ _ (λ merged.
          Refines-bind b laws t (json_marshal merged) _ _
            (λ bytes. set_after_get-Refines b laws t cmd.key bytes (get_ttl cmd)))))
  apply_delta-Refines cmd t (proto_delta msg) = rw (get_with_txn-view b laws t cmd.key) (
      Refines-bind b laws t (merge_stored b codec (view t cmd.key) msg) _ _
        (λ bytes. set_after_get-Refines b laws t cmd.key bytes (get_ttl cmd)))

  apply_update-Refines :
      (cmd : Fields) (t : b.Tx)
      → Refines b laws t (apply_update b codec cmd t) (spec_sub_command b codec update cmd (view t))
  unfolding apply_update
  apply_update-Refines cmd t = by_meta cmd.update_meta
    where
      op :
          Refines b laws t
            (unmarshal_update_delta codec cmd >>= apply_delta b codec cmd t)
            (unmarshal_update_delta codec cmd >>= spec_delta b codec (view t) cmd.key)
      op = Refines-bind b laws t (unmarshal_update_delta codec cmd) _ _ (apply_delta-Refines cmd t)

      by_type :
          (d : UpdateDeltaType) (name : Bytes)
          → Refines b laws t
              (by_delta_type b codec
                (some (record { update_delta_type = d; message_name = name }))
                (unmarshal_update_delta codec cmd >>= apply_delta b codec cmd t))
              (spec_by_type b codec
                (some (record { update_delta_type = d; message_name = name }))
                (unmarshal_update_delta codec cmd >>= spec_delta b codec (view t) cmd.key))
      by_type unknown_delta name = refl
      by_type json name = op
      by_type protobuf name = op

      by_meta :
          (o : Option UpdateMeta)
          → Refines b laws t
              (by_delta_type b codec o
                (unmarshal_update_delta codec cmd >>= apply_delta b codec cmd t))
              (spec_by_type b codec o
                (unmarshal_update_delta codec cmd >>= spec_delta b codec (view t) cmd.key))
      by_meta none = tt
      by_meta (some meta) = by_type meta.update_delta_type meta.message_name

  pub sub_command-Refines :
      (type : CommandType) (cmd : Fields) (t : b.Tx)
      → Refines b laws t
          (sub_command_as b codec type cmd t)
          (spec_sub_command b codec type cmd (view t))
  sub_command-Refines set cmd t = set_with_txn-Refines b laws t cmd.key cmd.value (get_ttl cmd)
  sub_command-Refines update cmd t = apply_update-Refines cmd t
  sub_command-Refines delete cmd t = delete_with_txn-Refines b laws t cmd.key
  sub_command-Refines incr_by cmd t =
      incr_by_with_txn-Refines b laws t cmd.key cmd.incr_or_decr_delta
  sub_command-Refines decr_by cmd t =
      decr_by_with_txn-Refines b laws t cmd.key cmd.incr_or_decr_delta
  sub_command-Refines _ cmd t = refl

  Refines-then :
      (t : b.Tx) (r : Result b.Tx) (s : Result View) (f : b.Tx → Result b.Tx)
      (g : View → Result View)
      → Refines b laws t r s
      → ((u : b.Tx) → Refines b laws u (f u) (g (view u)))
      → Refines b laws t (r >>= f) (s >>= g)
  Refines-then t (ok u) (ok v) f g h k =
      subst (λ x. Refines b laws t (f u) (g x)) h.0 (Refines-from b laws u t (f u) _ h.1 (k u))
  Refines-then t (err e) (err e') f g h k = h
  Refines-then t panic panic f g h k = tt
  Refines-then t (ok u) (err e) f g h k = absurd h
  Refines-then t (ok u) panic f g h k = absurd h
  Refines-then t (err e) (ok v) f g h k = absurd h
  Refines-then t (err e) panic f g h k = absurd h
  Refines-then t panic (ok v) f g h k = absurd h
  Refines-then t panic (err e) f g h k = absurd h

  -- On a database that has the laws of BadgerDB, a batch of sub-commands changes what a transaction
  -- sees as is specified for them, one after the other, or ends in the error or panic that is
  -- specified.
  pub sub_commands-Refines :
      (cmds : Commands) (t : b.Tx)
      → Refines b laws t
          (apply_sub_commands b codec cmds t)
          (spec_sub_commands b codec cmds (view t))
  unfolding apply_sub_commands apply_sub_command
  sub_commands-Refines nil t = (refl, refl)
  sub_commands-Refines (cons (command cmd subs) cmds) t =
      Refines-then t _ _ _ _ (sub_command-Refines cmd.type cmd t) (λ u. sub_commands-Refines cmds u)
