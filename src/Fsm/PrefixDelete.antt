-- ===== src/Fsm/PrefixDelete.antt =====
-- A transaction of fsm.go that holds a DELETE_BY_PREFIX, for which applyTransaction has no case.
use omashu.Base.{◌≡◌, refl, ◌≢◌, Bool, true, false, ◌||◌}
use omashu.Errors.{ok, >>=-eq-ok}
use omashu.Types.{
  CommandType, transaction, delete_by_prefix, Fields, command, Commands, nil, cons, fields,
}
use omashu.Types.Delta.{Codec}
use omashu.Badger.Api.{BadgerApi, Ctx}
use omashu.Badger.Writes.{new_txn_at}
use omashu.Fsm.{apply_sub_command, apply_sub_commands, sub_command_as, apply_command}

abbrev is_prefix_delete : CommandType → Bool
is_prefix_delete delete_by_prefix = true
is_prefix_delete _ = false

abbrev pub has_prefix_delete : Commands → Bool
has_prefix_delete nil = false
has_prefix_delete (cons cmd cmds) = is_prefix_delete (fields cmd).type || has_prefix_delete cmds

module _ (b : BadgerApi) (codec : Codec) where
  open b use {Db, Tx}

  prefix_delete_fails :
      (type : CommandType) (cmd : Fields) (t u : Tx)
      → sub_command_as b codec type cmd t ≡ ok u
      → is_prefix_delete type ≡ false
  prefix_delete_fails delete_by_prefix cmd t u h = cc
  prefix_delete_fails _ cmd t u h = refl

  sub_commands-no_prefix_delete :
      (cmds : Commands) (t u : Tx)
      → apply_sub_commands b codec cmds t ≡ ok u
      → has_prefix_delete cmds ≡ false
  unfolding apply_sub_commands apply_sub_command
  sub_commands-no_prefix_delete nil t u h = refl
  sub_commands-no_prefix_delete (cons (command cmd subs) cmds) t u h =
      let (t', first, rest) = >>=-eq-ok (sub_command_as b codec cmd.type cmd t) _ h in
      rw (prefix_delete_fails cmd.type cmd t t' first)
        (sub_commands-no_prefix_delete cmds t' u rest)

  -- A TRANSACTION command that holds a DELETE_BY_PREFIX is never applied with success.
  pub prefix_delete_never_applied :
      (ctx : Ctx) (d d' : Db) (cmd : Fields) (subs : Commands)
      → cmd.type ≡ transaction
      → has_prefix_delete subs ≡ true
      → apply_command b codec ctx d (command cmd subs) ≢ ok d'
  unfolding apply_command new_txn_at
  prefix_delete_never_applied ctx d d' cmd subs kind holds e =
      let (u, applied, _) =
        >>=-eq-ok (apply_sub_commands b codec subs (b.new_transaction_at d cmd.read_ts true)) _
          (rw kind at e) in
      cc (holds, sub_commands-no_prefix_delete subs _ u applied)
