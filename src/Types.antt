-- ===== src/Types.antt =====
-- types/types.pb.go and types/methods.go: the replicated command, its constructors, and what it refuses.
-- A command is a record of scalar fields with the list of its sub-commands. A fresh uuid is an argument.
pub mod Delta
pub mod Dynamic
use omashu.Base.{ℕ, Bool, true, false, Option, none, some, List, [], ◌∷◌, if◌then◌else◌}
use omashu.Base.Bytes.{Bytes}
use omashu.Errors.{Result, ok, panic}

pub data CommandType : Type 0 where
  unknown set delete decr_by incr_by transaction delete_by_prefix update : CommandType

pub data UpdateDeltaType : Type 0 where
  unknown_delta json protobuf : UpdateDeltaType

pub record UpdateMeta : Type 0 where
  pub update_delta_type : UpdateDeltaType
  pub message_name : Bytes

pub record Fields : Type 0 where
  pub id : Bytes
  pub type : CommandType
  pub key : Bytes
  pub value : Bytes
  pub prefix : Bytes
  pub incr_or_decr_delta : ℕ
  pub ttl : Option ℕ
  pub read_ts : ℕ
  pub commit_ts : ℕ
  pub update_meta : Option UpdateMeta

mutual
  pub data Command : Type 0 where
    command : Fields → Commands → Command

  pub data Commands : Type 0 where
    nil : Commands
    cons : Command → Commands → Commands

abbrev pub fields : Command → Fields
fields (command f subs) = f

abbrev pub sub_commands : Command → Commands
sub_commands (command f subs) = subs

abbrev pub count : Commands → ℕ
count nil = 0
count (cons c cs) = ℕ.suc (count cs)

-- append(c.SubCommands, subCmd)
abbrev pub snoc : Commands → Command → Commands
snoc nil d = cons d nil
snoc (cons c cs) d = cons c (snoc cs d)

-- The zero value of the struct, with its id.
abbrev pub zero_fields : Bytes → CommandType → Fields
zero_fields id type = record {
  id = id;
  type = type;
  key = [];
  value = [];
  prefix = [];
  incr_or_decr_delta = 0;
  ttl = none;
  read_ts = 0;
  commit_ts = 0;
  update_meta = none;
}

-- `if len(ttl) > 0 { c.Ttl = durationpb.New(ttl[0]) }`
abbrev pub first_ttl : List ℕ → Option ℕ
first_ttl [] = none
first_ttl (d ∷ ds) = some d

unfoldable pub new_set_command : Bytes → Bytes → Bytes → List ℕ → Command
new_set_command id key value ttl =
    command (record (zero_fields id set) { key = key; value = value; ttl = first_ttl ttl }) nil

unfoldable pub new_update_command :
    Bytes → Bytes → Bytes → UpdateDeltaType → Bytes → List ℕ → Command
new_update_command id key delta delta_type msg_name ttl =
    command
      (record (zero_fields id update) {
        key = key;
        value = delta;
        ttl = first_ttl ttl;
        update_meta = some (record { update_delta_type = delta_type; message_name = msg_name });
      })
      nil

unfoldable pub new_delete_command : Bytes → Bytes → Command
new_delete_command id key = command (record (zero_fields id delete) { key = key }) nil

unfoldable pub new_delete_by_prefix_command : Bytes → Bytes → Command
new_delete_by_prefix_command id prefix =
    command (record (zero_fields id delete_by_prefix) { prefix = prefix }) nil

unfoldable pub new_incr_by_command : Bytes → Bytes → ℕ → Command
new_incr_by_command id key delta =
    command (record (zero_fields id incr_by) { key = key; incr_or_decr_delta = delta }) nil

unfoldable pub new_decr_by_command : Bytes → Bytes → ℕ → Command
new_decr_by_command id key delta =
    command (record (zero_fields id decr_by) { key = key; incr_or_decr_delta = delta }) nil

unfoldable pub new_transaction_command : Bytes → Command
new_transaction_command id = command (zero_fields id transaction) nil

abbrev pub is_transaction : CommandType → Bool
is_transaction transaction = true
is_transaction _ = false

-- A nil pointer is `none`; the panic is the code's own.
unfoldable pub add_sub_command : Command → Option Command → Result Command
add_sub_command c none = panic
add_sub_command (command f subs) (some sub) =
    if is_transaction (fields sub).type then panic else ok (command f (snoc subs sub))
