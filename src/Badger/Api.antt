-- ===== src/Badger/Api.antt =====
-- What the code uses of BadgerDB, as an interface of operations, and its `Ctx`: how many more polls
-- find the context live (`none` for ever).
use omashu.Base.{ℕ, zero, suc, Bool, true, false, Option, none, some, List}
use omashu.Base.Bytes.{Bytes}
use omashu.Errors.{Result}

pub record BadgerApi : Type 1 where
  pub Db : Type 0
  pub Tx : Type 0
  pub Item : Type 0
  -- DB.NewTransaction(update), DB.NewTransactionAt(readTs, update), and the transaction of DB.View
  pub new_transaction : Db → Bool → Tx
  pub new_transaction_at : Db → ℕ → Bool → Tx
  pub view_transaction : Db → Tx
  pub get : Tx → Bytes → Result Item
  -- the transaction after a Get of a key, and after a step of an iterator: one that may write notes
  -- what it has read, for the conflict test of CommitAt
  pub after_get : Tx → Bytes → Tx
  pub after_item : Tx → Item → Tx
  pub value_copy : Item → Result Bytes
  pub key_copy : Item → Bytes
  -- an iterator after Seek: the items that Next goes through
  pub seek : Tx → Bytes → List Item
  -- SetEntry of NewEntry(key, value), with the TTL if there is one
  pub set_entry : Tx → Bytes → Bytes → Option ℕ → Result Tx
  pub delete : Tx → Bytes → Result Tx
  pub commit : Db → Tx → Result Db
  pub commit_at : Db → Tx → ℕ → Result Db
  -- DB.Backup(w, since), DB.DropAll, DB.Load
  pub backup : Db → ℕ → Result (ℕ × Bytes)
  pub drop_all : Db → Result Db
  pub load : Db → Bytes → ℕ → Result Db

abbrev pub Ctx : Type 0
Ctx = Option ℕ

abbrev pub background : Ctx
background = none

-- `case <-ctx.Done()` of a poll
abbrev pub is_done : Ctx → Bool
is_done none = false
is_done (some zero) = true
is_done (some (suc n)) = false

abbrev pub after_poll : Ctx → Ctx
after_poll none = none
after_poll (some zero) = some zero
after_poll (some (suc n)) = some n
