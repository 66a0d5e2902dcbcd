-- ===== src/Badger/Writes.antt =====
-- badger.go: DBWriteOps, DBDeleteOps and the transactions they run in. A function that may change the
-- transaction returns it anew.
use omashu.Base.{
  ℕ, ◌+◌, ◌-◌, ◌%◌, ◌^◌, Bool, true, false, Option, none, some, List, [], ◌∷◌, ltb, if◌then◌else◌,
}
use omashu.Base.Bytes.{Bytes, has_prefix}
use omashu.Errors.{key_not_found, Result, ok, err, panic, ◌>>=◌}
use omashu.Types.{first_ttl}
use omashu.Types.Delta.{Codec}
use omashu.Counter.{uint64_to_bytes, bytes_to_uint64}
use omashu.Badger.Api.{BadgerApi, Ctx, is_done, after_poll}
use omashu.Badger.Reads.{map_set, get_with_txn}

-- maps.Copy(dst, src): writing to a nil map is a panic.
unfoldable pub copy_into {ℓ} :
    {V : Type ℓ} → Option (List (Bytes × V)) → List (Bytes × V) → Result (Option (List (Bytes × V)))
unfolding map_set
copy_into dst [] = ok dst
copy_into none ((k, v) ∷ src) = panic
copy_into (some dst) ((k, v) ∷ src) = copy_into (some (map_set k v dst)) src

-- the entries that a range over a map visits; a nil map has none
abbrev pub entries {ℓ} : {V : Type ℓ} → Option (List (Bytes × V)) → List (Bytes × V)
entries none = []
entries (some m) = m

-- The new value of DecrByWithTxn and of IncrByWithTxn, from the stored one if there is one.
unfoldable pub decremented : Option Bytes → ℕ → Result ℕ
unfolding bytes_to_uint64
decremented none delta = ok 0
decremented (some stored) delta =
    bytes_to_uint64 stored >>= λ current. ok (if ltb current delta then 0 else current - delta)

unfoldable pub incremented : Option Bytes → ℕ → Result ℕ
unfolding bytes_to_uint64
incremented none delta = ok delta
incremented (some stored) delta =
    bytes_to_uint64 stored >>= λ current. ok ((current + delta) % 2 ^ 64)

module _ (b : BadgerApi) where
  open b use {
    Db, Tx, Item, new_transaction, new_transaction_at, key_copy, seek, set_entry, delete, after_get,
    after_item, commit, commit_at,
  }

  unfoldable pub set_with_txn : Tx → Bytes → Bytes → List ℕ → Result Tx
  set_with_txn txn key value ttl = set_entry txn key value (first_ttl ttl)

  unfoldable pub decr_by_with_txn : Tx → Bytes → ℕ → Result Tx
  unfolding get_with_txn decremented set_with_txn
  decr_by_with_txn txn key delta = do
    stored ← get_with_txn b txn key
    value ← decremented stored delta
    set_with_txn (after_get txn key) key (uint64_to_bytes value) []

  unfoldable pub incr_by_with_txn : Tx → Bytes → ℕ → Result Tx
  unfolding get_with_txn incremented set_with_txn
  incr_by_with_txn txn key delta = do
    stored ← get_with_txn b txn key
    value ← incremented stored delta
    set_with_txn (after_get txn key) key (uint64_to_bytes value) []

  unfoldable pub delete_with_txn : Tx → Bytes → Result Tx
  delete_with_txn txn key = delete txn key

  abbrev ignore_missing : Tx → Result Tx → Result Tx
  ignore_missing txn (ok t) = ok t
  ignore_missing txn (err key_not_found) = ok txn
  ignore_missing txn (err e) = err e
  ignore_missing txn panic = panic

  abbrev deleted_or_missing : Tx → Bytes → Result Tx
  unfolding delete_with_txn
  deleted_or_missing txn key = ignore_missing txn (delete_with_txn txn key)

  -- The iterator was opened before the deletions, so it goes through what was there then. A context
  -- that is done ends the loop with no error.
  unfoldable pub delete_loop : Ctx → Bytes → List Item → Tx → Result Tx
  unfolding has_prefix delete_with_txn
  delete_loop ctx prefix [] txn = ok txn
  delete_loop ctx prefix (item ∷ items) txn =
      let rest = deleted_or_missing (after_item txn item) (key_copy item) >>= λ t.
      delete_loop (after_poll ctx) prefix items t in
      if has_prefix prefix (key_copy item) then (if is_done ctx then ok txn else rest) else ok txn

  unfoldable pub delete_by_prefix_with_txn : Ctx → Tx → Bytes → Result Tx
  unfolding delete_loop
  delete_by_prefix_with_txn ctx txn prefix = delete_loop ctx prefix (seek txn prefix) txn

  -- NewTransaction: commit if the operations succeed, and discard otherwise.
  unfoldable pub new_txn : Db → (Tx → Result Tx) → Result Db
  new_txn db perform_ops = perform_ops (new_transaction db true) >>= commit db

  unfoldable pub new_txn_at : Db → ℕ → ℕ → (Tx → Result Tx) → Result Db
  new_txn_at db read_ts commit_ts perform_ops =
      perform_ops (new_transaction_at db read_ts true) >>= λ txn. commit_at db txn commit_ts

  -- The operations of the store itself refuse a managed database by a panic.
  abbrev unmanaged : Bool → Result Db → Result Db
  unmanaged true op = panic
  unmanaged false op = op

  unfoldable pub decr_by : Bool → Db → Bytes → ℕ → Result Db
  unfolding decr_by_with_txn new_txn
  decr_by managed db key delta =
      unmanaged managed (new_txn db (λ txn. decr_by_with_txn txn key delta))

  unfoldable pub incr_by : Bool → Db → Bytes → ℕ → Result Db
  unfolding incr_by_with_txn new_txn
  incr_by managed db key delta =
      unmanaged managed (new_txn db (λ txn. incr_by_with_txn txn key delta))

  unfoldable pub set_value : Bool → Db → Bytes → Bytes → List ℕ → Result Db
  unfolding set_with_txn new_txn
  set_value managed db key value ttl =
      unmanaged managed (new_txn db (λ txn. set_with_txn txn key value ttl))

  abbrev missing_is_no_op : Db → Result Db → Result Db
  missing_is_no_op db (ok d) = ok d
  missing_is_no_op db (err key_not_found) = ok db
  missing_is_no_op db (err e) = err e
  missing_is_no_op db panic = panic

  unfoldable pub delete_value : Bool → Db → Bytes → Result Db
  unfolding delete_with_txn new_txn
  delete_value managed db key =
      unmanaged managed (missing_is_no_op db (new_txn db (λ txn. delete_with_txn txn key)))

  unfoldable pub delete_by_prefix : Ctx → Bool → Db → Bytes → Result Db
  unfolding delete_by_prefix_with_txn new_txn
  delete_by_prefix ctx managed db prefix =
      unmanaged managed (new_txn db (λ txn. delete_by_prefix_with_txn ctx txn prefix))

module _ (b : BadgerApi) (codec : Codec) where
  open b use {Db, Tx, after_get}
  open codec use {Json, Message, json_unmarshal, json_marshal, proto_marshal, merge_proto_delta}

  abbrev pub decode_stored : Option Bytes → Result (Option (List (Bytes × Json)))
  decode_stored none = ok (some [])
  decode_stored (some stored) = json_unmarshal stored

  unfoldable pub update_json_with_txn :
      Tx → Bytes → Option (List (Bytes × Json)) → List ℕ → Result Tx
  unfolding get_with_txn copy_into set_with_txn
  update_json_with_txn txn key delta ttl = do
    stored ← get_with_txn b txn key
    full ← decode_stored stored
    merged ← copy_into full (entries delta)
    bytes ← json_marshal merged
    set_with_txn b (after_get txn key) key bytes ttl

  abbrev pub merge_stored : Option Bytes → Message → Result Bytes
  merge_stored none delta = proto_marshal delta
  merge_stored (some stored) delta = merge_proto_delta stored delta

  unfoldable pub update_protobuf_with_txn : Tx → Bytes → Message → List ℕ → Result Tx
  unfolding get_with_txn set_with_txn
  update_protobuf_with_txn txn key delta ttl = do
    stored ← get_with_txn b txn key
    bytes ← merge_stored stored delta
    set_with_txn b (after_get txn key) key bytes ttl

  unfoldable pub update_json : Bool → Db → Bytes → Option (List (Bytes × Json)) → List ℕ → Result Db
  unfolding update_json_with_txn new_txn
  update_json managed db key delta ttl =
      unmanaged b managed (new_txn b db (λ txn. update_json_with_txn txn key delta ttl))

  unfoldable pub update_protobuf : Bool → Db → Bytes → Message → List ℕ → Result Db
  unfolding update_protobuf_with_txn new_txn
  update_protobuf managed db key delta ttl =
      unmanaged b managed (new_txn b db (λ txn. update_protobuf_with_txn txn key delta ttl))
