-- ===== src/Txn/Tracked/Steps.antt =====
-- Any course of reads and writes of a transaction keeps its keys tracked.
use omashu.Base.{ℕ, ◌≡◌, refl, Bool, Option, none, some, List, [], ◌∷◌, All-map}
use omashu.Base.Bytes.{Bytes}
use omashu.Errors.{Result, ok, err, panic, ◌>>=◌}
use omashu.Types.{
  Command, json, protobuf, new_set_command, new_update_command, new_delete_command,
  new_delete_by_prefix_command, new_incr_by_command, new_decr_by_command, new_transaction_command,
}
use omashu.Types.Delta.{Codec}
use omashu.Badger.Api.{BadgerApi, Ctx}
use omashu.Badger.Reads.{get_at}
use omashu.Txn.State.{
  Txn, validate, new_txn_value, add_read_key, add_write_key, or_unchanged, and_then,
}
use omashu.Txn.Reads.{
  add_read_keys, pair_keys, txn_get, txn_get_by_prefix, txn_get_keys_by_prefix, found_with_txn,
  pairs_with_txn, keys_with_txn,
}
use omashu.Txn.Writes.{
  txn_incr_by, txn_decr_by, txn_set, txn_delete, validate_all, txn_delete_by_prefix, after_keys,
  txn_update_json, txn_update_protobuf, known,
}
use omashu.Txn.Tracked.{
  IsTracked, buffer_key-IsTracked, add_sub-IsTracked, validated-IsTracked, has_key_left, OnKey,
}

and_then_assoc :
    (r : Txn × Result (Unit {0})) (f g : Txn → Txn × Result (Unit {0}))
    → and_then (and_then r f) g ≡ and_then r (λ t. and_then (f t) g)
and_then_assoc (t, ok _) f g = refl
and_then_assoc (t, err e) f g = refl
and_then_assoc (t, panic) f g = refl

OnKey-bind :
    {A : Type 0} (r : Result A) (key : Bytes) (f : A → Result Command)
    → ((a : A) → OnKey key (f a))
    → OnKey key (r >>= f)
OnKey-bind (ok a) key f h = h a
OnKey-bind (err e) key f h = tt
OnKey-bind panic key f h = tt

OnKey-then :
    (r : Result (Unit {0})) (key : Bytes) (sub : Result Command)
    → OnKey key sub
    → OnKey key (r >>= λ _. sub)
OnKey-then r key sub h = OnKey-bind r key (λ _. sub) (λ _. h)

new_txn_value-IsTracked :
    (id cmd_id : Bytes) (ts : ℕ) (update : Bool) → IsTracked ts (new_txn_value id cmd_id ts update)
unfolding new_txn_value new_transaction_command
new_txn_value-IsTracked id cmd_id ts update = (tt, tt, tt, refl, refl, refl, refl)

module _ (b : BadgerApi) (codec : Codec) where
  -- A call that a client makes on a transaction; what it returns besides is left out.
  pub data Op : Type 0 where
    get : b.Db → Result (Unit {0}) → Bytes → Op
    get_by_prefix get_keys_by_prefix : Ctx → b.Db → Bytes → Op
    add_write : Bytes → Op
    incr_by decr_by : Bytes → Bytes → ℕ → Op
    set : Bytes → Bytes → Bytes → List ℕ → Op
    delete : Bytes → Bytes → Op
    delete_by_prefix : Ctx → b.Db → Bytes → Bytes → Op
    update_json : Bytes → Bytes → Option (List (Bytes × codec.Json)) → List ℕ → Op
    update_protobuf : Bytes → Bytes → codec.Message → List ℕ → Op

  abbrev pub perform : Op → Txn → Txn
  perform (get db read_state key) t = (txn_get b db read_state t key).0
  perform (get_by_prefix ctx db prefix) t = (txn_get_by_prefix b ctx db t prefix).0
  perform (get_keys_by_prefix ctx db prefix) t = (txn_get_keys_by_prefix b ctx db t prefix).0
  perform (add_write key) t = add_write_key t key
  perform (incr_by id key delta) t = (txn_incr_by id t key delta).0
  perform (decr_by id key delta) t = (txn_decr_by id t key delta).0
  perform (set id key value ttl) t = (txn_set id t key value ttl).0
  perform (delete id key) t = (txn_delete id t key).0
  perform (delete_by_prefix ctx db id prefix) t = (txn_delete_by_prefix b ctx db id t prefix).0
  perform (update_json id key delta ttl) t = (txn_update_json codec id t key delta ttl).0
  perform (update_protobuf id key delta ttl) t = (txn_update_protobuf codec id t key delta ttl).0

  abbrev pub perform_all : List Op → Txn → Txn
  perform_all [] t = t
  perform_all (op ∷ ops) t = perform_all ops (perform op t)

  add_read_keys-IsTracked :
      {begun_at : ℕ} (ks : List Bytes) (t : Txn)
      → IsTracked begun_at t
      → IsTracked begun_at (add_read_keys t ks)
  unfolding add_read_keys add_read_key
  add_read_keys-IsTracked [] t h = h
  add_read_keys-IsTracked (k ∷ ks) t h = add_read_keys-IsTracked ks (add_read_key t k) h

  get-IsTracked :
      {begun_at : ℕ} (db : b.Db) (read_state : Result (Unit {0})) (t : Txn) (key : Bytes)
      → IsTracked begun_at t
      → IsTracked begun_at (txn_get b db read_state t key).0
  unfolding txn_get add_read_key
  get-IsTracked {begun_at = begun_at} db (ok _) t key h = found (get_at b db key t.read_ts)
    where
      found : (r : Result (Option Bytes)) → IsTracked begun_at (found_with_txn b t key r).0
      found (ok none) = h
      found (ok (some v)) = h
      found (err e) = h
      found panic = h
  get-IsTracked db (err e) t key h = h
  get-IsTracked db panic t key h = h

  pairs-IsTracked :
      {begun_at : ℕ} (t : Txn) (r : Result (List (Bytes × Bytes)))
      → IsTracked begun_at t
      → IsTracked begun_at (pairs_with_txn b t r).0
  pairs-IsTracked t (ok m) h = add_read_keys-IsTracked (pair_keys m) t h
  pairs-IsTracked t (err e) h = h
  pairs-IsTracked t panic h = h

  keys-IsTracked :
      {begun_at : ℕ} (t : Txn) (r : Result (List Bytes))
      → IsTracked begun_at t
      → IsTracked begun_at (keys_with_txn b t r).0
  keys-IsTracked t (ok keys) h = add_read_keys-IsTracked keys t h
  keys-IsTracked t (err e) h = h
  keys-IsTracked t panic h = h

  -- The keys that a DELETE_BY_PREFIX finds are all tracked, and then its sub-command is added.
  validate_all-IsTracked :
      {begun_at : ℕ} (keys : List Bytes) (t : Txn) (f : Txn → Txn × Result (Unit {0}))
      → IsTracked begun_at t
      → ((u : Txn) → IsTracked begun_at u → IsTracked begun_at (f u).0)
      → IsTracked begun_at (and_then (validate_all t keys) f).0
  unfolding validate_all
  validate_all-IsTracked [] t f h go = go t h
  validate_all-IsTracked (k ∷ ks) t f h go =
      rw (and_then_assoc (or_unchanged t (validate t k)) (λ u. validate_all u ks) f)
        (validated-IsTracked t k _ h (λ u tracked _. validate_all-IsTracked ks u f tracked go))

  after_keys-IsTracked :
      {begun_at : ℕ} (id prefix : Bytes) (r : Txn × Result (List Bytes))
      → IsTracked begun_at r.0
      → IsTracked begun_at (after_keys b id prefix r).0
  unfolding new_delete_by_prefix_command
  after_keys-IsTracked id prefix (t, ok keys) h =
      validate_all-IsTracked keys t _ h (λ u tracked. add_sub-IsTracked u _ tracked refl)
  after_keys-IsTracked id prefix (t, err e) h = h
  after_keys-IsTracked id prefix (t, panic) h = h

  pub perform-IsTracked :
      {begun_at : ℕ} (op : Op) (t : Txn) → IsTracked begun_at t → IsTracked begun_at (perform op t)
  unfolding txn_get_by_prefix txn_get_keys_by_prefix txn_incr_by txn_decr_by txn_set txn_delete
      txn_delete_by_prefix txn_update_json txn_update_protobuf add_write_key new_set_command
      new_update_command new_delete_command new_incr_by_command new_decr_by_command
  perform-IsTracked (get db read_state key) t h = get-IsTracked db read_state t key h
  perform-IsTracked (get_by_prefix ctx db prefix) t h = pairs-IsTracked t _ h
  perform-IsTracked (get_keys_by_prefix ctx db prefix) t h = keys-IsTracked t _ h
  perform-IsTracked (add_write key) t (subs, nonempty, written, type, at, same, is_open) = (
    subs,
    nonempty,
    All-map _ _ t.conflict_keys (λ k there. has_key_left t.writes (key ∷ []) k there) written,
    type,
    at,
    same,
    is_open,
  )
  perform-IsTracked (incr_by id key delta) t h =
      buffer_key-IsTracked t key (ok (new_incr_by_command id key delta)) h (λ keys there. there)
  perform-IsTracked (decr_by id key delta) t h =
      buffer_key-IsTracked t key (ok (new_decr_by_command id key delta)) h (λ keys there. there)
  perform-IsTracked (set id key value ttl) t h =
      buffer_key-IsTracked t key (ok (new_set_command id key value ttl)) h (λ keys there. there)
  perform-IsTracked (delete id key) t h =
      buffer_key-IsTracked t key (ok (new_delete_command id key)) h (λ keys there. there)
  perform-IsTracked (delete_by_prefix ctx db id prefix) t h =
      after_keys-IsTracked id prefix _ (keys-IsTracked t _ h)
  perform-IsTracked (update_json id key delta ttl) t h = buffer_key-IsTracked t key _ h (
      OnKey-bind (codec.json_marshal delta) key
        (λ bytes. ok (new_update_command id key bytes json [] ttl)) (λ bytes keys there. there))
  perform-IsTracked (update_protobuf id key delta ttl) t h = buffer_key-IsTracked t key _ h (
      OnKey-bind (codec.proto_marshal delta) key _ (λ bytes.
        OnKey-then (known codec (codec.is_valid_message (codec.message_name delta))) key
          (ok (new_update_command id key bytes protobuf (codec.message_name delta) ttl))
          (λ keys there. there)))

  -- After any reads and writes of a transaction that BeginTxn has returned: the key of every
  -- buffered sub-command that has one is a conflict key, conflict keys are not empty and are
  -- counted among the writes, the buffered command is a TRANSACTION at the read timestamp, which
  -- stays as it was, and the transaction is not discarded.
  pub performed-IsTracked :
      (ops : List Op) (id cmd_id : Bytes) (ts : ℕ) (update : Bool)
      → IsTracked ts (perform_all ops (new_txn_value id cmd_id ts update))
  performed-IsTracked ops id cmd_id ts update = run ops _ begun
    where
      run :
          {begun_at : ℕ} (ops : List Op) (t : Txn)
          → IsTracked begun_at t
          → IsTracked begun_at (perform_all ops t)
      run [] t h = h
      run (op ∷ ops) t h = run ops (perform op t) (perform-IsTracked op t h)

      begun : IsTracked ts (new_txn_value id cmd_id ts update)
      begun = new_txn_value-IsTracked id cmd_id ts update
