-- ===== src/Errors.antt =====
-- errors.go, the errors of BadgerDB that the code names, and Go's way to end a call: a value, an
-- error, or a panic.
use omashu.Base.{ℕ, ◌≡◌, refl}

pub data Error : Type 0 where
  -- errors.go
  missing_raft_conf missing_cluster missing_base_dir missing_schema_config : Error
  not_leader propose_timeout batch_too_big unknown_op unknown_proto_msg : Error
  -- badger
  key_not_found conflict read_only_txn discarded_txn empty_key : Error
  -- raft
  snap_out_of_date compacted : Error
  -- snap.ErrNoSnapshot, and protoregistry.NotFound
  no_snapshot proto_not_found : Error
  -- the context's own error
  cancelled : Error
  -- any other error of a library, or one that the code makes with errors.New or fmt.Errorf
  other : ℕ → Error

pub data Result {ℓ} (Value : Type ℓ) : Type ℓ where
  panic : Result Value
  err : Error → Result Value
  ok : Value → Result Value

-- A step and what comes after it, which an error or a panic passes over.
infixl 5 ◌>>=◌
abbrev pub ◌>>=◌ {ℓ κ} :
    {Value : Type ℓ} {After : Type κ} → Result Value → (Value → Result After) → Result After
panic >>= next = panic
err e >>= next = err e
ok value >>= next = next value

-- `if err != nil { return err }` after a step that succeeded, read backwards.
pub >>=-eq-ok {ℓ κ} :
    {Value : Type ℓ} {After : Type κ} (step : Result Value) (next : Value → Result After)
    {b : After}
    → (step >>= next) ≡ ok b
    → (value : Value) × (step ≡ ok value) × (next value ≡ ok b)
>>=-eq-ok panic next h = cc
>>=-eq-ok (err e) next h = cc
>>=-eq-ok (ok value) next h = (value, refl, h)
