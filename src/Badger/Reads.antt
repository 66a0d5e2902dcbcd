-- ===== src/Badger/Reads.antt =====
-- badger.go: DBReadOps. Each `View` runs in a transaction of its own, and a Go map is a list of pairs
-- with one entry for each key.
use omashu.Base.{
  ℕ, ◌+◌, Bool, true, false, Option, none, some, List, [], ◌∷◌, ◌++◌, leb, ltb, if◌then◌else◌,
}
use omashu.Base.Bytes.{Bytes, bytes_eq, has_prefix}
use omashu.Errors.{key_not_found, cancelled, Result, ok, err, panic, ◌>>=◌}
use omashu.Badger.Api.{BadgerApi, Ctx, is_done, after_poll}

-- `m[k] = v`
unfoldable pub map_set {ℓ} : {V : Type ℓ} → Bytes → V → List (Bytes × V) → List (Bytes × V)
unfolding bytes_eq
map_set k v [] = (k, v) ∷ []
map_set k v ((j, u) ∷ m) =
    let rest = map_set k v m in if bytes_eq j k then (k, v) ∷ m else (j, u) ∷ rest

-- `v, ok := m[k]`
unfoldable pub map_get {ℓ} : {V : Type ℓ} → Bytes → List (Bytes × V) → Option V
unfolding bytes_eq
map_get k [] = none
map_get k ((j, u) ∷ m) = let rest = map_get k m in if bytes_eq j k then some u else rest

abbrev pub is_limit : Option ℕ → ℕ → Bool
is_limit none n = false
is_limit (some limit) n = leb limit n

-- the outcome of the error test `errors.Is(err, badger.ErrKeyNotFound)`
abbrev pub or_missing {ℓ} : {A : Type ℓ} → Result (Option A) → Result (Option A)
or_missing (ok a) = ok a
or_missing (err key_not_found) = ok none
or_missing (err e) = err e
or_missing panic = panic

abbrev pub or_else {ℓ} : {A : Type ℓ} → A → Result A → A
or_else d (ok a) = a
or_else d _ = d

abbrev pub is_ok {ℓ} : {A : Type ℓ} → Result A → Bool
is_ok (ok a) = true
is_ok _ = false

abbrev pub set_if_found : Bytes → Option Bytes → List (Bytes × Bytes) → List (Bytes × Bytes)
set_if_found key none result = result
set_if_found key (some value) result = map_set key value result

-- the test behind the loop
abbrev pub last_cursor : Option ℕ → Bytes × ℕ → Bytes
last_cursor none (cursor, iter_num) = cursor
last_cursor (some limit) (cursor, iter_num) = if ltb iter_num limit then [] else cursor

abbrev pub start_prefix : Bytes → Bytes → Bytes
start_prefix prefix [] = prefix
start_prefix prefix (c ∷ cs) = c ∷ cs

module _ (b : BadgerApi) where
  open b use {Db, Tx, Item, view_transaction, new_transaction_at, get, value_copy, key_copy, seek}

  -- One loop of `for it.Seek(p); it.ValidForPrefix(p); it.Next()` that counts.
  unfoldable pub count_loop : Ctx → Bytes → List Item → ℕ → Result ℕ
  unfolding has_prefix
  count_loop ctx prefix [] count = ok count
  count_loop ctx prefix (item ∷ items) count =
      let rest = count_loop (after_poll ctx) prefix items (count + 1) in
      if has_prefix prefix (key_copy item)
      then (if is_done ctx then err cancelled else rest)
      else ok count

  unfoldable pub count : Ctx → Db → Bytes → ℕ
  unfolding count_loop
  count ctx db prefix = or_else 0 (count_loop ctx prefix (seek (view_transaction db) prefix) 0)

  unfoldable pub exists : Db → Bytes → Bool
  exists db key = is_ok (get (view_transaction db) key)

  abbrev pub first_has_prefix : Bytes → List Item → Bool
  first_has_prefix prefix [] = false
  first_has_prefix prefix (item ∷ items) = has_prefix prefix (key_copy item)

  unfoldable pub has_child : Db → Bytes → Bool
  unfolding has_prefix
  has_child db prefix = first_has_prefix prefix (seek (view_transaction db) prefix)

  abbrev pub copy_value : Result Item → Result (Option Bytes)
  copy_value (ok item) = value_copy item >>= λ value. ok (some value)
  copy_value (err e) = or_missing (err e)
  copy_value panic = panic

  -- GetWithTxn: `none` for a missing key.
  unfoldable pub get_with_txn : Tx → Bytes → Result (Option Bytes)
  get_with_txn txn key = copy_value (get txn key)

  unfoldable pub get_value : Db → Bytes → Result (Option Bytes)
  unfolding get_with_txn
  get_value db key = get_with_txn (view_transaction db) key

  unfoldable pub by_prefix_loop :
      Ctx → Bytes → List Item → List (Bytes × Bytes) → Result (List (Bytes × Bytes))
  unfolding has_prefix map_set
  by_prefix_loop ctx prefix [] result = ok result
  by_prefix_loop ctx prefix (item ∷ items) result =
      let rest = value_copy item >>= λ v.
      by_prefix_loop (after_poll ctx) prefix items (map_set (key_copy item) v result) in
      if has_prefix prefix (key_copy item)
      then (if is_done ctx then err cancelled else rest)
      else ok result

  unfoldable pub get_by_prefix_with_txn : Ctx → Tx → Bytes → Result (List (Bytes × Bytes))
  unfolding by_prefix_loop
  get_by_prefix_with_txn ctx txn prefix = by_prefix_loop ctx prefix (seek txn prefix) []

  unfoldable pub get_by_prefix : Ctx → Db → Bytes → Result (List (Bytes × Bytes))
  unfolding get_by_prefix_with_txn
  get_by_prefix ctx db prefix = get_by_prefix_with_txn ctx (view_transaction db) prefix

  unfoldable pub keys_loop : Ctx → Bytes → List Item → List Bytes → Result (List Bytes)
  unfolding has_prefix
  keys_loop ctx prefix [] keys = ok keys
  keys_loop ctx prefix (item ∷ items) keys =
      let rest = keys_loop (after_poll ctx) prefix items (keys ++ key_copy item ∷ []) in
      if has_prefix prefix (key_copy item)
      then (if is_done ctx then err cancelled else rest)
      else ok keys

  unfoldable pub get_keys_by_prefix_with_txn : Ctx → Tx → Bytes → Result (List Bytes)
  unfolding keys_loop
  get_keys_by_prefix_with_txn ctx txn prefix = keys_loop ctx prefix (seek txn prefix) []

  unfoldable pub get_keys_by_prefix : Ctx → Db → Bytes → Result (List Bytes)
  unfolding get_keys_by_prefix_with_txn
  get_keys_by_prefix ctx db prefix = get_keys_by_prefix_with_txn ctx (view_transaction db) prefix

  unfoldable pub bulk_loop :
      Ctx → Tx → List Bytes → List (Bytes × Bytes) → Result (List (Bytes × Bytes))
  unfolding get_with_txn map_set
  bulk_loop ctx txn [] result = ok result
  bulk_loop ctx txn (key ∷ keys) result =
      let rest = get_with_txn txn key >>= λ found.
      bulk_loop (after_poll ctx) txn keys (set_if_found key found result) in
      if is_done ctx then err cancelled else rest

  unfoldable pub bulk_get : Ctx → Db → List Bytes → Result (List (Bytes × Bytes))
  unfolding bulk_loop
  bulk_get ctx db keys = bulk_loop ctx (view_transaction db) keys []

  -- The loop of IterateByPrefix: the cursor and the count that it ends with, or its error, and the
  -- pairs that it hands to `process`. The prefix that is tested is the argument `valid` at the first
  -- item, and `prefix` from then on.
  unfoldable pub iterate_loop :
      Ctx
      → Bytes
      → Bytes
      → Option ℕ
      → (Bytes → Bytes → Bool)
      → List Item
      → ℕ
      → Result (Bytes × ℕ) × List (Bytes × Bytes)
  unfolding has_prefix
  iterate_loop ctx valid prefix limit process [] iter_num = (ok ([], iter_num), [])
  iterate_loop ctx valid prefix limit process (item ∷ items) iter_num =
      let k = key_copy item in
      let visit : Result (Bytes × ℕ) × List (Bytes × Bytes) = elim (value_copy item) [
        | ok v ↦
            let rest =
              iterate_loop (after_poll ctx) prefix prefix limit process items
                (if process k v then iter_num + 1 else iter_num) in
            (rest.0, (k, v) ∷ rest.1)
        | err e ↦ (err e, [])
        | panic ↦ (panic, [])
      ] in
      if has_prefix valid k
      then (if is_done ctx
          then (err cancelled, [])
          else if is_limit limit iter_num
          then (ok (k, iter_num), [])
          else visit)
      else (ok ([], iter_num), [])

  unfoldable pub iterate_by_prefix :
      Ctx
      → Tx
      → Bytes
      → Bytes
      → Option ℕ
      → (Bytes → Bytes → Bool)
      → Result Bytes × List (Bytes × Bytes)
  unfolding iterate_loop
  iterate_by_prefix ctx txn prefix start_cursor limit process =
      let p = start_prefix prefix start_cursor in
      let (end, visited) = iterate_loop ctx p prefix limit process (seek txn p) 0 in
      (end >>= λ r. ok (last_cursor limit r), visited)

  -- The reads at a timestamp that the distributed store makes.
  unfoldable pub get_at : Db → Bytes → ℕ → Result (Option Bytes)
  unfolding get_with_txn
  get_at db key read_ts = get_with_txn (new_transaction_at db read_ts false) key

  unfoldable pub get_by_prefix_at : Ctx → Db → Bytes → ℕ → Result (List (Bytes × Bytes))
  unfolding get_by_prefix_with_txn
  get_by_prefix_at ctx db prefix read_ts =
      get_by_prefix_with_txn ctx (new_transaction_at db read_ts false) prefix

  unfoldable pub get_keys_by_prefix_at : Ctx → Db → Bytes → ℕ → Result (List Bytes)
  unfolding get_keys_by_prefix_with_txn
  get_keys_by_prefix_at ctx db prefix read_ts =
      get_keys_by_prefix_with_txn ctx (new_transaction_at db read_ts false) prefix
