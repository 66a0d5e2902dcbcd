-- ===== src/Txn/Reads.antt =====
-- distributed.go: the reads of a transaction, at its read timestamp. The answer of the linearizable
-- read check, waitForReadState, is an argument.
use omashu.Base.{Option, none, some, List, [], ◌∷◌, map}
use omashu.Base.Bytes.{Bytes}
use omashu.Errors.{Result, ok, err, panic}
use omashu.Badger.Api.{BadgerApi, Ctx}
use omashu.Badger.Reads.{get_at, get_by_prefix_at, get_keys_by_prefix_at}
use omashu.Txn.State.{Txn, add_read_key}

unfoldable pub add_read_keys : Txn → List Bytes → Txn
unfolding add_read_key
add_read_keys txn [] = txn
add_read_keys txn (k ∷ ks) = add_read_keys (add_read_key txn k) ks

abbrev pub pair_keys : List (Bytes × Bytes) → List Bytes
pair_keys m = map (λ p. p.0) m

module _ (b : BadgerApi) where
  open b use {Db}

  abbrev pub found_with_txn : Txn → Bytes → Result (Option Bytes) → Txn × Result (Option Bytes)
  found_with_txn txn key (ok none) = (txn, ok none)
  found_with_txn txn key (ok (some v)) = (add_read_key txn key, ok (some v))
  found_with_txn txn key (err e) = (txn, err e)
  found_with_txn txn key panic = (txn, panic)

  abbrev pub checked_with_txn : Db → Txn → Bytes → Result (Unit {0}) → Txn × Result (Option Bytes)
  checked_with_txn db txn key (ok _) = found_with_txn txn key (get_at b db key txn.read_ts)
  checked_with_txn db txn key (err e) = (txn, err e)
  checked_with_txn db txn key panic = (txn, panic)

  -- GetWithTxn
  unfoldable pub txn_get : Db → Result (Unit {0}) → Txn → Bytes → Txn × Result (Option Bytes)
  txn_get db read_state txn key = checked_with_txn db txn key read_state

  abbrev pub pairs_with_txn :
      Txn → Result (List (Bytes × Bytes)) → Txn × Result (List (Bytes × Bytes))
  pairs_with_txn txn (ok m) = (add_read_keys txn (pair_keys m), ok m)
  pairs_with_txn txn (err e) = (txn, err e)
  pairs_with_txn txn panic = (txn, panic)

  -- GetByPrefixWithTxn
  unfoldable pub txn_get_by_prefix : Ctx → Db → Txn → Bytes → Txn × Result (List (Bytes × Bytes))
  txn_get_by_prefix ctx db txn prefix =
      pairs_with_txn txn (get_by_prefix_at b ctx db prefix txn.read_ts)

  abbrev pub keys_with_txn : Txn → Result (List Bytes) → Txn × Result (List Bytes)
  keys_with_txn txn (ok keys) = (add_read_keys txn keys, ok keys)
  keys_with_txn txn (err e) = (txn, err e)
  keys_with_txn txn panic = (txn, panic)

  -- GetKeysByPrefixWithTxn
  unfoldable pub txn_get_keys_by_prefix : Ctx → Db → Txn → Bytes → Txn × Result (List Bytes)
  txn_get_keys_by_prefix ctx db txn prefix =
      keys_with_txn txn (get_keys_by_prefix_at b ctx db prefix txn.read_ts)
