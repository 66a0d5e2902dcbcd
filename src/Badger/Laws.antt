-- ===== src/Badger/Laws.antt =====
-- What the code relies on of a BadgerDB that works: a transaction is a snapshot with its own writes on
-- top, and a commit makes them visible from its timestamp on. Entries that expire are not modelled.
use omashu.Base.{
  ℕ, ◌≤◌, ◌<◌, ◌≡◌, refl, ◌≢◌, Bool, true, false, not, ◌&&◌, ◌||◌, Option, none, some, List, [],
  ◌∷◌, ltb, if◌then◌else◌, fun_ext, ◌∙◌, subst,
}
use omashu.Base.Bytes.{Bytes, bytes_eq}
use omashu.Errors.{empty_key, key_not_found, conflict, Result, ok, err, panic, ◌>>=◌}
use omashu.Types.{first_ttl}
use omashu.Counter.{uint64_to_bytes}
use omashu.Badger.Api.{BadgerApi}
use omashu.Badger.Reads.{get_with_txn}
use omashu.Badger.Writes.{
  set_with_txn, delete_with_txn, incremented, decremented, incr_by_with_txn, decr_by_with_txn,
}

abbrev pub View : Type 0
View = Bytes → Option Bytes

abbrev pub write : View → Bytes → Option Bytes → View
write v k o j = if bytes_eq k j then o else v j

pub record StoreLaws (b : BadgerApi) : Type 1 where
  -- what a transaction sees, and what a read of the database at a timestamp sees
  pub view : b.Tx → View
  pub look : b.Db → ℕ → View
  -- the newest commit timestamp, and the read timestamp of a transaction
  pub latest : b.Db → ℕ
  pub opened_at : b.Tx → ℕ
  -- the keys that a transaction has written, and the ones that it has read from its snapshot
  pub wrote : b.Tx → Bytes → Bool
  pub has_read : b.Tx → Bytes → Bool
  -- whether a commit later than a timestamp has written a key
  pub written_after : b.Db → ℕ → Bytes → Bool
  pub get-none : (t : b.Tx) (k : Bytes) → view t k ≡ none → b.get t k ≡ err key_not_found
  pub get-some :
      (t : b.Tx) (k v : Bytes)
      → view t k ≡ some v
      → (i : b.Item) × (b.get t k ≡ ok i) × (b.value_copy i ≡ ok v)
  pub view-open :
      (d : b.Db) (r : ℕ) (k : Bytes) → view (b.new_transaction_at d r true) k ≡ look d r k
  pub opened_at-open : (d : b.Db) (r : ℕ) → opened_at (b.new_transaction_at d r true) ≡ r
  pub wrote-open : (d : b.Db) (r : ℕ) (k : Bytes) → wrote (b.new_transaction_at d r true) k ≡ false
  pub has_read-open :
      (d : b.Db) (r : ℕ) (k : Bytes) → has_read (b.new_transaction_at d r true) k ≡ false
  pub view-after_get : (t : b.Tx) (k j : Bytes) → view (b.after_get t k) j ≡ view t j
  pub opened_at-after_get : (t : b.Tx) (k : Bytes) → opened_at (b.after_get t k) ≡ opened_at t
  pub wrote-after_get : (t : b.Tx) (k j : Bytes) → wrote (b.after_get t k) j ≡ wrote t j
  pub has_read-after_get :
      (t : b.Tx) (k j : Bytes)
      → has_read (b.after_get t k) j ≡ ((not (wrote t j) && bytes_eq k j) || has_read t j)
  pub set_entry-empty :
      (t : b.Tx) (v : Bytes) (ttl : Option ℕ) → b.set_entry t [] v ttl ≡ err empty_key
  pub set_entry_lem :
      (t : b.Tx) (k v : Bytes) (ttl : Option ℕ)
      → k ≢ []
      → (t' : b.Tx) × (b.set_entry t k v ttl ≡ ok t')
        × ((j : Bytes) → view t' j ≡ write (view t) k (some v) j)
        × (opened_at t' ≡ opened_at t)
        × ((j : Bytes) → wrote t' j ≡ (bytes_eq k j || wrote t j))
        × ((j : Bytes) → has_read t' j ≡ has_read t j)
  pub delete-empty : (t : b.Tx) → b.delete t [] ≡ err empty_key
  pub delete_lem :
      (t : b.Tx) (k : Bytes)
      → k ≢ []
      → (t' : b.Tx) × (b.delete t k ≡ ok t')
        × ((j : Bytes) → view t' j ≡ write (view t) k none j)
        × (opened_at t' ≡ opened_at t)
        × ((j : Bytes) → wrote t' j ≡ (bytes_eq k j || wrote t j))
        × ((j : Bytes) → has_read t' j ≡ has_read t j)
  -- a key that no commit has written later reads the same at later timestamps
  pub look_stable :
      (d : b.Db) (r r' : ℕ) (k : Bytes)
      → r ≤ r'
      → written_after d r k ≡ false
      → look d r' k ≡ look d r k
  pub written_after-latest :
      (d : b.Db) (r : ℕ) (k : Bytes) → latest d ≤ r → written_after d r k ≡ false
  -- a commit above all others, which is refused when the transaction has read a key that was written
  -- after its snapshot
  pub commit_at_lem :
      (d : b.Db) (t : b.Tx) (ts : ℕ)
      → latest d < ts
      → opened_at t < ts
      → ((k : Bytes) → has_read t k ≡ true → written_after d (opened_at t) k ≡ false)
      → (d' : b.Db) × (b.commit_at d t ts ≡ ok d')
        × ((r : ℕ) (k : Bytes)
            → look d' r k
              ≡ (if ltb r ts then look d r k else if wrote t k then view t k else look d r k))
        × (latest d' ≡ ts)
        × ((r : ℕ) (k : Bytes)
            → written_after d' r k ≡ ((ltb r ts && wrote t k) || written_after d r k))
  pub commit_at-conflict :
      (d : b.Db) (t : b.Tx) (ts : ℕ) (k : Bytes)
      → has_read t k ≡ true
      → written_after d (opened_at t) k ≡ true
      → b.commit_at d t ts ≡ err conflict

-- What SetWithTxn and DeleteWithTxn do to a view.
abbrev pub spec_set : View → Bytes → Bytes → Result View
spec_set v [] value = err empty_key
spec_set v (k ∷ ks) value = ok (write v (k ∷ ks) (some value))

abbrev pub spec_delete : View → Bytes → Result View
spec_delete v [] = err empty_key
spec_delete v (k ∷ ks) = ok (write v (k ∷ ks) none)

abbrev pub spec_incr : View → Bytes → ℕ → Result View
spec_incr v key delta =
    incremented (v key) delta >>= λ value. spec_set v key (uint64_to_bytes value)

abbrev pub spec_decr : View → Bytes → ℕ → Result View
spec_decr v key delta =
    decremented (v key) delta >>= λ value. spec_set v key (uint64_to_bytes value)

-- The result of an operation on the transaction `t` against the result that is specified on its view:
-- the same error, or the specified view and the same snapshot.
module _ (b : BadgerApi) (laws : StoreLaws b) where
  open b use {Tx, get, after_get, value_copy, set_entry, delete}
  open laws use {
    view, opened_at, view-after_get, opened_at-after_get, get-none, get-some, set_entry-empty,
    set_entry_lem, delete-empty, delete_lem,
  }

  abbrev pub Refines : Tx → Result Tx → Result View → Type 0
  Refines t (ok t') (ok v) = (view t' ≡ v) × (opened_at t' ≡ opened_at t)
  Refines t (err e) (err e') = e ≡ e'
  Refines t panic panic = Unit
  Refines t _ _ = ⊥

  pub get_with_txn-view : (t : Tx) (k : Bytes) → get_with_txn b t k ≡ ok (view t k)
  unfolding get_with_txn
  get_with_txn-view t k = found (view t k) refl
    where
      found : (o : Option Bytes) → view t k ≡ o → get_with_txn b t k ≡ ok (view t k)
      found none e = rw (get-none t k e, e) refl
      found (some v) e = let (i, got, copied) = get-some t k v e in rw (got, copied, e) refl

  pub set_with_txn-Refines :
      (t : Tx) (key value : Bytes) (ttl : List ℕ)
      → Refines t (set_with_txn b t key value ttl) (spec_set (view t) key value)
  unfolding set_with_txn
  set_with_txn-Refines t [] value ttl = rw (set_entry-empty t value (first_ttl ttl)) refl
  set_with_txn-Refines t (k ∷ ks) value ttl =
      let (t', done, seen, same, _, _) = set_entry_lem t (k ∷ ks) value (first_ttl ttl) (λ e. cc) in
      rw done (fun_ext seen, same)

  pub Refines-from :
      (u t : Tx) (r : Result Tx) (s : Result View)
      → opened_at u ≡ opened_at t
      → Refines u r s
      → Refines t r s
  Refines-from u t (ok u') (ok v) same h = (h.0, h.1 ∙ same)
  Refines-from u t (err e) (err e') same h = h
  Refines-from u t panic panic same h = tt
  Refines-from u t (ok u') (err e) same h = absurd h
  Refines-from u t (ok u') panic same h = absurd h
  Refines-from u t (err e) (ok v) same h = absurd h
  Refines-from u t (err e) panic same h = absurd h
  Refines-from u t panic (ok v) same h = absurd h
  Refines-from u t panic (err e) same h = absurd h

  pub set_after_get-Refines :
      (t : Tx) (key value : Bytes) (ttl : List ℕ)
      → Refines t (set_with_txn b (after_get t key) key value ttl) (spec_set (view t) key value)
  set_after_get-Refines t key value ttl =
      Refines-from (after_get t key) t _ _ (opened_at-after_get t key) (
        subst
          (λ v.
            Refines (after_get t key) (set_with_txn b (after_get t key) key value ttl)
              (spec_set v key value))
          (fun_ext (view-after_get t key)) (set_with_txn-Refines (after_get t key) key value ttl))

  pub delete_with_txn-Refines :
      (t : Tx) (key : Bytes) → Refines t (delete_with_txn b t key) (spec_delete (view t) key)
  unfolding delete_with_txn
  delete_with_txn-Refines t [] = rw (delete-empty t) refl
  delete_with_txn-Refines t (k ∷ ks) =
      let (t', done, seen, same, _, _) = delete_lem t (k ∷ ks) (λ e. cc) in
      rw done (fun_ext seen, same)

  pub Refines-bind :
      {A : Type 0} (t : Tx) (r : Result A) (f : A → Result Tx) (g : A → Result View)
      → ((a : A) → Refines t (f a) (g a))
      → Refines t (r >>= f) (r >>= g)
  Refines-bind t (ok a) f g h = h a
  Refines-bind t (err e) f g h = refl
  Refines-bind t panic f g h = tt

  pub incr_by_with_txn-Refines :
      (t : Tx) (key : Bytes) (delta : ℕ)
      → Refines t (incr_by_with_txn b t key delta) (spec_incr (view t) key delta)
  unfolding incr_by_with_txn
  incr_by_with_txn-Refines t key delta = rw (get_with_txn-view t key) (
      Refines-bind t (incremented (view t key) delta) _ _
        (λ value. set_after_get-Refines t key (uint64_to_bytes value) []))

  pub decr_by_with_txn-Refines :
      (t : Tx) (key : Bytes) (delta : ℕ)
      → Refines t (decr_by_with_txn b t key delta) (spec_decr (view t) key delta)
  unfolding decr_by_with_txn
  decr_by_with_txn-Refines t key delta = rw (get_with_txn-view t key) (
      Refines-bind t (decremented (view t key) delta) _ _
        (λ value. set_after_get-Refines t key (uint64_to_bytes value) []))
