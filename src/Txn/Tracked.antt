-- ===== src/Txn/Tracked.antt =====
-- What a transaction of txn.go keeps true of itself: the keys it writes are tracked for the oracle.
pub mod Steps
pub mod Ends
pub mod Stale
use omashu.Base.{
  ℕ, ◌≡◌, refl, sym, ◌∙◌, Bool, true, false, not, ◌||◌, List, [], ◌∷◌, ◌++◌, any, All, All-map,
  any-append, arith, Bool-cases, ◌⊎◌, inl, inr, some,
}
use omashu.Base.Bytes.{Bytes, bytes_eq, bytes_eq_refl}
use omashu.Errors.{Result, ok, err, panic, ◌>>=◌, >>=-eq-ok}
use omashu.Types.{
  CommandType, transaction, delete_by_prefix, Fields, Command, command, Commands, nil, cons, fields,
  sub_commands, snoc, add_sub_command, is_transaction,
}
use omashu.Tso.State.{has_key, is_empty}
use omashu.Txn.State.{Txn, add_key, validate, add_sub, or_unchanged, and_then}
use omashu.Txn.Writes.{buffer_key, validate_all}

-- A predicate holds of every sub-command.
abbrev pub AllSubs : (Command → Type 0) → Commands → Type 0
AllSubs P nil = Unit
AllSubs P (cons c cs) = P c × AllSubs P cs

pub AllSubs-snoc :
    (P : Command → Type 0) (cs : Commands) (c : Command)
    → AllSubs P cs
    → P c
    → AllSubs P (snoc cs c)
AllSubs-snoc P nil c h hc = (hc, tt)
AllSubs-snoc P (cons d ds) c h hc = (h.0, AllSubs-snoc P ds c h.1 hc)

pub AllSubs-map :
    (P Q : Command → Type 0) (cs : Commands)
    → ((c : Command) → P c → Q c)
    → AllSubs P cs
    → AllSubs Q cs
AllSubs-map P Q nil f h = tt
AllSubs-map P Q (cons c cs) f h = (f c h.0, AllSubs-map P Q cs f h.1)

abbrev pub tracks_as : CommandType → List Bytes → Bytes → Bool
tracks_as delete_by_prefix keys key = true
tracks_as _ keys key = has_key keys key

-- The key of a sub-command is among the tracked ones; a DELETE_BY_PREFIX has no key.
abbrev pub tracks : List Bytes → Command → Bool
tracks keys c = tracks_as (fields c).type keys (fields c).key

-- Every key that a sub-command writes is a conflict key, conflict keys are not empty and are counted
-- as writes, the buffered command is a transaction at the read timestamp that the transaction has
-- begun at, and the transaction is open.
abbrev pub IsTracked : ℕ → Txn → Type 0
IsTracked begun_at txn =
    AllSubs (λ c. tracks txn.conflict_keys c ≡ true) (sub_commands txn.cmd)
    × All (λ k. is_empty k ≡ false) txn.conflict_keys
    × All (λ k. has_key txn.writes k ≡ true) txn.conflict_keys
    × ((fields txn.cmd).type ≡ transaction)
    × ((fields txn.cmd).read_ts ≡ begun_at)
    × (txn.read_ts ≡ begun_at)
    × (txn.discarded ≡ false)

pub has_key-add_key : (keys : List Bytes) (key : Bytes) → has_key (add_key keys key) key ≡ true
unfolding add_key has_key
has_key-add_key keys key = elim (Bool-cases (has_key keys key)) [
  | inl there ↦ rw there there
  | inr new ↦ rw new (rw (bytes_eq_refl key) refl)
]

has_key_mono :
    (keys : List Bytes) (key k : Bytes)
    → has_key keys k ≡ true
    → has_key (add_key keys key) k ≡ true
unfolding add_key has_key
has_key_mono keys key k h = elim (Bool-cases (has_key keys key)) [
  | inl there ↦ rw there h
  | inr new ↦ rw new added
]
  where
    added : has_key (key ∷ keys) k ≡ true
    added = elim (Bool-cases (bytes_eq key k)) [ inl same ↦ rw same | inr other ↦ rw other h ]

has_key-append :
    (keys more : List Bytes) (k : Bytes)
    → has_key (keys ++ more) k ≡ (has_key keys k || has_key more k)
unfolding has_key
has_key-append keys more k = any-append _ keys more

pub has_key_left :
    (keys more : List Bytes) (k : Bytes) → has_key keys k ≡ true → has_key (keys ++ more) k ≡ true
has_key_left keys more k there = rw (has_key-append keys more k) (rw there refl)

has_key-snoc : (keys : List Bytes) (key : Bytes) → has_key (keys ++ key ∷ []) key ≡ true
unfolding has_key
has_key-snoc [] key = rw (bytes_eq_refl key)
has_key-snoc (k ∷ ks) key = rw (has_key-snoc ks key) (ground arith)

tracks_mono :
    (keys : List Bytes) (key : Bytes) (c : Command)
    → tracks keys c ≡ true
    → tracks (add_key keys key) c ≡ true
tracks_mono keys key c h = by_type (fields c).type h
  where
    by_type :
        (type : CommandType)
        → tracks_as type keys (fields c).key ≡ true
        → tracks_as type (add_key keys key) (fields c).key ≡ true
    by_type delete_by_prefix h = refl
    by_type _ h = has_key_mono keys key (fields c).key h

All-add_key :
    (P : Bytes → Type 0) (keys : List Bytes) (key : Bytes)
    → All P keys
    → P key
    → All P (add_key keys key)
unfolding add_key
All-add_key P keys key h hk = elim (Bool-cases (has_key keys key)) [
  | inl there ↦ rw there h
  | inr new ↦ rw new (hk, h)
]

validate-eq-ok :
    (t u : Txn) (key : Bytes)
    → validate t key ≡ ok u
    → (is_empty key ≡ false)
      × (t.discarded ≡ false)
      × (t.update ≡ true)
      × (u
          ≡ record t { conflict_keys = add_key t.conflict_keys key; writes = t.writes ++ key ∷ [] })
unfolding validate
validate-eq-ok t u key h = ground (arith, h)

-- What `validate` leaves when it lets a key through.
pub validate-IsTracked :
    {begun_at : ℕ} (t u : Txn) (key : Bytes)
    → IsTracked begun_at t
    → validate t key ≡ ok u
    → IsTracked begun_at u × (has_key u.conflict_keys key ≡ true)
validate-IsTracked t u key (subs, nonempty, written, type, at, same, is_open) h =
    let (some_key, _, _, e) = validate-eq-ok t u key h in
    rw e (
      (
        AllSubs-map _ _ (sub_commands t.cmd) (tracks_mono t.conflict_keys key) subs,
        All-add_key _ t.conflict_keys key nonempty some_key,
        All-add_key _ t.conflict_keys key
            (All-map _ _ t.conflict_keys (λ k there. has_key_left t.writes (key ∷ []) k there)
              written)
            (has_key-snoc t.writes key),
        type,
        at,
        same,
        is_open,
      ),
      has_key-add_key t.conflict_keys key,
    )

-- The transaction with one more sub-command.
abbrev pub with_sub : Txn → Command → Txn
with_sub t sub = record t { cmd = command (fields t.cmd) (snoc (sub_commands t.cmd) sub) }

add_sub_cases :
    (t : Txn) (sub : Command) → (add_sub t sub ≡ panic) ⊎ (add_sub t sub ≡ ok (with_sub t sub))
unfolding add_sub add_sub_command
add_sub_cases t sub = by_cmd t.cmd (Bool-cases (is_transaction (fields sub).type))
  where
    by_cmd :
        (cmd : Command)
        → (is_transaction (fields sub).type ≡ true) ⊎ (is_transaction (fields sub).type ≡ false)
        → let added = add_sub_command cmd (some sub) >>= λ c. ok (record t { cmd = c }) in
          (added ≡ panic)
          ⊎ (added ≡ ok (record t { cmd = command (fields cmd) (snoc (sub_commands cmd) sub) }))
    by_cmd (command f subs) (inl nested) = inl (rw nested)
    by_cmd (command f subs) (inr flat) = inr (rw flat)

with_sub-IsTracked :
    {begun_at : ℕ} (t : Txn) (sub : Command)
    → IsTracked begun_at t
    → tracks t.conflict_keys sub ≡ true
    → IsTracked begun_at (with_sub t sub)
with_sub-IsTracked t sub h covered =
    let (subs, nonempty, written, type, at, same, is_open) = h in
    (
      AllSubs-snoc _ (sub_commands t.cmd) sub subs covered,
      nonempty,
      written,
      type,
      at,
      same,
      is_open,
    )

pub add_sub-IsTracked :
    {begun_at : ℕ} (t : Txn) (sub : Command)
    → IsTracked begun_at t
    → tracks t.conflict_keys sub ≡ true
    → IsTracked begun_at (or_unchanged t (add_sub t sub)).0
add_sub-IsTracked t sub h covered = elim (add_sub_cases t sub) [
  | inl nested ↦ rw nested h
  | inr added ↦ rw added (with_sub-IsTracked t sub h covered)
]

pub validated-IsTracked :
    {begun_at : ℕ} (t : Txn) (key : Bytes) (f : Txn → Txn × Result (Unit {0}))
    → IsTracked begun_at t
    → ((u : Txn)
        → IsTracked begun_at u
        → has_key u.conflict_keys key ≡ true
        → IsTracked begun_at (f u).0)
    → IsTracked begun_at (and_then (or_unchanged t (validate t key)) f).0
validated-IsTracked {begun_at = begun_at} t key f h go = by_result (validate t key) refl
  where
    by_result :
        (r : Result Txn) → validate t key ≡ r → IsTracked begun_at (and_then (or_unchanged t r) f).0
    by_result (ok u) e = let (tracked, there) = validate-IsTracked t u key h e in go u tracked there
    by_result (err _) e = h
    by_result panic e = h

-- A sub-command that is to be buffered is on this key.
abbrev pub OnKey : Bytes → Result Command → Type 0
OnKey key (ok c) = (keys : List Bytes) → has_key keys key ≡ true → tracks keys c ≡ true
OnKey key _ = Unit

pub buffer_key-IsTracked :
    {begun_at : ℕ} (t : Txn) (key : Bytes) (sub : Result Command)
    → IsTracked begun_at t
    → OnKey key sub
    → IsTracked begun_at (buffer_key t key sub).0
buffer_key-IsTracked {begun_at = begun_at} t key sub h on_key =
    validated-IsTracked t key _ h (λ u tracked there. by_sub u tracked there sub on_key)
  where
    by_sub :
        (u : Txn)
        → IsTracked begun_at u
        → has_key u.conflict_keys key ≡ true
        → (r : Result Command) → OnKey key r
        → IsTracked begun_at (or_unchanged u (r >>= λ c. add_sub u c)).0
    by_sub u tracked there (ok c) covers =
        add_sub-IsTracked u c tracked (covers u.conflict_keys there)
    by_sub u tracked there (err _) covers = tracked
    by_sub u tracked there panic covers = tracked
