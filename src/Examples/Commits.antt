-- ===== src/Examples/Commits.antt =====
-- A store kept as its commits, which has the laws of a working BadgerDB.
use omashu.Base.{
  ℕ, ◌≤◌, ◌<◌, ◌≡◌, refl, ◌≢◌, ◌∙◌, ap, subst, ◌⊎◌, inl, inr, Bool, true, false, not, ◌&&◌, ◌||◌,
  Option, none, some, List, [], ◌∷◌, ltb, if◌then◌else◌, arith, any, Bool-cases,
}
use omashu.Base.Bytes.{Bytes, bytes_eq, bytes_eq-eq, bytes_eq_refl}
use omashu.Errors.{empty_key, key_not_found, conflict, Result, ok, err}
use omashu.Badger.Api.{BadgerApi}
use omashu.Badger.Laws.{View, write, StoreLaws}

-- Changes of keys, the latest first, and the commits of them, the newest first.
abbrev pub Changes : Type 0
Changes = List (Bytes × Option Bytes)

abbrev pub Commits : Type 0
Commits = List (ℕ × Changes)

abbrev change_of : Changes → Bytes → Option (Option Bytes)
change_of [] k = none
change_of ((j, o) ∷ cs) k = if bytes_eq j k then some o else change_of cs k

abbrev changed : Option (Option Bytes) → Bool
changed none = false
changed (some o) = true

abbrev or_else : Option (Option Bytes) → Option Bytes → Option Bytes
or_else none o = o
or_else (some o') o = o'

abbrev read_at : Commits → ℕ → View
read_at [] r k = none
read_at ((ts, cs) ∷ ds) r k = or_else (if ltb r ts then none else change_of cs k) (read_at ds r k)

abbrev newest_of : Commits → ℕ
newest_of [] = 0
newest_of ((ts, cs) ∷ ds) = let rest = newest_of ds in if ltb rest ts then ts else rest

abbrev changed_after : Commits → ℕ → Bytes → Bool
changed_after [] r k = false
changed_after ((ts, cs) ∷ ds) r k = (ltb r ts && changed (change_of cs k)) || changed_after ds r k

pub record Snapshot : Type 0 where
  pub opened : ℕ
  pub base : Commits
  pub read_keys : List Bytes
  pub pending : Changes

abbrev pub open_at : Commits → ℕ → Snapshot
open_at d r = record { opened = r; base = d; read_keys = []; pending = [] }

abbrev sees : Snapshot → View
sees t k = or_else (change_of t.pending k) (read_at t.base t.opened k)

abbrev has_written : Snapshot → Bytes → Bool
has_written t k = changed (change_of t.pending k)

abbrev listed : List Bytes → Bytes → Bool
listed [] k = false
listed (j ∷ js) k = bytes_eq j k || listed js k

abbrev pub found : Option Bytes → Result Bytes
found none = err key_not_found
found (some v) = ok v

abbrev pub written : Snapshot → Bytes → Option Bytes → Result Snapshot
written t [] o = err empty_key
written t (k ∷ ks) o = ok (record t { pending = (k ∷ ks, o) ∷ t.pending })

abbrev noted : Snapshot → Bytes → Snapshot
noted t k = if has_written t k then t else record t { read_keys = k ∷ t.read_keys }

abbrev committed : Commits → Snapshot → ℕ → Result Commits
committed d t ts =
    if any (changed_after d t.opened) t.read_keys then err conflict else ok ((ts, t.pending) ∷ d)

abbrev pub function_store : BadgerApi
function_store = record {
  Db = Commits;
  Tx = Snapshot;
  Item = Bytes;
  new_transaction = λ d update. open_at d (newest_of d);
  new_transaction_at = λ d r update. open_at d r;
  view_transaction = λ d. open_at d (newest_of d);
  get = λ t k. found (sees t k);
  after_get = noted;
  after_item = noted;
  value_copy = λ v. ok v;
  key_copy = λ v. v;
  seek = λ t p. [];
  set_entry = λ t k v ttl. written t k (some v);
  delete = λ t k. written t k none;
  commit = λ d t. committed d t (ℕ.suc (newest_of d));
  commit_at = committed;
  backup = λ d since. ok (newest_of d, []);
  drop_all = λ d. ok [];
  load = λ d bytes n. ok d;
}

pub written_lem :
    (t : Snapshot) (k : Bytes) (o : Option Bytes)
    → k ≢ []
    → (t' : Snapshot) × (written t k o ≡ ok t')
      × ((j : Bytes) → sees t' j ≡ write (sees t) k o j)
      × (t'.opened ≡ t.opened)
      × ((j : Bytes) → has_written t' j ≡ (bytes_eq k j || has_written t j))
      × ((j : Bytes) → listed t'.read_keys j ≡ listed t.read_keys j)
written_lem t [] o h = absurd (h refl)
written_lem t (k ∷ ks) o h = (_, refl, λ j. ground arith, refl, λ j. ground arith, λ j. refl)

pub found-some : (o : Option Bytes) (v : Bytes) → o ≡ some v → found o ≡ ok v
found-some none v h = cc
found-some (some u) v h = cc

pub found-none : (o : Option Bytes) → o ≡ none → found o ≡ err key_not_found
found-none none h = refl
found-none (some u) h = cc

noted_cases :
    (t : Snapshot) (k : Bytes)
    → ((has_written t k ≡ true) × (noted t k ≡ t))
      ⊎ ((has_written t k ≡ false) × (noted t k ≡ record t { read_keys = k ∷ t.read_keys }))
noted_cases t k = elim (Bool-cases (has_written t k)) [
  | inl e ↦ inl (e, rw e refl)
  | inr e ↦ inr (e, rw e refl)
]

pub noted_keeps :
    (t : Snapshot) (k : Bytes)
    → ((noted t k).opened ≡ t.opened)
      × ((j : Bytes) → sees (noted t k) j ≡ sees t j)
      × ((j : Bytes) → has_written (noted t k) j ≡ has_written t j)
noted_keeps t k = elim (noted_cases t k) [
  | inl (_, e) ↦ rw e (refl, λ j. refl, λ j. refl)
  | inr (_, e) ↦ rw e (refl, λ j. refl, λ j. refl)
]

pub noted_reads :
    (t : Snapshot) (k j : Bytes)
    → listed (noted t k).read_keys j
      ≡ ((not (has_written t j) && bytes_eq k j) || listed t.read_keys j)
noted_reads t k j = elim (Bool-cases (bytes_eq k j)) [
  | inl same ↦
      subst
        (λ i.
          listed (noted t k).read_keys i
          ≡ ((not (has_written t i) && bytes_eq k i) || listed t.read_keys i))
        (bytes_eq-eq k j same)
        (elim (noted_cases t k) [
          | inl (w, e) ↦ rw (e, w) refl
          | inr (w, e) ↦ rw (e, w, bytes_eq_refl k) refl
        ])
  | inr other ↦ elim (noted_cases t k) [
    | inl (w, e) ↦ rw (e, other) (ground arith)
    | inr (w, e) ↦ rw (e, other) (ground arith)
  ]
]

pub read_stable :
    (d : Commits) (r r' : ℕ) (k : Bytes)
    → r ≤ r'
    → changed_after d r k ≡ false
    → read_at d r' k ≡ read_at d r k
read_stable [] r r' k le h = refl
read_stable ((ts, cs) ∷ ds) r r' k le h = ground (arith, read_stable ds r r' k le)

pub changed_after-newest :
    (d : Commits) (r : ℕ) (k : Bytes) → newest_of d ≤ r → changed_after d r k ≡ false
changed_after-newest [] r k le = refl
changed_after-newest ((ts, cs) ∷ ds) r k le = ground (arith, changed_after-newest ds r k)

none_listed :
    (p : Bytes → Bool) (ks : List Bytes)
    → ((k : Bytes) → listed ks k ≡ true → p k ≡ false)
    → any p ks ≡ false
none_listed p [] h = refl
none_listed p (k ∷ ks) h =
    rw (h k (rw (bytes_eq_refl k) refl), none_listed p ks (λ j m. h j (ground arith))) refl

pub one_listed :
    (p : Bytes → Bool) (ks : List Bytes) (k : Bytes)
    → listed ks k ≡ true
    → p k ≡ true
    → any p ks ≡ true
one_listed p [] k m h = cc
one_listed p (j ∷ js) k m h = elim (Bool-cases (bytes_eq j k)) [
  | inl same ↦ let e : p j ≡ true = ap p (bytes_eq-eq j k same) ∙ h in rw e refl
  | inr other ↦ ground (arith, one_listed p js k)
]

pub committed_lem :
    (d : Commits) (t : Snapshot) (ts : ℕ)
    → newest_of d < ts
    → t.opened < ts
    → ((k : Bytes) → listed t.read_keys k ≡ true → changed_after d t.opened k ≡ false)
    → (d' : Commits) × (committed d t ts ≡ ok d')
      × ((r : ℕ) (k : Bytes)
          → read_at d' r k ≡ (
              if ltb r ts
              then read_at d r k
              else if has_written t k
              then sees t k
              else read_at d r k))
      × (newest_of d' ≡ ts)
      × ((r : ℕ) (k : Bytes)
          → changed_after d' r k ≡ ((ltb r ts && has_written t k) || changed_after d r k))
committed_lem d t ts above below fresh = (
  (ts, t.pending) ∷ d,
  rw (none_listed (changed_after d t.opened) t.read_keys fresh) refl,
  λ r k. ground arith,
  ground arith,
  λ r k. refl,
)

unfoldable pub function_laws : StoreLaws function_store
function_laws = record {
  view = sees;
  look = read_at;
  latest = newest_of;
  opened_at = λ t. t.opened;
  wrote = has_written;
  has_read = λ t. listed t.read_keys;
  written_after = changed_after;
  get-none = λ t k h. found-none (sees t k) h;
  get-some = λ t k v h. (v, found-some (sees t k) v h, refl);
  view-open = λ d r k. refl;
  opened_at-open = λ d r. refl;
  wrote-open = λ d r k. refl;
  has_read-open = λ d r k. refl;
  view-after_get = λ t k. (noted_keeps t k).1;
  opened_at-after_get = λ t k. (noted_keeps t k).0;
  wrote-after_get = λ t k. (noted_keeps t k).2;
  has_read-after_get = noted_reads;
  set_entry-empty = λ t v ttl. refl;
  set_entry_lem = λ t k v ttl h. written_lem t k (some v) h;
  delete-empty = λ t. refl;
  delete_lem = λ t k h. written_lem t k none h;
  look_stable = read_stable;
  written_after-latest = changed_after-newest;
  commit_at_lem = committed_lem;
  commit_at-conflict =
      λ d t ts k m h. rw (one_listed (changed_after d t.opened) t.read_keys k m h) refl;
}

abbrev pub no_commits : Commits
no_commits = []
