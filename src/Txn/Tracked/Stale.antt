-- ===== src/Txn/Tracked/Stale.antt =====
-- A reader of what another transaction has committed since is refused.
use omashu.Base.{
  ℕ, ◌<◌, ◌≡◌, refl, ◌∙◌, Bool, true, false, ◌||◌, some, List, [], ◌∷◌, ◌++◌, any, any-append,
  arith, Bool-cases, inl, inr, lt→not_leb,
}
use omashu.Base.Bytes.{Bytes, bytes_eq, bytes_eq-eq}
use omashu.Errors.{conflict, ok, err}
use omashu.Types.{CommandType, delete_by_prefix, Command, Commands, nil, cons, fields, sub_commands}
use omashu.Tso.Marks.{WaterMark}
use omashu.Tso.State.{CommittedTxn, Tso, has_key, has_conflict, conflicts_with}
use omashu.Tso.Clock.{new_commit_ts}
use omashu.Tso.Conflict.{has_conflict-any}
use omashu.Txn.State.{Txn}
use omashu.Txn.Commit.{has_nothing, too_big, discard, commit}
use omashu.Txn.Tracked.{IsTracked, AllSubs, tracks, tracks_as}
use omashu.Txn.Tracked.Ends.{committed_command}

abbrev pub writes_read : CommandType → Bytes → List Bytes → Bool
writes_read delete_by_prefix key reads = false
writes_read _ key reads = has_key reads key

-- A key that some sub-command writes is among the keys read.
abbrev pub reads_written : List Bytes → Commands → Bool
reads_written reads nil = false
reads_written reads (cons c cs) =
    writes_read (fields c).type (fields c).key reads || reads_written reads cs

any_shared :
    (reads keys : List Bytes) (key : Bytes)
    → has_key reads key ≡ true
    → has_key keys key ≡ true
    → any (has_key keys) reads ≡ true
unfolding has_key
any_shared [] keys key h there = cc
any_shared (r ∷ rs) keys key h there = elim (Bool-cases (bytes_eq r key)) [
  | inl same ↦ rw (bytes_eq-eq r key same) (rw there refl)
  | inr other ↦ rw (any_shared rs keys key (rw other at h) there) (ground arith)
]

shared :
    (type : CommandType) (reads keys : List Bytes) (key : Bytes)
    → writes_read type key reads ≡ true
    → tracks_as type keys key ≡ true
    → any (has_key keys) reads ≡ true
shared delete_by_prefix reads keys key h there = cc
shared _ reads keys key h there = any_shared reads keys key h there

reads_written-any :
    (reads keys : List Bytes) (cs : Commands)
    → reads_written reads cs ≡ true
    → AllSubs (λ sub. tracks keys sub ≡ true) cs
    → any (has_key keys) reads ≡ true
reads_written-any reads keys nil h all = cc
reads_written-any reads keys (cons c cs) h all =
    elim (Bool-cases (writes_read (fields c).type (fields c).key reads)) [
      | inl first ↦ shared (fields c).type reads keys (fields c).key first all.0
      | inr later ↦ reads_written-any reads keys cs (rw later at h) all.1
    ]

has_conflict_last :
    (older : List CommittedTxn) (c : CommittedTxn) (reads : List Bytes) (read_ts : ℕ)
    → read_ts < c.ts
    → any (has_key c.conflict_keys) reads ≡ true
    → has_conflict (older ++ c ∷ []) reads read_ts ≡ true
unfolding conflicts_with
has_conflict_last older c reads read_ts before shares =
    has_conflict-any (older ++ c ∷ []) reads read_ts
    ∙ any-append (conflicts_with reads read_ts) older (c ∷ [])
    ∙ (rw (lt→not_leb c.ts read_ts before, shares) (ground arith))

module _ (w : WaterMark) where
  -- When a transaction that tracks its keys has committed, another one that began below its commit
  -- timestamp, and has read the key of one of its sub-commands, is refused with ErrConflict when it
  -- commits next, and is discarded; it has something to commit, has not been discarded before, and
  -- is not too big.
  pub stale_reader_refused :
      {begun_at : ℕ} (s : Tso w) (t reader : Txn) (clock later : List ℕ) {s' : Tso w} {t' : Txn}
      {c : Command}
      → IsTracked begun_at t
      → commit w s t clock ≡ some (s', t', ok (some c))
      → reader.read_ts < (fields c).commit_ts
      → reads_written reader.reads (sub_commands c) ≡ true
      → reader.discarded ≡ false
      → has_nothing reader ≡ false
      → too_big reader ≡ false
      → commit w s' reader later
        ≡ some ((discard w s' reader).0, (discard w s' reader).1, err conflict)
  unfolding commit new_commit_ts
  stale_reader_refused s t reader clock later tracked h before stale is_open full small =
      let (_, _, _, _, _, older, keys, after, all) = committed_command w s t clock tracked h in
      rw
        (
          is_open,
          full,
          small,
          after,
          has_conflict_last older _ reader.reads reader.read_ts before
              (reads_written-any reader.reads keys _ stale all),
        )
        refl
