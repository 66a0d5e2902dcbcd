-- ===== src/Tso/Commit.antt =====
-- `newCommitTs` and `cleanupCommittedTransactions` of tso.go, read backwards from their results.
use omashu.Base.{
  ℕ, ◌≤◌, ◌≡◌, refl, sym, ◌⊎◌, inl, inr, false, some, List, [], ◌∷◌, ◌++◌, arith, any, filter,
  Bool-cases, ◌==◌, ==_iff,
}
use omashu.Base.Bytes.{Bytes}
use omashu.Tso.Stamp.{TimeStamp, compose}
use omashu.Tso.Marks.{WaterMark}
use omashu.Tso.State.{
  Tso, conflicts_with, has_conflict, is_recent, done_read, cleanup_committed_transactions,
}
use omashu.Tso.Clock.{>>=-eq-some, next_stamp, allocate, new_commit_ts}
use omashu.Tso.Conflict.{any-filter_recent}

module _ (w : WaterMark) where
  open w use {begin, done_until}

  -- The state that a commit at the stamp `c` leaves, `cleaned` being the state after the clean-up.
  abbrev pub committed_at : Tso w → TimeStamp → List Bytes → Tso w
  committed_at cleaned c keys = record cleaned {
    current = c;
    txn_mark = begin cleaned.txn_mark (compose c);
    committed_txns = cleaned.committed_txns ++ record { ts = compose c; conflict_keys = keys } ∷ [];
  }

  abbrev pub cleaned : Tso w → ℕ → Tso w
  cleaned s read_ts = cleanup_committed_transactions w (done_read w s read_ts)

  pub allocate-eq-some :
      (s : Tso w) (clock : List ℕ) {ts : ℕ} {s' : Tso w} {rest : List ℕ}
      → allocate w s clock ≡ some (ts, s', rest)
      → (c : TimeStamp) × (ts ≡ compose c) × (s' ≡ record s { current = c })
  unfolding allocate
  allocate-eq-some s clock h =
      let (r, found, h') = >>=-eq-some (next_stamp s.current s.saved clock) _ h in
      (r.0, ground (arith, h'), ground (arith, h'))

  pub new_commit_ts-eq-some :
      (s : Tso w) (reads : List Bytes) (read_ts : ℕ) (keys : List Bytes) (clock : List ℕ) {ts : ℕ}
      {s' : Tso w} {rest : List ℕ}
      → new_commit_ts w s reads read_ts keys clock ≡ some (some ts, s', rest)
      → (has_conflict s.committed_txns reads read_ts ≡ false)
        × (c : TimeStamp) × (ts ≡ compose c)
        × (s' ≡ committed_at (cleaned s read_ts) c keys)
  unfolding new_commit_ts
  new_commit_ts-eq-some s reads read_ts keys clock h =
      elim (Bool-cases (has_conflict s.committed_txns reads read_ts)) [
        | inl refused ↦ cc (rw refused at h)
        | inr free ↦
            let (r, found, h') =
              >>=-eq-some (allocate w (cleaned s read_ts) clock) _ (rw free at h) in
            let (c, composed, after) = allocate-eq-some (cleaned s read_ts) clock found in
            (free, c, ground (arith, composed, h'), ground (arith, composed, after, h'))
      ]

  pub cleanup_cases :
      (s : Tso w)
      → ((cleanup_committed_transactions w s ≡ s) × (done_until s.read_mark ≡ s.last_cleanup_ts))
        ⊎ (cleanup_committed_transactions w s ≡ record s {
          last_cleanup_ts = done_until s.read_mark;
          committed_txns = filter (is_recent (done_until s.read_mark)) s.committed_txns;
        })
  unfolding cleanup_committed_transactions
  cleanup_cases s = elim (Bool-cases (done_until s.read_mark == s.last_cleanup_ts)) [
    | inl same ↦ inl (rw same, (==_iff _ _).0 same)
    | inr new ↦ inr (rw new)
  ]

  -- The clean-up changes no verdict on a transaction that reads at or above the read mark.
  pub any-cleanup :
      (s : Tso w) (reads : List Bytes) (read_ts : ℕ)
      → done_until s.read_mark ≤ read_ts
      → any (conflicts_with reads read_ts) (cleanup_committed_transactions w s).committed_txns
        ≡ any (conflicts_with reads read_ts) s.committed_txns
  any-cleanup s reads read_ts h = elim (cleanup_cases s) [
    | inl (same, _) ↦ rw same
    | inr new ↦ rw new (any-filter_recent (done_until s.read_mark) read_ts reads s.committed_txns h)
  ]

  pub last_cleanup_ts-cleanup :
      (s : Tso w) → (cleanup_committed_transactions w s).last_cleanup_ts ≡ done_until s.read_mark
  last_cleanup_ts-cleanup s = elim (cleanup_cases s) [
    | inl (same, at_mark) ↦ rw same (sym at_mark)
    | inr new ↦ rw new refl
  ]

  pub cleanup_keeps :
      (s : Tso w)
      → let t = cleanup_committed_transactions w s in
        (t.current ≡ s.current) × (t.read_mark ≡ s.read_mark) × (t.readers ≡ s.readers)
  cleanup_keeps s = elim (cleanup_cases s) [
    | inl (same, _) ↦ rw same (refl, refl, refl)
    | inr new ↦ rw new (refl, refl, refl)
  ]
