-- ===== src/Txn/Tracked/Ends.antt =====
-- How a transaction of txn.go ends: what Commit returns, what it leaves in the oracle, and that a
-- transaction ends once.
use omashu.Base.{
  ℕ, ◌≤◌, ◌≡◌, refl, sym, ap, ◌∙◌, true, false, Option, none, some, List, [], ◌∷◌, ◌++◌, arith,
  Bool-cases, ◌⊎◌, inl, inr, not_ltb→le,
}
use omashu.Base.Bytes.{Bytes}
use omashu.Errors.{discarded_txn, batch_too_big, Result, ok, err}
use omashu.Types.{transaction, Command, count, fields, sub_commands}
use omashu.Tso.Marks.{WaterMark}
use omashu.Tso.State.{CommittedTxn, Tso, has_reader, has_conflict, done_read, done_commit}
use omashu.Tso.Clock.{>>=-eq-some, new_commit_ts}
use omashu.Tso.Conflict.{NoStaleRead, has_conflict-NoStaleRead_iff}
use omashu.Tso.Commit.{new_commit_ts-eq-some, cleaned}
use omashu.Txn.State.{Txn, with_commit_ts}
use omashu.Txn.Commit.{
  has_nothing, too_big, max_batch_size, discard, stamp, committed_with, deferred, commit,
}
use omashu.Txn.Tracked.{IsTracked, AllSubs, tracks}

module _ (w : WaterMark) where
  done_read_committed : (s : Tso w) (ts : ℕ) → (done_read w s ts).committed_txns ≡ s.committed_txns
  unfolding done_read
  done_read_committed s ts = elim (Bool-cases (has_reader s.readers ts)) [
    | inl there ↦ rw there refl
    | inr gone ↦ rw gone refl
  ]

  discard_committed : (s : Tso w) (t : Txn) → (discard w s t).0.committed_txns ≡ s.committed_txns
  unfolding discard
  discard_committed s t = elim (Bool-cases t.discarded) [
    | inl ended ↦ rw ended refl
    | inr open_ ↦ rw open_ (done_read_committed s t.read_ts)
  ]

  discard_discarded : (s : Tso w) (t : Txn) → (discard w s t).1.discarded ≡ true
  unfolding discard
  discard_discarded s t = elim (Bool-cases t.discarded) [
    | inl ended ↦ rw ended refl
    | inr open_ ↦ rw open_ refl
  ]

  -- What Commit is about to return when its deferred Discard runs.
  pub data Ending (s : Tso w) (t : Txn) (clock : List ℕ)
      : Tso w × Txn × Result (Option Command) → Type 0 where
    nothing : has_nothing t ≡ true → Ending s t clock (s, t, ok none)
    refused : too_big t ≡ true → Ending s t clock (s, t, err batch_too_big)
    decided :
        (q : Option ℕ × Tso w × List ℕ)
        → too_big t ≡ false
        → new_commit_ts w s t.reads t.read_ts t.conflict_keys clock ≡ some q
        → Ending s t clock (committed_with w t q)

  pub open_commit :
      (s : Tso w) (t : Txn) (clock : List ℕ) {e : Tso w × Txn × Result (Option Command)}
      → t.discarded ≡ false
      → commit w s t clock ≡ some e
      → (m : Tso w × Txn × Result (Option Command)) × Ending s t clock m × (e ≡ deferred w m)
  unfolding commit
  open_commit s t clock is_open h = elim (Bool-cases (has_nothing t)) [
    | inl empty ↦ (_, nothing empty, ground (arith, rw (is_open, empty) at h))
    | inr full ↦ elim (Bool-cases (too_big t)) [
      | inl big ↦ (_, refused big, ground (arith, rw (is_open, full, big) at h))
      | inr small ↦
          let (q, found, h') =
            >>=-eq-some (new_commit_ts w s t.reads t.read_ts t.conflict_keys clock) _
              (rw (is_open, full, small) at h) in
          (committed_with w t q, decided q small found, ground (arith, h'))
    ]
  ]

  commit_cases :
      (s : Tso w) (t : Txn) (clock : List ℕ) {e : Tso w × Txn × Result (Option Command)}
      → commit w s t clock ≡ some e
      → ((t.discarded ≡ true) × (e ≡ (s, t, err discarded_txn)))
        ⊎ ((t.discarded ≡ false)
            × (m : Tso w × Txn × Result (Option Command)) × Ending s t clock m
            × (e ≡ deferred w m))
  unfolding commit
  commit_cases s t clock h = elim (Bool-cases t.discarded) [
    | inl ended ↦ inl (ended, ground (arith, (rw ended at h)))
    | inr is_open ↦
        let (m, ending, e) = open_commit s t clock is_open h in inr (is_open, m, ending, e)
  ]

  commit_discarded :
      (s : Tso w) (t : Txn) (clock : List ℕ) {s' : Tso w} {t' : Txn} {r : Result (Option Command)}
      → commit w s t clock ≡ some (s', t', r)
      → t'.discarded ≡ true
  commit_discarded s t clock h = elim (commit_cases s t clock h) [
    | inl (ended, e) ↦ ap (λ x. x.1.discarded) e ∙ ended
    | inr (_, m, _, e) ↦ ap (λ x. x.1.discarded) e ∙ discard_discarded m.0 m.1
  ]

  -- Whatever Commit returns, the transaction is over: committing or discarding it again changes
  -- neither it nor the oracle, and the second Commit returns ErrDiscardedTxn.
  pub commit_ends :
      (s : Tso w) (t : Txn) (clock later : List ℕ) {s' : Tso w} {t' : Txn}
      {r : Result (Option Command)}
      → commit w s t clock ≡ some (s', t', r)
      → (commit w s' t' later ≡ some (s', t', err discarded_txn)) × (discard w s' t' ≡ (s', t'))
  unfolding commit discard
  commit_ends s t clock later h =
      let over = commit_discarded s t clock h in (rw over refl, rw over refl)

  done_commit_committed :
      (s : Tso w) (ts : ℕ) → (done_commit w s ts).committed_txns ≡ s.committed_txns
  unfolding done_commit
  done_commit_committed s ts = refl

  stamped_command : (d : Command) {c : Command} → ok (some d) ≡ ok (some c) → d ≡ c
  stamped_command d h = cc

  Ending-command :
      (s : Tso w) (t : Txn) (clock : List ℕ) (m : Tso w × Txn × Result (Option Command))
      {c : Command}
      → Ending s t clock m
      → m.2 ≡ ok (some c)
      → (too_big t ≡ false)
        × (has_conflict s.committed_txns t.reads t.read_ts ≡ false)
        × (ts : ℕ) × (c ≡ with_commit_ts ts t.cmd)
        × (older : List CommittedTxn) × (m.0.committed_txns
            ≡ older ++ record { ts = ts; conflict_keys = t.conflict_keys } ∷ [])
  Ending-command s t clock m (nothing _) h = cc
  Ending-command s t clock m (refused _) h = cc
  Ending-command s t clock m (decided (none, s', rest) small found) h = cc
  Ending-command s t clock m (decided (some ts, s', rest) small found) h =
      let (free, c, composed, after) =
        new_commit_ts-eq-some w s t.reads t.read_ts t.conflict_keys clock found in
      (
        small,
        free,
        ts,
        sym (stamped_command (stamp w t ts).cmd h),
        (cleaned w s t.read_ts).committed_txns,
        done_commit_committed s' ts
            ∙ ap (λ (x : Tso w). x.committed_txns) after
            ∙ ap
                (λ n.
                  (cleaned w s t.read_ts).committed_txns
                  ++ record { ts = n; conflict_keys = t.conflict_keys } ∷ [])
                (sym composed),
      )

  pub commit-eq-command :
      (s : Tso w) (t : Txn) (clock : List ℕ) {s' : Tso w} {t' : Txn} {c : Command}
      → commit w s t clock ≡ some (s', t', ok (some c))
      → (t.discarded ≡ false)
        × (too_big t ≡ false)
        × (has_conflict s.committed_txns t.reads t.read_ts ≡ false)
        × (ts : ℕ) × (c ≡ with_commit_ts ts t.cmd)
        × (older : List CommittedTxn) × (s'.committed_txns
            ≡ older ++ record { ts = ts; conflict_keys = t.conflict_keys } ∷ [])
  commit-eq-command s t clock h = elim (commit_cases s t clock h) [
    | inl (ended, e) ↦ cc (ap (λ x. x.2) e)
    | inr (is_open, m, ending, e) ↦
        let (small, free, ts, stamped, older, after) =
          Ending-command s t clock m ending (sym (ap (λ x. x.2) e)) in
        (
          is_open,
          small,
          free,
          ts,
          stamped,
          older,
          ap (λ x. x.0.committed_txns) e ∙ discard_committed m.0 m.1 ∙ after,
        )
  ]

  -- When Commit returns a command for a transaction that tracks its keys, that command is a
  -- TRANSACTION at its read timestamp with all its buffered sub-commands, at most MaxBatchSize of
  -- them; no commit that the oracle remembered, later than its read timestamp, had written a key
  -- that it has read; and the oracle now remembers it at the commit timestamp of the command, with
  -- the key of every sub-command that has one.
  pub committed_command :
      {begun_at : ℕ} (s : Tso w) (t : Txn) (clock : List ℕ) {s' : Tso w} {t' : Txn} {c : Command}
      → IsTracked begun_at t
      → commit w s t clock ≡ some (s', t', ok (some c))
      → ((fields c).type ≡ transaction)
        × ((fields c).read_ts ≡ t.read_ts)
        × (sub_commands c ≡ sub_commands t.cmd)
        × (count (sub_commands c) ≤ max_batch_size)
        × NoStaleRead s.committed_txns t.reads t.read_ts
        × (older : List CommittedTxn) × (keys : List Bytes) × (s'.committed_txns
            ≡ older ++ record { ts = (fields c).commit_ts; conflict_keys = keys } ∷ [])
        × AllSubs (λ sub. tracks keys sub ≡ true) (sub_commands c)
  committed_command s t clock (subs, _, _, type, at, same, is_open) h =
      let (_, small, free, ts, stamped, older, after) = commit-eq-command s t clock h in
      rw stamped (
        type,
        at ∙ sym same,
        refl,
        not_ltb→le max_batch_size (count (sub_commands t.cmd)) small,
        (has_conflict-NoStaleRead_iff s.committed_txns t.reads t.read_ts).0 free,
        older,
        t.conflict_keys,
        after,
        subs,
      )
