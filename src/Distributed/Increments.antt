-- ===== src/Distributed/Increments.antt =====
-- IncrBy of distributed.go, whose key is not among the keys that its transaction has read.
use omashu.Base.{ℕ, ◌≡◌, refl, sym, ap, ◌∙◌, true, Option, some, List, [], ◌∷◌}
use omashu.Base.Bytes.{Bytes}
use omashu.Errors.{Result}
use omashu.Types.{incr_by, zero_fields, Command, command, nil, new_incr_by_command}
use omashu.Tso.Stamp.{compose}
use omashu.Tso.Marks.{WaterMark}
use omashu.Tso.State.{
  Tso, has_conflict, cleanup_committed_transactions, done_read, begin_read, reserve_read, mark_read,
  current_read_ts, read_ts,
}
use omashu.Tso.Clock.{>>=-eq-some, new_commit_ts, allocate}
use omashu.Txn.State.{Txn, new_txn_value, validate, add_sub}
use omashu.Txn.Writes.{txn_incr_by}
use omashu.Txn.Commit.{begin_txn, commit, discard, deferred, committed_with}
use omashu.Distributed.Propose.{
  Propose, propose_and_wait, propose_sub_command, propose_txn_sub_command,
}
use omashu.Distributed.Ends.{some-eq}
use omashu.Distributed.Calls.{Call, dist_incr_by}

module _ (w : WaterMark) where
  -- Without a key that was read there is no conflict.
  unread_passes :
      (s : Tso w) (at : ℕ) (keys : List Bytes) (clock : List ℕ) (e : Option ℕ × Tso w × List ℕ)
      → new_commit_ts w s [] at keys clock ≡ some e
      → (ts : ℕ) × (e ≡ (some ts, e.1, e.2))
  unfolding new_commit_ts has_conflict
  unread_passes s at keys clock e h =
      let (r, _, done) =
        >>=-eq-some (allocate w (cleanup_committed_transactions w (done_read w s at)) clock) _ h in
      (r.0, cc)

  -- The command that IncrBy proposes, at a commit timestamp.
  abbrev pub increment : Call w → Tso w → Bytes → ℕ → ℕ → Command
  increment c s key delta ts =
      command
        (record (zero_fields c.sub_id incr_by) {
          key = key;
          incr_or_decr_delta = delta;
          read_ts = compose s.current;
          commit_ts = ts;
        })
        nil

  -- The transaction of IncrBy at its commit.
  abbrev buffered : Call w → Tso w → Bytes → ℕ → Txn
  buffered c s key delta =
      (txn_incr_by c.sub_id (new_txn_value c.txn_id c.txn_cmd_id (compose s.current) true) key
        delta).0

  proposed_at :
      (c : Call w) (s s2 : Tso w) (k : ℕ) (ks : Bytes) (delta ts : ℕ) (rest : List ℕ)
      → let t = buffered c s (k ∷ ks) delta in
        let e = deferred w (deferred w (committed_with w t (some ts, s2, rest))) in
        propose_sub_command w c.encode c.answer e.1 e.2
        ≡ propose_and_wait c.encode c.answer (increment c s (k ∷ ks) delta ts)
  unfolding discard new_txn_value txn_incr_by validate add_sub propose_and_wait new_incr_by_command
  proposed_at c s s2 k ks delta ts rest = refl

  -- On the leader, when the wait of BeginTxn ends, and whatever else happens to the oracle meanwhile:
  -- IncrBy on a key that is not empty proposes its INCR_BY command at the current timestamp as its
  -- read timestamp, however many commits that the oracle remembers have written the key since, and
  -- returns the answer to the proposal or the error of its encoding.
  pub increment_proposed :
      (c : Call w) (s : Tso w) (k : ℕ) (ks : Bytes) (delta : ℕ) {s' : Tso w} {sent : Option Propose}
      {r : Result (Unit {0})}
      → c.is_leader ≡ true
      → c.waited ≡ true
      → dist_incr_by w c s (k ∷ ks) delta ≡ some (s', sent, r)
      → (ts : ℕ) × ((sent, r)
          ≡ propose_and_wait c.encode c.answer (increment c s (k ∷ ks) delta ts))
  unfolding dist_incr_by propose_txn_sub_command begin_txn read_ts begin_read reserve_read mark_read
      current_read_ts new_txn_value txn_incr_by validate add_sub commit new_incr_by_command
  increment_proposed c s k ks delta leads waited h =
      let t = buffered c s (k ∷ ks) delta in
      let s1 : Tso w = c.meanwhile (begin_read w c.others s).0 in
      let (e, found, h') = >>=-eq-some (commit w s1 t c.clock) _ (rw (leads, waited) at h) in
      let (q, passed, h2) =
        >>=-eq-some (new_commit_ts w s1 [] (compose s.current) t.conflict_keys c.clock) _ found in
      let (ts, is) = unread_passes s1 (compose s.current) t.conflict_keys c.clock q passed in
      let ended : Tso w × Txn × Result (Option Command) → Option Propose × Result (Unit {0}) =
        λ x. propose_sub_command w c.encode c.answer (deferred w x).1 (deferred w x).2 in
      (
        ts,
        sym (ap (λ x. (x.1, x.2)) (some-eq h'))
            ∙ ap ended (sym (some-eq h2))
            ∙ ap (λ x. ended (deferred w (committed_with w t x))) is
            ∙ proposed_at c s q.1 k ks delta ts q.2,
      )
