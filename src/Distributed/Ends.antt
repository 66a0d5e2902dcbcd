-- ===== src/Distributed/Ends.antt =====
-- How a write call of distributed.go ends: what it proposes, and that its read timestamp is given back.
use omashu.Base.{
  ℕ, ◌≡◌, refl, sym, ap, ◌∙◌, true, false, Option, none, some, List, [], ◌∷◌, ◌++◌, Bool-cases, inl,
  inr,
}
use omashu.Base.Bytes.{Bytes}
use omashu.Errors.{Result, ok, err, panic}
use omashu.Types.{transaction, Command, fields, sub_commands}
use omashu.Types.Delta.{Codec}
use omashu.Badger.Api.{BadgerApi}
use omashu.Tso.Stamp.{compose}
use omashu.Tso.Marks.{WaterMark}
use omashu.Tso.State.{
  CommittedTxn, Tso, Others, has_reader, current_read_ts, reserve_read, mark_read, begin_read,
  read_ts, done_read,
}
use omashu.Tso.Clock.{>>=-eq-some}
use omashu.Tso.Readers.{has_reader-delete_self}
use omashu.Txn.State.{Txn, new_txn_value}
use omashu.Txn.Commit.{begin_txn, has_nothing, commit, discard, deferred}
use omashu.Txn.Tracked.{AllSubs, tracks}
use omashu.Txn.Tracked.Steps.{Op, perform_all, performed-IsTracked}
use omashu.Txn.Tracked.Ends.{
  Ending, nothing, refused, decided, open_commit, commit_ends, committed_command,
}
use omashu.Distributed.Propose.{
  Propose, proposed_as, propose_command, propose_and_wait, answered, new_transaction,
}

pub some-eq : {A : Type 0} {x y : A} → some x ≡ some y → x ≡ y
some-eq h = cc

proposed_as-eq-some :
    (id : Bytes) (answer : Option (Result (Unit {0}))) (r : Result Bytes) {p : Propose}
    {x : Result (Unit {0})}
    → proposed_as id answer r ≡ (some p, x)
    → (r ≡ ok p.cmd) × (p.cmd_id ≡ id) × (x ≡ answered answer)
proposed_as-eq-some id answer (ok bytes) h =
    let same = some-eq (ap (λ y. y.0) h) in
    (ap (λ q. ok q.cmd) same, sym (ap (λ q. q.cmd_id) same), sym (ap (λ y. y.1) h))
proposed_as-eq-some id answer (err e) h = cc (ap (λ y. y.0) h)
proposed_as-eq-some id answer panic h = cc (ap (λ y. y.0) h)

module _ (w : WaterMark) where
  discard_released :
      (s : Tso w) (t : Txn)
      → t.discarded ≡ false
      → has_reader (discard w s t).0.readers t.read_ts ≡ false
  unfolding discard done_read
  discard_released s t h = elim (Bool-cases (has_reader s.readers t.read_ts)) [
    | inl there ↦ simp (h, there, has_reader-delete_self s.readers t.read_ts)
    | inr gone ↦ simp (h, gone)
  ]

  Ending-keeps :
      (s : Tso w) (t : Txn) (clock : List ℕ) (m : Tso w × Txn × Result (Option Command))
      → Ending w s t clock m
      → (m.1.discarded ≡ t.discarded) × (m.1.read_ts ≡ t.read_ts)
  Ending-keeps s t clock m (nothing _) = (refl, refl)
  Ending-keeps s t clock m (refused _) = (refl, refl)
  Ending-keeps s t clock m (decided (none, s', rest) _ _) = (refl, refl)
  Ending-keeps s t clock m (decided (some ts, s', rest) _ _) = (refl, refl)

  -- The deferred Discard of a call that has not discarded its transaction gives the timestamp back.
  deferred_released :
      (m : Tso w × Txn × Result (Option Command)) (ts : ℕ)
      → m.1.discarded ≡ false
      → m.1.read_ts ≡ ts
      → has_reader (deferred w m).0.readers ts ≡ false
  deferred_released (s, t, r) ts h at = rw⁻¹ at (discard_released s t h)

  commit_released :
      (s : Tso w) (t : Txn) (clock : List ℕ) {e : Tso w × Txn × Result (Option Command)}
      → t.discarded ≡ false
      → commit w s t clock ≡ some e
      → has_reader e.0.readers t.read_ts ≡ false
  commit_released s t clock h found =
      let (m, ending, e) = open_commit w s t clock h found in
      let (kept, at) = Ending-keeps s t clock m ending in
      rw e (deferred_released m t.read_ts (kept ∙ h) at)

  -- The caller's own deferred Discard finds the transaction discarded.
  deferred_over :
      (s : Tso w) (t : Txn) (clock : List ℕ) {e : Tso w × Txn × Result (Option Command)}
      → t.discarded ≡ false
      → commit w s t clock ≡ some e
      → (deferred w e).0 ≡ e.0
  deferred_over s t clock {e} h found = ap (λ x. x.0) ((commit_ends w s t clock clock found).1)

module _ (w : WaterMark) (encode : Command → Result Bytes) (answer : Option (Result (Unit {0})))
    (b : BadgerApi) (codec : Codec) where
  -- The call of NewTransaction whose performOps makes these calls and succeeds.
  abbrev pub transact :
      Tso w
      → Bytes
      → Bytes
      → Others w
      → (Tso w → Tso w)
      → List (Op b codec)
      → List ℕ
      → Option (Tso w × Option Propose × Result (Unit {0}))
  transact s id cmd_id others meanwhile ops clock =
      new_transaction w encode answer true s id cmd_id true others meanwhile
        (λ t. (perform_all b codec ops t, ok tt)) clock

  -- The transaction at its commit.
  abbrev pub performed : Tso w → Bytes → Bytes → List (Op b codec) → Txn
  performed s id cmd_id ops =
      perform_all b codec ops (new_txn_value id cmd_id (compose s.current) true)

  propose_command-eq-some :
      (t : Txn) (r : Result (Option Command)) {p : Propose} {x : Result (Unit {0})}
      → propose_command w encode answer t r ≡ (some p, x)
      → (c : Command) × (r ≡ ok (some c))
        × (encode c ≡ ok p.cmd)
        × (p.cmd_id ≡ (fields c).id)
        × (x ≡ answered answer)
  unfolding propose_and_wait
  propose_command-eq-some t (ok none) h = cc (ap (λ x. x.0) h)
  propose_command-eq-some t (err e) h = cc (ap (λ x. x.0) h)
  propose_command-eq-some t panic h = cc (ap (λ x. x.0) h)
  propose_command-eq-some t (ok (some c)) h =
      let (encoded, routed, returned) = proposed_as-eq-some (fields c).id answer (encode c) h in
      (c, refl, encoded, routed, returned)

  transact-eq-some :
      (s : Tso w) (id cmd_id : Bytes) (others : Others w) (meanwhile : Tso w → Tso w)
      (ops : List (Op b codec)) (clock : List ℕ) {s' : Tso w} {sent : Option Propose}
      {r : Result (Unit {0})}
      → transact s id cmd_id others meanwhile ops clock ≡ some (s', sent, r)
      → (e : Tso w × Txn × Result (Option Command)) × (commit w
            (meanwhile (begin_read w others s).0)
            (performed s id cmd_id ops)
            clock
          ≡ some e)
        × (s' ≡ (deferred w e).0)
        × ((sent, r) ≡ propose_command w encode answer (deferred w e).1 e.2)
  unfolding new_transaction begin_txn read_ts begin_read reserve_read mark_read current_read_ts
  transact-eq-some s id cmd_id others meanwhile ops clock h =
      let (e, found, h') =
        >>=-eq-some
          (commit w (meanwhile (begin_read w others s).0) (performed s id cmd_id ops) clock) _ h in
      (e, found, sym (ap (λ x. x.0) (some-eq h')), sym (ap (λ x. (x.1, x.2)) (some-eq h')))

  -- On the leader, when performOps makes any reads and writes of the transaction and returns nil,
  -- and whatever else happens to the oracle meanwhile: however NewTransaction then ends, with a
  -- proposal, an error or a panic, the oracle counts no reader at its read timestamp any more.
  pub transaction_released :
      (s : Tso w) (id cmd_id : Bytes) (others : Others w) (meanwhile : Tso w → Tso w)
      (ops : List (Op b codec)) (clock : List ℕ) {s' : Tso w} {sent : Option Propose}
      {r : Result (Unit {0})}
      → transact s id cmd_id others meanwhile ops clock ≡ some (s', sent, r)
      → has_reader s'.readers (compose s.current) ≡ false
  transaction_released s id cmd_id others meanwhile ops clock h =
      let (e, found, after, _) = transact-eq-some s id cmd_id others meanwhile ops clock h in
      let (_, _, _, _, _, same, is_open) =
        performed-IsTracked b codec ops id cmd_id (compose s.current) true in
      let over =
        deferred_over w (meanwhile (begin_read w others s).0) (performed s id cmd_id ops) clock
          is_open found in
      rw (after, over)
        (rw same at (
          commit_released w (meanwhile (begin_read w others s).0) (performed s id cmd_id ops) clock
            is_open found))

  -- On the leader, when performOps makes any reads and writes of the transaction and returns nil,
  -- and whatever else happens to the oracle meanwhile: what NewTransaction proposes, if it proposes
  -- anything, is the encoding of a TRANSACTION command with all the sub-commands that were
  -- buffered, at its read timestamp and at a commit timestamp under which the oracle remembers the
  -- key of each of them that has one; and it returns the answer to that proposal.
  pub transaction_proposes :
      (s : Tso w) (id cmd_id : Bytes) (others : Others w) (meanwhile : Tso w → Tso w)
      (ops : List (Op b codec)) (clock : List ℕ) {s' : Tso w} {p : Propose} {r : Result (Unit {0})}
      → transact s id cmd_id others meanwhile ops clock ≡ some (s', some p, r)
      → (c : Command) × (encode c ≡ ok p.cmd)
        × (p.cmd_id ≡ (fields c).id)
        × (r ≡ answered answer)
        × ((fields c).type ≡ transaction)
        × ((fields c).read_ts ≡ compose s.current)
        × (sub_commands c ≡ sub_commands (performed s id cmd_id ops).cmd)
        × (older : List CommittedTxn) × (keys : List Bytes) × (s'.committed_txns
            ≡ older ++ record { ts = (fields c).commit_ts; conflict_keys = keys } ∷ [])
        × AllSubs (λ sub. tracks keys sub ≡ true) (sub_commands c)
  transaction_proposes s id cmd_id others meanwhile ops clock h =
      let (e, found, after, sent) = transact-eq-some s id cmd_id others meanwhile ops clock h in
      let tracked = performed-IsTracked b codec ops id cmd_id (compose s.current) true in
      let (c, made, encoded, routed, returned) =
        propose_command-eq-some (deferred w e).1 e.2 (sym sent) in
      let (kind, at, subs, _, _, older, keys, remembered, all) =
        committed_command w (meanwhile (begin_read w others s).0) (performed s id cmd_id ops) clock
          tracked (found ∙ ap (λ x. some (e.0, e.1, x)) made) in
      let (_, _, _, _, _, same, is_open) = tracked in
      let over =
        deferred_over w (meanwhile (begin_read w others s).0) (performed s id cmd_id ops) clock
          is_open found in
      (
        c,
        encoded,
        routed,
        returned,
        kind,
        at ∙ same,
        subs,
        older,
        keys,
        ap (λ (x : Tso w). x.committed_txns) (after ∙ over) ∙ remembered,
        all,
      )

  -- On the leader, when performOps buffers and writes nothing and returns nil, NewTransaction
  -- panics and proposes nothing.
  pub empty_transaction_panics :
      (s : Tso w) (id cmd_id : Bytes) (others : Others w) (meanwhile : Tso w → Tso w)
      (ops : List (Op b codec)) (clock : List ℕ)
      → has_nothing (performed s id cmd_id ops) ≡ true
      → (s' : Tso w) × (transact s id cmd_id others meanwhile ops clock ≡ some (s', none, panic))
  unfolding new_transaction begin_txn read_ts begin_read reserve_read mark_read current_read_ts
      commit
  empty_transaction_panics s id cmd_id others meanwhile ops clock h =
      let (_, _, _, _, _, _, is_open) =
        performed-IsTracked b codec ops id cmd_id (compose s.current) true in
      (
        (deferred w (
            deferred w
              (meanwhile (begin_read w others s).0, performed s id cmd_id ops, ok none))).0,
        rw (is_open, h) refl,
      )
