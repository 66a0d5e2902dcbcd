-- ===== src/Fsm/Log.antt =====
-- A log of TRANSACTION commands as fsm.go applies it, one command after the other.
use omashu.Base.{
  ℕ, ◌<◌, ◌≡◌, refl, ap, ◌∙◌, inl, inr, Bool, true, false, ◌||◌, ◌&&◌, List, [], ◌∷◌, arith, ltb,
  Bool-cases, All, fun_ext, if◌then◌else◌, le→not_ltb, ltb→lt, subst,
}
use omashu.Base.Bytes.{Bytes}
use omashu.Errors.{Result, ok, err, panic, ◌>>=◌}
use omashu.Types.{transaction, Fields, command, Commands}
use omashu.Types.Delta.{Codec}
use omashu.Badger.Api.{BadgerApi, Ctx}
use omashu.Badger.Laws.{View, StoreLaws}
use omashu.Fsm.{apply_command}
use omashu.Fsm.Spec.{spec_sub_commands}
use omashu.Fsm.Footprint.{touches, reads}
use omashu.Fsm.Commit.{Outcome, newest}
use omashu.Fsm.Batch.{and-eq-true, apply_transaction-Outcome}

-- A command of the log, with its sub-commands.
pub record Logged : Type 0 where
  pub cmd : Fields
  pub subs : Commands

-- No command in `before` that was committed after the snapshot of `c` has written what `c` reads.
abbrev pub NotStale : Logged → List Logged → Type 0
NotStale c = All (λ o.
    (k : Bytes)
    → c.cmd.read_ts < o.cmd.commit_ts
    → touches o.subs k ≡ true
    → reads c.subs k ≡ false)

-- `c` may be applied after the commands `before`, the newest first.
pub record Follows (c : Logged) (before : List Logged) : Type 0 where
  pub is_transaction : c.cmd.type ≡ transaction
  pub reads_below : c.cmd.read_ts < c.cmd.commit_ts
  pub increases : All (λ o. o.cmd.commit_ts < c.cmd.commit_ts) before
  pub not_stale : NotStale c before

abbrev pub IsLog : List Logged → List Logged → Type 0
IsLog before [] = Unit
IsLog before (c ∷ cs) = Follows c before × IsLog (c ∷ before) cs

-- A command of the log committed after `at` has written the key.
abbrev log_wrote : List Logged → ℕ → Bytes → Bool
log_wrote [] at k = false
log_wrote (o ∷ os) at k = (ltb at o.cmd.commit_ts && touches o.subs k) || log_wrote os at k

module _ (b : BadgerApi) (codec : Codec) (ctx : Ctx) where
  open b use {Db}

  -- The committed commands of a log, applied in its order.
  abbrev pub apply_log : Db → List Logged → Result Db
  apply_log d [] = ok d
  apply_log d (c ∷ cs) =
      apply_command b codec ctx d (command c.cmd c.subs) >>= λ d'. apply_log d' cs

  -- The commands run one at a time, each on all that the ones before it have left.
  abbrev pub run_serially : View → List Logged → Result View
  run_serially v [] = ok v
  run_serially v (c ∷ cs) = spec_sub_commands b codec c.subs v >>= λ u. run_serially u cs

module _ (b : BadgerApi) (laws : StoreLaws b) (codec : Codec) (ctx : Ctx) where
  open b use {Db}
  open laws use {look, latest, written_after, written_after-latest}

  -- A database after the commands `before`, the newest first, with the newest values `v`.
  record Inv (d : Db) (before : List Logged) (v : View) : Type 0 where
    values : newest b laws d ≡ v
    written : (at : ℕ) (k : Bytes) → written_after d at k ≡ log_wrote before at k
    last : (ts : ℕ) → 0 < ts → All (λ (o : Logged). o.cmd.commit_ts < ts) before → latest d < ts

  fresh_reads :
      (c : Logged) (before : List Logged) (k : Bytes)
      → NotStale c before
      → reads c.subs k ≡ true
      → log_wrote before c.cmd.read_ts k ≡ false
  fresh_reads c [] k h r = refl
  fresh_reads c (o ∷ os) k (now, rest) r =
      elim (Bool-cases (ltb c.cmd.read_ts o.cmd.commit_ts && touches o.subs k)) [
        | inl both ↦
            let (later, touched) = and-eq-true _ _ both in
            let never : reads c.subs k ≡ false = now k (ltb→lt _ _ later) touched in cc
        | inr not_both ↦ rw (not_both, fresh_reads c os k rest r) refl
      ]

  -- A new command changes the newest values as it is specified on them.
  after_Outcome :
      (d : Db) (c : Logged) (before : List Logged) (v u : View) (d' : Db)
      → Inv d before v
      → ((at : ℕ) (k : Bytes)
          → look d' at k ≡ (if ltb at c.cmd.commit_ts then look d at k else u k))
      → latest d' ≡ c.cmd.commit_ts
      → ((at : ℕ) (k : Bytes)
          → written_after d' at k
            ≡ ((ltb at c.cmd.commit_ts && touches c.subs k) || written_after d at k))
      → Inv d' (c ∷ before) u
  after_Outcome d c before v u d' inv seen now after = record {
    values = fun_ext (λ k.
        seen (latest d') k
        ∙ ap (λ x. if x then look d (latest d') k else u k)
            (le→not_ltb (latest d') c.cmd.commit_ts (omega (arith, now))));
    written = λ at k.
        after at k ∙ ap (λ x. (ltb at c.cmd.commit_ts && touches c.subs k) || x) (inv.written at k);
    last = λ ts p h. omega (arith, now, h.0);
  }

  -- A result of applying commands as it is specified: the specified newest values, or the specified
  -- failure.
  abbrev pub Implements : Result View → Result Db → Type 0
  Implements (ok v) r = (d' : Db) × (r ≡ ok d') × (newest b laws d' ≡ v)
  Implements (err e) r = r ≡ err e
  Implements panic r = r ≡ panic

  Implements-then :
      (d : Db) (c : Logged) (before cs : List Logged) (v : View) (s : Result View) (r : Result Db)
      → Inv d before v
      → Outcome b laws d c.cmd.commit_ts (touches c.subs) s r
      → ((d' : Db) (u : View)
          → Inv d' (c ∷ before) u
          → Implements (run_serially b codec ctx u cs) (apply_log b codec ctx d' cs))
      → Implements
          (s >>= λ u. run_serially b codec ctx u cs)
          (r >>= λ d'. apply_log b codec ctx d' cs)
  Implements-then d c before cs v (ok u) r inv (d', done, seen, now, after) rest =
      rw done (rest d' u (after_Outcome d c before v u d' inv seen now after))
  Implements-then d c before cs v (err e) r inv failed rest = rw failed refl
  Implements-then d c before cs v panic r inv failed rest = rw failed refl

  run_all :
      (d : Db) (before log : List Logged) (v : View)
      → Inv d before v
      → IsLog before log
      → Implements (run_serially b codec ctx v log) (apply_log b codec ctx d log)
  run_all d before [] v inv h = (d, refl, inv.values)
  run_all d before (c ∷ cs) v inv (follows, more) =
      Implements-then d c before cs v (spec_sub_commands b codec c.subs v) _ inv
        (subst
          (λ w.
            Outcome b laws d c.cmd.commit_ts (touches c.subs) (spec_sub_commands b codec c.subs w)
              (apply_command b codec ctx d (command c.cmd c.subs)))
          inv.values
          (apply_transaction-Outcome b laws codec ctx d c.cmd c.subs follows.is_transaction
            (inv.last c.cmd.commit_ts (omega (arith, follows.reads_below)) follows.increases)
            follows.reads_below
            (λ k r. inv.written c.cmd.read_ts k ∙ fresh_reads c before k follows.not_stale r)))
        (λ d' u inv'. run_all d' (c ∷ before) cs u inv' more)

  -- On an empty database that has the laws of BadgerDB: when the TRANSACTION commands of a log have
  -- rising commit timestamps, each above its read timestamp, and none reads a key before it writes it
  -- that a command committed between its two timestamps has written, applying the log in its order
  -- leaves the newest values that the commands leave when they run one at a time, each on all that
  -- the ones before it have left; the first failure that is specified for that run is the result.
  pub log_serial :
      (d : Db) (log : List Logged)
      → latest d ≡ 0
      → IsLog [] log
      → Implements (run_serially b codec ctx (newest b laws d) log) (apply_log b codec ctx d log)
  log_serial d log empty h =
      run_all d [] log (newest b laws d)
        (record {
          values = refl;
          written = λ at k. written_after-latest d at k (omega (arith, empty));
          last = λ ts p h. omega (arith, empty, p);
        })
        h
