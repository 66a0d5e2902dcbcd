-- ===== src/Fsm/Batch.antt =====
-- What applying a command does to the database: all of it or nothing, at one timestamp.
use omashu.Base.{ℕ, ◌<◌, ◌≡◌, refl, ap, subst, ◌∙◌, Bool, true, false, ◌&&◌, some, arith, fun_ext}
use omashu.Base.Bytes.{Bytes, bytes_eq, bytes_eq-eq, bytes_eq_refl}
use omashu.Errors.{conflict, Result, ok, err, panic}
use omashu.Types.{
  CommandType, set, delete, decr_by, incr_by, update, unknown, transaction, delete_by_prefix,
  Fields, command, Commands,
}
use omashu.Types.Delta.{Codec}
use omashu.Badger.Api.{BadgerApi, Ctx}
use omashu.Badger.Writes.{new_txn_at}
use omashu.Badger.Laws.{View, StoreLaws, Refines}
use omashu.Fsm.{apply_sub_commands, sub_command_as, op_as, apply_command}
use omashu.Fsm.Footprint.{
  is_single, is_reading, touches, reads, Notes, sub_command-Notes, sub_commands-Notes,
}
use omashu.Fsm.Agree.{AllAlike, Alike, sub_command-Alike, sub_commands-AllAlike}
use omashu.Fsm.Commit.{
  Outcome, newest, current_read, IsClean, committed-Outcome, committed-conflict,
}
use omashu.Fsm.Spec.{spec_sub_command, spec_sub_commands, sub_command-Refines, sub_commands-Refines}

reading_single : (type : CommandType) → is_reading type ≡ true → is_single type ≡ true
reading_single incr_by h = refl
reading_single decr_by h = refl
reading_single update h = refl
reading_single _ h = cc

single-Alike :
    (key : Bytes) (u v : View) (x y : Result View)
    → Alike key u v x y
    → AllAlike (bytes_eq key) u v x y
single-Alike key u v (ok u') (ok v') (here, away) =
    (λ j e. subst (λ k. u' k ≡ v' k) (bytes_eq-eq key j e) here, away)
single-Alike key u v (err e) (err e') h = h
single-Alike key u v panic panic h = tt
single-Alike key u v (ok u') (err e) h = absurd h
single-Alike key u v (ok u') panic h = absurd h
single-Alike key u v (err e) (ok v') h = absurd h
single-Alike key u v (err e) panic h = absurd h
single-Alike key u v panic (ok v') h = absurd h
single-Alike key u v panic (err e) h = absurd h

pub and-eq-true : (p q : Bool) → (p && q) ≡ true → (p ≡ true) × (q ≡ true)
and-eq-true true true h = (refl, refl)
and-eq-true true false h = cc
and-eq-true false q h = cc

module _ (b : BadgerApi) (laws : StoreLaws b) where
  open b use {Db, Tx, new_transaction_at, commit_at}
  open laws use {
    view, look, latest, opened_at, written_after, view-open, opened_at-open, wrote-open,
    has_read-open,
  }

  opened : (d : Db) (r : ℕ) → view (new_transaction_at d r true) ≡ look d r
  opened d r = fun_ext (view-open d r)

  -- An operation of newTransactionAt that writes the keys `w`, reads the keys `rd`, and refines a
  -- specification for which only these reads matter.
  module _ (d : Db) (read_ts ts : ℕ) (op : Tx → Result Tx) (spec : View → Result View)
      (w rd : Bytes → Bool) (refines : (t : Tx) → Refines b laws t (op t) (spec (view t)))
      (notes : (t : Tx) → Notes b laws t w rd (op t)) where
    clean : IsClean b laws (new_transaction_at d read_ts true)
    clean k = (wrote-open d read_ts k, has_read-open d read_ts k)

    new_txn_at-Outcome :
        ((u v : View) → ((k : Bytes) → rd k ≡ true → u k ≡ v k) → AllAlike w u v (spec u) (spec v))
        → latest d < ts
        → read_ts < ts
        → ((k : Bytes) → rd k ≡ true → written_after d read_ts k ≡ false)
        → Outcome b laws d ts w (spec (newest b laws d)) (new_txn_at b d read_ts ts op)
    unfolding new_txn_at
    new_txn_at-Outcome alike above below fresh =
        let t : Tx = new_transaction_at d read_ts true in
        committed-Outcome b laws d t ts w rd (op t) (spec (view t)) (spec (newest b laws d)) clean
          above (omega (arith, below, opened_at-open d read_ts))
          (λ k r. ap (λ at. written_after d at k) (opened_at-open d read_ts) ∙ fresh k r)
          (refines t) (notes t)
          (alike (view t) (newest b laws d)
            (λ k r. view-open d read_ts k ∙ current_read b laws d read_ts k (fresh k r)))

    new_txn_at-conflict :
        (v : View) (k : Bytes)
        → spec (look d read_ts) ≡ ok v
        → rd k ≡ true
        → written_after d read_ts k ≡ true
        → new_txn_at b d read_ts ts op ≡ err conflict
    unfolding new_txn_at
    new_txn_at-conflict v k specified reads_k later =
        let t : Tx = new_transaction_at d read_ts true in
        committed-conflict b laws d t ts w rd (op t) v k clean reads_k
          (ap (λ at. written_after d at k) (opened_at-open d read_ts) ∙ later)
          (subst (Refines b laws t (op t)) (ap spec (opened d read_ts) ∙ specified) (refines t))
          (notes t)

  -- On a database that has the laws of BadgerDB, a TRANSACTION command with a commit timestamp above
  -- every applied one and above its read timestamp, whose keys that it reads before it writes them
  -- were not written after its snapshot, is applied as a whole or not at all, whatever else was
  -- committed since: reads from the commit timestamp on see what its sub-commands, one after the
  -- other, specify on the newest values, reads below it see what they saw, and when a sub-command
  -- specifies an error or a panic, that is the result. On success the keys of its sub-commands, and
  -- no others, count as written at the commit timestamp.
  pub apply_transaction-Outcome :
      (codec : Codec) (ctx : Ctx) (d : Db) (cmd : Fields) (subs : Commands)
      → cmd.type ≡ transaction
      → latest d < cmd.commit_ts
      → cmd.read_ts < cmd.commit_ts
      → ((k : Bytes) → reads subs k ≡ true → written_after d cmd.read_ts k ≡ false)
      → Outcome b laws d cmd.commit_ts
          (touches subs)
          (spec_sub_commands b codec subs (newest b laws d))
          (apply_command b codec ctx d (command cmd subs))
  unfolding apply_command
  apply_transaction-Outcome codec ctx d cmd subs kind above below fresh = rw kind (
      new_txn_at-Outcome d cmd.read_ts cmd.commit_ts (apply_sub_commands b codec subs)
        (spec_sub_commands b codec subs) (touches subs) (reads subs)
        (sub_commands-Refines b laws codec subs) (sub_commands-Notes b laws codec subs)
        (sub_commands-AllAlike b codec subs) above below fresh)

  -- On a database that has the laws of BadgerDB, a TRANSACTION command that reads a key before it
  -- writes it, where the key was written after its snapshot, and whose sub-commands are specified
  -- without an error on that snapshot, is refused with ErrConflict.
  pub stale_transaction_refused :
      (codec : Codec) (ctx : Ctx) (d : Db) (cmd : Fields) (subs : Commands) (v : View) (k : Bytes)
      → cmd.type ≡ transaction
      → spec_sub_commands b codec subs (look d cmd.read_ts) ≡ ok v
      → reads subs k ≡ true
      → written_after d cmd.read_ts k ≡ true
      → apply_command b codec ctx d (command cmd subs) ≡ err conflict
  unfolding apply_command
  stale_transaction_refused codec ctx d cmd subs v k kind specified reads_k later = rw kind (
      new_txn_at-conflict d cmd.read_ts cmd.commit_ts (apply_sub_commands b codec subs)
        (spec_sub_commands b codec subs) (touches subs) (reads subs)
        (sub_commands-Refines b laws codec subs) (sub_commands-Notes b laws codec subs) v k
        specified reads_k later)

  single_op :
      (codec : Codec) (ctx : Ctx) (type : CommandType) (cmd : Fields) (subs : Commands)
      → is_single type ≡ true
      → op_as b codec type ctx cmd subs ≡ some (sub_command_as b codec type cmd)
  single_op codec ctx set cmd subs h = refl
  single_op codec ctx update cmd subs h = refl
  single_op codec ctx delete cmd subs h = refl
  single_op codec ctx incr_by cmd subs h = refl
  single_op codec ctx decr_by cmd subs h = refl
  single_op codec ctx unknown cmd subs h = cc
  single_op codec ctx transaction cmd subs h = cc
  single_op codec ctx delete_by_prefix cmd subs h = cc

  -- On a database that has the laws of BadgerDB, a SET, UPDATE, DELETE, INCR_BY or DECR_BY command
  -- with a commit timestamp above every applied one and above its read timestamp, whose key was not
  -- written after its snapshot unless it is a SET or a DELETE, is applied as it is specified for a
  -- sub-command on the newest values: reads from the commit timestamp on see the specified change,
  -- reads below it see what they saw, and an error or a panic that is specified is the result. On
  -- success its key, and no other, counts as written at the commit timestamp.
  pub apply_single-Outcome :
      (codec : Codec) (ctx : Ctx) (d : Db) (cmd : Fields) (subs : Commands)
      → is_single cmd.type ≡ true
      → latest d < cmd.commit_ts
      → cmd.read_ts < cmd.commit_ts
      → (is_reading cmd.type ≡ true → written_after d cmd.read_ts cmd.key ≡ false)
      → Outcome b laws d cmd.commit_ts
          (bytes_eq cmd.key)
          (spec_sub_command b codec cmd.type cmd (newest b laws d))
          (apply_command b codec ctx d (command cmd subs))
  unfolding apply_command
  apply_single-Outcome codec ctx d cmd subs single above below fresh =
      rw (single_op codec ctx cmd.type cmd subs single) (
        new_txn_at-Outcome d cmd.read_ts cmd.commit_ts (sub_command_as b codec cmd.type cmd)
          (spec_sub_command b codec cmd.type cmd) (bytes_eq cmd.key)
          (λ k. is_reading cmd.type && bytes_eq cmd.key k)
          (sub_command-Refines b laws codec cmd.type cmd)
          (sub_command-Notes b laws codec cmd.type cmd)
          (λ u v h. single-Alike cmd.key u v _ _ (
            sub_command-Alike b codec cmd.type cmd u v
              (λ r. h cmd.key (rw (r, bytes_eq_refl cmd.key) refl))))
          above below
          (λ k r.
            let (reading, here) = and-eq-true (is_reading cmd.type) (bytes_eq cmd.key k) r in
            subst (λ j. written_after d cmd.read_ts j ≡ false) (bytes_eq-eq cmd.key k here)
              (fresh reading)))

  -- On a database that has the laws of BadgerDB, an INCR_BY, DECR_BY or UPDATE command whose key was
  -- written after its snapshot, and that is specified without an error on that snapshot, is refused
  -- with ErrConflict.
  pub stale_single_refused :
      (codec : Codec) (ctx : Ctx) (d : Db) (cmd : Fields) (subs : Commands) (v : View)
      → is_reading cmd.type ≡ true
      → spec_sub_command b codec cmd.type cmd (look d cmd.read_ts) ≡ ok v
      → written_after d cmd.read_ts cmd.key ≡ true
      → apply_command b codec ctx d (command cmd subs) ≡ err conflict
  unfolding apply_command
  stale_single_refused codec ctx d cmd subs v reading specified later =
      rw (single_op codec ctx cmd.type cmd subs (reading_single cmd.type reading)) (
        new_txn_at-conflict d cmd.read_ts cmd.commit_ts (sub_command_as b codec cmd.type cmd)
          (spec_sub_command b codec cmd.type cmd) (bytes_eq cmd.key)
          (λ k. is_reading cmd.type && bytes_eq cmd.key k)
          (sub_command-Refines b laws codec cmd.type cmd)
          (sub_command-Notes b laws codec cmd.type cmd) v cmd.key specified
          (rw (reading, bytes_eq_refl cmd.key) refl) later)
