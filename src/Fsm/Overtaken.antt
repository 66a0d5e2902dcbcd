-- ===== src/Fsm/Overtaken.antt =====
-- Two commands of fsm.go on one key, the second with a snapshot from before the first.
use omashu.Base.{ℕ, ◌<◌, ◌≡◌, refl, ap, ◌∙◌, Bool, true, false, lt→ltb, fun_ext, if◌then◌else◌}
use omashu.Base.Bytes.{Bytes, bytes_eq, bytes_eq_refl}
use omashu.Errors.{conflict, Result, ok, err}
use omashu.Types.{Fields, command, Commands}
use omashu.Types.Delta.{Codec}
use omashu.Badger.Api.{BadgerApi, Ctx}
use omashu.Badger.Laws.{View, StoreLaws}
use omashu.Fsm.{apply_command}
use omashu.Fsm.Spec.{spec_sub_command}
use omashu.Fsm.Footprint.{is_reading, is_single}
use omashu.Fsm.Commit.{Outcome, newest}
use omashu.Fsm.Batch.{apply_single-Outcome, stale_single_refused}

module _ (b : BadgerApi) (laws : StoreLaws b) (codec : Codec) (ctx : Ctx) where
  open b use {Db}
  open laws use {look, latest, written_after}

  succeeds :
      (d : Db) (ts : ℕ) (w : Bytes → Bool) (s : Result View) (r : Result Db) (u : View)
      → s ≡ ok u
      → Outcome b laws d ts w s r
      → Outcome b laws d ts w (ok u) r
  succeeds d ts w s r u e h = rw e at h

  -- On a database that has the laws of BadgerDB: when a command that writes a key has been applied
  -- with success, above every earlier commit and with a key not written after its snapshot if it reads
  -- it, an INCR_BY, DECR_BY or UPDATE command on that key with a snapshot from before that commit,
  -- which succeeds on its snapshot as specified, is refused with ErrConflict.
  pub overtaken_refused :
      (d : Db) (first second : Fields) (subs subs' : Commands) (u v : View)
      → is_single first.type ≡ true
      → latest d < first.commit_ts
      → first.read_ts < first.commit_ts
      → (is_reading first.type ≡ true → written_after d first.read_ts first.key ≡ false)
      → spec_sub_command b codec first.type first (newest b laws d) ≡ ok u
      → is_reading second.type ≡ true
      → second.key ≡ first.key
      → second.read_ts < first.commit_ts
      → spec_sub_command b codec second.type second (look d second.read_ts) ≡ ok v
      → (d' : Db) × (apply_command b codec ctx d (command first subs) ≡ ok d')
        × (apply_command b codec ctx d' (command second subs') ≡ err conflict)
  overtaken_refused d first second subs subs' u v single above below fresh done reading same before
        specified =
      let (d', applied, seen, _, after) =
        succeeds d first.commit_ts (bytes_eq first.key) _ _ u done
          (apply_single-Outcome b laws codec ctx d first subs single above below fresh) in
      let snapshot : look d' second.read_ts ≡ look d second.read_ts = fun_ext (λ k.
        seen second.read_ts k
        ∙ ap (λ x. if x then look d second.read_ts k else u k) (lt→ltb _ _ before)) in
      (
        d',
        applied,
        stale_single_refused b laws codec ctx d' second subs' v reading
            (ap (spec_sub_command b codec second.type second) snapshot ∙ specified)
            (after second.read_ts second.key
              ∙ (rw (same, lt→ltb _ _ before, bytes_eq_refl first.key) refl)),
      )
