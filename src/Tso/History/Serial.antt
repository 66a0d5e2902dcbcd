-- ===== src/Tso/History/Serial.antt =====
-- Every history that the oracle of tso.go lets through is serial.
use omashu.Base.{ℕ, ◌≤◌, ◌<◌, ◌≡◌, refl, ◌∙◌, false, List, [], ◌∷◌, arith, All, map}
use omashu.Tso.Stamp.{compose}
use omashu.Tso.Marks.{WaterMark, WaterMarkLaws}
use omashu.Tso.State.{Tso, has_key, CommittedTxn, discard_at}
use omashu.Tso.Conflict.{has_conflict-any, has_conflict-NoStaleRead_iff}
use omashu.Tso.History.Invariant.{Inv, Step-Inv}
use omashu.Tso.Readers.{count}
use omashu.Tso.History.{
  Commit, as_committed, IsSerial, HasPassed, System, Reach, here, next, InOrder,
}

All-of_map {ℓ} :
    {A B : Type 0} (P : B → Type ℓ) (f : A → B) (xs : List A)
    → All P (map f xs)
    → All (λ x. P (f x)) xs
All-of_map P f [] h = tt
All-of_map P f (x ∷ xs) h = (h.0, All-of_map P f xs h.1)

HasPassed-IsSerial : (history : List Commit) → HasPassed history → IsSerial history
HasPassed-IsSerial [] h = tt
HasPassed-IsSerial (c ∷ older) (passed, after, rising, rest) = (
  All-of_map
      (λ (x : CommittedTxn).
        c.read_at < x.ts → All (λ key. has_key x.conflict_keys key ≡ false) c.reads)
      as_committed older
      ((has_conflict-NoStaleRead_iff (map as_committed older) c.reads c.read_at).0
        (has_conflict-any (map as_committed older) c.reads c.read_at ∙ passed)),
  after,
  rising,
  HasPassed-IsSerial older rest,
)

module _ (w : WaterMark) (laws : WaterMarkLaws w) where
  Reach-Inv : {s t : System w} (run : Reach w s t) → InOrder w run → Inv w laws s → Inv w laws t
  Reach-Inv here order h = h
  Reach-Inv (next run step) order h = Step-Inv w laws step order.1 (Reach-Inv run order.0 h)

  -- An oracle that has served nobody: its read mark is at or below its current timestamp.
  abbrev pub IsFresh : Tso w → Type 0
  IsFresh t =
      (t.readers ≡ [])
      × (t.committed_txns ≡ [])
      × (t.last_cleanup_ts ≡ 0)
      × laws.Below t.read_mark (compose t.current)

  fresh-Inv :
      (t : Tso w)
      → IsFresh t
      → Inv w laws (record { tso = t; reserved = []; active = []; history = [] })
  fresh-Inv t (readers, commits, cleanup, below) = record {
    marked = record {
      marks = λ r. omega arith;
      safe = λ r p. absurd (omega arith);
      cleaned = omega (arith, cleanup);
      below = below;
      active_below = λ r p. absurd (omega arith);
    };
    reserved_below = λ r p. absurd (omega arith);
    over = tt;
    covers = λ reads r p. rw commits refl;
    serial = tt;
  }

  -- From a fresh oracle, when each commit timestamp is above the timestamp current before it, and the
  -- read mark has not passed the timestamp of a ReadTs when that begins it: whatever transactions
  -- begin, commit, are refused, discarded or discarded again, in whatever order, and whatever comes
  -- between the mutex and the read mark of a ReadTs, no commit that was let through has read a key that
  -- an older commit, later than its read timestamp, has written, and the timestamps of the commits rise.
  pub serializable :
      (t : Tso w) (s : System w)
      → IsFresh t
      → (run : Reach w (record { tso = t; reserved = []; active = []; history = [] }) s)
      → InOrder w run
      → IsSerial s.history
  serializable t s f run order =
      HasPassed-IsSerial s.history (Reach-Inv run order (fresh-Inv t f)).serial

  -- From a fresh oracle, when each commit timestamp is above the timestamp current before it, and the
  -- read mark has not passed the timestamp of a ReadTs when that begins it: in every state that is
  -- reached the read mark, up to which old versions may be dropped, is at or below the read timestamp
  -- of every transaction that has begun it and not ended.
  pub discard_safe :
      (t : Tso w) (s : System w) (r : ℕ)
      → IsFresh t
      → (run : Reach w (record { tso = t; reserved = []; active = []; history = [] }) s)
      → InOrder w run
      → 0 < count r s.active
      → discard_at w s.tso ≤ r
  unfolding discard_at
  discard_safe t s r f run order p = (Reach-Inv run order (fresh-Inv t f)).marked.safe r p
