-- ===== src/Tso/History/Kept.antt =====
-- Two parts of what the oracle of tso.go keeps, call by call: the commits of a history are over, and the
-- commits that are still remembered give the verdict of the whole history.
use omashu.Base.{
  ℕ, ◌≤◌, ◌<◌, ◌≡◌, ◌∙◌, inl, inr, Bool, false, ◌||◌, List, [], ◌∷◌, ◌++◌, arith, any, any-append,
  All,
}
use omashu.Base.Bytes.{Bytes}
use omashu.Tso.Stamp.{TimeStamp, compose}
use omashu.Tso.Marks.{WaterMark, WaterMarkLaws}
use omashu.Tso.State.{
  Tso, has_reader, conflicts_with, reserve_read, done_read, cleanup_committed_transactions,
}
use omashu.Tso.Readers.{has_reader-add_ne, has_reader-done_read, IsMarked, done_read_keeps}
use omashu.Tso.Commit.{
  committed_at, cleaned, cleanup_cases, cleanup_keeps, last_cleanup_ts-cleanup, any-cleanup,
}
use omashu.Tso.History.{Commit, as_committed, later_writes}

or_last : (a b : Bool) → (a || (b || false)) ≡ (b || a)
or_last a b = ground arith

module _ (w : WaterMark) (laws : WaterMarkLaws w) where
  open w use {done_until}
  open laws use {Below_le}

  abbrev pub IsOver : Tso w → Commit → Type 0
  IsOver t c =
      (has_reader t.readers c.read_at ≡ false)
      × (c.read_at < c.commit_at)
      × (c.commit_at ≤ compose t.current)

  -- The verdict by the kept commits is the verdict by the whole history, for every transaction that
  -- reads at or above the last clean-up.
  abbrev pub Covers : Tso w → List Commit → Type 0
  Covers t history =
      (reads : List Bytes) (r : ℕ)
      → t.last_cleanup_ts ≤ r
      → any (conflicts_with reads r) t.committed_txns ≡ later_writes history reads r

  pub IsOver-reserve : (t : Tso w) (c : Commit) → IsOver t c → IsOver (reserve_read w t).0 c
  unfolding reserve_read
  IsOver-reserve t c o =
      (has_reader-add_ne t.readers (compose t.current) c.read_at (omega arith) ∙ o.0, o.1, o.2)

  pub IsOver-done : (t : Tso w) (r : ℕ) (c : Commit) → IsOver t c → IsOver (done_read w t r) c
  IsOver-done t r c o =
      (has_reader-done_read w laws t r c.read_at o.0, o.1, rw (done_read_keeps w laws t r).0 o.2)

  pub Covers-done :
      (t : Tso w) (r : ℕ) (history : List Commit)
      → Covers t history
      → Covers (done_read w t r) history
  Covers-done t r history h reads j p =
      let (_, commits, cleanup) = done_read_keeps w laws t r in
      rw commits (h reads j (rw cleanup at p))

  pub over_found :
      (t : Tso w) (c : Commit) (newer older : List Commit)
      → All (IsOver t) (newer ++ c ∷ older)
      → has_reader t.readers c.read_at ≡ false
  over_found t c [] older h = h.0.0
  over_found t c (d ∷ newer) older h = over_found t c newer older h.1

  pub cleanup-IsMarked :
      (t : Tso w) (active : List ℕ)
      → IsMarked w laws t active
      → IsMarked w laws (cleanup_committed_transactions w t) active
  cleanup-IsMarked t active h = elim (cleanup_cases w t) [
    | inl (same, _) ↦ rw same h
    | inr new ↦ rw new (record {
      marks = h.marks;
      safe = h.safe;
      cleaned = omega arith;
      below = h.below;
      active_below = h.active_below;
    })
  ]

  pub advance-IsMarked :
      (t : Tso w) (active : List ℕ) (c : TimeStamp) (keys : List Bytes)
      → compose t.current ≤ compose c
      → IsMarked w laws t active
      → IsMarked w laws (committed_at w t c keys) active
  advance-IsMarked t active c keys le h = record {
    marks = h.marks;
    safe = h.safe;
    cleaned = h.cleaned;
    below = Below_le t.read_mark (compose t.current) (compose c) le h.below;
    active_below = λ r p. omega (arith, h.active_below r p);
  }

  pub cleaned_current : (t : Tso w) (r : ℕ) → (cleaned w t r).current ≡ t.current
  cleaned_current t r = (cleanup_keeps w (done_read w t r)).0 ∙ (done_read_keeps w laws t r).0

  -- What the kept commits say after a clean-up is what they said before.
  pub Covers-cleaned :
      (t : Tso w) (r : ℕ) (active : List ℕ) (commits : List Commit)
      → IsMarked w laws (done_read w t r) active
      → Covers t commits
      → Covers (cleaned w t r) commits
  Covers-cleaned t r active commits m h reads j p =
      let d : Tso w = done_read w t r in
      let le : done_until d.read_mark ≤ j = rw (last_cleanup_ts-cleanup w d) at p in
      any-cleanup w d reads j le ∙ Covers-done t r commits h reads j (omega (arith, m.cleaned))

  -- The commit that is added to the kept ones is the one that is added to the history.
  pub Covers-commit :
      (t : Tso w) (c : Commit) (stamp : TimeStamp) (commits : List Commit)
      → c.commit_at ≡ compose stamp
      → Covers t commits
      → Covers (committed_at w t stamp c.keys) (c ∷ commits)
  Covers-commit t c stamp commits e h reads r p =
      rw (any-append (conflicts_with reads r) t.committed_txns _, h reads r p, ← e)
        (or_last (later_writes commits reads r) (conflicts_with reads r (as_committed c)))

  pub IsOver-commit :
      (t : Tso w) (r : ℕ) (stamp : TimeStamp) (keys : List Bytes) (c : Commit)
      → has_reader (done_read w t r).readers c.read_at ≡ false
      → c.read_at < c.commit_at
      → c.commit_at ≤ compose stamp
      → IsOver (committed_at w (cleaned w t r) stamp keys) c
  IsOver-commit t r stamp keys c absent above le =
      let (_, _, readers) = cleanup_keeps w (done_read w t r) in (rw readers absent, above, le)
