-- ===== src/Tso/History/Invariant.antt =====
-- What every call on the oracle of tso.go keeps: the marks protect the active transactions, and the
-- commits that are still remembered give the verdict of the whole history.
use omashu.Base.{
  ℕ, ◌≤◌, ◌<◌, ◌≡◌, sym, ◌∙◌, ap, subst, false, some, List, ◌∷◌, ◌++◌, arith, All, All-map,
}
use omashu.Base.Bytes.{Bytes}
use omashu.Tso.Stamp.{compose}
use omashu.Tso.Marks.{WaterMark, WaterMarkLaws}
use omashu.Tso.State.{Tso, has_conflict, reserve_read, mark_read, fail_read, done_read, done_commit}
use omashu.Tso.Clock.{new_commit_ts, save_window}
use omashu.Tso.Conflict.{has_conflict-any}
use omashu.Tso.Readers.{
  count, remove_one, has_reader-done_read, has_reader-done_read_self, IsMarked, done_read_again,
  reserve_read-IsMarked, mark_read-IsMarked, fail_read-IsMarked, done_read_keeps, count-remove_one,
  done_read-IsMarked,
}
use omashu.Tso.Commit.{cleaned, new_commit_ts-eq-some}
use omashu.Tso.History.{
  Commit, later_writes, HasPassed, System, Step, reserve, mark, fail_wait, give_up, commit, discard,
  extend_window, after_reserve, after_mark, after_commit, StepInOrder, complete,
}
use omashu.Tso.History.Kept.{
  IsOver, Covers, IsOver-reserve, IsOver-done, Covers-done, over_found, cleanup-IsMarked,
  advance-IsMarked, cleaned_current, Covers-cleaned, Covers-commit, IsOver-commit,
}

module _ (w : WaterMark) (laws : WaterMarkLaws w) where
  pub record Inv (s : System w) : Type 0 where
    pub marked : IsMarked w laws s.tso s.active
    pub reserved_below : (r : ℕ) → 0 < count r s.reserved → r ≤ compose s.tso.current
    pub over : All (IsOver w laws s.tso) s.history
    pub covers : Covers w laws s.tso s.history
    pub serial : HasPassed s.history

  reserve-Inv : (s : System w) → Inv s → Inv (after_reserve w s)
  unfolding reserve_read
  reserve-Inv s h = record {
    marked = reserve_read-IsMarked w laws s.tso s.active h.marked;
    reserved_below = λ r p. ground (arith, h.reserved_below r);
    over = All-map _ _ s.history (IsOver-reserve w laws s.tso) h.over;
    covers = h.covers;
    serial = h.serial;
  }

  mark-Inv :
      (s : System w) (r : ℕ)
      → 0 < count r s.reserved
      → w.done_until s.tso.read_mark ≤ r
      → Inv s
      → Inv (after_mark w s r)
  unfolding mark_read
  mark-Inv s r p early h = record {
    marked = mark_read-IsMarked w laws s.tso s.active r (h.reserved_below r p) early h.marked;
    reserved_below = λ j q. ground (arith, h.reserved_below j, count-remove_one r j s.reserved);
    over = h.over;
    covers = h.covers;
    serial = h.serial;
  }

  fail_wait-Inv :
      (s : System w) (r : ℕ)
      → 0 < count r s.active
      → Inv s
      → Inv (record s { tso = fail_read w s.tso r; active = remove_one r s.active })
  unfolding fail_read
  fail_wait-Inv s r p h = record {
    marked = fail_read-IsMarked w laws s.tso s.active r p h.marked;
    reserved_below = h.reserved_below;
    over = h.over;
    covers = h.covers;
    serial = h.serial;
  }

  give_up-Inv :
      (s : System w) (r : ℕ)
      → 0 < count r s.active
      → Inv s
      → Inv (record s { tso = done_read w s.tso r; active = remove_one r s.active })
  give_up-Inv s r p h = record {
    marked = done_read-IsMarked w laws s.tso s.active r p h.marked;
    reserved_below =
        λ j q. omega (arith, h.reserved_below j q, ap compose (done_read_keeps w laws s.tso r).0);
    over = All-map _ _ s.history (IsOver-done w laws s.tso r) h.over;
    covers = Covers-done w laws s.tso r s.history h.covers;
    serial = h.serial;
  }

  discard-Inv :
      (s : System w) (c : Commit) (newer older : List Commit)
      → s.history ≡ newer ++ c ∷ older
      → Inv s
      → Inv (record s { tso = done_read w s.tso c.read_at })
  discard-Inv s c newer older e h =
      let absent =
        over_found w laws s.tso c newer older (subst (All (IsOver w laws s.tso)) e h.over) in
      rw (done_read_again w laws s.tso c.read_at absent) h

  passed :
      (s : System w) (reads : List Bytes) (r : ℕ)
      → 0 < count r s.active
      → has_conflict s.tso.committed_txns reads r ≡ false
      → Inv s
      → later_writes s.history reads r ≡ false
  passed s reads r p free h =
      sym (h.covers reads r (omega (arith, h.marked.safe r p, h.marked.cleaned)))
      ∙ sym (has_conflict-any s.tso.committed_txns reads r)
      ∙ free

  commit-Inv :
      (s : System w) (c : Commit) (clock : List ℕ) (tso' : Tso w) (rest : List ℕ)
      → 0 < count c.read_at s.active
      → new_commit_ts w s.tso c.reads c.read_at c.keys clock ≡ some (some c.commit_at, tso', rest)
      → compose s.tso.current < c.commit_at
      → Inv s
      → Inv (after_commit w s tso' c)
  unfolding compose
  commit-Inv s c clock tso' rest p e later h =
      let (free, stamp, composed, after) =
        new_commit_ts-eq-some w s.tso c.reads c.read_at c.keys clock e in
      let active : List ℕ = remove_one c.read_at s.active in
      let marked = done_read-IsMarked w laws s.tso s.active c.read_at p h.marked in
      let le : compose s.tso.current ≤ compose stamp = omega (arith, composed, later) in
      let below_new : c.read_at < c.commit_at =
        omega (arith, h.marked.active_below c.read_at p, later) in
      rw after (record {
        marked =
            advance-IsMarked w laws (cleaned w s.tso c.read_at) active stamp c.keys
              (omega (arith, le, ap compose (cleaned_current w laws s.tso c.read_at)))
              (cleanup-IsMarked w laws (done_read w s.tso c.read_at) active marked);
        reserved_below = λ r q. omega (arith, h.reserved_below r q, le);
        over = (
          IsOver-commit w laws s.tso c.read_at stamp c.keys c
              (has_reader-done_read_self w laws s.tso c.read_at) below_new
              (omega (arith, composed)),
          All-map _ _ s.history
              (λ d o.
                IsOver-commit w laws s.tso c.read_at stamp c.keys d
                  (has_reader-done_read w laws s.tso c.read_at d.read_at o.0) o.1
                  (omega (arith, o.2, le)))
              h.over,
        );
        covers =
            Covers-commit w laws (cleaned w s.tso c.read_at) c stamp s.history composed
              (Covers-cleaned w laws s.tso c.read_at active s.history marked h.covers);
        serial = (
          passed s c.reads c.read_at p free h,
          below_new,
          All-map _ _ s.history (λ d o. omega (arith, o.2, later)) h.over,
          h.serial,
        );
      })

  complete-Inv : (s : System w) (ts : ℕ) → Inv s → Inv (record s { tso = done_commit w s.tso ts })
  unfolding done_commit
  complete-Inv s ts h = record {
    marked = record {
      marks = h.marked.marks;
      safe = h.marked.safe;
      cleaned = h.marked.cleaned;
      below = h.marked.below;
      active_below = h.marked.active_below;
    };
    reserved_below = h.reserved_below;
    over = h.over;
    covers = h.covers;
    serial = h.serial;
  }

  extend_window-Inv :
      (s : System w) (bound : ℕ) → Inv s → Inv (record s { tso = save_window w s.tso bound })
  unfolding save_window
  extend_window-Inv s bound h = record {
    marked = record {
      marks = h.marked.marks;
      safe = h.marked.safe;
      cleaned = h.marked.cleaned;
      below = h.marked.below;
      active_below = h.marked.active_below;
    };
    reserved_below = h.reserved_below;
    over = h.over;
    covers = h.covers;
    serial = h.serial;
  }

  pub Step-Inv : {s t : System w} (step : Step w s t) → StepInOrder w step → Inv s → Inv t
  Step-Inv (reserve s) order h = reserve-Inv s h
  Step-Inv (mark s r p) order h = mark-Inv s r p order h
  Step-Inv (fail_wait s r p) order h = fail_wait-Inv s r p h
  Step-Inv (give_up s r p) order h = give_up-Inv s r p h
  Step-Inv (commit s c clock tso' rest p e) order h = commit-Inv s c clock tso' rest p e order h
  Step-Inv (complete s c newer older e) order h = complete-Inv s c.commit_at h
  Step-Inv (discard s c newer older e) order h = discard-Inv s c newer older e h
  Step-Inv (extend_window s bound) order h = extend_window-Inv s bound h
