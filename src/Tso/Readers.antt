-- ===== src/Tso/Readers.antt =====
-- The set `readers` of tso.go and the read mark: what `ReadTs` and `doneRead` do to the marks of the
-- transactions that are still active.
use omashu.Base.{
  ℕ, suc, ◌-◌, ◌≤◌, ◌<◌, ◌≡◌, refl, ◌≢◌, ◌⊎◌, inl, inr, false, List, [], ◌∷◌, arith, Bool-cases,
  ◌==◌, if◌then◌else◌,
}
use omashu.Tso.Stamp.{compose}
use omashu.Tso.Marks.{WaterMark, WaterMarkLaws}
use omashu.Tso.State.{
  Tso, has_reader, add_reader, delete_reader, reserve_read, mark_read, fail_read, done_read,
}

-- How many active transactions read at a timestamp.
abbrev pub count : ℕ → List ℕ → ℕ
count r [] = 0
count r (x ∷ xs) = let rest = count r xs in if x == r then suc rest else rest

abbrev pub remove_one : ℕ → List ℕ → List ℕ
remove_one r [] = []
remove_one r (x ∷ xs) = let rest = remove_one r xs in if x == r then xs else x ∷ rest

pub count-remove_one :
    (i j : ℕ) (xs : List ℕ)
    → count j (remove_one i xs) ≡ (if i == j then count j xs - 1 else count j xs)
count-remove_one i j [] = ground arith
count-remove_one i j (x ∷ xs) = ground (arith, count-remove_one i j xs)

pub has_reader-add_ne :
    (rs : List ℕ) (t r : ℕ) → t ≢ r → has_reader (add_reader rs t) r ≡ has_reader rs r
unfolding has_reader add_reader
has_reader-add_ne rs t r h = ground arith

pub has_reader-delete_self : (rs : List ℕ) (t : ℕ) → has_reader (delete_reader rs t) t ≡ false
unfolding has_reader delete_reader
has_reader-delete_self [] t = refl
has_reader-delete_self (r ∷ rs) t = ground (arith, has_reader-delete_self rs t)

pub has_reader-delete :
    (rs : List ℕ) (t r : ℕ) → has_reader rs r ≡ false → has_reader (delete_reader rs t) r ≡ false
unfolding has_reader delete_reader
has_reader-delete [] t r h = refl
has_reader-delete (x ∷ rs) t r h = ground (arith, has_reader-delete rs t r)

module _ (w : WaterMark) (laws : WaterMarkLaws w) where
  open w use {Mark, begin, done, done_until}
  open laws use {
    pending, Below, pending-begin, pending-done, done_until-begin, done_until_mono, done_until-done,
    Below-begin, Below-done, Below_le, done_until-le,
  }

  -- The marks protect every active transaction: its own timestamp is pending, and neither the read
  -- mark nor the last cleanup has passed it.
  pub record IsMarked (s : Tso w) (active : List ℕ) : Type 0 where
    pub marks : (r : ℕ) → count r active ≤ pending s.read_mark r
    pub safe : (r : ℕ) → 0 < count r active → done_until s.read_mark ≤ r
    pub cleaned : s.last_cleanup_ts ≤ done_until s.read_mark
    pub below : Below s.read_mark (compose s.current)
    pub active_below : (r : ℕ) → 0 < count r active → r ≤ compose s.current

  abbrev released : Tso w → ℕ → Tso w
  released s r = record s { read_mark = done s.read_mark r; readers = delete_reader s.readers r }

  pub done_read-cases :
      (s : Tso w) (r : ℕ)
      → (done_read w s r ≡ released s r)
        ⊎ ((done_read w s r ≡ s) × (has_reader s.readers r ≡ false))
  unfolding done_read
  done_read-cases s r = elim (Bool-cases (has_reader s.readers r)) [
    | inl old ↦ inl (rw old)
    | inr new ↦ inr (rw new, new)
  ]

  pub reserve_read-IsMarked :
      (s : Tso w) (active : List ℕ) → IsMarked s active → IsMarked (reserve_read w s).0 active
  unfolding reserve_read
  reserve_read-IsMarked s active h = record {
    marks = h.marks;
    safe = h.safe;
    cleaned = h.cleaned;
    below = h.below;
    active_below = h.active_below;
  }

  -- A Begin that comes before the mark has passed its timestamp.
  pub mark_read-IsMarked :
      (s : Tso w) (active : List ℕ) (ts : ℕ)
      → ts ≤ compose s.current
      → done_until s.read_mark ≤ ts
      → IsMarked s active
      → IsMarked (mark_read w s ts) (ts ∷ active)
  unfolding mark_read
  mark_read-IsMarked s active ts old early h = record {
    marks = λ r. ground (arith, h.marks r, pending-begin s.read_mark ts r);
    safe = λ r p. ground (arith, h.safe r, done_until-begin s.read_mark ts);
    cleaned = rw (done_until-begin s.read_mark ts) h.cleaned;
    below = Below-begin s.read_mark ts (compose s.current) h.below old;
    active_below = λ r p. ground (arith, h.active_below r);
  }

  -- A wait that failed takes its timestamp from the mark, and leaves it among the readers.
  pub fail_read-IsMarked :
      (s : Tso w) (active : List ℕ) (r : ℕ)
      → 0 < count r active
      → IsMarked s active
      → IsMarked (fail_read w s r) (remove_one r active)
  unfolding fail_read
  fail_read-IsMarked s active r p h = record {
    marks =
        λ j. ground (arith, h.marks j, pending-done s.read_mark r j, count-remove_one r j active);
    safe = λ j q.
        done_until-done s.read_mark r j
          (ground (arith, h.marks j, pending-done s.read_mark r j, count-remove_one r j active))
          (ground (arith, h.safe j, count-remove_one r j active));
    cleaned = omega (arith, h.cleaned, done_until_mono s.read_mark r);
    below = Below-done s.read_mark r (compose s.current) h.below;
    active_below = λ j q. ground (arith, h.active_below j, count-remove_one r j active);
  }

  pub done_read-IsMarked :
      (s : Tso w) (active : List ℕ) (r : ℕ)
      → 0 < count r active
      → IsMarked s active
      → IsMarked (done_read w s r) (remove_one r active)
  done_read-IsMarked s active r p h = elim (done_read-cases s r) [
    | inl gone ↦ rw gone (record {
      marks =
          λ j. ground (arith, h.marks j, pending-done s.read_mark r j, count-remove_one r j active);
      safe = λ j q.
          done_until-done s.read_mark r j
            (ground (arith, h.marks j, pending-done s.read_mark r j, count-remove_one r j active))
            (ground (arith, h.safe j, count-remove_one r j active));
      cleaned = omega (arith, h.cleaned, done_until_mono s.read_mark r);
      below = Below-done s.read_mark r (compose s.current) h.below;
      active_below = λ j q. ground (arith, h.active_below j, count-remove_one r j active);
    })
    | inr (same, absent) ↦ rw same (record {
      marks = λ j. ground (arith, h.marks j, count-remove_one r j active);
      safe = λ j q. ground (arith, h.safe j, count-remove_one r j active);
      cleaned = h.cleaned;
      below = h.below;
      active_below = λ j q. ground (arith, h.active_below j, count-remove_one r j active);
    })
  ]

  -- What `doneRead` leaves alone.
  pub done_read_keeps :
      (s : Tso w) (r : ℕ)
      → let t = done_read w s r in
        (t.current ≡ s.current)
        × (t.committed_txns ≡ s.committed_txns)
        × (t.last_cleanup_ts ≡ s.last_cleanup_ts)
  done_read_keeps s r = elim (done_read-cases s r) [
    | inl gone ↦ rw gone (refl, refl, refl)
    | inr (same, absent) ↦ rw same (refl, refl, refl)
  ]

  pub has_reader-done_read_self :
      (s : Tso w) (r : ℕ) → has_reader (done_read w s r).readers r ≡ false
  has_reader-done_read_self s r = elim (done_read-cases s r) [
    | inl gone ↦ rw gone (has_reader-delete_self s.readers r)
    | inr (same, absent) ↦ rw same absent
  ]

  pub has_reader-done_read :
      (s : Tso w) (r j : ℕ)
      → has_reader s.readers j ≡ false
      → has_reader (done_read w s r).readers j ≡ false
  has_reader-done_read s r j h = elim (done_read-cases s r) [
    | inl gone ↦ rw gone (has_reader-delete s.readers r j h)
    | inr (same, absent) ↦ rw same h
  ]

  -- A second `doneRead` for one timestamp does nothing.
  pub done_read_again : (s : Tso w) (r : ℕ) → has_reader s.readers r ≡ false → done_read w s r ≡ s
  unfolding done_read
  done_read_again s r h = rw h
