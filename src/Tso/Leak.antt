-- ===== src/Tso/Leak.antt =====
-- Two transactions of tso.go that read at one timestamp: the set `readers` counts them once, the read
-- mark twice.
use omashu.Base.{ℕ, suc, ◌≡◌, ap, ◌∙◌, true, List, arith}
use omashu.Tso.Stamp.{compose}
use omashu.Tso.Marks.{WaterMark, WaterMarkLaws}
use omashu.Tso.State.{
  Tso, has_reader, add_reader, current_read_ts, alone, read_ts, begin_read, done_read,
}
use omashu.Tso.Readers.{has_reader-done_read_self, done_read_again}

has_reader-add_self : (rs : List ℕ) (t : ℕ) → has_reader (add_reader rs t) t ≡ true
unfolding add_reader has_reader
has_reader-add_self rs t = ground arith

module _ (w : WaterMark) (laws : WaterMarkLaws w) where
  open w use {begin, done}
  open laws use {pending, pending-begin, pending-done}

  -- Two transactions that begin at one timestamp, with no other call in between.
  abbrev pub two_begun : Tso w → Tso w
  two_begun s = (read_ts w (alone w) (read_ts w (alone w) s true).0 true).0

  has_reader-begun : (s : Tso w) → has_reader (two_begun s).readers (compose s.current) ≡ true
  unfolding read_ts begin_read current_read_ts
  has_reader-begun s =
      has_reader-add_self (add_reader s.readers (compose s.current)) (compose s.current)

  first_discard :
      (s : Tso w)
      → (done_read w (two_begun s) (compose s.current)).read_mark
        ≡ done
            (begin (begin s.read_mark (compose s.current)) (compose s.current))
            (compose s.current)
  unfolding read_ts begin_read current_read_ts done_read
  first_discard s = simp (has_reader-begun s)

  still_pending :
      (m : w.Mark) (ts : ℕ) → pending (done (begin (begin m ts) ts) ts) ts ≡ suc (pending m ts)
  still_pending m ts = ground (
    arith,
    pending-done (begin (begin m ts) ts) ts ts,
    pending-begin (begin m ts) ts ts,
    pending-begin m ts ts,
  )

  -- When two transactions have begun at one timestamp, and both are discarded, the read mark still
  -- counts one of them as active, and a further discard changes nothing.
  pub shared_read_leaks :
      (s : Tso w)
      → let both =
          done_read w (done_read w (two_begun s) (compose s.current)) (compose s.current) in
        (pending both.read_mark (compose s.current) ≡ suc (pending s.read_mark (compose s.current)))
        × (done_read w both (compose s.current) ≡ both)
  shared_read_leaks s =
      let once = done_read w (two_begun s) (compose s.current) in
      let again : done_read w once (compose s.current) ≡ once =
        done_read_again w laws once (compose s.current)
          (has_reader-done_read_self w laws (two_begun s) (compose s.current)) in
      (
        ap (λ (t : Tso w). pending t.read_mark (compose s.current)) again
            ∙ ap (λ m. pending m (compose s.current)) (first_discard s)
            ∙ still_pending s.read_mark (compose s.current),
        ap (λ t. done_read w t (compose s.current)) again,
      )
