-- ===== src/Tso/Marks.antt =====
-- What the oracle uses of BadgerDB's `y.WaterMark`: its operations, and what its documentation says
-- of `DoneUntil`, "the maximum index that has the property that all indices less than or equal to it
-- are done". The library takes the marks in a goroutine; here each is taken at once.
use omashu.Base.{ℕ, suc, ◌-◌, ◌≤◌, ◌<◌, ◌≡◌, ◌==◌, if◌then◌else◌}

pub record WaterMark : Type 1 where
  pub Mark : Type 0
  pub begin : Mark → ℕ → Mark
  pub done : Mark → ℕ → Mark
  pub set_done_until : Mark → ℕ → Mark
  pub done_until : Mark → ℕ

-- `pending m i` counts the calls of Begin for `i` less those of Done, and `Below m n` says that no
-- index above `n` was begun.
pub record WaterMarkLaws (w : WaterMark) : Type 1 where
  pub pending : w.Mark → ℕ → ℕ
  pub Below : w.Mark → ℕ → Type 0
  pub pending-begin :
      (m : w.Mark) (i j : ℕ)
      → pending (w.begin m i) j ≡ (if i == j then suc (pending m j) else pending m j)
  pub pending-done :
      (m : w.Mark) (i j : ℕ)
      → pending (w.done m i) j ≡ (if i == j then pending m j - 1 else pending m j)
  pub done_until-begin : (m : w.Mark) (i : ℕ) → w.done_until (w.begin m i) ≡ w.done_until m
  -- the mark never moves back
  pub done_until_mono : (m : w.Mark) (i : ℕ) → w.done_until m ≤ w.done_until (w.done m i)
  -- the mark never moves past an index that is pending
  pub done_until-done :
      (m : w.Mark) (i j : ℕ)
      → 0 < pending (w.done m i) j
      → w.done_until m ≤ j
      → w.done_until (w.done m i) ≤ j
  pub Below-begin : (m : w.Mark) (i n : ℕ) → Below m n → i ≤ n → Below (w.begin m i) n
  pub Below-done : (m : w.Mark) (i n : ℕ) → Below m n → Below (w.done m i) n
  pub Below_le : (m : w.Mark) (k n : ℕ) → k ≤ n → Below m k → Below m n
  pub Below-set_done_until :
      (m : w.Mark) (i n : ℕ) → Below m n → i ≤ n → Below (w.set_done_until m i) n
  pub done_until-le : (m : w.Mark) (n : ℕ) → Below m n → w.done_until m ≤ n
