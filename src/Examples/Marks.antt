-- ===== src/Examples/Marks.antt =====
-- A watermark that moves on to the newest index when nothing is pending, which has the laws.
use omashu.Base.{ℕ, ◌≤◌, ◌<◌, refl, List, [], ◌∷◌, arith, leb, if◌then◌else◌}
use omashu.Tso.Marks.{WaterMark, WaterMarkLaws}
use omashu.Tso.Readers.{count, remove_one, count-remove_one}

pub record Counted : Type 0 where
  pub until : ℕ
  pub newest : ℕ
  pub waiting : List ℕ

abbrev pub later : ℕ → ℕ → ℕ
later a b = if leb a b then b else a

abbrev pub settled : ℕ → ℕ → List ℕ → ℕ
settled until newest [] = later until newest
settled until newest (x ∷ xs) = until

abbrev pub counted_marks : WaterMark
counted_marks = record {
  Mark = Counted;
  begin = λ m i. record { until = m.until; newest = later m.newest i; waiting = i ∷ m.waiting };
  done = λ m i. record {
    until = settled m.until m.newest (remove_one i m.waiting);
    newest = m.newest;
    waiting = remove_one i m.waiting;
  };
  set_done_until = λ m i. record m { until = i };
  done_until = λ m. m.until;
}

abbrev pub fresh_mark : Counted
fresh_mark = record { until = 0; newest = 0; waiting = [] }

pub settled_mono : (u n : ℕ) (xs : List ℕ) → u ≤ settled u n xs
settled_mono u n [] = ground arith
settled_mono u n (x ∷ xs) = omega arith

pub settled_waiting : (u n j : ℕ) (xs : List ℕ) → 0 < count j xs → u ≤ j → settled u n xs ≤ j
settled_waiting u n j [] p h = absurd (omega (arith, p))
settled_waiting u n j (x ∷ xs) p h = h

pub settled_le : (u n k : ℕ) (xs : List ℕ) → u ≤ k → n ≤ k → settled u n xs ≤ k
settled_le u n k [] h l = ground arith
settled_le u n k (x ∷ xs) h l = h

pub le_trans : (a b c : ℕ) → a ≤ b → b ≤ c → a ≤ c
le_trans a b c h k = omega arith

pub later_le : (a b n : ℕ) → a ≤ n → b ≤ n → later a b ≤ n
later_le a b n h k = ground arith

unfoldable pub counted_laws : WaterMarkLaws counted_marks
counted_laws = record {
  pending = λ m i. count i m.waiting;
  Below = λ m n. (m.until ≤ n) × (m.newest ≤ n);
  pending-begin = λ m i j. refl;
  pending-done = λ m i j. count-remove_one i j m.waiting;
  done_until-begin = λ m i. refl;
  done_until_mono = λ m i. settled_mono m.until m.newest (remove_one i m.waiting);
  done_until-done = λ m i j. settled_waiting m.until m.newest j (remove_one i m.waiting);
  Below-begin = λ m i n h l. (h.0, later_le m.newest i n h.1 l);
  Below-done = λ m i n h. (settled_le m.until m.newest n (remove_one i m.waiting) h.0 h.1, h.1);
  Below_le = λ m k n l h. (le_trans m.until k n h.0 l, le_trans m.newest k n h.1 l);
  Below-set_done_until = λ m i n h l. (l, h.1);
  done_until-le = λ m n h. h.0;
}
