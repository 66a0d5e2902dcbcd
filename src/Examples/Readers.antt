-- ===== src/Examples/Readers.antt =====
-- Runs of linearizable reads on a node.
use omashu.Base.{
  ℕ, ◌==◌, if◌then◌else◌, ◌≤◌, ◌<◌, ◌≡◌, refl, arith, [], ◌∷◌, Bool-cases, inl, inr, ==_iff,
}
use omashu.Base.Bytes.{Bytes}
use omashu.Node.State.{ReadState}
use omashu.Node.Ready.{respond_to_read_states}
use omashu.Node.Linear.{
  idle, timed_out, served, Asked, Reads, ask, answer, process, take, Reach, here, next,
}
use omashu.Node.Linear.Fresh.{IsStart, own_read_state_is_fresh, left_over_read_is_stale}

abbrev nobody : Reads
nobody = record { committed = 5; applied = 3; pending = []; channel = []; readers = λ id. idle }

nobody-IsStart : IsStart nobody
nobody-IsStart = record { no_pending = refl; no_channel = refl; no_readers = λ id. refl }

abbrev key : Bytes
key = 1 ∷ []

abbrev at_5 : ReadState
at_5 = record { index = 5; request_ctx = key }

-- One reader, whose read state is handed over when entry 5 is applied.
one_read : (t : Reads) × Reach nobody t × (t.readers 0 ≡ served key 5 at_5) × (t.applied ≡ 5)
unfolding respond_to_read_states
one_read = (
  _,
  next
      (next (next (next here (ask 0 key refl)) (answer 0 key 5 (refl, refl)))
        (process (at_5 ∷ []) [] 5 refl (omega arith) (omega arith) (omega arith)))
      (take 0 key 5 at_5 [] refl refl),
  refl,
  refl,
)

only_0 : (i n : ℕ) → Asked (one_read.0.readers i) key n → i ≡ 0
unfolding one_read
only_0 i n h = elim (Bool-cases (i == 0)) [
  | inl same ↦ (==_iff i 0).0 same
  | inr other ↦ absurd (rw other at h)
]

own_read_state_is_fresh_example : (5 ≤ 5) × (5 ≤ one_read.0.applied)
own_read_state_is_fresh_example =
    own_read_state_is_fresh nobody one_read.0 0 key 5 at_5 nobody-IsStart one_read.1 one_read.2 refl
      only_0

-- The only reader has timed out, and its read state is left; entries up to 9 are committed.
abbrev left_over : Reads
left_over = record {
  committed = 9;
  applied = 5;
  pending = [];
  channel = at_5 ∷ [];
  readers = λ id. if id == 0 then timed_out key 5 else idle;
}

left_over_read_is_stale_example :
    (t : Reads) × Reach left_over t × (t.readers 1 ≡ served [] 9 at_5) × (t.applied < 9)
left_over_read_is_stale_example =
    left_over_read_is_stale left_over 1 [] at_5 [] refl (omega arith) refl
