-- ===== src/Tso/Clock.antt =====
-- tso.go: what the oracle does with the clock. The readings of `time.Now().UnixMilli()` are a list,
-- and each reading takes the next one; `none` is a call that still waits when they end. `allocate`
-- runs under the oracle's mutex, which `UpdateWindow` wants too, so `saved` stays as it is meanwhile.
use omashu.Base.{
  ℕ, ◌+◌, ◌≡◌, refl, ◌&&◌, not, Option, none, some, List, [], ◌∷◌, ◌++◌, leb, ltb, ◌==◌,
  if◌then◌else◌,
}
use omashu.Base.Bytes.{Bytes}
use omashu.Tso.Stamp.{
  TimeStamp, default_upper_bound_window, reset, incr, exceed_logical_max, compose,
}
use omashu.Tso.Marks.{WaterMark}
use omashu.Tso.State.{Tso, has_conflict, done_read, cleanup_committed_transactions}

infixl 5 ◌>>=◌
abbrev pub ◌>>=◌ : {A B : Type 0} → Option A → (A → Option B) → Option B
none >>= f = none
some a >>= f = f a

pub >>=-eq-some :
    {A B : Type 0} (m : Option A) (f : A → Option B) {b : B}
    → (m >>= f) ≡ some b
    → (a : A) × (m ≡ some a) × (f a ≡ some b)
>>=-eq-some none f h = cc
>>=-eq-some (some a) f h = (a, refl, h)

-- The loop of step 2: poll until the clock is below the saved bound.
unfoldable pub wait_below : ℕ → List ℕ → Option (ℕ × List ℕ)
wait_below bound [] = none
wait_below bound (now ∷ clock) =
    let rest = wait_below bound clock in if ltb now bound then some (now, clock) else rest

-- The loop of step 3: poll until the clock has passed the current millisecond.
unfoldable pub wait_above : ℕ → List ℕ → Option (ℕ × List ℕ)
wait_above bound [] = none
wait_above bound (now ∷ clock) =
    let rest = wait_above bound clock in if ltb bound now then some (now, clock) else rest

-- Step 1: advance physical time if possible.
unfoldable pub advance : TimeStamp → ℕ → TimeStamp
unfolding reset
advance current now = if ltb current.physical now then reset current now else current

-- Step 2: stay below the persisted bound.
unfoldable pub enforce_bound : TimeStamp → ℕ → List ℕ → Option (TimeStamp × List ℕ)
unfolding wait_below reset
enforce_bound current saved clock =
    let waited = wait_below saved clock >>= λ r. some (reset current r.0, r.1) in
    if leb saved current.physical then waited else some (current, clock)

-- Step 3: handle logical overflow.
unfoldable pub handle_overflow : TimeStamp → List ℕ → Option (TimeStamp × List ℕ)
unfolding wait_above reset exceed_logical_max
handle_overflow current clock =
    let waited = wait_above current.physical clock >>= λ r. some (reset current r.0, r.1) in
    if exceed_logical_max current then waited else some (current, clock)

-- The four steps of `allocate` on the two stamps: the new current stamp, and the readings left.
unfoldable pub next_stamp : TimeStamp → TimeStamp → List ℕ → Option (TimeStamp × List ℕ)
unfolding advance enforce_bound handle_overflow incr
next_stamp current saved [] = none
next_stamp current saved (now ∷ clock) = do
  bounded ← enforce_bound (advance current now) saved.physical clock
  stamped ← handle_overflow bounded.0 bounded.1
  some (incr stamped.0, stamped.1)

module _ (w : WaterMark) where
  open w use {Mark, begin, set_done_until}

  -- The timestamp, the state after, and the readings left.
  unfoldable pub allocate : Tso w → List ℕ → Option (ℕ × Tso w × List ℕ)
  unfolding next_stamp
  allocate s clock = do
    r ← next_stamp s.current s.saved clock
    some (compose r.0, record s { current = r.0 }, r.1)

  -- newCommitTs: `none` as its timestamp is the conflict.
  unfoldable pub new_commit_ts :
      Tso w → List Bytes → ℕ → List Bytes → List ℕ → Option (Option ℕ × Tso w × List ℕ)
  new_commit_ts s reads read_ts conflict_keys clock =
      let cleaned = cleanup_committed_transactions w (done_read w s read_ts) in
      let allocated = allocate cleaned clock >>= λ r. some (
        some r.0,
        record r.1 {
          txn_mark = begin r.1.txn_mark r.0;
          committed_txns =
              r.1.committed_txns ++ record { ts = r.0; conflict_keys = conflict_keys } ∷ [];
        },
        r.2,
      ) in
      if has_conflict s.committed_txns reads read_ts then some (none, s, clock) else allocated

  -- UpdateWindow decides by the two stamps whether to persist a new bound, and which.
  unfoldable pub window_to_persist : Tso w → Option ℕ
  window_to_persist s =
      let upper_bound = s.current.physical + default_upper_bound_window in
      if not (s.saved.physical == 0) && leb upper_bound s.saved.physical
      then none
      else some upper_bound

  -- The end of UpdateWindow and of persistUpperboundOnStartup, once the bound is persisted.
  unfoldable pub save_window : Tso w → ℕ → Tso w
  unfolding reset
  save_window s upper_bound = record s { saved = reset s.saved upper_bound }

  -- The start of persistUpperboundOnStartup: the state, the first timestamp and the bound to persist.
  unfoldable pub first_timestamp : Tso w → Tso w × ℕ × ℕ
  unfolding incr
  first_timestamp s =
      let s' = record s { current = incr s.current } in
      (s', compose s'.current, s.current.physical + default_upper_bound_window)

  -- The clock part of StartServing. `last` is the persisted bound, if there is one, `now` the first
  -- reading; `calibrate` only sleeps. The last field is what the two watermarks are set to.
  unfoldable pub start_clock : Tso w → Option ℕ → ℕ → Tso w
  unfolding reset
  start_clock s none now = record s { current = reset s.current now }
  start_clock s (some last) now = record s {
    saved = reset s.saved last;
    current = reset s.current (if leb now last then last + 1 else now);
  }

  -- StartServing, where the proposal of the first bound succeeds.
  unfoldable pub start_serving : Tso w → Option ℕ → ℕ → Tso w
  unfolding start_clock first_timestamp save_window
  start_serving s last now =
      let (s', ts, upper_bound) = first_timestamp (start_clock s last now) in
      let s'' = save_window s' upper_bound in
      record s'' {
        read_mark = set_done_until s''.read_mark (compose s''.current);
        txn_mark = set_done_until s''.txn_mark (compose s''.current);
      }
