-- ===== src/Tso/Window.antt =====
-- The persisted window of tso.go: allocation inside it, at its end, and by the next leader.
use omashu.Base.{
  ℕ, ◌+◌, ◌^◌, ◌≤◌, ◌<◌, ◌≡◌, refl, inl, inr, Option, none, some, List, [], ◌∷◌, arith,
  Option-cases, All, ◌/◌, ◌*◌, ◌⊎◌, ap, ◌∙◌, Bool-cases, leb, leb→le, not_leb→lt,
}
use omashu.Tso.Stamp.{
  TimeStamp, Fits, max_logical, default_upper_bound_window, incr, compose, compose-Earlier_iff,
  compose-Fits, compose_spill,
}
use omashu.Tso.Marks.{WaterMark}
use omashu.Tso.State.{Tso}
use omashu.Tso.Clock.{
  ◌>>=◌, >>=-eq-some, wait_below, advance, enforce_bound, handle_overflow, next_stamp, allocate,
  start_clock, start_serving,
}

abbrev pub AtLeast : ℕ → List ℕ → Type 0
AtLeast bound clock = All (λ now. bound ≤ now) clock

wait_below_stalls :
    (bound : ℕ) (clock : List ℕ) → AtLeast bound clock → wait_below bound clock ≡ none
unfolding wait_below
wait_below_stalls bound [] h = refl
wait_below_stalls bound (now ∷ clock) h = ground (arith, wait_below_stalls bound clock h.1)

wait_below-lt :
    (bound : ℕ) (clock : List ℕ) (now : ℕ) (rest : List ℕ)
    → wait_below bound clock ≡ some (now, rest)
    → now < bound
unfolding wait_below
wait_below-lt bound [] now rest h = cc
wait_below-lt bound (n ∷ clock) now rest h = ground (arith, wait_below-lt bound clock now rest)

next_stamp_stalls :
    (current saved : TimeStamp) (clock : List ℕ)
    → AtLeast saved.physical clock
    → next_stamp current saved clock ≡ none
unfolding next_stamp
next_stamp_stalls current saved [] h = refl
next_stamp_stalls current saved (now ∷ clock) h =
    ground (arith, wait_below_stalls saved.physical clock h.1)

enforce_bound-lt :
    (current : TimeStamp) (saved : ℕ) (clock : List ℕ) (c : TimeStamp) (rest : List ℕ)
    → enforce_bound current saved clock ≡ some (c, rest)
    → (c.physical < saved) × (c.logical ≤ current.logical)
unfolding enforce_bound
enforce_bound-lt current saved clock c rest h = elim (Option-cases (wait_below saved clock)) [
  | inl stuck ↦ ground arith
  | inr ((now, left), found) ↦ ground (arith, wait_below-lt saved clock now left found)
]

-- Without an overflow of the counter a new stamp is below the saved bound.
next_stamp-lt :
    (current saved : TimeStamp) (clock : List ℕ) (c : TimeStamp) (rest : List ℕ)
    → current.logical ≤ max_logical
    → next_stamp current saved clock ≡ some (c, rest)
    → (c.physical < saved.physical) × (c.logical ≤ max_logical + 1)
unfolding next_stamp
next_stamp-lt current saved [] c rest l h = cc
next_stamp-lt current saved (now ∷ clock) c rest l h =
    let (bounded, found, h') =
      >>=-eq-some (enforce_bound (advance current now) saved.physical clock)
        (λ b. handle_overflow b.0 b.1 >>= λ r. some (incr r.0, r.1)) h in
    let below =
      enforce_bound-lt (advance current now) saved.physical clock bounded.0 bounded.1 found in
    ground (arith, below, h')

-- The 64-bit form of a stamp below a bound, whose counter is at most one past its maximum.
stamp_below :
    (c : TimeStamp) (bound : ℕ)
    → c.physical < bound
    → bound ≤ 2 ^ 46
    → c.logical ≤ max_logical + 1
    → (compose c / 2 ^ 18 < bound) ⊎ ((c.logical ≡ max_logical + 1) × (compose c ≡ bound * 2 ^ 18))
stamp_below c bound below b room = elim (Bool-cases (leb c.logical max_logical)) [
  | inl fits ↦
      let le = leb→le c.logical max_logical fits in
      inl (
        omega
          (arith, compose-Fits c (record { physical_fits = omega arith; logical_fits = le }), le))
  | inr past ↦
      let full = not_leb→lt c.logical max_logical past in
      let spilled : compose c ≡ (c.physical / 2 * 2 + 1) * 2 ^ 18 =
        ap (λ (n : ℕ). compose (record { physical = c.physical; logical = n })) (omega arith)
        ∙ compose_spill c.physical (omega arith) in
      omega arith
]

module _ (w : WaterMark) where
  -- A new current stamp is below the persisted bound.
  allocated_stamp :
      (s : Tso w) (clock : List ℕ) {ts : ℕ} {s' : Tso w} {rest : List ℕ}
      → s.current.logical ≤ max_logical
      → allocate w s clock ≡ some (ts, s', rest)
      → (s'.current.physical < s.saved.physical)
        × (ts ≡ compose s'.current)
        × (s'.current.logical ≤ max_logical + 1)
  unfolding allocate
  allocated_stamp s clock {ts} {s'} {rest} l h =
      let (r, found, h') = >>=-eq-some (next_stamp s.current s.saved clock) _ h in
      let below = next_stamp-lt s.current s.saved clock r.0 r.1 l found in ground (arith, below, h')

  -- When the counter is within its 18 bits and the persisted bound within 46: the milliseconds of the
  -- timestamp that is given out are below the bound, or the counter has just left its 18 bits and the
  -- timestamp is the first of the bound's own millisecond.
  pub allocate_in_window :
      (s : Tso w) (clock : List ℕ) {ts : ℕ} {s' : Tso w} {rest : List ℕ}
      → s.current.logical ≤ max_logical
      → s.saved.physical ≤ 2 ^ 46
      → allocate w s clock ≡ some (ts, s', rest)
      → (ts / 2 ^ 18 < s.saved.physical)
        ⊎ ((s'.current.logical ≡ max_logical + 1) × (ts ≡ s.saved.physical * 2 ^ 18))
  allocate_in_window s clock {ts} {s'} l b h =
      let (below, composed, room) = allocated_stamp s clock l h in
      rw composed (stamp_below s'.current s.saved.physical below b room)

  -- Once the clock has reached the saved bound, no allocation returns, however often the clock is
  -- read: the bound cannot move, because the call holds the mutex.
  pub allocate_stalls :
      (s : Tso w) (clock : List ℕ) → AtLeast s.saved.physical clock → allocate w s clock ≡ none
  unfolding allocate
  allocate_stalls s clock h = rw (next_stamp_stalls s.current s.saved clock h) refl

  -- Once the current millisecond has reached the saved bound, and the counter is within its 18
  -- bits, an allocation returns only after the clock went back, and its millisecond is an earlier
  -- one.
  pub allocate_past_window :
      (s : Tso w) (clock : List ℕ) {ts : ℕ} {s' : Tso w} {rest : List ℕ}
      → s.current.logical ≤ max_logical
      → s.saved.physical ≤ s.current.physical
      → allocate w s clock ≡ some (ts, s', rest)
      → s'.current.physical < s.current.physical
  allocate_past_window s clock l past h = omega (arith, (allocated_stamp s clock l h).0)

  -- A leader that starts, with a persisted bound or with none, never gets another timestamp from
  -- `allocate` when every later reading of the clock is at least two seconds past its first
  -- timestamp: the call waits for ever.
  pub leader_stalls :
      (s : Tso w) (last : Option ℕ) (now : ℕ) (clock : List ℕ)
      → AtLeast ((start_clock w s last now).current.physical + default_upper_bound_window) clock
      → allocate w (start_serving w s last now) clock ≡ none
  unfolding start_serving
  leader_stalls s last now clock h = allocate_stalls (start_serving w s last now) clock h

  -- The next leader, `fresh`, which starts with the bound that the last one, `s`, has persisted,
  -- begins above every timestamp that `s` gives out while its counter is within 18 bits; the bound
  -- and the first reading of the clock are within 46 bits.
  pub takeover :
      (s fresh : Tso w) (clock : List ℕ) (now : ℕ) {ts : ℕ} {s' : Tso w} {rest : List ℕ}
      → s.current.logical ≤ max_logical
      → s.saved.physical + 1 < 2 ^ 46
      → now < 2 ^ 46
      → allocate w s clock ≡ some (ts, s', rest)
      → s'.current.logical ≤ max_logical
      → ts < compose (start_serving w fresh (some s.saved.physical) now).current
  unfolding start_serving
  takeover s fresh clock now {ts} {s'} l b n h l' =
      let (below, composed, _) = allocated_stamp s clock l h in
      let old : Fits s'.current = record { physical_fits = omega arith; logical_fits = l' } in
      let new : Fits (start_serving w fresh (some s.saved.physical) now).current = record {
        physical_fits = ground arith;
        logical_fits = omega arith;
      } in
      rw composed ((compose-Earlier_iff _ _ old new).0 (inl (ground arith)))
