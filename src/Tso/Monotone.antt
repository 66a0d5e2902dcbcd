-- ===== src/Tso/Monotone.antt =====
-- Order of the timestamps that `allocate` of tso.go gives out.
use omashu.Base.{
  ℕ, ◌+◌, ◌*◌, ◌/◌, ◌%◌, ◌^◌, ◌≤◌, ◌<◌, ◌≡◌, refl, ap, ◌∙◌, ◌⊎◌, inl, inr, some, List, ◌∷◌, arith,
}
use omashu.Tso.Stamp.{
  TimeStamp, Fits, Earlier, max_logical, incr, compose, compose-Fits, compose-Earlier_iff,
  compose_spill,
}
use omashu.Tso.Marks.{WaterMark}
use omashu.Tso.State.{Tso}
use omashu.Tso.Clock.{advance, next_stamp, allocate}

-- Inside the window, with room in the counter or a later clock, the four steps do not wait.
next_stamp_inside :
    (current saved : TimeStamp) (now : ℕ) (clock : List ℕ)
    → current.physical < saved.physical
    → now < saved.physical
    → current.logical ≤ max_logical
    → next_stamp current saved (now ∷ clock) ≡ some (incr (advance current now), clock)
unfolding next_stamp
next_stamp_inside current saved now clock h k l = ground arith

advance-Earlier : (current : TimeStamp) (now : ℕ) → Earlier current (incr (advance current now))
unfolding advance incr
advance-Earlier current now = ground arith

advance-Fits :
    (current : TimeStamp) (now : ℕ)
    → Fits current
    → now < 2 ^ 46
    → (current.logical < max_logical) ⊎ (current.physical < now)
    → Fits (incr (advance current now))
unfolding advance incr
advance-Fits current now f h (inl room) = ground arith
advance-Fits current now f h (inr later) = ground arith

-- One more than the maximum reads as the millisecond with its lowest bit set.
compose-incr_max :
    (current : TimeStamp)
    → current.physical < 2 ^ 46
    → current.logical ≡ max_logical
    → compose (incr current) ≡ (current.physical / 2 * 2 + 1) * 2 ^ 18
unfolding incr
compose-incr_max current p l =
    ap (λ (n : ℕ). compose (record { physical = current.physical; logical = n })) (omega arith)
    ∙ compose_spill current.physical p

next_stamp_spills :
    (current saved : TimeStamp) (now : ℕ) (clock : List ℕ)
    → current.physical < saved.physical
    → now ≤ current.physical
    → current.logical ≡ max_logical
    → next_stamp current saved (now ∷ clock) ≡ some (incr current, clock)
unfolding next_stamp
next_stamp_spills current saved now clock h k l = ground arith

module _ (w : WaterMark) where
  -- Inside the persisted window, which ends within 46 bits of milliseconds, and with room in the
  -- counter or a clock that has moved on, an allocation takes one reading of the clock, gives a
  -- timestamp above the current one, and makes that current.
  pub allocate_increasing :
      (s : Tso w) (now : ℕ) (clock : List ℕ)
      → Fits s.current
      → s.saved.physical ≤ 2 ^ 46
      → s.current.physical < s.saved.physical
      → now < s.saved.physical
      → (s.current.logical < max_logical) ⊎ (s.current.physical < now)
      → (ts : ℕ) × (s' : Tso w) × (allocate w s (now ∷ clock) ≡ some (ts, s', clock))
        × (ts ≡ compose s'.current)
        × (compose s.current < ts)
        × Fits s'.current
  unfolding allocate
  allocate_increasing s now clock f b h k room = (
    compose (incr (advance s.current now)),
    record s { current = incr (advance s.current now) },
    rw (next_stamp_inside s.current s.saved now clock h k f.logical_fits) refl,
    refl,
    (compose-Earlier_iff _ _ f (advance-Fits s.current now f (omega arith) room)).0
        (advance-Earlier s.current now),
    advance-Fits s.current now f (omega arith) room,
  )

  -- Inside the window, when the counter of an odd millisecond is at its maximum and the clock has
  -- not moved on, the next timestamp is below the current one.
  pub allocate_spills :
      (s : Tso w) (now : ℕ) (clock : List ℕ)
      → s.current.physical < 2 ^ 46
      → s.current.logical ≡ max_logical
      → s.current.physical % 2 ≡ 1
      → s.current.physical < s.saved.physical
      → now ≤ s.current.physical
      → (ts : ℕ) × (s' : Tso w) × (allocate w s (now ∷ clock) ≡ some (ts, s', clock))
        × (ts < compose s.current)
  unfolding allocate
  allocate_spills s now clock p l odd h k = (
    compose (incr s.current),
    record s { current = incr s.current },
    rw (next_stamp_spills s.current s.saved now clock h k l) refl,
    omega (
      arith,
      compose-incr_max s.current p l,
      compose-Fits s.current (record { physical_fits = p; logical_fits = omega arith }),
    ),
  )
