-- ===== src/Distributed/Loops/Late.antt =====
-- listenProposeResponses of distributed.go, when a call ends with the timeout before its answer is sent.
use omashu.Base.{◌≡◌, refl, sym, ◌⊎◌, inl, inr, Bool-cases}
use omashu.Base.Bytes.{Bytes, bytes_eq, bytes_eq_refl, bytes_eq-eq}
use omashu.Errors.{propose_timeout, err}
use omashu.Distributed.Loops.{
  Response, Stage, absent, sending, waiting, received, deleted, returned, panicked, answering,
  System, update, at_stage, Step, store, request, time_out, delete, close, load, answer,
  send_closed, stop_listening, start_listening, Reach, here, next,
}

module _ (encoded : Bytes → Bytes) where
  -- A call that is past its select does not receive any more.
  abbrev IsPast : Stage → Type 0
  IsPast absent = ⊥
  IsPast sending = ⊥
  IsPast waiting = ⊥
  IsPast (received r) = Unit
  IsPast (deleted r) = Unit
  IsPast (returned r) = Unit

  -- The listener has panicked, or it sends to a call that does not receive any more.
  abbrev IsLate : Response → System → Type 0
  IsLate r s = (s.listener ≡ panicked) ⊎ ((s.listener ≡ answering r) × IsPast (s.stages r.cmd_id))

  late_call :
      (r : Response) (s : System) (at : Bytes) (from to : Stage)
      → s.stages at ≡ from
      → (IsPast from → IsPast to)
      → IsPast (s.stages r.cmd_id)
      → IsPast (update s.stages at to r.cmd_id)
  late_call r s at from to e keeps past = elim (Bool-cases (bytes_eq r.cmd_id at)) [
    | inl same ↦
        let past' : IsPast (s.stages at) = rw (bytes_eq-eq r.cmd_id at same) at past in
        rw same (keeps (rw e at past'))
    | inr other ↦ rw other past
  ]

  late_staged :
      (r : Response) (s : System) (at : Bytes) (from to : Stage)
      → s.stages at ≡ from
      → (IsPast from → IsPast to)
      → IsLate r s
      → (s.listener ≡ panicked)
        ⊎ ((s.listener ≡ answering r) × IsPast (update s.stages at to r.cmd_id))
  late_staged r s at from to e keeps (inl h) = inl h
  late_staged r s at from to e keeps (inr (h, past)) =
      inr (h, late_call r s at from to e keeps past)

  IsLate-step : {s t : System} (r : Response) → IsLate r s → Step encoded s t → IsLate r t
  IsLate-step {s} r h (store at e) = late_staged r s at _ _ e (λ q. q) h
  IsLate-step {s} r h (request at e empty) = late_staged r s at _ _ e (λ q. absurd q) h
  IsLate-step {s} r h (time_out at e) = late_staged r s at _ _ e (λ q. tt) h
  IsLate-step {s} r h (delete at x e) = late_staged r s at _ _ e (λ q. tt) h
  IsLate-step {s} r h (close at x e) = late_staged r s at _ _ e (λ q. tt) h
  IsLate-step {s} r (inl h) (answer q e waits) = cc
  IsLate-step {s} r (inr (h, past)) (answer q e waits) =
      let same : q ≡ r = cc in
      let past' : IsPast (s.stages q.cmd_id) = rw (sym same) at past in absurd (rw waits at past')
  IsLate-step {s} r h (send_closed q x e done) = inl refl
  IsLate-step {s} r (inl h) (load q e found there) = cc
  IsLate-step {s} r (inr h) (load q e found there) = let is = h.0 in cc
  IsLate-step {s} r (inl h) (stop_listening e) = cc
  IsLate-step {s} r (inr h) (stop_listening e) = let is = h.0 in cc
  IsLate-step {s} r (inl h) (start_listening e) = cc
  IsLate-step {s} r (inr h) (start_listening e) = let is = h.0 in cc
  IsLate-step {s} r h _ = h

  IsLate-stays : {s t : System} (r : Response) → IsLate r s → Reach encoded s t → IsLate r t
  IsLate-stays r h here = h
  IsLate-stays r h (next run step) = IsLate-step r (IsLate-stays r h run) step

  without_stage :
      (r : Response) (t : System)
      → IsLate r t
      → (t.listener ≡ panicked) ⊎ (t.listener ≡ answering r)
  without_stage r t (inl h) = inl h
  without_stage r t (inr h) = inr h.0

  update_same : (f : Bytes → Stage) (id : Bytes) (x : Stage) → update f id x id ≡ x
  update_same f id x = rw (bytes_eq_refl id) refl

  -- When the listener is about to answer a call, and the call ends with the timeout first: the
  -- listener answers nobody any more, whatever steps follow, and the steps of the call to its return
  -- lead to its panic.
  pub late_answer_panics :
      (s : System) (r : Response)
      → s.listener ≡ answering r
      → s.stages r.cmd_id ≡ waiting
      → let late = at_stage s r.cmd_id (received (err propose_timeout)) in
        Step encoded s late
        × ((t : System)
            → Reach encoded late t
            → (t.listener ≡ panicked) ⊎ (t.listener ≡ answering r))
        × (t : System) × Reach encoded late t
        × (t.listener ≡ panicked)
  late_answer_panics s r h waits =
      let late = at_stage s r.cmd_id (received (err propose_timeout)) in
      let past : IsPast (late.stages r.cmd_id) = rw (bytes_eq_refl r.cmd_id) tt in
      (
        time_out r.cmd_id waits,
        λ t run. without_stage r t (IsLate-stays r (inr (h, past)) run),
        _,
        next
            (next
              (next here (delete r.cmd_id (err propose_timeout) (rw (bytes_eq_refl r.cmd_id) refl)))
              (close r.cmd_id (err propose_timeout) (rw (bytes_eq_refl r.cmd_id) refl)))
            (send_closed r (err propose_timeout) h (rw (bytes_eq_refl r.cmd_id) refl)),
        refl,
      )
