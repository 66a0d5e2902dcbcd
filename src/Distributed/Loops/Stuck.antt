-- ===== src/Distributed/Loops/Stuck.antt =====
-- Where the goroutines of distributed.go and node.go that carry a proposal wait for each other for good.
use omashu.Base.{arith, ◌≡◌, ◌≢◌, refl, sym, ◌∙◌, [], ◌∷◌, ◌⊎◌, inl, inr, Bool-cases}
use omashu.Base.Bytes.{Bytes, bytes_eq, bytes_eq-eq}
use omashu.Distributed.Propose.{Propose}
use omashu.Distributed.Loops.{
  Stage, sending, Handler, selecting, handler_done, responding, failing, ReadyLoop, running,
  removing, System, update, Step, store, request, time_out, delete, close, refuse, propose, fail,
  fail_conf_change, respond, raise, cancel_handler, remove_self, stop_handler, stop_ready, answer,
  Reach, here, next,
}

-- The propose handler takes no request any more: it has returned, or it waits to give an error to a
-- ready loop that does not take it.
abbrev pub IsStopped : ReadyLoop → Handler → Type 0
IsStopped loop handler_done = Unit
IsStopped running (failing e) = ⊥
IsStopped loop (failing e) = Unit
IsStopped loop selecting = ⊥
IsStopped loop (responding r) = ⊥

module _ (encoded : Bytes → Bytes) where
  IsStopped-step :
      {s t : System}
      → IsStopped s.ready_loop s.handler
      → Step encoded s t
      → IsStopped t.ready_loop t.handler
  IsStopped-step h (refuse p e took removed) = ground arith
  IsStopped-step h (propose p e took member) = ground arith
  IsStopped-step h (fail p x e took member) = ground arith
  IsStopped-step h (fail_conf_change x e member) = ground arith
  IsStopped-step h (respond r e empty) = ground arith
  IsStopped-step h (raise x e loop) = tt
  IsStopped-step h (cancel_handler e) = tt
  IsStopped-step h (remove_self e) = ground arith
  IsStopped-step h (stop_handler e e') = tt
  IsStopped-step h (stop_ready e) = ground arith
  IsStopped-step h _ = h

  removing_step :
      {s t : System}
      → IsStopped s.ready_loop s.handler
      → s.ready_loop ≡ removing
      → Step encoded s t
      → t.ready_loop ≡ removing
  removing_step h is (raise x e loop) = cc
  removing_step h is (remove_self loop) = refl
  removing_step h is (stop_handler e e') = ground arith
  removing_step h is (stop_ready loop) = cc
  removing_step h is _ = is

  -- A step of a call that is not before its send.
  other_call :
      (f : Bytes → Stage) (at id : Bytes) (from to : Stage)
      → f at ≡ from
      → from ≢ sending
      → f id ≡ sending
      → update f at to id ≡ sending
  other_call f at id from to e differs unsent = elim (Bool-cases (bytes_eq id at)) [
    | inl same ↦ absurd (differs (sym e ∙ rw (bytes_eq-eq id at same) at unsent))
    | inr other ↦ rw other unsent
  ]

  unsent_step :
      {s t : System} (p : Propose) (id : Bytes)
      → IsStopped s.ready_loop s.handler
      → s.requests ≡ p ∷ []
      → s.stages id ≡ sending
      → Step encoded s t
      → (t.requests ≡ p ∷ []) × (t.stages id ≡ sending)
  unsent_step {s} p id h full unsent (store at e) =
      (full, other_call s.stages at id _ sending e (λ q. cc) unsent)
  unsent_step {s} p id h full unsent (request at e empty) = cc
  unsent_step {s} p id h full unsent (time_out at e) =
      (full, other_call s.stages at id _ _ e (λ q. cc) unsent)
  unsent_step {s} p id h full unsent (delete at r e) =
      (full, other_call s.stages at id _ _ e (λ q. cc) unsent)
  unsent_step {s} p id h full unsent (close at r e) =
      (full, other_call s.stages at id _ _ e (λ q. cc) unsent)
  unsent_step {s} p id h full unsent (answer r e waits) =
      (full, other_call s.stages r.cmd_id id _ _ waits (λ q. cc) unsent)
  unsent_step p id h full unsent (refuse q e took removed) = ground arith
  unsent_step p id h full unsent (propose q e took member) = ground arith
  unsent_step p id h full unsent (fail q x e took member) = ground arith
  unsent_step p id h full unsent _ = (full, unsent)

  unsent_kept :
      {s t : System} (p : Propose) (id : Bytes)
      → IsStopped s.ready_loop s.handler
      → s.requests ≡ p ∷ []
      → s.stages id ≡ sending
      → Reach encoded s t
      → IsStopped t.ready_loop t.handler × (t.requests ≡ p ∷ []) × (t.stages id ≡ sending)
  unsent_kept p id h full unsent here = (h, full, unsent)
  unsent_kept p id h full unsent (next r step) =
      let (h', full', unsent') = unsent_kept p id h full unsent r in
      let (full2, unsent2) = unsent_step p id h' full' unsent' step in
      (IsStopped-step h' step, full2, unsent2)

  -- Once the propose handler has returned, or waits to give an error to a ready loop that does not
  -- take it, and a request is in the channel: a call that has not sent its request never gets past
  -- that send, and so does not even end with the timeout, whatever steps follow.
  pub unsent_never_returns :
      (s t : System) (p : Propose) (id : Bytes)
      → IsStopped s.ready_loop s.handler
      → s.requests ≡ p ∷ []
      → s.stages id ≡ sending
      → Reach encoded s t
      → t.stages id ≡ sending
  unsent_never_returns s t p id h full unsent r = (unsent_kept p id h full unsent r).2

  -- When a node is removed while its propose handler has returned or waits to report an error, the
  -- ready loop stays in scheduleSelfRemoval for good, and the handler stays stopped.
  pub removal_deadlocks :
      (s t : System)
      → s.ready_loop ≡ removing
      → IsStopped s.ready_loop s.handler
      → Reach encoded s t
      → (t.ready_loop ≡ removing) × IsStopped t.ready_loop t.handler
  removal_deadlocks s t is h here = (is, h)
  removal_deadlocks s t is h (next r step) =
      let (is', h') = removal_deadlocks s _ is h r in
      (removing_step h' is' step, IsStopped-step h' step)

  removed_step :
      {s t : System}
      → (s.ready_loop ≡ removing) ⊎ (s.handler ≡ handler_done)
      → Step encoded s t
      → (t.ready_loop ≡ removing) ⊎ (t.handler ≡ handler_done)
  removed_step h (refuse p e took removed) = ground arith
  removed_step h (propose p e took member) = ground arith
  removed_step h (fail p x e took member) = ground arith
  removed_step h (fail_conf_change x e member) = ground arith
  removed_step h (respond r e empty) = ground arith
  removed_step h (raise x e loop) = inr refl
  removed_step h (cancel_handler e) = inr refl
  removed_step h (remove_self e) = inl refl
  removed_step h (stop_handler e e') = inr refl
  removed_step h (stop_ready e) = ground arith
  removed_step h _ = h

  -- When a node is removed, the ready loop stays in scheduleSelfRemoval until the propose handler has
  -- returned: the stop notification ends the propose handler, and not the ready loop.
  pub removal_ends_handler :
      (s t : System)
      → s.ready_loop ≡ removing
      → Reach encoded s t
      → (t.ready_loop ≡ removing) ⊎ (t.handler ≡ handler_done)
  removal_ends_handler s t is here = inl is
  removal_ends_handler s t is (next r step) = removed_step (removal_ends_handler s _ is r) step
