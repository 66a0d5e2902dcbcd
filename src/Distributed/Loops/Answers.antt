-- ===== src/Distributed/Loops/Answers.antt =====
-- What a call of proposeAndWait in distributed.go returns, whatever the order of the goroutines' steps.
use omashu.Base.{◌≤◌, ◌≡◌, refl, ap, [], arith, All, ◌⊎◌, inl, inr}
use omashu.Base.Bytes.{Bytes}
use omashu.Errors.{propose_timeout, Result, ok, err, panic}
use omashu.Distributed.Propose.{Propose}
use omashu.Distributed.Loops.{
  node_removed, absent, sending, received, deleted, returned, selecting, listening, System, Step,
  store, request, time_out, delete, close, refuse, propose, fail, fail_conf_change, respond, raise,
  cancel_handler, remove_self, stop_handler, stop_ready, load, drop, answer, send_closed,
  stop_listening, start_listening, Reach, here, next,
}
use omashu.Distributed.Loops.Invariant.{
  times, Returns, Inv, restaged, times-cons, times_own, taken-Inv, staged-Inv, stage_at,
  requested-Settled, requested-once, moved-Inv,
}

module _ (encoded : Bytes → Bytes) where
  Step-Inv : {s t : System} → Inv encoded s → Step encoded s t → Inv encoded t
  Step-Inv {s} inv (store id h) =
      staged-Inv encoded s id sending _ inv (stage_at encoded s id inv h)
  Step-Inv {s} inv (request id h empty) = record {
    settled = λ id'. requested-Settled encoded s id id' inv empty;
    once = λ id'. requested-once encoded s id id' inv empty h;
    own_requests = (refl, tt);
    own = inv.own;
    handler = inv.handler;
    responses = inv.responses;
    listener = inv.listener;
  }
  Step-Inv {s} inv (time_out id h) = staged-Inv encoded s id _ _ inv (inl refl)
  Step-Inv {s} inv (delete id r h) =
      staged-Inv encoded s id (deleted r) _ inv (stage_at encoded s id inv h)
  Step-Inv {s} inv (close id r h) =
      staged-Inv encoded s id (returned r) _ inv (stage_at encoded s id inv h)
  Step-Inv {s} inv (refuse p h took removed) =
      taken-Inv encoded s _ inv refl refl (λ id. omega arith)
        (λ id. times-cons encoded id p s.refused) (λ id. rw took (ground arith)) refl refl inv.own
        (refl, times_own encoded p s.refused)
  Step-Inv {s} inv (propose p h took member) =
      taken-Inv encoded s _ inv refl refl (λ id. times-cons encoded id p s.proposed)
        (λ id. omega arith) (λ id. rw took (ground arith)) refl refl
        ((rw took at inv.own_requests).0, inv.own) (times_own encoded p s.proposed)
  Step-Inv {s} inv (fail p e h took member) =
      taken-Inv encoded s _ inv refl refl (λ id. omega arith) (λ id. omega arith)
        (λ id. omega arith) refl refl inv.own tt
  Step-Inv {s} inv (fail_conf_change e h member) =
      moved-Inv encoded s _ _ _ _ _ inv tt inv.responses inv.listener
  Step-Inv {s} inv (respond r h empty) =
      let told = inv.handler in moved-Inv encoded s _ _ _ _ _ inv tt (rw h at told, tt) inv.listener
  Step-Inv {s} inv (raise e h loop) =
      moved-Inv encoded s _ _ _ _ _ inv tt inv.responses inv.listener
  Step-Inv {s} inv (cancel_handler h) =
      moved-Inv encoded s _ _ _ _ _ inv tt inv.responses inv.listener
  Step-Inv {s} inv (remove_self h) =
      moved-Inv encoded s _ _ _ _ _ inv inv.handler inv.responses inv.listener
  Step-Inv {s} inv (stop_handler h h') =
      moved-Inv encoded s _ _ _ _ _ inv tt inv.responses inv.listener
  Step-Inv {s} inv (stop_ready h) =
      moved-Inv encoded s _ _ _ _ _ inv inv.handler inv.responses inv.listener
  Step-Inv {s} inv (load r h found there) =
      let told = inv.responses in
      moved-Inv encoded s _ _ _ _ _ inv inv.handler tt (rw found at told).0
  Step-Inv {s} inv (drop r h found gone) =
      moved-Inv encoded s _ _ _ _ _ inv inv.handler tt inv.listener
  Step-Inv {s} inv (answer r h waits) =
      let told = inv.listener in
      let settled = restaged encoded s r.cmd_id (received r.result) inv (inr (rw h at told)) in
      record {
        settled = settled;
        once = inv.once;
        own_requests = inv.own_requests;
        own = inv.own;
        handler = inv.handler;
        responses = inv.responses;
        listener = tt;
      }
  Step-Inv {s} inv (send_closed r x h done) =
      moved-Inv encoded s _ _ _ _ _ inv inv.handler inv.responses tt
  Step-Inv {s} inv (stop_listening h) =
      moved-Inv encoded s _ _ _ _ _ inv inv.handler inv.responses tt
  Step-Inv {s} inv (start_listening h) =
      moved-Inv encoded s _ _ _ _ _ inv inv.handler inv.responses tt

  -- Nothing has begun.
  pub record IsStart (s : System) : Type 0 where
    pub no_calls : (id : Bytes) → s.stages id ≡ absent
    pub no_requests : s.requests ≡ []
    pub no_responses : s.responses ≡ []
    pub nothing_proposed : s.proposed ≡ []
    pub nothing_refused : s.refused ≡ []
    pub handler_selects : s.handler ≡ selecting
    pub listens : s.listener ≡ listening

  start-Inv : (s : System) → IsStart s → Inv encoded s
  start-Inv s h = record {
    settled = λ id. rw (h.no_calls id, h.no_requests, h.nothing_proposed, h.nothing_refused) refl;
    once = λ id. rw (h.no_requests, h.nothing_proposed, h.nothing_refused) (omega arith);
    own_requests = rw h.no_requests tt;
    own = rw h.nothing_proposed tt;
    handler = rw h.handler_selects tt;
    responses = rw h.no_responses tt;
    listener = rw h.listens tt;
  }

  Reach-Inv : {s t : System} → Inv encoded s → Reach encoded s t → Inv encoded t
  Reach-Inv inv here = inv
  Reach-Inv inv (next r step) = Step-Inv (Reach-Inv inv r) step

  -- When nothing has begun, then whatever the calls, the two handlers and the listener do, in any
  -- order: every command that has been handed to Raft is the command of the call with its id, and no
  -- command has been handed to Raft twice.
  pub proposed_once :
      (s t : System)
      → IsStart s
      → Reach encoded s t
      → All (λ (p : Propose). p.cmd ≡ encoded p.cmd_id) t.proposed
        × ((id : Bytes) → times id t.proposed ≤ 1)
  proposed_once s t start r =
      let inv = Reach-Inv (start-Inv s start) r in (inv.own, λ id. omega (arith, inv.once id))

  -- What the result of a call means for its command.
  abbrev pub Means : System → Bytes → Result (Unit {0}) → Type 0
  Means t id r =
      (r ≡ err propose_timeout)
      ⊎ (((r ≡ ok tt) × (times id t.proposed ≡ 1))
          ⊎ ((r ≡ err node_removed) × (times id t.proposed ≡ 0)))

  Returns-Means :
      (t : System) (id : Bytes) (r : Result (Unit {0}))
      → Inv encoded t
      → Returns (times id t.proposed) (times id t.refused) r
      → Means t id r
  Returns-Means t id r inv (inl e) = inl e
  Returns-Means t id (ok u) inv (inr h) = inr (inl (refl, omega (arith, h, inv.once id)))
  Returns-Means t id panic inv (inr h) = absurd h
  Returns-Means t id (err e) inv (inr h) = inr (inr (ap err h.0, omega (arith, h.1, inv.once id)))

  -- When nothing has begun, then whatever the calls, the two handlers and the listener do, in any
  -- order: a call that has returned ended with the timeout; or with nil, and its own command has been
  -- handed to Raft once; or with the refusal of a removed node, and its command has not been handed to
  -- Raft.
  pub answers_are_own :
      (s t : System) (id : Bytes) (r : Result (Unit {0}))
      → IsStart s
      → Reach encoded s t
      → t.stages id ≡ returned r
      → Means t id r
  answers_are_own s t id r start run h =
      let inv = Reach-Inv (start-Inv s start) run in
      Returns-Means t id r inv (stage_at encoded t id inv h)
