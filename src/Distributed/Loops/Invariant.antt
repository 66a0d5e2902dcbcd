-- ===== src/Distributed/Loops/Invariant.antt =====
-- What holds of the proposals of distributed.go and node.go between two steps of the goroutines.
use omashu.Base.{
  ℕ, ◌+◌, ◌≤◌, ◌<◌, suc, ◌≡◌, Bool, List, [], ◌∷◌, arith, All, ◌⊎◌, inl, inr, if◌then◌else◌,
  Bool-cases,
}
use omashu.Base.Bytes.{Bytes, bytes_eq, bytes_eq_refl, bytes_eq-eq}
use omashu.Errors.{propose_timeout, Result, ok, err, panic}
use omashu.Distributed.Propose.{Propose}
use omashu.Distributed.Loops.{
  node_removed, Response, Stage, absent, sending, waiting, received, deleted, returned, Handler,
  responding, ReadyLoop, Listener, listening, listener_done, panicked, answering, System, update,
  request_of,
}

-- The times that the command with an id is among some proposals.
abbrev pub times : Bytes → List Propose → ℕ
times id [] = 0
times id (p ∷ ps) = if bytes_eq id p.cmd_id then suc (times id ps) else times id ps

-- What a response says has happened to a command that was proposed n times and refused m times.
abbrev pub Says : ℕ → ℕ → Result (Unit {0}) → Type 0
Says n m (ok _) = 0 < n
Says n m (err e) = (e ≡ node_removed) × (0 < m)
Says n m panic = ⊥

abbrev pub Returns : ℕ → ℕ → Result (Unit {0}) → Type 0
Returns n m r = (r ≡ err propose_timeout) ⊎ Says n m r

-- A command that is in the channel k times, at the stage of its call.
abbrev Settled : ℕ → ℕ → ℕ → Stage → Type 0
Settled k n m absent = k + n + m ≡ 0
Settled k n m sending = k + n + m ≡ 0
Settled k n m waiting = Unit
Settled k n m (received r) = Returns n m r
Settled k n m (deleted r) = Returns n m r
Settled k n m (returned r) = Returns n m r

abbrev Told : System → Response → Type 0
Told s r = Says (times r.cmd_id s.proposed) (times r.cmd_id s.refused) r.result

abbrev HandlerTells : System → Handler → Type 0
HandlerTells s (responding r) = Told s r
HandlerTells s _ = Unit

abbrev ListenerTells : System → Listener → Type 0
ListenerTells s (answering r) = Told s r
ListenerTells s _ = Unit

module _ (encoded : Bytes → Bytes) where
  abbrev IsOwn : Propose → Type 0
  IsOwn p = p.cmd ≡ encoded p.cmd_id

  pub record Inv (s : System) : Type 0 where
    pub settled :
        (id : Bytes)
        → Settled (times id s.requests) (times id s.proposed) (times id s.refused) (s.stages id)
    pub once : (id : Bytes) → times id s.requests + times id s.proposed + times id s.refused ≤ 1
    pub own_requests : All IsOwn s.requests
    pub own : All IsOwn s.proposed
    pub handler : HandlerTells s s.handler
    pub responses : All (Told s) s.responses
    pub listener : ListenerTells s s.listener

  Says-more : (n m n' m' : ℕ) (r : Result (Unit {0})) → n ≤ n' → m ≤ m' → Says n m r → Says n' m' r
  Says-more n m n' m' (ok _) p q h = omega (arith, p, q, h)
  Says-more n m n' m' (err e) p q h = (h.0, omega (arith, p, q, h.1))
  Says-more n m n' m' panic p q h = h

  Returns-more :
      (n m n' m' : ℕ) (r : Result (Unit {0})) → n ≤ n' → m ≤ m' → Returns n m r → Returns n' m' r
  Returns-more n m n' m' r p q (inl e) = inl e
  Returns-more n m n' m' r p q (inr h) = inr (Says-more n m n' m' r p q h)

  -- A command is taken out of the channel, and proposed or refused.
  Settled-moved :
      (k n m k' n' m' : ℕ) (stage : Stage)
      → n ≤ n'
      → m ≤ m'
      → k' + n' + m' ≤ k + n + m
      → Settled k n m stage
      → Settled k' n' m' stage
  Settled-moved k n m k' n' m' absent p q t h = omega (arith, t, h)
  Settled-moved k n m k' n' m' sending p q t h = omega (arith, t, h)
  Settled-moved k n m k' n' m' waiting p q t h = tt
  Settled-moved k n m k' n' m' (received r) p q t h = Returns-more n m n' m' r p q h
  Settled-moved k n m k' n' m' (deleted r) p q t h = Returns-more n m n' m' r p q h
  Settled-moved k n m k' n' m' (returned r) p q t h = Returns-more n m n' m' r p q h

  -- The stage of one call has changed.
  pub restaged :
      (s : System) (at : Bytes) (stage : Stage)
      → Inv s
      → Settled (times at s.requests) (times at s.proposed) (times at s.refused) stage
      → (id : Bytes)
      → Settled
          (times id s.requests)
          (times id s.proposed)
          (times id s.refused)
          (update s.stages at stage id)
  restaged s at stage inv h id = elim (Bool-cases (bytes_eq id at)) [
    | inl same ↦ rw (same, bytes_eq-eq id at same) h
    | inr other ↦ rw other (inv.settled id)
  ]

  -- A response that was told stays true when more is proposed and refused.
  Told-more :
      (r : Response) (s t : System)
      → ((id : Bytes) → times id s.proposed ≤ times id t.proposed)
      → ((id : Bytes) → times id s.refused ≤ times id t.refused)
      → Told s r
      → Told t r
  Told-more r s t p q h = Says-more _ _ _ _ r.result (p r.cmd_id) (q r.cmd_id) h

  All-more :
      (rs : List Response) (s t : System)
      → ((id : Bytes) → times id s.proposed ≤ times id t.proposed)
      → ((id : Bytes) → times id s.refused ≤ times id t.refused)
      → All (Told s) rs
      → All (Told t) rs
  All-more [] s t p q h = tt
  All-more (r ∷ rs) s t p q h = (Told-more r s t p q h.0, All-more rs s t p q h.1)

  Listener-more :
      (l : Listener) (s t : System)
      → ((id : Bytes) → times id s.proposed ≤ times id t.proposed)
      → ((id : Bytes) → times id s.refused ≤ times id t.refused)
      → ListenerTells s l
      → ListenerTells t l
  Listener-more (answering r) s t p q h = Told-more r s t p q h
  Listener-more listening s t p q h = tt
  Listener-more listener_done s t p q h = tt
  Listener-more panicked s t p q h = tt

  pub times-cons : (id : Bytes) (p : Propose) (ps : List Propose) → times id ps ≤ times id (p ∷ ps)
  times-cons id p ps = ground arith

  pub times_own : (p : Propose) (ps : List Propose) → 0 < times p.cmd_id (p ∷ ps)
  times_own p ps = rw (bytes_eq_refl p.cmd_id) (omega arith)

  -- The handler has taken a request and proposed it, refused it, or dropped it.
  module _ (s t : System) (inv : Inv s) (empty : t.requests ≡ []) (stages : t.stages ≡ s.stages)
      (more : (id : Bytes) → times id s.proposed ≤ times id t.proposed)
      (more' : (id : Bytes) → times id s.refused ≤ times id t.refused)
      (moved : (id : Bytes)
        → times id t.proposed + times id t.refused
          ≤ times id s.requests + times id s.proposed + times id s.refused)
      (responses : t.responses ≡ s.responses) (listener : t.listener ≡ s.listener) where
    pub taken-Inv : All IsOwn t.proposed → HandlerTells t t.handler → Inv t
    taken-Inv own handler = record {
      settled = λ id.
          rw (empty, stages)
            (Settled-moved _ _ _ 0 _ _ (s.stages id) (more id) (more' id) (omega (arith, moved id))
              (inv.settled id));
      once = λ id. rw empty (omega (arith, moved id, inv.once id));
      own_requests = rw empty tt;
      own = own;
      handler = handler;
      responses = rw responses (All-more s.responses s t more more' inv.responses);
      listener = rw listener (Listener-more s.listener s t more more' inv.listener);
    }

  -- Only the stage of one call and the map have changed.
  pub staged-Inv :
      (s : System) (at : Bytes) (stage : Stage) (in_map : Bytes → Bool)
      → Inv s
      → Settled (times at s.requests) (times at s.proposed) (times at s.refused) stage
      → Inv (record s { stages = update s.stages at stage; in_map = in_map })
  staged-Inv s at stage in_map inv h = record {
    settled = restaged s at stage inv h;
    once = inv.once;
    own_requests = inv.own_requests;
    own = inv.own;
    handler = inv.handler;
    responses = inv.responses;
    listener = inv.listener;
  }

  pub stage_at :
      (s : System) (id : Bytes) {stage : Stage}
      → Inv s
      → s.stages id ≡ stage
      → Settled (times id s.requests) (times id s.proposed) (times id s.refused) stage
  stage_at s id inv h = let x = inv.settled id in rw h at x

  pub requested-Settled :
      (s : System) (at id : Bytes)
      → Inv s
      → s.requests ≡ []
      → Settled
          (times id (request_of encoded at ∷ []))
          (times id s.proposed)
          (times id s.refused)
          (update s.stages at waiting id)
  requested-Settled s at id inv h = elim (Bool-cases (bytes_eq id at)) [
    | inl same ↦ rw same tt
    | inr other ↦ let x = inv.settled id in rw other (rw h at x)
  ]

  pub requested-once :
      (s : System) (at id : Bytes)
      → Inv s
      → s.requests ≡ []
      → s.stages at ≡ sending
      → times id (request_of encoded at ∷ []) + times id s.proposed + times id s.refused ≤ 1
  requested-once s at id inv h stage = elim (Bool-cases (bytes_eq id at)) [
    | inl same ↦
        let none_yet : times at s.requests + times at s.proposed + times at s.refused ≡ 0 =
          stage_at s at inv stage in
        rw (same, bytes_eq-eq id at same) (omega (arith, none_yet))
    | inr other ↦ rw other (omega (arith, inv.once id))
  ]

  -- Nothing but the handler, the responses, the listener and the ready loop has changed.
  pub moved-Inv :
      (s : System) (handler : Handler) (rs : List Response) (l : Listener) (loop : ReadyLoop)
      (removed : Bool)
      → Inv s
      → HandlerTells s handler
      → All (Told s) rs
      → ListenerTells s l
      → Inv (record s {
        handler = handler;
        responses = rs;
        listener = l;
        ready_loop = loop;
        self_removed = removed;
      })
  moved-Inv s handler rs l loop removed inv h q g = record {
    settled = inv.settled;
    once = inv.once;
    own_requests = inv.own_requests;
    own = inv.own;
    handler = h;
    responses = q;
    listener = g;
  }
