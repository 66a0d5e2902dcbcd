-- ===== src/Distributed/Loops.antt =====
-- The goroutines that carry a proposal, interleaved: proposeAndWait and listenProposeResponses of
-- distributed.go, proposeHandler and, as far as they meet it, readyHandler and scheduleSelfRemoval of
-- node.go. A channel of capacity one is a list of at most one element; a send or a receive on an
-- unbuffered channel is one step of both sides. A fresh uuid makes an id the name of one command, whose
-- bytes are `encoded id`, and of the channel that its caller waits on.
pub mod Invariant
pub mod Answers
pub mod Stuck
pub mod Late
use omashu.Base.{Bool, true, false, List, [], ◌∷◌, ◌≡◌, if◌then◌else◌}
use omashu.Base.Bytes.{Bytes, bytes_eq}
use omashu.Errors.{Error, propose_timeout, other, Result, ok, err}
use omashu.Distributed.Propose.{Propose}

-- errors.New("node has been removed from cluster")
abbrev pub node_removed : Error
node_removed = other 3

pub record Response : Type 0 where
  pub cmd_id : Bytes
  pub result : Result (Unit {0})

-- Where a call of proposeAndWait stands: not begun, before its send of the request, in its select, and
-- then, with what it returns, before Delete, before close and after its return.
pub data Stage : Type 0 where
  absent sending waiting : Stage
  received deleted returned : Result (Unit {0}) → Stage

-- proposeHandler: in its select, before its send of a response or of an error, or returned.
pub data Handler : Type 0 where
  selecting handler_done : Handler
  responding : Response → Handler
  failing : Error → Handler

-- readyHandler: in its select, in scheduleSelfRemoval before its send, or returned.
pub data ReadyLoop : Type 0 where
  running removing ready_done : ReadyLoop

-- listenProposeResponses: in its select, before its send on the channel of a caller, returned, or
-- panicked.
pub data Listener : Type 0 where
  listening listener_done panicked : Listener
  answering : Response → Listener

-- The calls and the map of their channels, the two channels, the goroutines, and what the handler has
-- handed to Raft and has refused, the newest first.
pub record System : Type 0 where
  pub stages : Bytes → Stage
  pub in_map : Bytes → Bool
  pub requests : List Propose
  pub responses : List Response
  pub handler : Handler
  pub ready_loop : ReadyLoop
  pub listener : Listener
  pub self_removed : Bool
  pub proposed : List Propose
  pub refused : List Propose

abbrev pub update : {A : Type 0} → (Bytes → A) → Bytes → A → Bytes → A
update f id x k = if bytes_eq k id then x else f k

abbrev pub at_stage : System → Bytes → Stage → System
at_stage s id stage = record s { stages = update s.stages id stage }

abbrev pub request_of : (Bytes → Bytes) → Bytes → Propose
request_of encoded id = record { cmd_id = id; cmd = encoded id }

pub data Step (encoded : Bytes → Bytes) (s : System) : System → Type 0 where
  -- proposeAndWait: the map gets the channel, and the request is sent outside of the select
  store :
      (id : Bytes)
      → s.stages id ≡ absent
      → Step encoded s
          (record s { stages = update s.stages id sending; in_map = update s.in_map id true })
  request :
      (id : Bytes)
      → s.stages id ≡ sending
      → s.requests ≡ []
      → Step encoded s
          (record s { stages = update s.stages id waiting; requests = request_of encoded id ∷ [] })
  time_out :
      (id : Bytes)
      → s.stages id ≡ waiting
      → Step encoded s (at_stage s id (received (err propose_timeout)))
  delete :
      (id : Bytes) (r : Result (Unit {0}))
      → s.stages id ≡ received r
      → Step encoded s
          (record s { stages = update s.stages id (deleted r); in_map = update s.in_map id false })
  close :
      (id : Bytes) (r : Result (Unit {0}))
      → s.stages id ≡ deleted r
      → Step encoded s (at_stage s id (returned r))
  -- proposeHandler
  refuse :
      (p : Propose)
      → s.handler ≡ selecting
      → s.requests ≡ p ∷ []
      → s.self_removed ≡ true
      → Step encoded s (record s {
        requests = [];
        handler = responding (record { cmd_id = p.cmd_id; result = err node_removed });
        refused = p ∷ s.refused;
      })
  propose :
      (p : Propose)
      → s.handler ≡ selecting
      → s.requests ≡ p ∷ []
      → s.self_removed ≡ false
      → Step encoded s (record s {
        requests = [];
        handler = responding (record { cmd_id = p.cmd_id; result = ok tt });
        proposed = p ∷ s.proposed;
      })
  fail :
      (p : Propose) (e : Error)
      → s.handler ≡ selecting
      → s.requests ≡ p ∷ []
      → s.self_removed ≡ false
      → Step encoded s (record s { requests = []; handler = failing e })
  -- ProposeConfChange has returned an error
  fail_conf_change :
      (e : Error)
      → s.handler ≡ selecting
      → s.self_removed ≡ false
      → Step encoded s (record s { handler = failing e })
  respond :
      (r : Response)
      → s.handler ≡ responding r
      → s.responses ≡ []
      → Step encoded s (record s { handler = selecting; responses = r ∷ [] })
  -- errChan, from the handler to the ready loop: both return
  raise :
      (e : Error)
      → s.handler ≡ failing e
      → s.ready_loop ≡ running
      → Step encoded s (record s { handler = handler_done; ready_loop = ready_done })
  -- the context is done
  cancel_handler : s.handler ≡ selecting → Step encoded s (record s { handler = handler_done })
  -- scheduleSelfRemoval, up to its send
  remove_self :
      s.ready_loop ≡ running
      → Step encoded s (record s { ready_loop = removing; self_removed = true })
  -- stopNotifier, from the ready loop to the handler
  stop_handler :
      s.ready_loop ≡ removing
      → s.handler ≡ selecting
      → Step encoded s (record s { ready_loop = running; handler = handler_done })
  -- processReady has returned an error, or the context is done
  stop_ready : s.ready_loop ≡ running → Step encoded s (record s { ready_loop = ready_done })
  -- listenProposeResponses
  load :
      (r : Response)
      → s.listener ≡ listening
      → s.responses ≡ r ∷ []
      → s.in_map r.cmd_id ≡ true
      → Step encoded s (record s { responses = []; listener = answering r })
  drop :
      (r : Response)
      → s.listener ≡ listening
      → s.responses ≡ r ∷ []
      → s.in_map r.cmd_id ≡ false
      → Step encoded s (record s { responses = [] })
  -- the send on the caller's channel
  answer :
      (r : Response)
      → s.listener ≡ answering r
      → s.stages r.cmd_id ≡ waiting
      → Step encoded s
          (record s { stages = update s.stages r.cmd_id (received r.result); listener = listening })
  send_closed :
      (r : Response) (x : Result (Unit {0}))
      → s.listener ≡ answering r
      → s.stages r.cmd_id ≡ returned x
      → Step encoded s (record s { listener = panicked })
  -- leadership is lost, or the context is done; leadership is gained
  stop_listening : s.listener ≡ listening → Step encoded s (record s { listener = listener_done })
  start_listening : s.listener ≡ listener_done → Step encoded s (record s { listener = listening })

pub data Reach (encoded : Bytes → Bytes) (s : System) : System → Type 0 where
  here : Reach encoded s s
  next : {t u : System} → Reach encoded s t → Step encoded t u → Reach encoded s u
