-- ===== src/Examples/Proposals.antt =====
-- Runs of the goroutines that carry a proposal.
use omashu.Base.{if◌then◌else◌, ◌≡◌, refl, false, [], ◌∷◌, ◌⊎◌, All, ◌≤◌}
use omashu.Base.Bytes.{Bytes, bytes_eq}
use omashu.Errors.{propose_timeout, other, ok, err}
use omashu.Distributed.Propose.{Propose}
use omashu.Distributed.Loops.{
  Response, absent, sending, waiting, received, returned, selecting, failing, ReadyLoop, running,
  removing, ready_done, listening, panicked, answering, System, at_stage, Step, store, request,
  delete, close, propose, respond, time_out, load, answer, Reach, here, next,
}
use omashu.Distributed.Loops.Invariant.{times}
use omashu.Distributed.Loops.Answers.{IsStart, Means, proposed_once, answers_are_own}
use omashu.Distributed.Loops.Stuck.{unsent_never_returns, removal_deadlocks}
use omashu.Distributed.Loops.Late.{late_answer_panics}

abbrev encoded : Bytes → Bytes
encoded id = 9 ∷ id

abbrev start : System
start = record {
  stages = λ id. absent;
  in_map = λ id. false;
  requests = [];
  responses = [];
  handler = selecting;
  ready_loop = running;
  listener = listening;
  self_removed = false;
  proposed = [];
  refused = [];
}

start-IsStart : IsStart encoded start
start-IsStart = record {
  no_calls = λ id. refl;
  no_requests = refl;
  no_responses = refl;
  nothing_proposed = refl;
  nothing_refused = refl;
  handler_selects = refl;
  listens = refl;
}

abbrev id : Bytes
id = 1 ∷ []

-- One call from its begin to its return.
one_call :
    (t : System) × Reach encoded start t
    × (t.stages id ≡ returned (ok tt))
    × (t.proposed ≡ record { cmd_id = id; cmd = encoded id } ∷ [])
unfolding bytes_eq
one_call = (
  _,
  next
      (next
        (next
          (next
            (next
              (next (next (next here (store id refl)) (request id refl refl))
                (propose (record { cmd_id = id; cmd = encoded id }) refl refl refl))
              (respond (record { cmd_id = id; result = ok tt }) refl refl))
            (load (record { cmd_id = id; result = ok tt }) refl refl refl))
          (answer (record { cmd_id = id; result = ok tt }) refl refl))
        (delete id (ok tt) refl))
      (close id (ok tt) refl),
  refl,
  refl,
)

answers_are_own_example : Means encoded one_call.0 id (ok tt)
answers_are_own_example =
    answers_are_own encoded start one_call.0 id (ok tt) start-IsStart one_call.1 one_call.2

proposed_once_example :
    All (λ (p : Propose). p.cmd ≡ encoded p.cmd_id) one_call.0.proposed
    × ((id : Bytes) → times id one_call.0.proposed ≤ 1)
proposed_once_example = proposed_once encoded start one_call.0 start-IsStart one_call.1

-- The handler waits to report an error to a ready loop that has returned; one request is in the channel.
abbrev clogged : ReadyLoop → System
clogged loop = record start {
  stages = λ k. if bytes_eq k id then sending else waiting;
  requests = record { cmd_id = 2 ∷ []; cmd = encoded (2 ∷ []) } ∷ [];
  handler = failing (other 7);
  ready_loop = loop;
}

other_times_out :
    (loop : ReadyLoop)
    → Reach encoded
        (clogged loop)
        (at_stage (clogged loop) (2 ∷ []) (received (err propose_timeout)))
unfolding bytes_eq
other_times_out loop = next here (time_out (2 ∷ []) refl)

unsent_never_returns_example :
    (at_stage (clogged ready_done) (2 ∷ []) (received (err propose_timeout))).stages id ≡ sending
unfolding bytes_eq
unsent_never_returns_example =
    unsent_never_returns encoded (clogged ready_done) _
      (record { cmd_id = 2 ∷ []; cmd = encoded (2 ∷ []) }) id tt refl refl
      (other_times_out ready_done)

removal_deadlocks_example : (removing ≡ removing) × Unit {0}
removal_deadlocks_example =
    removal_deadlocks encoded (clogged removing) _ refl tt (other_times_out removing)

abbrev answer_1 : Response
answer_1 = record { cmd_id = id; result = ok tt }

abbrev about_to_answer : System
about_to_answer = record start { stages = λ k. waiting; listener = answering answer_1 }

late_answer_panics_example :
    let late = at_stage about_to_answer id (received (err propose_timeout)) in
    Step encoded about_to_answer late
    × ((t : System)
        → Reach encoded late t
        → (t.listener ≡ panicked) ⊎ (t.listener ≡ answering answer_1))
    × (t : System) × Reach encoded late t
    × (t.listener ≡ panicked)
late_answer_panics_example = late_answer_panics encoded about_to_answer answer_1 refl refl
