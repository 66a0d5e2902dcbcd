-- ===== src/Examples/Nodes.antt =====
-- Runs of a node of node.go that has applied two entries; its store is the list of the commands applied.
use omashu.Base.{ℕ, suc, length, ◌≡◌, refl, false, some, List, [], ◌∷◌, ◌++◌, arith, any}
use omashu.Base.Bytes.{Bytes}
use omashu.Errors.{other, Result, ok, err}
use omashu.Node.State.{
  remove_node, RaftApi, normal, conf_change, Entry, remove_peer, ReadState, Node,
}
use omashu.Node.Apply.{apply_loop}
use omashu.Node.Ready.{Batch, respond_to_read_states, process_ready}
use omashu.Node.Replay.{deliver, deliver_once}
use omashu.Node.Waiting.{
  Answered, Pending, removes, respond_to_read_states_answers, last_change_decides,
}
use omashu.Node.Order.{is_send, failed_save}

-- A configuration is the number of changes; entry data remove the node whose id is their length.
abbrev counting_raft : RaftApi
counting_raft = record {
  Raft = ℕ;
  ConfState = ℕ;
  apply_conf_change = λ n c. (suc n, suc n);
  unmarshal_conf_change =
      λ bytes. ok (record { type = remove_node; node_id = length bytes; context = [] });
}

abbrev append_command : List Bytes → Bytes → Result (List Bytes)
append_command db bytes = ok (db ++ bytes ∷ [])

abbrev replace_all : List Bytes → Bytes → Result (List Bytes)
replace_all db bytes = ok (bytes ∷ [])

abbrev node : Node counting_raft (List Bytes)
node = record {
  id = 1;
  raft = 0;
  db = (5 ∷ []) ∷ [];
  conf_state = 0;
  applied_index = 2;
  lead = 1;
  self_removed = false;
  peer_calls = [];
}

abbrev second : Entry
second = record { index = 2; type = normal; data_ = 5 ∷ [] }

abbrev third : Entry
third = record { index = 3; type = normal; data_ = 6 ∷ [] }

deliver_once_example :
    deliver counting_raft (List Bytes) append_command replace_all node (second ∷ third ∷ [])
    ≡ (record node { db = (5 ∷ []) ∷ (6 ∷ []) ∷ []; applied_index = 3 }, ok false)
deliver_once_example =
    deliver_once counting_raft (List Bytes) append_command replace_all node second (third ∷ [])
      (refl, (refl, tt)) (refl, tt) (omega arith) (omega arith) refl

abbrev waiting_states : List ReadState
waiting_states =
    record { index = 1; request_ctx = [] }
    ∷ record { index = 2; request_ctx = [] }
    ∷ record { index = 9; request_ctx = [] }
    ∷ []

respond_to_read_states_answers_example :
    Answered 2 waiting_states (respond_to_read_states 2 waiting_states)
    × Pending 2 (respond_to_read_states 2 waiting_states).1
respond_to_read_states_answers_example = respond_to_read_states_answers 2 waiting_states

-- Node 1 is removed, and then node 2.
abbrev removal : Entry
removal = record { index = 3; type = conf_change; data_ = 0 ∷ [] }

abbrev other_removal : Entry
other_removal = record { index = 4; type = conf_change; data_ = 0 ∷ 0 ∷ [] }

looped :
    apply_loop counting_raft (List Bytes) append_command node false (removal ∷ other_removal ∷ [])
    ≡ (record node { raft = 2; conf_state = 2; peer_calls = remove_peer 2 ∷ [] }, ok false)
unfolding apply_loop
looped = refl

last_change_decides_example :
    false ≡ removes remove_node 1 (record { type = remove_node; node_id = 2; context = [] })
last_change_decides_example =
    last_change_decides counting_raft (List Bytes) append_command node false false (removal ∷ [])
      other_removal (record { type = remove_node; node_id = 2; context = [] }) refl refl looped

abbrev ready : Batch counting_raft
ready = record {
  soft_lead = some 2;
  read_states = [];
  snapshot = record { index = 0; conf_state = 0; data_ = [] };
  committed_entries = third ∷ [];
  messages = [];
}

failed_save_example :
    let (node', effects, result) =
      process_ready counting_raft
        (List Bytes)
        append_command
        replace_all
        node
        ready
        (err (other 7)) in
    (result ≡ err (other 7))
    × (any (is_send counting_raft (List Bytes) append_command replace_all) effects ≡ false)
    × (node'.db ≡ node.db)
    × (node'.applied_index ≡ 2)
failed_save_example =
    failed_save counting_raft (List Bytes) append_command replace_all node ready (other 7)
