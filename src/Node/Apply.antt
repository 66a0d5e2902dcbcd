-- ===== src/Node/Apply.antt =====
-- node.go: applying committed entries and snapshots. `fsm_apply` is FSM.Apply and `fsm_restore` is
-- FSM.RestoreSnapshot.
use omashu.Base.{
  ℕ, Bool, true, false, List, [], ◌∷◌, ◌++◌, length, drop, leb, ltb, ◌==◌, if◌then◌else◌,
}
use omashu.Base.Bytes.{Bytes}
use omashu.Errors.{Error, other, Result, ok, err, panic, ◌>>=◌}
use omashu.Tso.State.{is_empty}
use omashu.Node.State.{
  ConfChangeType, remove_node, update_node, ConfChange, RaftApi, EntryType, normal, conf_change,
  conf_change_v2, Entry, PeerCall, add_peer, update_peer, remove_peer, add64, sub64, Node, Snapshot,
}

-- fmt.Errorf("unknown entry type: …"), fmt.Errorf("snapshot index … less then applied index …")
abbrev pub unknown_entry_type : Error
unknown_entry_type = other 2

abbrev pub stale_snapshot : Error
stale_snapshot = other 3

abbrev pub entries_after : ℕ → List Entry → Result (List Entry)
entries_after applied [] = ok []
entries_after applied (e ∷ es) =
    let from = add64 (sub64 applied e.index) 1 in
    if ltb (add64 applied 1) e.index
    then panic
    else if ltb from (length (e ∷ es))
    then ok (drop from (e ∷ es))
    else ok []

unfoldable pub get_entries_to_apply : ℕ → List Entry → Result (List Entry)
unfolding add64 sub64
get_entries_to_apply applied entries = entries_after applied entries

-- `entries[len(entries)-1].Index`, `none` of the entries being a panic that the caller excludes
abbrev pub last_index : ℕ → List Entry → ℕ
last_index d [] = d
last_index d (e ∷ es) = last_index e.index es

module _ (api : RaftApi) (Db : Type 0) (fsm_apply : Db → Bytes → Result Db) where
  open api use {apply_conf_change, unmarshal_conf_change}

  -- A node as it stands, and the error or the flag that is returned.
  abbrev pub Applied : Type 0
  Applied = Node api Db × Result Bool

  abbrev pub stored : Node api Db → Result Db → Applied
  stored node (ok db) = (record node { db = db }, ok false)
  stored node (err e) = (node, err e)
  stored node panic = (node, panic)

  -- The flag is `false` for success.
  unfoldable pub apply_normal_entry : Node api Db → Entry → Applied
  apply_normal_entry node entry =
      if leb entry.index node.applied_index
      then (node, ok false)
      else stored node (fsm_apply node.db entry.data_)

  abbrev pub with_call : Node api Db → PeerCall → Node api Db
  with_call node call = record node { peer_calls = node.peer_calls ++ call ∷ [] }

  abbrev pub call_peer : ConfChangeType → ConfChange → Node api Db → Node api Db × Bool
  call_peer remove_node cc node =
      if cc.node_id == node.id
      then (node, true)
      else (with_call node (remove_peer cc.node_id), false)
  call_peer update_node cc node =
      if is_empty cc.context
      then (node, false)
      else (with_call node (update_peer cc.node_id cc.context), false)
  call_peer _ cc node =
      if is_empty cc.context
      then (node, false)
      else (with_call node (add_peer cc.node_id cc.context), false)

  abbrev pub changed : Node api Db → Result ConfChange → Applied
  changed node (err e) = (node, err e)
  changed node panic = (node, panic)
  changed node (ok cc) =
      let (raft, conf_state) = apply_conf_change node.raft cc in
      let (node', removed) =
        call_peer cc.type cc (record node { raft = raft; conf_state = conf_state }) in
      (node', ok removed)

  unfoldable pub apply_conf_entry : Node api Db → Entry → Applied
  apply_conf_entry node entry = changed node (unmarshal_conf_change entry.data_)

  -- One turn of the loop of applyEntries; `self_remove` is the flag so far, which a normal entry keeps
  -- and a configuration change replaces.
  abbrev pub apply_as : EntryType → Node api Db → Bool → Entry → Applied
  apply_as normal node self_remove entry =
      if is_empty entry.data_
      then (node, ok self_remove)
      else (let (node', r) = apply_normal_entry node entry in (node', r >>= λ _. ok self_remove))
  apply_as conf_change node self_remove entry = apply_conf_entry node entry
  apply_as conf_change_v2 node self_remove entry = (node, err unknown_entry_type)

  abbrev pub continue_with : Applied → (Node api Db → Bool → Applied) → Applied
  continue_with (node, ok flag) k = k node flag
  continue_with (node, err e) k = (node, err e)
  continue_with (node, panic) k = (node, panic)

  unfoldable pub apply_loop : Node api Db → Bool → List Entry → Applied
  unfolding apply_normal_entry apply_conf_entry
  apply_loop node self_remove [] = (node, ok self_remove)
  apply_loop node self_remove (e ∷ es) =
      continue_with (apply_as e.type node self_remove e) (λ n flag. apply_loop n flag es)

  unfoldable pub apply_entries : Node api Db → List Entry → Applied
  unfolding apply_loop
  apply_entries node entries =
      continue_with (apply_loop node false entries)
        (λ n flag. (record n { applied_index = last_index n.applied_index entries }, ok flag))

  abbrev pub restored : Node api Db → Snapshot api → Result Db → Applied
  restored node snapshot (ok db) = (
    record node { db = db; applied_index = snapshot.index; conf_state = snapshot.conf_state },
    ok false,
  )
  restored node snapshot (err e) = (node, err e)
  restored node snapshot panic = (node, panic)

  -- applySnapshotToFSM; the library's test for an empty snapshot is that its index is 0.
  unfoldable pub apply_snapshot_to_fsm :
      (Db → Bytes → Result Db) → Node api Db → Snapshot api → Applied
  apply_snapshot_to_fsm fsm_restore node snapshot =
      if snapshot.index == 0
      then (node, ok false)
      else if leb snapshot.index node.applied_index
      then (node, err stale_snapshot)
      else restored node snapshot (fsm_restore node.db snapshot.data_)
