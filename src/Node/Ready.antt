-- ===== src/Node/Ready.antt =====
-- node.go: processReady and what it calls besides applying entries. `save` is the answer of
-- storage.SaveState; what a step gives to a channel, a callback or the transport is an effect.
use omashu.Base.{
  ℕ, Bool, true, false, not, ◌&&◌, Option, none, some, List, [], ◌∷◌, ◌++◌, leb, ltb, ◌==◌,
  if◌then◌else◌, map,
}
use omashu.Base.Bytes.{Bytes}
use omashu.Errors.{Result, ok, err, panic}
use omashu.Node.State.{RaftApi, Entry, ReadState, sub64, Node, Snapshot, Message}
use omashu.Node.Apply.{get_entries_to_apply, apply_entries, apply_snapshot_to_fsm}

abbrev pub default_snapshot_count : ℕ
default_snapshot_count = 100000

abbrev pub last_state : ReadState → List ReadState → ReadState
last_state r [] = r
last_state r (s ∷ ss) = last_state s ss

abbrev pub or_this :
    ℕ
    → ReadState
    → List ReadState
    → Option ReadState × List ReadState
    → Option ReadState × List ReadState
or_this applied r rs (some s, pending) = (some s, pending)
or_this applied r rs (none, pending) = if leb r.index applied then (some r, rs) else (none, r ∷ rs)

-- The loop of respondToReadStates, which runs from the last read state to the first: the one that is
-- given to the channel, if any, and the ones behind it.
unfoldable pub respond_loop : ℕ → List ReadState → Option ReadState × List ReadState
respond_loop applied [] = (none, [])
respond_loop applied (r ∷ rs) = or_this applied r rs (respond_loop applied rs)

-- The read state given to readStatesNotifier, and the ones still pending.
unfoldable pub respond_to_read_states : ℕ → List ReadState → Option ReadState × List ReadState
unfolding respond_loop
respond_to_read_states applied [] = (none, [])
respond_to_read_states applied (r ∷ rs) =
    let confirmed = last_state r rs in
    let found = respond_loop applied (r ∷ rs) in
    if leb confirmed.index applied then (some confirmed, []) else found

-- The guard of takeSnapshotIfNeeded, in uint64 arithmetic.
unfoldable pub needs_snapshot : Bool → ℕ → ℕ → Bool
unfolding sub64
needs_snapshot force applied_index snapshot_index =
    not (not force && ltb (sub64 applied_index snapshot_index) default_snapshot_count)

module _ (api : RaftApi) where
  open api use {ConfState}

  pub data Effect : Type 0 where
    -- the callback onLeaderChange(prevLeader, newLeader)
    leader_changed : ℕ → ℕ → Effect
    read_state : ReadState → Effect
    -- transport.Send
    send : List (Message api) → Effect
    -- Advance of the Raft library, after the snapshot goroutine is started
    advance : Effect
    -- scheduleSelfRemoval: its flag, the callback onRemovedSelf, the stop notification
    removed_self : Effect

  pub record Batch : Type 0 where
    pub soft_lead : Option ℕ
    pub read_states : List ReadState
    pub snapshot : Snapshot api
    pub committed_entries : List Entry
    pub messages : List (Message api)

  unfoldable pub get_messages_to_publish : ConfState → List (Message api) → List (Message api)
  get_messages_to_publish conf_state msgs =
      map (λ m. if m.is_snap then record m { conf_state = conf_state } else m) msgs

  module _ (Db : Type 0) (fsm_apply : Db → Bytes → Result Db)
      (fsm_restore : Db → Bytes → Result Db) where
    unfoldable pub handle_leader_change : Node api Db → ℕ → Node api Db × List Effect
    handle_leader_change node new_leader =
        if new_leader == node.lead
        then (node, [])
        else (record node { lead = new_leader }, leader_changed node.lead new_leader ∷ [])

    abbrev pub soft_state : Node api Db → Option ℕ → Node api Db × List Effect
    soft_state node none = (node, [])
    soft_state node (some lead) = handle_leader_change node lead

    abbrev pub notified : Option ReadState → List Effect
    notified none = []
    notified (some r) = read_state r ∷ []

    -- The state, the effects in their order, and what is returned.
    abbrev pub Processed : Type 0
    Processed = Node api Db × List Effect × Result (Unit {0})

    -- From the second round of read states to Advance, or the removal of the node itself.
    abbrev pub finish : Node api Db → List Effect → Bool → List ReadState → Processed
    finish node effects true pending =
        (record node { self_removed = true }, effects ++ removed_self ∷ [], ok tt)
    finish node effects false pending =
        let (found, _) = respond_to_read_states node.applied_index pending in
        (node, effects ++ notified found ++ advance ∷ [], ok tt)

    abbrev pub after_entries : List Effect → List ReadState → Node api Db × Result Bool → Processed
    after_entries effects pending (node, ok self_remove) = finish node effects self_remove pending
    after_entries effects pending (node, err e) = (node, effects, err e)
    after_entries effects pending (node, panic) = (node, effects, panic)

    abbrev pub apply_rest : Node api Db → Result (List Entry) → Node api Db × Result Bool
    apply_rest node (ok []) = (node, ok false)
    apply_rest node (ok (e ∷ es)) = apply_entries api Db fsm_apply node (e ∷ es)
    apply_rest node (err e) = (node, err e)
    apply_rest node panic = (node, panic)

    abbrev pub after_snapshot :
        List Effect → List ReadState → List Entry → Node api Db × Result Bool → Processed
    after_snapshot effects pending entries (node, ok _) =
        after_entries effects pending
          (apply_rest node (get_entries_to_apply node.applied_index entries))
    after_snapshot effects pending entries (node, err e) = (node, effects, err e)
    after_snapshot effects pending entries (node, panic) = (node, effects, panic)

    abbrev pub after_save :
        Batch → Node api Db → List Effect → List ReadState → Result (Unit {0}) → Processed
    after_save rd node effects pending (err e) = (node, effects, err e)
    after_save rd node effects pending panic = (node, effects, panic)
    after_save rd node effects pending (ok _) =
        after_snapshot (effects ++ send (get_messages_to_publish node.conf_state rd.messages) ∷ [])
          pending rd.committed_entries
          (apply_snapshot_to_fsm api Db fsm_apply fsm_restore node rd.snapshot)

    unfoldable pub process_ready : Node api Db → Batch → Result (Unit {0}) → Processed
    process_ready node rd save =
        let (node', effects) = soft_state node rd.soft_lead in
        let (found, pending) = respond_to_read_states node'.applied_index rd.read_states in
        after_save rd node' (effects ++ notified found) pending save
