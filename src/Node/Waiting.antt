-- ===== src/Node/Waiting.antt =====
-- What node.go tells the readers that wait, and what decides the removal of the node itself.
use omashu.Base.{
  ℕ, ◌≤◌, ◌<◌, ◌≡◌, refl, sym, ap, subst, ◌∙◌, Bool, false, Option, none, some, List, [], ◌∷◌, ◌++◌,
  leb, ◌==◌, All, Bool-cases, inl, inr, leb→le, not_leb→lt,
}
use omashu.Base.Bytes.{Bytes}
use omashu.Errors.{Result, ok, err, panic}
use omashu.Tso.State.{is_empty}
use omashu.Node.State.{
  ConfChangeType, remove_node, update_node, ConfChange, RaftApi, EntryType, normal, conf_change,
  conf_change_v2, Entry, ReadState, Node,
}
use omashu.Node.Apply.{
  Applied, stored, apply_normal_entry, apply_as, apply_loop, apply_conf_entry, call_peer, changed,
  continue_with,
}
use omashu.Node.Ready.{or_this, last_state, respond_loop, respond_to_read_states}

-- What the answer says of the read states: those that are pending lie behind the one that is given
-- out, or are all of them, and those before it are dropped.
abbrev pub Answered : ℕ → List ReadState → Option ReadState × List ReadState → Type 0
Answered applied states (none, pending) = pending ≡ states
Answered applied states (some r, pending) =
    (r.index ≤ applied) × (before : List ReadState) × (states ≡ before ++ r ∷ pending)

-- Every read state that stays pending is above the applied index.
abbrev pub Pending : ℕ → List ReadState → Type 0
Pending applied pending = All (λ (r : ReadState). applied < r.index) pending

up_to_last :
    (r : ReadState) (rs : List ReadState)
    → (before : List ReadState) × (r ∷ rs ≡ before ++ last_state r rs ∷ [])
up_to_last r [] = ([], refl)
up_to_last r (s ∷ ss) = let (before, cut) = up_to_last s ss in (r ∷ before, ap (λ xs. r ∷ xs) cut)

respond_loop_answers :
    (applied : ℕ) (states : List ReadState)
    → Answered applied states (respond_loop applied states)
      × Pending applied (respond_loop applied states).1
unfolding respond_loop
respond_loop_answers applied [] = (refl, tt)
respond_loop_answers applied (r ∷ rs) =
    by_rest (respond_loop applied rs) (respond_loop_answers applied rs)
  where
    by_rest :
        (q : Option ReadState × List ReadState)
        → Answered applied rs q × Pending applied q.1
        → Answered applied (r ∷ rs) (or_this applied r rs q)
          × Pending applied (or_this applied r rs q).1
    by_rest (some s, pending) ((reached, before, cut), above) =
        ((reached, r ∷ before, ap (λ xs. r ∷ xs) cut), above)
    by_rest (none, pending) (all, above) = elim (Bool-cases (leb r.index applied)) [
      | inl reached ↦
          rw reached ((leb→le r.index applied reached, [], refl), subst (Pending applied) all above)
      | inr waits ↦
          rw waits (refl, (not_leb→lt r.index applied waits, subst (Pending applied) all above))
    ]

-- Of the read states of a batch at most one is given out, one that the applied index has reached;
-- the ones that stay pending lie behind it, or are all of them, and the applied index has reached
-- none of them.
pub respond_to_read_states_answers :
    (applied : ℕ) (states : List ReadState)
    → Answered applied states (respond_to_read_states applied states)
      × Pending applied (respond_to_read_states applied states).1
unfolding respond_to_read_states
respond_to_read_states_answers applied [] = (refl, tt)
respond_to_read_states_answers applied (r ∷ rs) =
    elim (Bool-cases (leb (last_state r rs).index applied)) [
      | inl all ↦
          let (before, cut) = up_to_last r rs in rw all ((leb→le _ applied all, before, cut), tt)
      | inr some_ ↦ rw some_ (respond_loop_answers applied (r ∷ rs))
    ]

ok-eq : {x y : Bool} → ok x ≡ ok y → x ≡ y
ok-eq h = cc

-- A configuration change that takes this node out of the cluster.
abbrev pub removes : ConfChangeType → ℕ → ConfChange → Bool
removes remove_node id change = change.node_id == id
removes _ id change = false

module _ (api : RaftApi) (Db : Type 0) (fsm_apply : Db → Bytes → Result Db) where
  call_peer_lem :
      (type : ConfChangeType) (change : ConfChange) (node : Node api Db)
      → let (node', removed) = call_peer api Db fsm_apply type change node in
        (removed ≡ removes type node.id change) × (node'.id ≡ node.id)
  call_peer_lem remove_node change node = elim (Bool-cases (change.node_id == node.id)) [
    | inl self ↦ simp self (refl, refl)
    | inr peer ↦ simp peer (refl, refl)
  ]
  call_peer_lem update_node change node = elim (Bool-cases (is_empty change.context)) [
    | inl none_ ↦ simp none_ (refl, refl)
    | inr some_ ↦ simp some_ (refl, refl)
  ]
  call_peer_lem _ change node = elim (Bool-cases (is_empty change.context)) [
    | inl none_ ↦ simp none_ (refl, refl)
    | inr some_ ↦ simp some_ (refl, refl)
  ]

  stored-id : (node : Node api Db) (r : Result Db) → (stored api Db fsm_apply node r).0.id ≡ node.id
  stored-id node (ok db) = refl
  stored-id node (err e) = refl
  stored-id node panic = refl

  changed-id :
      (node : Node api Db) (r : Result ConfChange)
      → (changed api Db fsm_apply node r).0.id ≡ node.id
  changed-id node (ok change) = (call_peer_lem change.type change _).1
  changed-id node (err e) = refl
  changed-id node panic = refl

  apply_as-id :
      (type : EntryType) (node : Node api Db) (flag : Bool) (e : Entry)
      → (apply_as api Db fsm_apply type node flag e).0.id ≡ node.id
  unfolding apply_normal_entry apply_conf_entry
  apply_as-id normal node flag e = elim (Bool-cases (is_empty e.data_)) [
    | inl skipped ↦ simp skipped
    | inr given ↦ elim (Bool-cases (leb e.index node.applied_index)) [
      | inl old ↦ simp (given, old)
      | inr new ↦ simp (given, new, stored-id node (fsm_apply node.db e.data_))
    ]
  ]
  apply_as-id conf_change node flag e = changed-id node (api.unmarshal_conf_change e.data_)
  apply_as-id conf_change_v2 node flag e = refl

  -- The loop over one entry and more, from what the first of them leaves.
  by_first :
      (node : Node api Db) (flag ended : Bool) (x : Entry) (es : List Entry) {node' : Node api Db}
      → apply_loop api Db fsm_apply node flag (x ∷ es) ≡ (node', ok ended)
      → (n : Node api Db) × (f : Bool) × (n.id ≡ node.id)
        × (apply_loop api Db fsm_apply n f es ≡ (node', ok ended))
  unfolding apply_loop
  by_first node flag ended x es {node' = node'} h =
      by_result (apply_as api Db fsm_apply x.type node flag x) (apply_as-id x.type node flag x) h
    where
      by_result :
          (r : Applied api Db fsm_apply)
          → r.0.id ≡ node.id
          → continue_with api Db fsm_apply r (λ n f. apply_loop api Db fsm_apply n f es)
            ≡ (node', ok ended)
          → (n : Node api Db) × (f : Bool) × (n.id ≡ node.id)
            × (apply_loop api Db fsm_apply n f es ≡ (node', ok ended))
      by_result (n, ok f) same rest = (n, f, same, rest)
      by_result (n, err _) same rest = absurd (cc (ap (λ r. r.1) rest))
      by_result (n, panic) same rest = absurd (cc (ap (λ r. r.1) rest))

  -- When a batch ends with a configuration change, its flag for the removal of this node is that of
  -- this change alone: a removal earlier in the batch is forgotten.
  pub last_change_decides :
      (node : Node api Db) (flag ended : Bool) (es : List Entry) (e : Entry) (change : ConfChange)
      {node' : Node api Db}
      → e.type ≡ conf_change
      → api.unmarshal_conf_change e.data_ ≡ ok change
      → apply_loop api Db fsm_apply node flag (es ++ e ∷ []) ≡ (node', ok ended)
      → ended ≡ removes change.type node.id change
  unfolding apply_loop apply_conf_entry
  last_change_decides node flag ended [] e change kind decoded h =
      sym (ok-eq (ap (λ r. r.1) (rw (kind, decoded) at h))) ∙ (call_peer_lem change.type change _).0
  last_change_decides node flag ended (x ∷ es) e change kind decoded h =
      let (n, f, same, rest) = by_first node flag ended x (es ++ e ∷ []) h in
      last_change_decides n f ended es e change kind decoded rest
      ∙ ap (λ i. removes change.type i change) same
