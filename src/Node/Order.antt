-- ===== src/Node/Order.antt =====
-- The order of processReady of node.go: what has to be saved comes first.
use omashu.Base.{
  ℕ, ◌≡◌, refl, ◌∙◌, Bool, true, false, Option, none, some, any, any-append, Bool-cases, inl, inr,
  ◌==◌,
}
use omashu.Base.Bytes.{Bytes}
use omashu.Errors.{Error, Result, err}
use omashu.Node.State.{RaftApi, Node}
use omashu.Node.Ready.{
  Effect, send, Batch, handle_leader_change, soft_state, notified, respond_to_read_states,
  process_ready,
}

module _ (api : RaftApi) (Db : Type 0) (fsm_apply fsm_restore : Db → Bytes → Result Db) where
  abbrev pub is_send : Effect api → Bool
  is_send (send msgs) = true
  is_send _ = false

  soft_state_keeps :
      (node : Node api Db) (lead : Option ℕ)
      → let (node', effects) = soft_state api Db fsm_apply fsm_restore node lead in
        (node'.db ≡ node.db)
        × (node'.applied_index ≡ node.applied_index)
        × (any is_send effects ≡ false)
  unfolding handle_leader_change
  soft_state_keeps node none = (refl, refl, refl)
  soft_state_keeps node (some lead) = elim (Bool-cases (lead == node.lead)) [
    | inl same ↦ simp same (refl, refl, refl)
    | inr new ↦ simp new (refl, refl, refl)
  ]

  -- When the storage fails to save a batch, processReady returns its error, has sent no message,
  -- and has changed neither the store nor the applied index.
  pub failed_save :
      (node : Node api Db) (rd : Batch api) (e : Error)
      → let (node', effects, result) = process_ready api Db fsm_apply fsm_restore node rd (err e) in
        (result ≡ err e)
        × (any is_send effects ≡ false)
        × (node'.db ≡ node.db)
        × (node'.applied_index ≡ node.applied_index)
  unfolding process_ready
  failed_save node rd e =
      let (same_db, same_index, quiet) = soft_state_keeps node rd.soft_lead in
      (
        refl,
        any-append is_send (soft_state api Db fsm_apply fsm_restore node rd.soft_lead).1 _
            ∙ rw quiet (notified_quiet (respond_to_read_states _ rd.read_states).0),
        same_db,
        same_index,
      )
    where
      notified_quiet :
          (found : Option _) → any is_send (notified api Db fsm_apply fsm_restore found) ≡ false
      notified_quiet none = refl
      notified_quiet (some r) = refl
