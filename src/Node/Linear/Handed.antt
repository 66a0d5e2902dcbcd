-- ===== src/Node/Linear/Handed.antt =====
-- What node.go puts on readStatesNotifier for one batch: read states of the batch that are applied.
use omashu.Base.{
  ℕ, ◌≤◌, arith, Bool-cases, inl, inr, leb, leb→le, Option, none, some, List, [], ◌∷◌, All,
  All-append, All-map,
}
use omashu.Node.State.{ReadState}
use omashu.Node.Ready.{last_state, or_this, respond_loop, respond_to_read_states}
use omashu.Node.Linear.{handed_over, answers}

module _ (P : ReadState → Type 0) where
  -- What is handed over, and is applied, and what is left.
  abbrev Split : ℕ → Option ReadState × List ReadState → Type 0
  Split applied (none, left) = All P left
  Split applied (some r, left) = (r.index ≤ applied) × P r × All P left

  or_this-Split :
      (applied : ℕ) (r : ReadState) (rs : List ReadState)
      (found : Option ReadState × List ReadState)
      → P r
      → All P rs
      → Split applied found
      → Split applied (or_this applied r rs found)
  or_this-Split applied r rs (some x, left) p ps h = h
  or_this-Split applied r rs (none, left) p ps h = elim (Bool-cases (leb r.index applied)) [
    | inl le ↦ rw le (leb→le r.index applied le, p, ps)
    | inr gt ↦ rw gt (p, ps)
  ]

  loop-Split :
      (applied : ℕ) (rs : List ReadState) → All P rs → Split applied (respond_loop applied rs)
  unfolding respond_loop
  loop-Split applied [] h = tt
  loop-Split applied (r ∷ rs) h =
      or_this-Split applied r rs (respond_loop applied rs) h.0 h.1 (loop-Split applied rs h.1)

  last-All : (r : ReadState) (rs : List ReadState) → All P (r ∷ rs) → P (last_state r rs)
  last-All r [] h = h.0
  last-All r (s ∷ ss) h = last-All s ss h.1

  respond-Split :
      (applied : ℕ) (rs : List ReadState)
      → All P rs
      → Split applied (respond_to_read_states applied rs)
  unfolding respond_to_read_states
  respond-Split applied [] h = tt
  respond-Split applied (r ∷ rs) h = elim (Bool-cases (leb (last_state r rs).index applied)) [
    | inl le ↦ rw le (leb→le (last_state r rs).index applied le, last-All r rs h, tt)
    | inr gt ↦ rw gt (loop-Split applied (r ∷ rs) h)
  ]

  handed-All :
      (applied : ℕ) (o : Option ReadState × List ReadState)
      → Split applied o
      → All (λ r. (r.index ≤ applied) × P r) (handed_over o.0) × All P o.1
  handed-All applied (none, left) h = (tt, h)
  handed-All applied (some r, left) h = (((h.0, h.1), tt), h.2)

  pub answers-All :
      (before after : ℕ) (batch : List ReadState)
      → before ≤ after
      → All P batch
      → All (λ r. (r.index ≤ after) × P r) (answers before after batch)
  answers-All before after batch le h =
      let (first, left) = handed-All before _ (respond-Split before batch h) in
      let (second, _) =
        handed-All after _ (respond-Split after (respond_to_read_states before batch).1 left) in
      All-append _ _ _
        (All-map _ _ _ (λ r (reached, known). (omega (arith, le, reached), known)) first) second
