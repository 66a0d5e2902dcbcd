-- ===== src/Node/Replay.antt =====
-- Committed entries of node.go that come again, in a batch that overlaps what has been applied.
use omashu.Base.{
  ℕ, zero, suc, ◌+◌, ◌-◌, ◌^◌, ◌≤◌, ◌<◌, ◌≡◌, refl, sym, ap, ◌∙◌, Bool, false, List, [], ◌∷◌,
  length, drop, filter, ltb, if◌then◌else◌, arith, Bool-cases, inl, inr, ltb→lt, not_ltb→le, subst,
  All-filter, lt→ltb, lt→not_leb, le→not_ltb, All,
}
use omashu.Base.Bytes.{Bytes}
use omashu.Errors.{Result, ok, panic, ◌>>=◌, >>=-eq-ok}
use omashu.Tso.State.{is_empty}
use omashu.Node.State.{RaftApi, normal, Entry, add64, sub64, Node}
use omashu.Node.Apply.{
  get_entries_to_apply, last_index, apply_as, continue_with, apply_loop, apply_entries,
  apply_normal_entry,
}
use omashu.Node.Ready.{apply_rest}

-- The entries have consecutive indices from `i` on.
abbrev pub IsRun : ℕ → List Entry → Type 0
IsRun i [] = Unit
IsRun i (e ∷ es) = (e.index ≡ i) × IsRun (suc i) es

abbrev pub is_new : ℕ → Entry → Bool
is_new applied e = ltb applied e.index

all_new :
    (applied i : ℕ) (es : List Entry) → IsRun i es → applied < i → filter (is_new applied) es ≡ es
all_new applied i [] run below = refl
all_new applied i (e ∷ es) run below = simp (
  lt→ltb applied e.index (omega (arith, run.0, below)),
  all_new applied (suc i) es run.1 (omega (arith, below)),
)

drop-filter :
    (applied i k : ℕ) (es : List Entry)
    → IsRun i es
    → k + i ≡ suc applied
    → drop k es ≡ filter (is_new applied) es
drop-filter applied i zero es run h = sym (all_new applied i es run (omega (arith, h)))
drop-filter applied i (suc k) [] run h = refl
drop-filter applied i (suc k) (e ∷ es) run h = simp (
  le→not_ltb applied e.index (omega (arith, run.0, h)),
  drop-filter applied (suc i) k es run.1 (omega (arith, h)),
)

drop_all : (k : ℕ) (es : List Entry) → length es ≤ k → drop k es ≡ []
drop_all zero [] h = refl
drop_all zero (e ∷ es) h = absurd (omega (arith, h))
drop_all (suc k) [] h = refl
drop_all (suc k) (e ∷ es) h = drop_all k es (omega (arith, h))

next_index :
    (applied i : ℕ)
    → i ≤ suc applied
    → suc applied < 2 ^ 64
    → add64 (sub64 applied i) 1 ≡ suc applied - i
unfolding add64 sub64
next_index applied i h small = omega (arith, h, small)

IsRun-filter :
    (applied i : ℕ) (es : List Entry)
    → IsRun i es
    → i ≤ suc applied
    → IsRun (suc applied) (filter (is_new applied) es)
IsRun-filter applied i [] run h = tt
IsRun-filter applied i (e ∷ es) run h = elim (Bool-cases (ltb applied e.index)) [
  | inl new ↦
      let at : e.index ≡ suc applied = omega (arith, run.0, h, ltb→lt applied e.index new) in
      rw (new, all_new applied (suc i) es run.1 (omega (arith, run.0, at)))
        (at, subst (λ n. IsRun n es) (omega (arith, run.0, at)) run.1)
  | inr old ↦
      rw old (
        IsRun-filter applied (suc i) es run.1
          (omega (arith, run.0, not_ltb→le applied e.index old)))
]

-- Nothing of a run that ends at or below the applied index is new.
none_new :
    (applied i : ℕ) (es : List Entry)
    → IsRun i es
    → i + length es ≤ suc applied
    → filter (is_new applied) es ≡ []
none_new applied i [] run h = refl
none_new applied i (e ∷ es) run h = simp (
  le→not_ltb applied e.index (omega (arith, run.0, h)),
  none_new applied (suc i) es run.1 (omega (arith, h)),
)

cut_list :
    (k : ℕ) (es : List Entry)
    → (if ltb k (length es) then ok (drop k es) else ok []) ≡ ok (drop k es)
cut_list k es = elim (Bool-cases (ltb k (length es))) [
  | inl some_ ↦ rw some_ refl
  | inr none_ ↦ rw (none_, drop_all k es (not_ltb→le k (length es) none_)) refl
]

ok-eq {ℓ} : {A : Type ℓ} {x y : A} → ok x ≡ ok y → x ≡ y
ok-eq h = cc

add64_one : (n : ℕ) → suc n < 2 ^ 64 → add64 n 1 ≡ suc n
unfolding add64
add64_one n small = omega (arith, small)

-- Of committed entries with consecutive indices, those above the applied index are to be applied,
-- and a gap between the applied index and the first of them is a panic; the applied index is below
-- 2^64 - 1.
pub get_entries_to_apply-filter :
    (applied : ℕ) (e : Entry) (es : List Entry)
    → IsRun (suc e.index) es
    → suc applied < 2 ^ 64
    → get_entries_to_apply applied (e ∷ es)
      ≡ (if ltb (suc applied) e.index then panic else ok (filter (is_new applied) (e ∷ es)))
unfolding get_entries_to_apply
get_entries_to_apply-filter applied e es run small = elim (Bool-cases (ltb (suc applied) e.index)) [
  | inl gap ↦ simp (add64_one applied small, gap)
  | inr joins ↦
      let from : ℕ = suc applied - e.index in
      let near : e.index ≤ suc applied = not_ltb→le (suc applied) e.index joins in
      let cut : drop from (e ∷ es) ≡ filter (is_new applied) (e ∷ es) =
        drop-filter applied e.index from (e ∷ es) (refl, run) (omega (arith, near)) in
      rw (add64_one applied small, next_index applied e.index near small, joins)
        (cut_list from (e ∷ es) ∙ ap ok cut)
]

module _ (api : RaftApi) (Db : Type 0) (fsm_apply fsm_restore : Db → Bytes → Result Db) where
  -- What processReady does with the committed entries of a batch.
  abbrev pub deliver : Node api Db → List Entry → Node api Db × Result Bool
  deliver node entries =
      apply_rest api Db fsm_apply fsm_restore node (get_entries_to_apply node.applied_index entries)

  -- The commands of the entries, applied one after the other; an entry without data is skipped.
  abbrev pub fold_apply : Db → List Entry → Result Db
  fold_apply db [] = ok db
  fold_apply db (e ∷ es) =
      (if is_empty e.data_ then ok db else fsm_apply db e.data_) >>= λ d. fold_apply d es

  apply_normal :
      (node : Node api Db) (e : Entry) {db : Db}
      → e.type ≡ normal
      → node.applied_index < e.index
      → (if is_empty e.data_ then ok node.db else fsm_apply node.db e.data_) ≡ ok db
      → apply_as api Db fsm_apply e.type node false e ≡ (record node { db = db }, ok false)
  unfolding apply_normal_entry
  apply_normal node e kind new h = elim (Bool-cases (is_empty e.data_)) [
    | inl skipped ↦
        rw (kind, skipped) (ap (λ d. (record node { db = d }, ok false)) (ok-eq (rw skipped at h)))
    | inr given ↦ simp (kind, given, lt→not_leb e.index node.applied_index new, (rw given at h))
  ]

  loop_normal :
      (node : Node api Db) (i : ℕ) (es : List Entry) {db : Db}
      → All (λ e. e.type ≡ normal) es
      → IsRun i es
      → node.applied_index < i
      → fold_apply node.db es ≡ ok db
      → apply_loop api Db fsm_apply node false es ≡ (record node { db = db }, ok false)
  unfolding apply_loop
  loop_normal node i [] kinds run new h = ap (λ d. (record node { db = d }, ok false)) (ok-eq h)
  loop_normal node i (e ∷ es) kinds run new h =
      let (d, first, rest) =
        >>=-eq-ok (if is_empty e.data_ then ok node.db else fsm_apply node.db e.data_) _ h in
      ap (λ r. continue_with api Db fsm_apply r (λ n flag. apply_loop api Db fsm_apply n flag es))
        (apply_normal node e kinds.0 (omega (arith, new, run.0)) first)
      ∙ loop_normal (record node { db = d }) (suc i) es kinds.1 run.1 (omega (arith, new)) rest

  deliver_fresh :
      (node : Node api Db) (fresh : List Entry) {db : Db}
      → All (λ x. x.type ≡ normal) fresh
      → IsRun (suc node.applied_index) fresh
      → fold_apply node.db fresh ≡ ok db
      → apply_rest api Db fsm_apply fsm_restore node (ok fresh)
        ≡ (record node { db = db; applied_index = last_index node.applied_index fresh }, ok false)
  unfolding apply_entries
  deliver_fresh node [] kinds run h = ap (λ d. (record node { db = d }, ok false)) (ok-eq h)
  deliver_fresh node (e ∷ es) kinds run h =
      ap
        (λ r.
          continue_with api Db fsm_apply r
            (λ n flag. (record n { applied_index = last_index n.applied_index (e ∷ es) }, ok flag)))
        (loop_normal node (suc node.applied_index) (e ∷ es) kinds run (omega arith) h)

  deliver-fresh :
      (node : Node api Db) (e : Entry) (es : List Entry)
      → IsRun (suc e.index) es
      → e.index ≤ suc node.applied_index
      → suc node.applied_index < 2 ^ 64
      → deliver node (e ∷ es)
        ≡ apply_rest api Db fsm_apply fsm_restore node
            (ok (filter (is_new node.applied_index) (e ∷ es)))
  deliver-fresh node e es run near small =
      ap (apply_rest api Db fsm_apply fsm_restore node)
        {y = ok (filter (is_new node.applied_index) (e ∷ es))}
        (get_entries_to_apply-filter node.applied_index e es run small
          ∙ rw (le→not_ltb (suc node.applied_index) e.index near) refl)

  -- Delivering a batch of normal entries with consecutive indices, the first at most one above the
  -- applied index, applies the data of those above the applied index to the store, in order and
  -- once each, and makes the last of them the applied index; each of them is applied without error,
  -- and the applied index is below 2^64 - 1.
  pub deliver_once :
      (node : Node api Db) (e : Entry) (es : List Entry) {db : Db}
      → All (λ x. x.type ≡ normal) (e ∷ es)
      → IsRun (suc e.index) es
      → e.index ≤ suc node.applied_index
      → suc node.applied_index < 2 ^ 64
      → let fresh = filter (is_new node.applied_index) (e ∷ es) in
        fold_apply node.db fresh ≡ ok db
        → deliver node (e ∷ es)
          ≡ (record node { db = db; applied_index = last_index node.applied_index fresh }, ok false)
  deliver_once node e es kinds run near small h =
      deliver-fresh node e es run near small
      ∙ deliver_fresh node (filter (is_new node.applied_index) (e ∷ es))
          (All-filter _ (is_new node.applied_index) (e ∷ es) kinds)
          (IsRun-filter node.applied_index e.index (e ∷ es) (refl, run) near) h

  -- Delivering a batch of committed entries with consecutive indices that ends at or below the
  -- applied index changes nothing; the applied index is below 2^64 - 1.
  pub deliver_again :
      (node : Node api Db) (e : Entry) (es : List Entry)
      → IsRun (suc e.index) es
      → e.index + length es ≤ node.applied_index
      → suc node.applied_index < 2 ^ 64
      → deliver node (e ∷ es) ≡ (node, ok false)
  deliver_again node e es run old small =
      deliver-fresh node e es run (omega (arith, old)) small
      ∙ ap (λ xs. apply_rest api Db fsm_apply fsm_restore node (ok xs))
          (none_new node.applied_index e.index (e ∷ es) (refl, run) (omega (arith, old)))
