-- ===== src/Node/Linear/Fresh.antt =====
-- Which read states a reader of distributed.go is served.
use omashu.Base.{
  ℕ, ◌≤◌, ◌<◌, ◌≡◌, refl, arith, Bool-cases, inl, inr, List, [], ◌∷◌, All, All-append, All-map,
  All-parts, subst, ◌==◌, ==_iff,
}
use omashu.Base.Bytes.{Bytes}
use omashu.Node.State.{ReadState}
use omashu.Node.Linear.{
  Reader, idle, waiting, timed_out, served, Asked, Reads, with_reader, Step, commit, ask, answer,
  process, take, time_out, Reach, here, next,
}
use omashu.Node.Linear.Handed.{answers-All}

-- Some reader has asked for a read state of its context, at or below its index.
abbrev Known : (ℕ → Reader) → ReadState → Type 0
Known readers r =
    (id : ℕ) × (asked : ℕ) × Asked (readers id) r.request_ctx asked × (asked ≤ r.index)

abbrev Handed : ℕ → (ℕ → Reader) → ReadState → Type 0
Handed applied readers r = (r.index ≤ applied) × Known readers r

record Inv (s : Reads) : Type 0 where
  asked_below :
      (id : ℕ) (key : Bytes) (asked : ℕ) → Asked (s.readers id) key asked → asked ≤ s.committed
  pending : All (Known s.readers) s.pending
  channel : All (Handed s.applied s.readers) s.channel
  readers :
      (id : ℕ) (key : Bytes) (asked : ℕ) (r : ReadState)
      → s.readers id ≡ served key asked r
      → Handed s.applied s.readers r

module _ (s : Reads) (id : ℕ) (reader : Reader)
    (keeps : (key : Bytes) (n : ℕ) → Asked (s.readers id) key n → Asked reader key n) where
  Asked-step :
      (i : ℕ) (key : Bytes) (n : ℕ)
      → Asked (s.readers i) key n
      → Asked (with_reader s id reader i) key n
  Asked-step i key n h = elim (Bool-cases (i == id)) [
    | inl same ↦ rw same (keeps key n (rw ((==_iff i id).0 same) at h))
    | inr other ↦ rw other h
  ]

  Known-step : (r : ReadState) → Known s.readers r → Known (with_reader s id reader) r
  Known-step r (i, asked, h, le) = (i, asked, Asked-step i r.request_ctx asked h, le)

  Handed-step :
      (r : ReadState) → Handed s.applied s.readers r → Handed s.applied (with_reader s id reader) r
  Handed-step r h = (h.0, Known-step r h.1)

  -- The change of one reader, to one that asked at or below the commit index.
  change_below :
      Inv s
      → ((key : Bytes) (n : ℕ) → Asked reader key n → n ≤ s.committed)
      → (i : ℕ) (key : Bytes) (n : ℕ) → Asked (with_reader s id reader i) key n
      → n ≤ s.committed
  change_below inv good i key n h = elim (Bool-cases (i == id)) [
    | inl same ↦ good key n (rw same at h)
    | inr other ↦ inv.asked_below i key n (rw other at h)
  ]

  -- The change of one reader, to one that is served only with a read state that was handed over.
  readers-step :
      Inv s
      → ((key : Bytes) (asked : ℕ) (r : ReadState)
          → reader ≡ served key asked r
          → Handed s.applied s.readers r)
      → (k : ℕ) (key : Bytes) (asked : ℕ) (r : ReadState)
      → with_reader s id reader k ≡ served key asked r
      → Handed s.applied (with_reader s id reader) r
  readers-step inv good k key asked r h = elim (Bool-cases (k == id)) [
    | inl same ↦ Handed-step r (good key asked r (rw same at h))
    | inr other ↦ Handed-step r (inv.readers k key asked r (rw other at h))
  ]

later_Handed :
    (before after : ℕ) (readers : ℕ → Reader) (r : ReadState)
    → before ≤ after
    → Handed before readers r
    → Handed after readers r
later_Handed before after readers r le h = (omega (arith, le, h.0), h.1)

served-eq : {k l : Bytes} {a b : ℕ} {r r' : ReadState} → served k a r ≡ served l b r' → r ≡ r'
served-eq e = cc

Step-Inv : {s t : Reads} → Inv s → Step s t → Inv t
Step-Inv {s} inv (commit n le) = record {
  asked_below = λ id key asked h. omega (arith, le, inv.asked_below id key asked h);
  pending = inv.pending;
  channel = inv.channel;
  readers = inv.readers;
}
Step-Inv {s} inv (ask id key h) =
    let keeps : (k : Bytes) (n : ℕ)
        → Asked (s.readers id) k n
        → Asked (waiting key s.committed) k n =
      λ k n asked. absurd (rw h at asked) in
    record {
      asked_below = change_below s id _ keeps inv (λ k n asked. omega (arith, asked.1));
      pending = All-map _ _ s.pending (Known-step s id _ keeps) inv.pending;
      channel = All-map _ _ s.channel (Handed-step s id _ keeps) inv.channel;
      readers = readers-step s id _ keeps inv (λ k asked r e. cc);
    }
Step-Inv {s} inv (answer id key asked h) = record {
  asked_below = inv.asked_below;
  pending =
      All-append _ s.pending _ inv.pending ((id, asked, h, inv.asked_below id key asked h), tt);
  channel = inv.channel;
  readers = inv.readers;
}
Step-Inv {s} inv (process batch rest after cut le below fits) =
    let known = inv.pending in
    let (now, later) = All-parts _ batch rest (rw cut at known) in
    record {
      asked_below = inv.asked_below;
      pending = later;
      channel =
          All-append _ s.channel _
            (All-map _ _ s.channel (λ r. later_Handed s.applied after s.readers r le) inv.channel)
            (answers-All (Known s.readers) s.applied after batch le now);
      readers = λ id key asked r e.
          later_Handed s.applied after s.readers r le (inv.readers id key asked r e);
    }
Step-Inv {s} inv (take id key asked r rest h full) =
    let keeps : (k : Bytes) (n : ℕ) → Asked (s.readers id) k n → Asked (served key asked r) k n =
      λ k n a. rw h at a in
    let handed = inv.channel in
    let (first, others) = rw full at handed in
    record {
      asked_below = change_below s id _ keeps inv (λ k n a. inv.asked_below id k n (rw h a));
      pending = All-map _ _ s.pending (Known-step s id _ keeps) inv.pending;
      channel = All-map _ _ rest (Handed-step s id _ keeps) others;
      readers =
          readers-step s id _ keeps inv
            (λ k asked' r' e. subst (Handed s.applied s.readers) (served-eq e) first);
    }
Step-Inv {s} inv (time_out id key asked h) =
    let keeps : (k : Bytes) (n : ℕ) → Asked (s.readers id) k n → Asked (timed_out key asked) k n =
      λ k n a. rw h at a in
    record {
      asked_below = change_below s id _ keeps inv (λ k n a. inv.asked_below id k n (rw h a));
      pending = All-map _ _ s.pending (Known-step s id _ keeps) inv.pending;
      channel = All-map _ _ s.channel (Handed-step s id _ keeps) inv.channel;
      readers = readers-step s id _ keeps inv (λ k asked r e. cc);
    }

-- Nobody has asked.
pub record IsStart (s : Reads) : Type 0 where
  pub no_pending : s.pending ≡ []
  pub no_channel : s.channel ≡ []
  pub no_readers : (id : ℕ) → s.readers id ≡ idle

start-Inv : (s : Reads) → IsStart s → Inv s
start-Inv s h = record {
  asked_below = λ id key asked a. absurd (rw (h.no_readers id) at a);
  pending = rw h.no_pending tt;
  channel = rw h.no_channel tt;
  readers = λ id key asked r e. let none_served = h.no_readers id in cc;
}

Reach-Inv : {s t : Reads} → Inv s → Reach s t → Inv t
Reach-Inv inv here = inv
Reach-Inv inv (next run step) = Step-Inv (Reach-Inv inv run) step

only_one :
    (readers : ℕ → Reader) (id : ℕ) (key : Bytes) (asked n : ℕ) (r : ReadState) (i : ℕ)
    → readers id ≡ served key asked r
    → i ≡ id
    → Asked (readers i) key n
    → n ≡ asked
only_one readers id key asked n r i h same a =
    let a' = subst (λ x. Asked x key n) h (subst (λ j. Asked (readers j) key n) same a) in
    omega (arith, a'.1)

-- When nobody has asked yet, then in any order of commits, requests, answers of Raft, batches, receives
-- and timeouts: a reader that has been served a read state with its own key as context, and is the only
-- one that has asked for that key, reads from a state that has applied that read state, which is at or
-- above what was committed when it asked.
pub own_read_state_is_fresh :
    (s t : Reads) (id : ℕ) (key : Bytes) (asked : ℕ) (r : ReadState)
    → IsStart s
    → Reach s t
    → t.readers id ≡ served key asked r
    → r.request_ctx ≡ key
    → ((i n : ℕ) → Asked (t.readers i) key n → i ≡ id)
    → (asked ≤ r.index) × (r.index ≤ t.applied)
own_read_state_is_fresh s t id key asked r start run h own only =
    let (reached, known) = (Reach-Inv (start-Inv s start) run).readers id key asked r h in
    let (i, n, a, le) = known in
    let a' : Asked (t.readers i) key n = subst (λ k. Asked (t.readers i) k n) own a in
    (omega (arith, le, only_one t.readers id key asked n r i h (only i n a') a'), reached)

-- When a read state is left on the channel, by a reader that timed out, and this node has not applied
-- all that is committed: a new reader of any key can be served that read state at once, and reads while
-- what was committed before it asked is not applied.
pub left_over_read_is_stale :
    (s : Reads) (id : ℕ) (key : Bytes) (r : ReadState) (rest : List ReadState)
    → s.channel ≡ r ∷ rest
    → s.applied < s.committed
    → s.readers id ≡ idle
    → (t : Reads) × Reach s t
      × (t.readers id ≡ served key s.committed r)
      × (t.applied < s.committed)
left_over_read_is_stale s id key r rest left behind new = (
  _,
  next (next here (ask id key new))
      (take id key s.committed r rest (rw ((==_iff id id).1 refl) refl) left),
  rw ((==_iff id id).1 refl) refl,
  behind,
)
