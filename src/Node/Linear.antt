-- ===== src/Node/Linear.antt =====
-- Linearizable reads as steps: waitForReadState of distributed.go with node.go's ReadIndex and
-- WaitForReadState, and the part of processReady that hands read states over. The channel
-- readStatesNotifier holds two; a ready loop that finds it full waits. A call is
-- named by a number, and the context of its request is the key that it reads: calls may share a key.
-- Raft may answer a request later, more than once, or never.
pub mod Handed
pub mod Fresh
use omashu.Base.{
  ℕ, ◌+◌, ◌≤◌, ◌≡◌, ◌==◌, Option, none, some, List, [], ◌∷◌, ◌++◌, length, if◌then◌else◌,
}
use omashu.Base.Bytes.{Bytes}
use omashu.Node.State.{ReadState}
use omashu.Node.Ready.{respond_to_read_states}

-- A call: not begun; waiting, timed out, or served with a read state, each with its key and with the
-- commit index of the moment it asked.
pub data Reader : Type 0 where
  idle : Reader
  waiting timed_out : Bytes → ℕ → Reader
  served : Bytes → ℕ → ReadState → Reader

-- It has asked for a read state of a key, at a commit index.
abbrev pub Asked : Reader → Bytes → ℕ → Type 0
Asked idle key asked = ⊥
Asked (waiting k a) key asked = (k ≡ key) × (a ≡ asked)
Asked (timed_out k a) key asked = (k ≡ key) × (a ≡ asked)
Asked (served k a r) key asked = (k ≡ key) × (a ≡ asked)

-- The leader's commit index, this node's applied index, the read states that Raft has still to hand
-- over, the channel, and the readers.
pub record Reads : Type 0 where
  pub committed : ℕ
  pub applied : ℕ
  pub pending : List ReadState
  pub channel : List ReadState
  pub readers : ℕ → Reader

abbrev pub with_reader : Reads → ℕ → Reader → ℕ → Reader
with_reader s id reader k = if k == id then reader else s.readers k

abbrev pub handed_over : Option ReadState → List ReadState
handed_over none = []
handed_over (some r) = r ∷ []

-- What a Ready batch puts on the channel: from its read states at once, and from those still pending
-- when its entries are applied. What is pending then is dropped.
abbrev pub answers : ℕ → ℕ → List ReadState → List ReadState
answers before after batch =
    let (found, left) = respond_to_read_states before batch in
    handed_over found ++ handed_over (respond_to_read_states after left).0

pub data Step (s : Reads) : Reads → Type 0 where
  -- a command is committed
  commit : (n : ℕ) → s.committed ≤ n → Step s (record s { committed = n })
  -- ReadIndex, with the key as its context
  ask :
      (id : ℕ) (key : Bytes)
      → s.readers id ≡ idle
      → Step s (record s { readers = with_reader s id (waiting key s.committed) })
  -- Raft answers a request with the commit index
  answer :
      (id : ℕ) (key : Bytes) (asked : ℕ)
      → Asked (s.readers id) key asked
      → Step s (record s {
        pending = s.pending ++ record { index = s.committed; request_ctx = key } ∷ [];
      })
  -- processReady on a batch of read states and committed entries
  process :
      (batch rest : List ReadState) (after : ℕ)
      → s.pending ≡ batch ++ rest
      → s.applied ≤ after
      → after ≤ s.committed
      → length s.channel + length (answers s.applied after batch) ≤ 2
      → Step s (record s {
        applied = after;
        pending = rest;
        channel = s.channel ++ answers s.applied after batch;
      })
  -- WaitForReadState
  take :
      (id : ℕ) (key : Bytes) (asked : ℕ) (r : ReadState) (rest : List ReadState)
      → s.readers id ≡ waiting key asked
      → s.channel ≡ r ∷ rest
      → Step s (record s { channel = rest; readers = with_reader s id (served key asked r) })
  time_out :
      (id : ℕ) (key : Bytes) (asked : ℕ)
      → s.readers id ≡ waiting key asked
      → Step s (record s { readers = with_reader s id (timed_out key asked) })

pub data Reach (s : Reads) : Reads → Type 0 where
  here : Reach s s
  next : {t u : Reads} → Reach s t → Step t u → Reach s u
