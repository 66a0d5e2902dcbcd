-- ===== src/Node/State.antt =====
-- node.go: the state of a node, the entries and messages that it handles, and uint64 arithmetic. The
-- Raft library is the interface `RaftApi`; calls of the transport are recorded in order.
use omashu.Base.{ℕ, ◌+◌, ◌-◌, ◌%◌, ◌^◌, Bool, List, ◌==◌}
use omashu.Base.Bytes.{Bytes}
use omashu.Errors.{Result}

pub data ConfChangeType : Type 0 where
  add_node remove_node update_node add_learner_node : ConfChangeType

pub record ConfChange : Type 0 where
  pub type : ConfChangeType
  pub node_id : ℕ
  pub context : Bytes

pub record RaftApi : Type 1 where
  pub Raft : Type 0
  pub ConfState : Type 0
  -- raft.Node.ApplyConfChange
  pub apply_conf_change : Raft → ConfChange → Raft × ConfState
  -- ConfChange.Unmarshal
  pub unmarshal_conf_change : Bytes → Result ConfChange

pub data EntryType : Type 0 where
  normal conf_change conf_change_v2 : EntryType

pub record Entry : Type 0 where
  pub index : ℕ
  pub type : EntryType
  pub data_ : Bytes

pub record ReadState : Type 0 where
  pub index : ℕ
  pub request_ctx : Bytes

pub data PeerCall : Type 0 where
  add_peer update_peer : ℕ → Bytes → PeerCall
  remove_peer : ℕ → PeerCall

unfoldable pub add64 : ℕ → ℕ → ℕ
add64 a b = (a + b) % 2 ^ 64

unfoldable pub sub64 : ℕ → ℕ → ℕ
sub64 a b = (a + (2 ^ 64 - b)) % 2 ^ 64

module _ (api : RaftApi) where
  pub record Node (Db : Type 0) : Type 0 where
    pub id : ℕ
    pub raft : api.Raft
    pub db : Db
    pub conf_state : api.ConfState
    pub applied_index : ℕ
    pub lead : ℕ
    pub self_removed : Bool
    pub peer_calls : List PeerCall

  pub record Snapshot : Type 0 where
    pub index : ℕ
    pub conf_state : api.ConfState
    pub data_ : Bytes

  pub record Message : Type 0 where
    pub is_snap : Bool
    pub to : ℕ
    pub conf_state : api.ConfState
    pub body : Bytes

  unfoldable pub is_leader : {Db : Type 0} → Node Db → Bool
  is_leader node = node.lead == node.id
