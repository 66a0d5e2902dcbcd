-- ===== src/Transport.antt =====
-- transport.go: the peers of a node and the rafthttp transport that sends to them. A peer's address is
-- kept twice, in the map of this package and in rafthttp, which is an interface.
pub mod Peers
use omashu.Base.{ℕ, Bool, Option, none, some, List, [], ◌∷◌, ◌==◌, if◌then◌else◌}
use omashu.Base.Bytes.{Bytes}
use omashu.Errors.{Error, other, Result, ok, err, panic}
use omashu.Node.State.{PeerCall, add_peer, update_peer, remove_peer}

pub record HttpApi : Type 1 where
  pub Http : Type 0
  pub add_peer : Http → ℕ → Bytes → Http
  pub remove_peer : Http → ℕ → Http
  pub update_peer : Http → ℕ → Bytes → Http

-- A Go map from node ids to addresses.
abbrev pub find : ℕ → List (ℕ × Bytes) → Option Bytes
find id [] = none
find id (p ∷ ps) = let rest = find id ps in if p.0 == id then some p.1 else rest

abbrev pub remove : ℕ → List (ℕ × Bytes) → List (ℕ × Bytes)
remove id [] = []
remove id (p ∷ ps) = let rest = remove id ps in if p.0 == id then rest else p ∷ rest

abbrev pub put : ℕ → Bytes → List (ℕ × Bytes) → List (ℕ × Bytes)
put id addr ps = (id, addr) ∷ remove id ps

-- "no address found for node"
abbrev pub no_address : Error
no_address = other 9

module _ (h : HttpApi) where
  pub record Transport : Type 0 where
    pub id : ℕ
    pub http : h.Http
    pub peers : List (ℕ × Bytes)

  -- Start returns, or waits for good at its send on errChan, whose receiver is not started yet.
  pub data Start : Type 0 where
    started : Transport → Start
    hangs : Error → Start
    panics : Start

  unfoldable pub add_others : ℕ → List (ℕ × Bytes) → h.Http → h.Http
  add_others id [] http = http
  add_others id (p ∷ ps) http =
      add_others id ps (if p.0 == id then http else h.add_peer http p.0 p.1)

  abbrev pub parsed : Transport → Result (Unit {0}) → Start
  parsed t (ok _) = started (record t { http = add_others t.id t.peers t.http })
  parsed t (err e) = hangs e
  parsed t panic = panics

  abbrev pub found : Transport → (Bytes → Result (Unit {0})) → Option Bytes → Start
  found t parse none = hangs no_address
  found t parse (some addr) = parsed t (parse addr)

  abbrev pub http_started : Transport → (Bytes → Result (Unit {0})) → Result (Unit {0}) → Start
  http_started t parse (ok _) = found t parse (find t.id t.peers)
  http_started t parse (err e) = hangs e
  http_started t parse panic = panics

  -- Start, from the answer of rafthttp's own Start and with url.Parse; it then serves HTTP in a
  -- goroutine.
  unfoldable pub start : (Bytes → Result (Unit {0})) → Result (Unit {0}) → Transport → Start
  unfolding add_others
  start parse answer t = http_started t parse answer

  -- AddPeer, UpdatePeer and RemovePeer, by the call that the node makes.
  unfoldable pub call_peer : Transport → PeerCall → Transport
  call_peer t (add_peer id addr) = record t {
    http = h.add_peer t.http id addr;
    peers = put id addr t.peers;
  }
  call_peer t (update_peer id addr) = record t {
    http = h.update_peer t.http id addr;
    peers = put id addr t.peers;
  }
  call_peer t (remove_peer id) = record t {
    http = h.remove_peer t.http id;
    peers = remove id t.peers;
  }

  unfoldable pub call_peers : Transport → List PeerCall → Transport
  unfolding call_peer
  call_peers t [] = t
  call_peers t (c ∷ cs) = call_peers (call_peer t c) cs
