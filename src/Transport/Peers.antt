-- ===== src/Transport/Peers.antt =====
-- The two copies of the addresses of transport.go.
use omashu.Base.{
  ℕ, ◌≡◌, ◌≢◌, ◌∙◌, refl, sym, arith, Option, none, some, List, [], ◌∷◌, ◌==◌, ==_iff,
  if◌then◌else◌,
}
use omashu.Base.Bytes.{Bytes}
use omashu.Errors.{Result, ok, err, panic}
use omashu.Node.State.{PeerCall, add_peer, update_peer, remove_peer}
use omashu.Transport.{
  HttpApi, find, remove, put, Transport, started, add_others, parsed, found, start, call_peer,
  call_peers,
}

abbrev pub or_new : Option Bytes → Bytes → Option Bytes
or_new none addr = some addr
or_new (some a) addr = some a

abbrev pub if_known : Option Bytes → Bytes → Option Bytes
if_known none addr = none
if_known (some a) addr = some addr

-- What is relied on of rafthttp: it keeps the address of a peer that it knows already, and changes only
-- that of a peer that it knows.
pub record HttpLaws (h : HttpApi) : Type 0 where
  pub address : h.Http → ℕ → Option Bytes
  pub address-add :
      (http : h.Http) (i j : ℕ) (addr : Bytes)
      → address (h.add_peer http i addr) j
        ≡ (if i == j then or_new (address http j) addr else address http j)
  pub address-remove :
      (http : h.Http) (i j : ℕ)
      → address (h.remove_peer http i) j ≡ (if i == j then none else address http j)
  pub address-update :
      (http : h.Http) (i j : ℕ) (addr : Bytes)
      → address (h.update_peer http i addr) j
        ≡ (if i == j then if_known (address http j) addr else address http j)

pub find-remove :
    (i j : ℕ) (ps : List (ℕ × Bytes)) → find j (remove i ps) ≡ (if i == j then none else find j ps)
find-remove i j [] = ground arith
find-remove i j (p ∷ ps) = ground (arith, find-remove i j ps)

pub find-put :
    (i j : ℕ) (addr : Bytes) (ps : List (ℕ × Bytes))
    → find j (put i addr ps) ≡ (if i == j then some addr else find j ps)
find-put i j addr ps = ground (arith, find-remove i j ps)

abbrev or_find : Option Bytes → Option Bytes → Option Bytes
or_find none found = found
or_find (some a) found = some a

module _ (h : HttpApi) (laws : HttpLaws h) where
  open laws use {address, address-add, address-remove, address-update}

  -- The two copies agree on every other node.
  abbrev pub Matches : Transport h → Type 0
  Matches t = (j : ℕ) → j ≢ t.id → address t.http j ≡ find j t.peers

  address-add_others :
      (id j : ℕ) (ps : List (ℕ × Bytes)) (http : h.Http)
      → j ≢ id
      → address (add_others h id ps http) j ≡ or_find (address http j) (find j ps)
  unfolding add_others
  address-add_others id j [] http other = ground arith
  address-add_others id j (p ∷ ps) http other =
      address-add_others id j ps (if p.0 == id then http else h.add_peer http p.0 p.1) other
      ∙ ground (arith, address-add http p.0 j p.1, ==_iff p.0 id, ==_iff p.0 j)

  -- A call of the node adds a peer that is not known, and changes and removes one that is.
  abbrev pub IsProper : Transport h → PeerCall → Type 0
  IsProper t (add_peer id addr) = find id t.peers ≡ none
  IsProper t (update_peer id addr) = (old : Bytes) × (find id t.peers ≡ some old)
  IsProper t (remove_peer id) = (old : Bytes) × (find id t.peers ≡ some old)

  call_peer-Matches :
      (t : Transport h) (c : PeerCall) → Matches t → IsProper t c → Matches (call_peer h t c)
  unfolding call_peer
  call_peer-Matches t (add_peer id addr) m proper j other =
      ground (arith, address-add t.http id j addr, find-put id j addr t.peers, m j other, proper)
  call_peer-Matches t (update_peer id addr) m (old, known) j other =
      ground (arith, address-update t.http id j addr, find-put id j addr t.peers, m j other, known)
  call_peer-Matches t (remove_peer id) m proper j other =
      ground (arith, address-remove t.http id j, find-remove id j t.peers, m j other)

  abbrev pub AllProper : Transport h → List PeerCall → Type 0
  AllProper t [] = Unit
  AllProper t (c ∷ cs) = IsProper t c × AllProper (call_peer h t c) cs

  call_peers-Matches :
      (t : Transport h) (calls : List PeerCall)
      → Matches t
      → AllProper t calls
      → Matches (call_peers h t calls)
  unfolding call_peers
  call_peers-Matches t [] m proper = m
  call_peers-Matches t (c ∷ cs) m (proper, more) =
      call_peers-Matches (call_peer h t c) cs (call_peer-Matches t c m proper) more

  parsed-Matches :
      (t t' : Transport h) (r : Result (Unit {0}))
      → ((j : ℕ) → address t.http j ≡ none)
      → parsed h t r ≡ started t'
      → Matches t'
  parsed-Matches t t' (ok u) none_yet e = rw (sym (started-eq e)) (λ j other.
      let none_known = none_yet j in
      address-add_others t.id j t.peers t.http other ∙ rw none_known refl)
    where
      started-eq : {a b : Transport h} → started a ≡ started b → a ≡ b
      started-eq e = cc
  parsed-Matches t t' (err x) none_yet e = cc
  parsed-Matches t t' panic none_yet e = cc

  found-Matches :
      (t t' : Transport h) (parse : Bytes → Result (Unit {0})) (o : Option Bytes)
      → ((j : ℕ) → address t.http j ≡ none)
      → found h t parse o ≡ started t'
      → Matches t'
  found-Matches t t' parse none none_yet e = cc
  found-Matches t t' parse (some addr) none_yet e = parsed-Matches t t' (parse addr) none_yet e

  -- By the documented behaviour of rafthttp: when Start has returned, on a rafthttp transport without
  -- peers, and the node has then added only peers that were not known, and updated and removed only
  -- peers that were: rafthttp sends to every other node at the address that this package keeps for it,
  -- and to no node that it does not keep.
  pub peers_match :
      (t t' : Transport h) (parse : Bytes → Result (Unit {0})) (answer : Result (Unit {0}))
      (calls : List PeerCall)
      → ((j : ℕ) → address t.http j ≡ none)
      → start h parse answer t ≡ started t'
      → AllProper t' calls
      → Matches (call_peers h t' calls)
  unfolding start
  peers_match t t' parse (ok u) calls none_yet e proper =
      call_peers-Matches t' calls (found-Matches t t' parse (find t.id t.peers) none_yet e) proper
  peers_match t t' parse (err x) calls none_yet e proper = cc
  peers_match t t' parse panic calls none_yet e proper = cc
