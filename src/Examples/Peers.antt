-- ===== src/Examples/Peers.antt =====
-- A run of the transport of transport.go, with rafthttp as a map of the addresses that it sends to.
use omashu.Base.{ℕ, refl, arith, ==_iff, Option, none, some, List, [], ◌∷◌}
use omashu.Base.Bytes.{Bytes}
use omashu.Errors.{ok}
use omashu.Node.State.{PeerCall, add_peer, update_peer, remove_peer}
use omashu.Transport.{
  HttpApi, find, remove, put, Transport, add_others, start, call_peer, call_peers,
}
use omashu.Transport.Peers.{HttpLaws, find-remove, find-put, Matches, AllProper, peers_match}

abbrev add_new : List (ℕ × Bytes) → ℕ → Bytes → Option Bytes → List (ℕ × Bytes)
add_new http i addr none = put i addr http
add_new http i addr (some a) = http

abbrev update_known : List (ℕ × Bytes) → ℕ → Bytes → Option Bytes → List (ℕ × Bytes)
update_known http i addr none = http
update_known http i addr (some a) = put i addr http

abbrev map_http : HttpApi
map_http = record {
  Http = List (ℕ × Bytes);
  add_peer = λ http i addr. add_new http i addr (find i http);
  remove_peer = λ http i. remove i http;
  update_peer = λ http i addr. update_known http i addr (find i http);
}

map_laws : HttpLaws map_http
map_laws = record {
  address = λ http j. find j http;
  address-add = λ http i j addr. ground (arith, find-put i j addr http, ==_iff i j);
  address-remove = λ http i j. find-remove i j http;
  address-update = λ http i j addr. ground (arith, find-put i j addr http, ==_iff i j);
}

abbrev transport : Transport map_http
transport = record { id = 1; http = []; peers = (1, 7 ∷ []) ∷ (2, 8 ∷ []) ∷ [] }

abbrev running : Transport map_http
running = record transport { http = (2, 8 ∷ []) ∷ [] }

-- Node 3 joins, node 2 moves, and node 3 leaves.
abbrev calls : List PeerCall
calls = add_peer 3 (9 ∷ []) ∷ update_peer 2 (6 ∷ []) ∷ remove_peer 3 ∷ []

calls-AllProper : AllProper map_http map_laws running calls
unfolding call_peer
calls-AllProper = (refl, ((8 ∷ [], refl), ((9 ∷ [], refl), tt)))

peers_match_example : Matches map_http map_laws (call_peers map_http running calls)
unfolding start add_others map_laws
peers_match_example =
    peers_match map_http map_laws transport running (λ addr. ok tt) (ok tt) calls (λ j. refl) refl
      calls-AllProper
