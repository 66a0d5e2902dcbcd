-- ===== src/Badger/Messages.antt =====
-- UpdateProtobufWithTxn of badger.go with the merge of types/dynamic.go.
use omashu.Base.{ℕ, ◌≡◌, ap, Option, none, some, List, [], ◌∷◌, if◌then◌else◌}
use omashu.Base.Bytes.{Bytes, bytes_eq}
use omashu.Errors.{ok, >>=-eq-ok}
use omashu.Types.Delta.{Codec}
use omashu.Types.Dynamic.{ProtoApi, dynamic_codec}
use omashu.Types.Dynamic.Merge.{ProtoLaws, IsMerged, merge_proto_delta-ok}
use omashu.Badger.Api.{BadgerApi}
use omashu.Badger.Laws.{StoreLaws, get_with_txn-view, set_after_get-Refines, Refines, spec_set}
use omashu.Badger.Writes.{merge_stored, update_protobuf_with_txn}

module _ (b : BadgerApi) (laws : StoreLaws b) (api : ProtoApi) (proto : ProtoLaws api)
    (sets : List api.FileDescriptorSet) (message_name : api.Message → Bytes) (json : Codec) where
  open laws use {view}

  abbrev codec : Codec
  codec = dynamic_codec api sets message_name json

  -- The bytes of the delta when nothing is stored, else of the delta merged into the stored message.
  abbrev pub Holds : Option Bytes → api.Message → Bytes → Type 0
  Holds none delta bytes = api.marshal delta ≡ ok bytes
  Holds (some stored) delta bytes =
      (original merged : api.Message) × (api.unmarshal stored (api.reset (api.clone delta))
        ≡ ok original)
      × IsMerged api proto original delta merged
      × (api.marshal merged ≡ ok bytes)

  merge_stored-Holds :
      (stored : Option Bytes) (delta : api.Message) (bytes : Bytes)
      → merge_stored b codec stored delta ≡ ok bytes
      → Holds stored delta bytes
  merge_stored-Holds none delta bytes h = h
  merge_stored-Holds (some stored) delta bytes h =
      merge_proto_delta-ok api proto stored bytes delta h

  written_at :
      (t t' : b.Tx) (key bytes : Bytes)
      → Refines b laws t (ok t') (spec_set (view t) key bytes)
      → (k : Bytes) → view t' k ≡ (if bytes_eq key k then some bytes else view t k)
  written_at t t' [] bytes h k = absurd h
  written_at t t' (x ∷ xs) bytes h k = ap (λ v. v k) h.0

  -- On a store that has the laws of BadgerDB, by the documented behaviour of Protobuf: when
  -- UpdateProtobufWithTxn succeeds, the transaction reads at the key the bytes of the delta if nothing
  -- was stored there, and else those of the stored message with the delta merged in, where the lists of the
  -- delta itself that have an item replace stored ones; it reads every other key as before.
  pub update_protobuf_merges :
      (t t' : b.Tx) (key : Bytes) (delta : api.Message) (ttl : List ℕ)
      → update_protobuf_with_txn b codec t key delta ttl ≡ ok t'
      → (bytes : Bytes) × Holds (view t key) delta bytes
        × ((k : Bytes) → view t' k ≡ (if bytes_eq key k then some bytes else view t k))
  unfolding update_protobuf_with_txn
  update_protobuf_merges t t' key delta ttl h =
      let h' = rw (get_with_txn-view b laws t key) at h in
      let (bytes, merged, done) = >>=-eq-ok (merge_stored b codec (view t key) delta) _ h' in
      let set = set_after_get-Refines b laws t key bytes ttl in
      (
        bytes,
        merge_stored-Holds (view t key) delta bytes merged,
        written_at t t' key bytes (rw done at set),
      )
