-- ===== src/Examples/Messages.antt =====
-- Messages with a list, a number and an inner message, as an instance of the interface of Protobuf, and
-- a merge of two.
use omashu.Base.{
  ℕ, ◌≡◌, refl, Bool, true, false, Option, none, some, List, [], ◌∷◌, ◌++◌, if◌then◌else◌, arith,
}
use omashu.Base.Bytes.{Bytes}
use omashu.Errors.{proto_not_found, ok, err}
use omashu.Types.Dynamic.{
  dynamic_codec, ProtoApi, is_valid_message, get_message_from_descriptor_set,
  merge_protobuf_messages, merge_proto_delta,
}
use omashu.Badger.Writes.{update_protobuf_with_txn}
use omashu.Badger.Messages.{Holds, update_protobuf_merges}
use omashu.Examples.Commits.{Commits, function_store, function_laws}
use omashu.Examples.Stores.{plain_codec}
use omashu.Base.Bytes.{bytes_eq}
use omashu.Types.Dynamic.Lookup.{Agree, lookups-Agree}
use omashu.Types.Dynamic.Merge.{is_empty, ProtoLaws, IsMerged, merge_replaces_lists}

data Field : Type 0 where
  tags number inner : Field

-- The list of tags, the number, and the tags of the inner message.
abbrev Message : Type 0
Message = List ℕ × Option ℕ × Option (List ℕ)

abbrev field_if {ℓ} : {A : Type ℓ} → Field → Option A → List Field
field_if f none = []
field_if f (some n) = f ∷ []

abbrev singles : Message → List Field
singles (ts, n, m) = field_if number n ++ field_if inner m

abbrev populated : Message → List Field
populated (ts, n, m) = if is_empty ts then singles (ts, n, m) else tags ∷ singles (ts, n, m)

abbrev without : Message → Field → Message
without m tags = ([], m.1, m.2)
without m number = m
without m inner = m

abbrev or_else : Option ℕ → Option ℕ → Option ℕ
or_else old none = old
or_else old (some n) = some n

abbrev merge_inner : Option (List ℕ) → Option (List ℕ) → Option (List ℕ)
merge_inner old none = old
merge_inner none (some ts) = some ts
merge_inner (some old) (some ts) = some (old ++ ts)

abbrev tags_only : Field → Bool
tags_only tags = true
tags_only number = false
tags_only inner = false

abbrev number_only : Field → Bool
number_only tags = false
number_only number = true
number_only inner = false

abbrev inner_only : Field → Bool
inner_only tags = false
inner_only number = false
inner_only inner = true

-- A schema is the names of its messages; a name of one byte is the name of something else.
abbrev small_api : ProtoApi
small_api = record {
  FileDescriptorSet = List Bytes;
  Files = List Bytes;
  AnyDescriptor = Bytes;
  MessageDescriptor = Bytes;
  Message = Message;
  Field = Field;
  new_files = λ set. ok set;
  find_descriptor_by_name = λ files name. if is_empty files then err proto_not_found else ok name;
  as_message_descriptor = λ name. some name;
  new_message = λ md. ([], none, none);
  same_descriptor = λ m n. true;
  same_type = λ m n. true;
  range = populated;
  is_list = tags_only;
  truncate = without;
  clone = λ m. m;
  reset = λ m. ([], none, none);
  merge = λ m n. (m.0 ++ n.0, or_else m.1 n.1, merge_inner m.2 n.2);
  unmarshal = λ bytes m. ok (bytes, none, none);
  marshal = λ m. ok m.0;
}

abbrev items_of : Message → Field → List ℕ
items_of m tags = m.0
items_of m number = []
items_of m inner = []

abbrev value_of : Message → Field → Option ℕ
value_of m tags = none
value_of m number = m.1
value_of m inner = none

abbrev eq_field : Field → Field → Bool
eq_field tags g = tags_only g
eq_field number g = number_only g
eq_field inner g = inner_only g

eq_field-eq : (f g : Field) → eq_field f g ≡ true → f ≡ g
eq_field-eq tags tags h = refl
eq_field-eq number number h = refl
eq_field-eq inner inner h = refl
eq_field-eq f g h = cc

abbrev inner_tags : Option (List ℕ) → List ℕ
inner_tags none = []
inner_tags (some ts) = ts

abbrev message_of : Message → Field → Message
message_of m tags = m
message_of m number = m
message_of m inner = (inner_tags m.2, none, none)

small_laws : ProtoLaws small_api
small_laws = record {
  Value = ℕ;
  items = items_of;
  value = value_of;
  field_eq = eq_field;
  field_eq-eq = eq_field-eq;
  range-list = λ m f l. ground arith;
  items-truncate = λ m f g l. ground arith;
  value-truncate = λ m f g. ground arith;
  items-merge = λ m n f. ground arith;
  is_plain_scalar = number_only;
  is_message = inner_only;
  field_message = message_of;
  value-merge = λ m n f is. ground arith;
  field_message-truncate = λ m f g is. ground arith;
  field_message-merge = λ m n f is p. ground arith;
  same_type-clone = λ m. refl;
  same_descriptor-decoded = λ bytes m n h. refl;
}

abbrev person : Bytes
person = 7 ∷ []

-- The first schema is empty, the second has every name.
lookups-Agree_example :
    Agree small_api
      ([] ∷ (person ∷ []) ∷ [])
      person
      (is_valid_message small_api ([] ∷ (person ∷ []) ∷ []) person)
      (get_message_from_descriptor_set small_api ([] ∷ (person ∷ []) ∷ []) person)
lookups-Agree_example = lookups-Agree small_api ([] ∷ (person ∷ []) ∷ []) person

merge_replaces_lists_example :
    (merged : Message) × (merge_protobuf_messages small_api
        (1 ∷ [], some 3, some (8 ∷ []))
        (1 ∷ 2 ∷ [], none, some (9 ∷ []))
      ≡ ok merged)
    × IsMerged small_api small_laws
        (1 ∷ [], some 3, some (8 ∷ []))
        (1 ∷ 2 ∷ [], none, some (9 ∷ []))
        merged
merge_replaces_lists_example =
    merge_replaces_lists small_api small_laws (1 ∷ [], some 3, some (8 ∷ []))
      (1 ∷ 2 ∷ [], none, some (9 ∷ []))

-- Key 1 holds the tag 5.
abbrev stored : Commits
stored = (3, (1 ∷ [], some (5 ∷ [])) ∷ []) ∷ []

abbrev reading : function_store.Tx
reading = function_store.new_transaction_at stored 3 true

updated :
    (t : function_store.Tx) × (update_protobuf_with_txn function_store
        (dynamic_codec small_api [] (λ m. []) plain_codec)
        reading
        (1 ∷ [])
        (6 ∷ [], some 2, some (9 ∷ []))
        []
      ≡ ok t)
unfolding update_protobuf_with_txn merge_proto_delta bytes_eq
updated = (_, refl)

update_protobuf_merges_example :
    (bytes : Bytes) × Holds function_store function_laws small_api small_laws []
      (λ m. [])
      plain_codec
      (some (5 ∷ []))
      (6 ∷ [], some 2, some (9 ∷ []))
      bytes
    × ((k : Bytes)
        → function_laws.view updated.0 k
          ≡ (if bytes_eq (1 ∷ []) k then some bytes else function_laws.view reading k))
unfolding function_laws bytes_eq
update_protobuf_merges_example =
    update_protobuf_merges function_store function_laws small_api small_laws [] (λ m. [])
      plain_codec reading updated.0 (1 ∷ []) (6 ∷ [], some 2, some (9 ∷ [])) [] updated.1
