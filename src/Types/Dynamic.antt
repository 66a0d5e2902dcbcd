-- ===== src/Types/Dynamic.antt =====
-- types/dynamic.go: look-up of message types in the registered schemas, and the merge of a delta into a
-- stored message. Protobuf itself, with its reflection, is the interface `ProtoApi`; a message that the
-- code changes in place is returned anew.
pub mod Lookup
pub mod Merge
use omashu.Base.{Bool, true, false, not, Option, none, some, List, [], ◌∷◌, if◌then◌else◌}
use omashu.Base.Bytes.{Bytes}
use omashu.Types.Delta.{Codec}
use omashu.Errors.{Error, proto_not_found, Result, ok, err, panic, other, ◌>>=◌}

-- errors.New("message types do not match for merging")
abbrev pub types_do_not_match : Error
types_do_not_match = other 5

pub record ProtoApi : Type 1 where
  pub FileDescriptorSet : Type 0
  pub Files : Type 0
  pub AnyDescriptor : Type 0
  pub MessageDescriptor : Type 0
  pub Message : Type 0
  pub Field : Type 0
  -- protodesc.NewFiles, Files.FindDescriptorByName and a type assertion on what it finds
  pub new_files : FileDescriptorSet → Result Files
  pub find_descriptor_by_name : Files → Bytes → Result AnyDescriptor
  pub as_message_descriptor : AnyDescriptor → Option MessageDescriptor
  -- dynamicpb.NewMessage
  pub new_message : MessageDescriptor → Message
  -- whether two messages have one descriptor, and one Go type
  pub same_descriptor : Message → Message → Bool
  pub same_type : Message → Message → Bool
  -- the populated fields, which Range visits in no specified order
  pub range : Message → List Field
  pub is_list : Field → Bool
  -- Mutable(fd).List().Truncate(0)
  pub truncate : Message → Field → Message
  pub clone : Message → Message
  pub reset : Message → Message
  pub merge : Message → Message → Message
  pub unmarshal : Bytes → Message → Result Message
  pub marshal : Message → Result Bytes

module _ (api : ProtoApi) where
  open api use {
    FileDescriptorSet, Files, AnyDescriptor, MessageDescriptor, Message, Field, new_files,
    find_descriptor_by_name, as_message_descriptor, new_message, same_descriptor, same_type, range,
    is_list, truncate, clone, reset, merge, unmarshal, marshal,
  }

  -- What a set says about a name: its message type; nothing, and the loop goes on; or an error. The
  -- name of something else than a message is passed over, too.
  abbrev pub found_in : Result AnyDescriptor → Result (Option MessageDescriptor)
  found_in (ok desc) = ok (as_message_descriptor desc)
  found_in (err proto_not_found) = ok none
  found_in (err e) = err e
  found_in panic = panic

  unfoldable pub look_up : FileDescriptorSet → Bytes → Result (Option MessageDescriptor)
  look_up set name = new_files set >>= λ files. found_in (find_descriptor_by_name files name)

  abbrev pub valid_or : Result (Option MessageDescriptor) → Result Bool → Result Bool
  valid_or (ok (some md)) rest = ok true
  valid_or (ok none) rest = rest
  valid_or (err e) rest = err e
  valid_or panic rest = panic

  unfoldable pub is_valid_message : List FileDescriptorSet → Bytes → Result Bool
  is_valid_message [] name = ok false
  is_valid_message (set ∷ sets) name =
      let rest = is_valid_message sets name in valid_or (look_up set name) rest

  abbrev pub message_or : Result (Option MessageDescriptor) → Result Message → Result Message
  message_or (ok (some md)) rest = ok (new_message md)
  message_or (ok none) rest = rest
  message_or (err e) rest = err e
  message_or panic rest = panic

  unfoldable pub get_message_from_descriptor_set : List FileDescriptorSet → Bytes → Result Message
  get_message_from_descriptor_set [] name = err proto_not_found
  get_message_from_descriptor_set (set ∷ sets) name =
      let rest = get_message_from_descriptor_set sets name in message_or (look_up set name) rest

  -- The callback of Range: the list fields of the delta are emptied in the original.
  unfoldable pub clear_lists : Message → List Field → Message
  clear_lists original [] = original
  clear_lists original (fd ∷ fds) =
      clear_lists (if is_list fd then truncate original fd else original) fds

  unfoldable pub merge_protobuf_messages : Message → Message → Result Message
  unfolding clear_lists
  merge_protobuf_messages original delta =
      if not (same_descriptor original delta)
      then err types_do_not_match
      else ok (merge (clear_lists original (range delta)) delta)

  unfoldable pub merge_proto_delta : Bytes → Message → Result Bytes
  unfolding merge_protobuf_messages
  merge_proto_delta stored delta =
      let empty = reset (clone delta) in
      if not (same_type empty delta)
      then err types_do_not_match
      else unmarshal stored empty >>= λ base.
          merge_protobuf_messages base delta >>= λ merged. marshal merged

  -- The interface of the other modules, with JSON and the name of a message from `json`.
  abbrev pub dynamic_codec : List FileDescriptorSet → (Message → Bytes) → Codec → Codec
  dynamic_codec sets message_name json = record {
    Json = json.Json;
    Message = Message;
    json_unmarshal = json.json_unmarshal;
    json_marshal = json.json_marshal;
    new_message = get_message_from_descriptor_set sets;
    is_valid_message = is_valid_message sets;
    message_name = message_name;
    proto_unmarshal = unmarshal;
    proto_marshal = marshal;
    merge_proto_delta = merge_proto_delta;
  }
