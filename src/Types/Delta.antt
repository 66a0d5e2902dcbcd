-- ===== src/Types/Delta.antt =====
-- What the code uses of encoding/json and of Protobuf, as an interface: `Json` and `Message` are the
-- libraries' values. A decoded `map[string]any` is a list of pairs, or `none` for the nil map.
use omashu.Base.{Bool, Option, List}
use omashu.Base.Bytes.{Bytes}
use omashu.Errors.{Result}

pub record Codec : Type 1 where
  pub Json : Type 0
  pub Message : Type 0
  pub json_unmarshal : Bytes → Result (Option (List (Bytes × Json)))
  pub json_marshal : Option (List (Bytes × Json)) → Result Bytes
  -- GetMessageFromDescriptorSet on the registered schemas: an empty message of that name
  pub new_message : Bytes → Result Message
  -- IsValidMessage on the registered schemas
  pub is_valid_message : Bytes → Result Bool
  pub message_name : Message → Bytes
  -- proto.Unmarshal into an empty message
  pub proto_unmarshal : Bytes → Message → Result Message
  pub proto_marshal : Message → Result Bytes
  -- types.MergeProtoDelta
  pub merge_proto_delta : Bytes → Message → Result Bytes
