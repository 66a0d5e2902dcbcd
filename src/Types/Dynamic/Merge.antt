-- ===== src/Types/Dynamic/Merge.antt =====
-- What the merge of types/dynamic.go makes of each field, by the documented behaviour of Protobuf.
use omashu.Base.{
  ◌≡◌, ◌∙◌, refl, ap, Bool, true, false, not, ◌||◌, Bool-cases, inl, inr, Option, List, [], ◌∷◌,
  ◌++◌, any, if◌then◌else◌,
}
use mathlib.Core.List.{append-nil}
use omashu.Base.Bytes.{Bytes}
use omashu.Errors.{Result, ok, err, >>=-eq-ok}
use omashu.Types.Dynamic.{
  ProtoApi, types_do_not_match, clear_lists, merge_protobuf_messages, merge_proto_delta,
}

abbrev pub is_empty : {A : Type 0} → List A → Bool
is_empty [] = true
is_empty (x ∷ xs) = false

-- What the fields of a message hold, and what the operations do to them: proto.Merge appends lists, and
-- overwrites the fields that are populated in the second message.
pub record ProtoLaws (api : ProtoApi) : Type 1 where
  pub Value : Type 0
  pub items : api.Message → api.Field → List Value
  pub value : api.Message → api.Field → Option Value
  pub field_eq : api.Field → api.Field → Bool
  pub field_eq-eq : (f g : api.Field) → field_eq f g ≡ true → f ≡ g
  -- a list field is populated when it has an item
  pub range-list :
      (m : api.Message) (f : api.Field)
      → api.is_list f ≡ true
      → any (field_eq f) (api.range m) ≡ not (is_empty (items m f))
  pub items-truncate :
      (m : api.Message) (f g : api.Field)
      → api.is_list g ≡ true
      → items (api.truncate m f) g ≡ (if field_eq g f then [] else items m g)
  pub value-truncate : (m : api.Message) (f g : api.Field) → value (api.truncate m f) g ≡ value m g
  pub items-merge :
      (m n : api.Message) (f : api.Field) → items (api.merge m n) f ≡ items m f ++ items n f
  -- scalar fields that are not members of a oneof, whose other members proto.Merge clears, and fields
  -- that hold a message, in which it goes on
  pub is_plain_scalar : api.Field → Bool
  pub is_message : api.Field → Bool
  pub field_message : api.Message → api.Field → api.Message
  pub value-merge :
      (m n : api.Message) (f : api.Field)
      → is_plain_scalar f ≡ true
      → value (api.merge m n) f ≡ (if any (field_eq f) (api.range n) then value n f else value m f)
  pub field_message-truncate :
      (m : api.Message) (f g : api.Field)
      → is_message g ≡ true
      → field_message (api.truncate m f) g ≡ field_message m g
  pub field_message-merge :
      (m n : api.Message) (f : api.Field)
      → is_message f ≡ true
      → any (field_eq f) (api.range n) ≡ true
      → field_message (api.merge m n) f ≡ api.merge (field_message m f) (field_message n f)
  -- a clone that is reset has the descriptor and the type of its original; decoding keeps both
  pub same_type-clone : (m : api.Message) → api.same_type (api.reset (api.clone m)) m ≡ true
  pub same_descriptor-decoded :
      (bytes : Bytes) (m n : api.Message)
      → api.unmarshal bytes (api.reset (api.clone m)) ≡ ok n
      → api.same_descriptor n m ≡ true

module _ (api : ProtoApi) (laws : ProtoLaws api) where
  open api use {
    Message, Field, same_descriptor, same_type, range, is_list, truncate, clone, reset, merge,
    unmarshal, marshal,
  }
  open laws use {
    Value, items, value, field_eq, field_eq-eq, range-list, items-truncate, value-truncate,
    items-merge, is_plain_scalar, is_message, field_message, value-merge, field_message-truncate,
    field_message-merge, same_type-clone, same_descriptor-decoded,
  }

  either :
      (x y : Bool) (vs : List Value)
      → (if y then [] else if x then [] else vs) ≡ (if x || y then [] else vs)
  either true true vs = refl
  either true false vs = refl
  either false true vs = refl
  either false false vs = refl

  other_field : (f g : Field) → is_list f ≡ true → is_list g ≡ false → field_eq f g ≡ false
  other_field f g l single = elim (Bool-cases (field_eq f g)) [
    | inl same ↦ let e = field_eq-eq f g same in cc
    | inr other ↦ other
  ]

  items-clear_lists :
      (m : Message) (fds : List Field) (f : Field)
      → is_list f ≡ true
      → items (clear_lists api m fds) f ≡ (if any (field_eq f) fds then [] else items m f)
  unfolding clear_lists
  items-clear_lists m [] f l = refl
  items-clear_lists m (g ∷ fds) f l = elim (Bool-cases (is_list g)) [
    | inl list ↦ rw list (
        items-clear_lists (truncate m g) fds f l
        ∙ ap (λ x. if any (field_eq f) fds then [] else x) (items-truncate m g f l)
        ∙ either (field_eq f g) (any (field_eq f) fds) (items m f))
    | inr single ↦ rw (single, other_field f g l single) (items-clear_lists m fds f l)
  ]

  value-clear_lists :
      (m : Message) (fds : List Field) (f : Field) → value (clear_lists api m fds) f ≡ value m f
  unfolding clear_lists
  value-clear_lists m [] f = refl
  value-clear_lists m (g ∷ fds) f = elim (Bool-cases (is_list g)) [
    | inl list ↦ rw list (value-clear_lists (truncate m g) fds f ∙ value-truncate m g f)
    | inr single ↦ rw single (value-clear_lists m fds f)
  ]

  field_message-clear_lists :
      (m : Message) (fds : List Field) (f : Field)
      → is_message f ≡ true
      → field_message (clear_lists api m fds) f ≡ field_message m f
  unfolding clear_lists
  field_message-clear_lists m [] f is = refl
  field_message-clear_lists m (g ∷ fds) f is = elim (Bool-cases (is_list g)) [
    | inl list ↦
        rw list
          (field_message-clear_lists (truncate m g) fds f is ∙ field_message-truncate m g f is)
    | inr single ↦ rw single (field_message-clear_lists m fds f is)
  ]

  -- What the merged message holds: a list that the delta populates replaces the stored one, any other
  -- list stays; of the scalars outside oneofs, one that the delta populates replaces the stored one, and
  -- any other stays; in a message that the delta populates, lists are appended to the stored ones.
  pub record IsMerged (original delta merged : Message) : Type 0 where
    pub lists :
        (f : Field)
        → is_list f ≡ true
        → items merged f ≡ (if is_empty (items delta f) then items original f else items delta f)
    pub values :
        (f : Field)
        → is_plain_scalar f ≡ true
        → value merged f
          ≡ (if any (field_eq f) (range delta) then value delta f else value original f)
    pub nested :
        (f g : Field)
        → is_message f ≡ true
        → any (field_eq f) (range delta) ≡ true
        → items (field_message merged f) g
          ≡ items (field_message original f) g ++ items (field_message delta f) g

  merged_list :
      (olds news : List Value) (populated : Bool)
      → populated ≡ not (is_empty news)
      → (if populated then [] else olds) ++ news ≡ (if is_empty news then olds else news)
  merged_list olds [] populated e = rw e (append-nil olds)
  merged_list olds (x ∷ xs) populated e = rw e refl

  merge-IsMerged :
      (original delta : Message)
      → IsMerged original delta (merge (clear_lists api original (range delta)) delta)
  merge-IsMerged original delta = record {
    lists = λ f l.
        items-merge _ delta f
        ∙ ap (λ x. x ++ items delta f) (items-clear_lists original (range delta) f l)
        ∙ merged_list (items original f) (items delta f) _ (range-list delta f l);
    values = λ f single.
        value-merge _ delta f single
        ∙ ap (λ x. if any (field_eq f) (range delta) then value delta f else x)
            (value-clear_lists original (range delta) f);
    nested = λ f g is populated.
        ap (λ x. items x g) (field_message-merge _ delta f is populated)
        ∙ items-merge _ _ g
        ∙ ap (λ x. items x g ++ items (field_message delta f) g)
            (field_message-clear_lists original (range delta) f is);
  }

  -- The result for two messages that have one descriptor, or not.
  abbrev pub Merges : Bool → Message → Message → Result Message → Type 0
  Merges false original delta r = r ≡ err types_do_not_match
  Merges true original delta r =
      (merged : Message) × (r ≡ ok merged) × IsMerged original delta merged

  -- By the documented behaviour of Protobuf: MergeProtobufMessages refuses two messages of different
  -- descriptors; else each list of the delta that has an item replaces the list of the original, each
  -- scalar of the delta that is populated and not in a oneof replaces that of the original, other lists
  -- and other scalars that are not in a oneof stay as they were, and the lists inside a message that
  -- the delta populates are appended to those of the original.
  pub merge_replaces_lists :
      (original delta : Message)
      → Merges
          (same_descriptor original delta)
          original
          delta
          (merge_protobuf_messages api original delta)
  unfolding merge_protobuf_messages
  merge_replaces_lists original delta = elim (Bool-cases (same_descriptor original delta)) [
    | inl same ↦ rw same (_, refl, merge-IsMerged original delta)
    | inr other ↦ rw other refl
  ]

  -- By the documented behaviour of Protobuf: when MergeProtoDelta returns bytes, they encode the merge
  -- of the delta into the message that was stored.
  pub merge_proto_delta-ok :
      (stored result : Bytes) (delta : Message)
      → merge_proto_delta api stored delta ≡ ok result
      → (original merged : Message) × (unmarshal stored (reset (clone delta)) ≡ ok original)
        × IsMerged original delta merged
        × (marshal merged ≡ ok result)
  unfolding merge_proto_delta merge_protobuf_messages
  merge_proto_delta-ok stored result delta h =
      let h' = rw (same_type-clone delta) at h in
      let (original, decoded, rest) = >>=-eq-ok (unmarshal stored (reset (clone delta))) _ h' in
      let same = same_descriptor-decoded stored delta original decoded in
      (original, _, decoded, merge-IsMerged original delta, rw same at rest)
