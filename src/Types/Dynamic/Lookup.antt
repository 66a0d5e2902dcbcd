-- ===== src/Types/Dynamic/Lookup.antt =====
-- The two look-ups of types/dynamic.go against each other.
use omashu.Base.{
  ◌≡◌, refl, ◌⊎◌, inl, inr, All, Bool, true, false, Option, none, some, List, [], ◌∷◌,
}
use omashu.Base.Bytes.{Bytes}
use omashu.Errors.{Error, proto_not_found, Result, ok, err, panic, ◌>>=◌}
use omashu.Types.Dynamic.{
  ProtoApi, found_in, look_up, valid_or, message_or, is_valid_message,
  get_message_from_descriptor_set,
}

module _ (api : ProtoApi) where
  open api use {
    FileDescriptorSet, AnyDescriptor, MessageDescriptor, Message, new_files,
    find_descriptor_by_name, as_message_descriptor, new_message,
  }

  abbrev is_missing : Error → Bool
  is_missing proto_not_found = true
  is_missing e = false

  -- A set has a message type of a name: it can be loaded, and its descriptor of the name is a message's.
  abbrev pub Has : Bytes → MessageDescriptor → FileDescriptorSet → Type 0
  Has name md set =
      (files : api.Files) × (desc : AnyDescriptor) × (new_files set ≡ ok files)
      × (find_descriptor_by_name files name ≡ ok desc)
      × (as_message_descriptor desc ≡ some md)

  -- It can be loaded, and has no descriptor of the name, or that of something else.
  abbrev pub Lacks : Bytes → FileDescriptorSet → Type 0
  Lacks name set =
      (files : api.Files) × (new_files set ≡ ok files)
      × ((find_descriptor_by_name files name ≡ err proto_not_found)
          ⊎ ((desc : AnyDescriptor) × (find_descriptor_by_name files name ≡ ok desc)
              × (as_message_descriptor desc ≡ none)))

  -- It cannot be loaded, or looking the name up in it is another error.
  abbrev pub Fails : Bytes → Error → FileDescriptorSet → Type 0
  Fails name e set =
      (new_files set ≡ err e)
      ⊎ ((files : api.Files) × (new_files set ≡ ok files)
          × (find_descriptor_by_name files name ≡ err e)
          × (is_missing e ≡ false))

  abbrev pub Panics : Bytes → FileDescriptorSet → Type 0
  Panics name set =
      (new_files set ≡ panic)
      ⊎ ((files : api.Files) × (new_files set ≡ ok files)
          × (find_descriptor_by_name files name ≡ panic))

  -- The first of the sets that does not lack the name is of this kind.
  pub data First (name : Bytes) (Kind : FileDescriptorSet → Type 0)
      : List FileDescriptorSet → Type 0 where
    here :
        (set : FileDescriptorSet) (sets : List FileDescriptorSet)
        → Kind set
        → First name Kind (set ∷ sets)
    later :
        (set : FileDescriptorSet) (sets : List FileDescriptorSet)
        → Lacks name set
        → First name Kind sets
        → First name Kind (set ∷ sets)

  -- What the sets are when IsValidMessage gives an answer, and what the other look-up then gives.
  abbrev pub Agree : List FileDescriptorSet → Bytes → Result Bool → Result Message → Type 0
  Agree sets name (ok true) r =
      (md : MessageDescriptor) × First name (Has name md) sets × (r ≡ ok (new_message md))
  Agree sets name (ok false) r = All (Lacks name) sets × (r ≡ err proto_not_found)
  Agree sets name (err e) r = First name (Fails name e) sets × (r ≡ err e)
  Agree sets name panic r = First name (Panics name) sets × (r ≡ panic)

  -- What a set is when its look-up gives a result.
  abbrev Outcome : FileDescriptorSet → Bytes → Result (Option MessageDescriptor) → Type 0
  Outcome set name (ok (some md)) = Has name md set
  Outcome set name (ok none) = Lacks name set
  Outcome set name (err e) = Fails name e set
  Outcome set name panic = Panics name set

  typed-Outcome :
      (set : FileDescriptorSet) (name : Bytes) (files : api.Files) (desc : AnyDescriptor)
      (o : Option MessageDescriptor)
      → new_files set ≡ ok files
      → find_descriptor_by_name files name ≡ ok desc
      → as_message_descriptor desc ≡ o
      → Outcome set name (ok o)
  typed-Outcome set name files desc (some md) loads finds is = (files, desc, loads, finds, is)
  typed-Outcome set name files desc none loads finds is = (files, loads, inr (desc, finds, is))

  found-Outcome :
      (set : FileDescriptorSet) (name : Bytes) (files : api.Files) (found : Result AnyDescriptor)
      → new_files set ≡ ok files
      → find_descriptor_by_name files name ≡ found
      → Outcome set name (found_in api found)
  found-Outcome set name files (ok desc) loads finds =
      typed-Outcome set name files desc (as_message_descriptor desc) loads finds refl
  found-Outcome set name files (err proto_not_found) loads finds = (files, loads, inl finds)
  found-Outcome set name files (err e) loads finds = inr (files, loads, finds, refl)
  found-Outcome set name files panic loads finds = inr (files, loads, finds)

  loaded-Outcome :
      (set : FileDescriptorSet) (name : Bytes) (loaded : Result api.Files)
      → new_files set ≡ loaded
      → Outcome set name (loaded >>= λ files. found_in api (find_descriptor_by_name files name))
  loaded-Outcome set name (ok files) loads =
      found-Outcome set name files (find_descriptor_by_name files name) loads refl
  loaded-Outcome set name (err e) loads = inl loads
  loaded-Outcome set name panic loads = inl loads

  look_up-Outcome :
      (set : FileDescriptorSet) (name : Bytes) → Outcome set name (look_up api set name)
  unfolding look_up
  look_up-Outcome set name = loaded-Outcome set name (new_files set) refl

  Agree-later :
      (set : FileDescriptorSet) (sets : List FileDescriptorSet) (name : Bytes) (v : Result Bool)
      (r : Result Message)
      → Lacks name set
      → Agree sets name v r
      → Agree (set ∷ sets) name v r
  Agree-later set sets name (ok true) r lacks (md, first, is) = (md, later set sets lacks first, is)
  Agree-later set sets name (ok false) r lacks (all, is) = ((lacks, all), is)
  Agree-later set sets name (err e) r lacks (first, is) = (later set sets lacks first, is)
  Agree-later set sets name panic r lacks (first, is) = (later set sets lacks first, is)

  found-Agree :
      (set : FileDescriptorSet) (sets : List FileDescriptorSet) (name : Bytes)
      (l : Result (Option MessageDescriptor)) (v : Result Bool) (r : Result Message)
      → Outcome set name l
      → Agree sets name v r
      → Agree (set ∷ sets) name (valid_or api l v) (message_or api l r)
  found-Agree set sets name (ok (some md)) v r has agree = (md, here set sets has, refl)
  found-Agree set sets name (ok none) v r lacks agree = Agree-later set sets name v r lacks agree
  found-Agree set sets name (err e) v r fails agree = (here set sets fails, refl)
  found-Agree set sets name panic v r panics agree = (here set sets panics, refl)

  -- For any registered schemas and any name: when IsValidMessage says true, the first set that does not
  -- lack the name has a message type of that name, and GetMessageFromDescriptorSet returns an empty
  -- message of that type; when it says false, every set lacks the name, and the message is not found;
  -- when it returns an error, the first set that does not lack the name fails with that error, which
  -- the other returns, too.
  pub lookups-Agree :
      (sets : List FileDescriptorSet) (name : Bytes)
      → Agree sets name
          (is_valid_message api sets name)
          (get_message_from_descriptor_set api sets name)
  unfolding is_valid_message get_message_from_descriptor_set
  lookups-Agree [] name = (tt, refl)
  lookups-Agree (set ∷ sets) name =
      found-Agree set sets name (look_up api set name) _ _ (look_up-Outcome set name)
        (lookups-Agree sets name)
