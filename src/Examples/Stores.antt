-- ===== src/Examples/Stores.antt =====
-- A fixed store of three keys, which has the laws of BadgerDB's iterator; and libraries that decode and
-- encode in the simplest way.
use omashu.Base.{ℕ, ◌≡◌, refl, true, some, List, [], ◌∷◌, if◌then◌else◌}
use omashu.Base.Bytes.{Bytes, bytes_lt}
use omashu.Errors.{key_not_found, other, ok, err}
use omashu.Types.Delta.{Codec}
use omashu.Badger.Api.{BadgerApi}
use omashu.Badger.Scan.{drop_below, IteratorLaws}

-- The keys 1, 1.2 and 2, in byte order.
abbrev pub three_items : List (Bytes × Bytes)
three_items = (1 ∷ [], 10 ∷ []) ∷ (1 ∷ 2 ∷ [], 12 ∷ []) ∷ (2 ∷ [], 20 ∷ []) ∷ []

abbrev pub drop_items : Bytes → List (Bytes × Bytes) → List (Bytes × Bytes)
drop_items p [] = []
drop_items p (x ∷ xs) = let rest = drop_items p xs in if bytes_lt x.0 p then rest else x ∷ xs

abbrev pub fixed_store : BadgerApi
fixed_store = record {
  Db = Unit;
  Tx = Unit;
  Item = Bytes × Bytes;
  new_transaction = λ d update. tt;
  new_transaction_at = λ d r update. tt;
  view_transaction = λ d. tt;
  get = λ t k. err key_not_found;
  after_get = λ t k. t;
  after_item = λ t i. t;
  value_copy = λ i. ok i.1;
  key_copy = λ i. i.0;
  seek = λ t p. drop_items p three_items;
  set_entry = λ t k v ttl. err (other 9);
  delete = λ t k. err (other 9);
  commit = λ d t. ok d;
  commit_at = λ d t ts. ok d;
  backup = λ d since. ok (0, []);
  drop_all = λ d. ok d;
  load = λ d bytes n. ok d;
}

pub drop_items-drop_below :
    (p : Bytes) (xs : List (Bytes × Bytes)) → drop_items p xs ≡ drop_below fixed_store p xs
drop_items-drop_below p [] = refl
drop_items-drop_below p (x ∷ xs) = rw (drop_items-drop_below p xs) refl

unfoldable pub fixed_laws : IteratorLaws fixed_store
unfolding bytes_lt
fixed_laws = record {
  items = λ t. three_items;
  seek_lem = λ t p. drop_items-drop_below p three_items;
  sorted = λ t. ((refl, (refl, tt)), ((refl, tt), (tt, tt)));
  not_empty = λ t. (λ e. cc, (λ e. cc, (λ e. cc, tt)));
}

-- Messages are bytes, and no JSON object has a field.
abbrev pub plain_codec : Codec
plain_codec = record {
  Json = ℕ;
  Message = Bytes;
  json_unmarshal = λ bytes. ok (some []);
  json_marshal = λ m. ok (0 ∷ []);
  new_message = λ name. ok [];
  is_valid_message = λ name. ok true;
  message_name = λ m. [];
  proto_unmarshal = λ bytes m. ok bytes;
  proto_marshal = λ m. ok m;
  merge_proto_delta = λ bytes m. ok m;
}
