-- ===== src/Badger/Scan.antt =====
-- The prefix scans of badger.go against the plain filter: an iterator that seeks a prefix and stops
-- at the first key without it goes through all the keys that have it, and no other.
use mathlib.Core.List.{append-nil, append_assoc}
use omashu.Base.{
  ℕ, ◌+◌, ◌≡◌, refl, sym, ◌∙◌, ap, ◌≢◌, Bool, true, false, List, [], ◌∷◌, ◌++◌, arith, map, length,
  filter, any, All, All-map, Bool-cases, inl, inr, if◌then◌else◌,
}
use omashu.Base.Bytes.{
  Bytes, has_prefix, bytes_lt, has_prefix-not_lt, has_prefix_between, not_lt_trans,
}
use omashu.Errors.{ok}
use omashu.Badger.Api.{BadgerApi, background}
use omashu.Badger.Reads.{
  count_loop, count, keys_loop, get_keys_by_prefix, has_child, first_has_prefix,
}

module _ (b : BadgerApi) where
  open b use {Db, Tx, Item, view_transaction, key_copy, seek}

  -- Items whose keys rise in byte order.
  abbrev pub IsSorted : List Item → Type 0
  IsSorted [] = Unit
  IsSorted (x ∷ xs) = All (λ y. bytes_lt (key_copy x) (key_copy y) ≡ true) xs × IsSorted xs

  abbrev pub drop_below : Bytes → List Item → List Item
  drop_below p [] = []
  drop_below p (x ∷ xs) =
      let rest = drop_below p xs in if bytes_lt (key_copy x) p then rest else x ∷ xs

  abbrev pub matches : Bytes → Item → Bool
  matches p x = has_prefix p (key_copy x)

  -- The items up to the first whose key does not have the prefix.
  abbrev pub take_prefix : Bytes → List Item → List Item
  take_prefix p [] = []
  take_prefix p (x ∷ xs) = let rest = take_prefix p xs in if matches p x then x ∷ rest else []

-- BadgerDB's iterator: Seek goes to the first key at or above the one it is given, and Next goes on
-- in byte order; an empty key is never stored.
pub record IteratorLaws (b : BadgerApi) : Type 0 where
  pub items : b.Tx → List b.Item
  pub seek_lem : (t : b.Tx) (p : Bytes) → b.seek t p ≡ drop_below b p (items t)
  pub sorted : (t : b.Tx) → IsSorted b (items t)
  pub not_empty : (t : b.Tx) → All (λ x. b.key_copy x ≢ []) (items t)

module _ (b : BadgerApi) where
  open b use {Db, Tx, Item, view_transaction, key_copy, seek}

  filter-none :
      (p : Bytes) (x : Item) (xs : List Item)
      → bytes_lt (key_copy x) p ≡ false
      → matches b p x ≡ false
      → All (λ y. bytes_lt (key_copy x) (key_copy y) ≡ true) xs
      → filter (matches b p) xs ≡ []
  filter-none p x [] above miss later = refl
  filter-none p x (y ∷ ys) above miss later =
      ground (
        arith,
        has_prefix_between p (key_copy x) (key_copy y),
        filter-none p x ys above miss later.1,
      )

  take_prefix-sorted :
      (p : Bytes) (xs : List Item)
      → All (λ y. bytes_lt (key_copy y) p ≡ false) xs
      → IsSorted b xs
      → take_prefix b p xs ≡ filter (matches b p) xs
  take_prefix-sorted p [] above s = refl
  take_prefix-sorted p (x ∷ xs) above s =
      ground (arith, take_prefix-sorted p xs above.1 s.1, filter-none p x xs above.0)

  above_first :
      (p : Bytes) (x : Item) (xs : List Item)
      → bytes_lt (key_copy x) p ≡ false
      → All (λ y. bytes_lt (key_copy x) (key_copy y) ≡ true) xs
      → All (λ y. bytes_lt (key_copy y) p ≡ false) xs
  above_first p x xs h later =
      All-map _ _ xs (λ y. not_lt_trans p (key_copy x) (key_copy y) h) later

  -- What the scan goes through is what has the prefix.
  pub take_prefix-drop_below :
      (p : Bytes) (xs : List Item)
      → IsSorted b xs
      → take_prefix b p (drop_below b p xs) ≡ filter (matches b p) xs
  take_prefix-drop_below p [] s = refl
  take_prefix-drop_below p (x ∷ xs) s = elim (Bool-cases (bytes_lt (key_copy x) p)) [
    | inl below ↦ ground (arith, has_prefix-not_lt p (key_copy x), take_prefix-drop_below p xs s.1)
    | inr above ↦ rw above (take_prefix-sorted p (x ∷ xs) (above, above_first p x xs above s.0) s)
  ]

  count_loop-take :
      (p : Bytes) (xs : List Item) (n : ℕ)
      → count_loop b background p xs n ≡ ok (n + length (take_prefix b p xs))
  unfolding count_loop
  count_loop-take p [] n = ap ok (omega arith)
  count_loop-take p (x ∷ xs) n = ground (arith, count_loop-take p xs (n + 1))

  keys_loop-take :
      (p : Bytes) (xs : List Item) (keys : List Bytes)
      → keys_loop b background p xs keys ≡ ok (keys ++ map key_copy (take_prefix b p xs))
  unfolding keys_loop
  keys_loop-take p [] keys = ap ok (sym (append-nil keys))
  keys_loop-take p (x ∷ xs) keys = elim (Bool-cases (matches b p x)) [
    | inl hit ↦ rw hit (
        keys_loop-take p xs (keys ++ key_copy x ∷ [])
        ∙ ap ok (append_assoc keys (key_copy x ∷ []) (map key_copy (take_prefix b p xs))))
    | inr miss ↦ rw miss (ap ok (sym (append-nil keys)))
  ]

  any-filter :
      (p : Bytes) (xs : List Item) → filter (matches b p) xs ≡ [] → any (matches b p) xs ≡ false
  any-filter p [] h = refl
  any-filter p (x ∷ xs) h = ground (arith, any-filter p xs)

  first-any :
      (p : Bytes) (xs : List Item)
      → first_has_prefix b p xs ≡ any (matches b p) (take_prefix b p xs)
  first-any p [] = refl
  first-any p (x ∷ xs) = ground arith

  any-filter_self :
      (p : Bytes) (xs : List Item)
      → any (matches b p) (filter (matches b p) xs) ≡ any (matches b p) xs
  any-filter_self p [] = refl
  any-filter_self p (x ∷ xs) = ground (arith, any-filter_self p xs)

  module _ (laws : IteratorLaws b) (db : Db) (p : Bytes) where
    open laws use {items, seek_lem, sorted}

    abbrev pub matching : List Item
    matching = filter (matches b p) (items (view_transaction db))

    scanned : take_prefix b p (seek (view_transaction db) p) ≡ matching
    scanned =
        ap (take_prefix b p) (seek_lem (view_transaction db) p)
        ∙ take_prefix-drop_below p (items (view_transaction db)) (sorted (view_transaction db))

    -- With an iterator that has the laws of BadgerDB's, and a context that lives, Count is the
    -- number of stored keys that have the prefix, GetKeysByPrefix gives exactly these keys in byte
    -- order, and HasChild tells whether there is one.
    pub scans_agree :
        (count b background db p ≡ length matching)
        × (get_keys_by_prefix b background db p ≡ ok (map key_copy matching))
        × (has_child b db p ≡ any (matches b p) (items (view_transaction db)))
    unfolding count get_keys_by_prefix has_child
    scans_agree = (
      rw (count_loop-take p (seek (view_transaction db) p) 0, scanned) (omega arith),
      rw (keys_loop-take p (seek (view_transaction db) p) [], scanned) refl,
      first-any p (seek (view_transaction db) p)
          ∙ ap (any (matches b p)) scanned
          ∙ any-filter_self p (items (view_transaction db)),
    )
