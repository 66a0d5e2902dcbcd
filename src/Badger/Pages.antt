-- ===== src/Badger/Pages.antt =====
-- Pagination of badger.go: what a client sees that follows the cursors of IterateByPrefix on one
-- snapshot.
use mathlib.Core.List.{append-nil, append_assoc, map-append}
use omashu.Base.{
  ℕ, zero, suc, ◌+◌, ◌≤◌, ◌<◌, ◌≡◌, refl, sym, ◌∙◌, ap, subst, ◌≢◌, Bool, true, false, Option, some,
  none, List, [], ◌∷◌, ◌++◌, arith, map, length, length-append, le→not_ltb, filter, All, Bool-cases,
  inl, inr, leb, leb→le, if◌then◌else◌,
}
use omashu.Base.Bytes.{Bytes, has_prefix, bytes_lt, bytes_lt_irrefl, has_prefix_refl}
use omashu.Errors.{Result, ok, ◌>>=◌}
use omashu.Badger.Api.{BadgerApi, background}
use omashu.Badger.Reads.{iterate_loop, iterate_by_prefix, last_cursor, start_prefix}
use omashu.Badger.Scan.{
  IsSorted, drop_below, matches, take_prefix, IteratorLaws, take_prefix-drop_below,
}

All_at {ℓ κ} :
    {A : Type ℓ} (P : A → Type κ) (pre : List A) (j : A) (post : List A)
    → All P (pre ++ j ∷ post)
    → P j
All_at P [] j post h = h.0
All_at P (x ∷ pre) j post h = All_at P pre j post h.1

-- Seeking the key of a stored item finds that item.
drop_below_at :
    (b : BadgerApi) (pre : List b.Item) (j : b.Item) (post : List b.Item)
    → IsSorted b (pre ++ j ∷ post)
    → drop_below b (b.key_copy j) (pre ++ j ∷ post) ≡ j ∷ post
drop_below_at b [] j post s = rw (bytes_lt_irrefl (b.key_copy j)) refl
drop_below_at b (x ∷ pre) j post s =
    rw (All_at (λ y. bytes_lt (b.key_copy x) (b.key_copy y) ≡ true) pre j post s.0)
      (drop_below_at b pre j post s.1)

drop_below_suffix :
    (b : BadgerApi) (p : Bytes) (xs : List b.Item)
    → (pre : List b.Item) × (xs ≡ pre ++ drop_below b p xs)
drop_below_suffix b p [] = ([], refl)
drop_below_suffix b p (x ∷ xs) = elim (Bool-cases (bytes_lt (b.key_copy x) p)) [
  | inl below ↦
      let (pre, split) = drop_below_suffix b p xs in (x ∷ pre, rw below (ap (λ l. x ∷ l) split))
  | inr above ↦ ([], rw above refl)
]

module _ (b : BadgerApi) (value : b.Item → Bytes) where
  open b use {Tx, Item, key_copy, value_copy, seek}

  abbrev pair : Item → Bytes × Bytes
  pair x = (key_copy x, value x)

  -- How a page over the items `xs` ends: at the end of the prefix, or before an item `j` that is still
  -- to come.
  data PageEnd (p : Bytes) (limit n : ℕ) (xs : List Item)
      (r : Result (Bytes × ℕ) × List (Bytes × Bytes)) : Type 0 where
    finished : (m : ℕ) → r ≡ (ok ([], m), map pair (take_prefix b p xs)) → PageEnd p limit n xs r
    paused :
        (front : List Item) (j : Item) (post : List Item) (m : ℕ)
        → xs ≡ front ++ j ∷ post
        → take_prefix b p xs ≡ front ++ take_prefix b p (j ∷ post)
        → matches b p j ≡ true
        → limit ≤ m
        → r ≡ (ok (key_copy j, m), map pair front)
        → (n < limit → 0 < length front)
        → PageEnd p limit n xs r

  extend :
      (p : Bytes) (limit n n' : ℕ) (x : Item) (xs : List Item)
      (r : Result (Bytes × ℕ) × List (Bytes × Bytes))
      → matches b p x ≡ true
      → PageEnd p limit n' xs r
      → PageEnd p limit n (x ∷ xs) (r.0, pair x ∷ r.1)
  extend p limit n n' x xs r hit (finished m e) =
      finished m (ap (λ q. (q.0, pair x ∷ q.1)) e ∙ rw hit refl)
  extend p limit n n' x xs r hit (paused front j post m split taken at_j full e some_) =
      paused (x ∷ front) j post m (ap (λ l. x ∷ l) split) (rw hit (ap (λ l. x ∷ l) taken)) at_j full
        (ap (λ q. (q.0, pair x ∷ q.1)) e) (λ _. omega arith)

  module _ (reads_ok : (x : Item) → value_copy x ≡ ok (value x))
      (process : Bytes → Bytes → Bool) where
    loop-PageEnd :
        (p : Bytes) (limit : ℕ) (xs : List Item) (n : ℕ)
        → PageEnd p limit n xs (iterate_loop b background p p (some limit) process xs n)
    unfolding iterate_loop
    loop-PageEnd p limit [] n = finished n refl
    loop-PageEnd p limit (x ∷ xs) n = elim (Bool-cases (matches b p x)) [
      | inl hit ↦ elim (Bool-cases (leb limit n)) [
        | inl full ↦
            rw (hit, full)
              (paused [] x xs n refl refl hit (leb→le limit n full) refl
                (λ room. absurd (omega (arith, leb→le limit n full))))
        | inr room ↦
            rw (hit, room, reads_ok x)
              (extend p limit n _ x xs _ hit
                (loop-PageEnd p limit xs (if process (key_copy x) (value x) then n + 1 else n)))
      ]
      | inr miss ↦ rw miss (finished n (rw miss refl))
    ]

    loop_full :
        (p : Bytes) (xs : List Item) (n : ℕ)
        → (iterate_loop b background p p none process xs n).1 ≡ map pair (take_prefix b p xs)
    unfolding iterate_loop
    loop_full p [] n = refl
    loop_full p (x ∷ xs) n = elim (Bool-cases (matches b p x)) [
      | inl hit ↦ rw (hit, reads_ok x) (ap (λ l. pair x ∷ l) (loop_full p xs _))
      | inr miss ↦ rw miss refl
    ]

    -- What a client visits that asks for the page at a cursor, then for the page at the cursor that
    -- this one returned, and so on.
    abbrev next_cursor : Result Bytes → Option Bytes
    next_cursor (ok []) = none
    next_cursor (ok (c ∷ cs)) = some (c ∷ cs)
    next_cursor _ = none

    abbrev pub pages : ℕ → Tx → Bytes → ℕ → Bytes → List (Bytes × Bytes)
    pages zero t p limit cursor = []
    pages (suc fuel) t p limit cursor =
        let (end, visited) = iterate_by_prefix b background t p cursor (some limit) process in
        visited ++ (elim (next_cursor end) [ none ↦ [] | some c ↦ pages fuel t p limit c ])

    abbrev run :
        ℕ → Tx → Bytes → ℕ → Result (Bytes × ℕ) × List (Bytes × Bytes) → List (Bytes × Bytes)
    run fuel t p limit r =
        r.1 ++ (elim (next_cursor (r.0 >>= λ q. ok (last_cursor (some limit) q))) [
          | none ↦ []
          | some c ↦ pages fuel t p limit c
        ])

    next_cursor-ok : (k : Bytes) → k ≢ [] → next_cursor (ok k) ≡ some k
    next_cursor-ok [] h = absurd (h refl)
    next_cursor-ok (c ∷ cs) h = refl

    start_prefix-key : (p k : Bytes) → k ≢ [] → start_prefix p k ≡ k
    start_prefix-key p [] h = absurd (h refl)
    start_prefix-key p (c ∷ cs) h = refl

    resume_loop :
        (p : Bytes) (limit : Option ℕ) (j : Item) (post : List Item)
        → matches b p j ≡ true
        → iterate_loop b background (key_copy j) p limit process (j ∷ post) 0
          ≡ iterate_loop b background p p limit process (j ∷ post) 0
    unfolding iterate_loop
    resume_loop p limit j post hit = rw (has_prefix_refl (key_copy j), hit) refl

    module _ (laws : IteratorLaws b) (t : Tx) (p : Bytes) (limit : ℕ) (some_limit : 0 < limit) where
      open laws use {items, seek_lem, sorted, not_empty}

      -- The page at the cursor of an item starts with that item.
      pages_at :
          (fuel : ℕ) (pre : List Item) (j : Item) (post : List Item)
          → items t ≡ pre ++ j ∷ post
          → matches b p j ≡ true
          → pages (suc fuel) t p limit (key_copy j)
            ≡ run fuel t p limit (iterate_loop b background p p (some limit) process (j ∷ post) 0)
      unfolding iterate_by_prefix
      pages_at fuel pre j post split hit =
          let nonempty : key_copy j ≢ [] =
            All_at (λ x. key_copy x ≢ []) pre j post
              (subst (All (λ x. key_copy x ≢ [])) split (not_empty t)) in
          let found : seek t (key_copy j) ≡ j ∷ post =
            seek_lem t (key_copy j)
            ∙ ap (drop_below b (key_copy j)) split
            ∙ drop_below_at b pre j post (subst (IsSorted b) split (sorted t)) in
          rw
            (start_prefix-key p (key_copy j) nonempty, found, resume_loop p (some limit) j post hit)
            refl

      run_end :
          (fuel : ℕ) (pre xs : List Item) (r : Result (Bytes × ℕ) × List (Bytes × Bytes))
          → items t ≡ pre ++ xs
          → length (take_prefix b p xs) ≤ fuel
          → PageEnd p limit 0 xs r
          → run fuel t p limit r ≡ map pair (take_prefix b p xs)
      run_end fuel pre xs r split enough (finished m e) =
          rw e (ground (arith, append-nil (map pair (take_prefix b p xs))))
      run_end zero pre xs r split enough (paused front j post m cut taken at_j full e some_) =
          absurd (
            omega (
              arith,
              ap length taken,
              length-append front (take_prefix b p (j ∷ post)),
              some_ some_limit,
            ))
      run_end (suc fuel) pre xs r split enough (paused front j post m cut taken at_j full e some_) =
          let there : items t ≡ (pre ++ front) ++ j ∷ post =
            split ∙ ap (λ l. pre ++ l) cut ∙ sym (append_assoc pre front (j ∷ post)) in
          let nonempty : key_copy j ≢ [] =
            All_at (λ x. key_copy x ≢ []) (pre ++ front) j post
              (subst (All (λ x. key_copy x ≢ [])) there (not_empty t)) in
          let rest =
            run_end fuel (pre ++ front) (j ∷ post) _ there
              (omega (
                arith,
                ap length taken,
                length-append front (take_prefix b p (j ∷ post)),
                some_ some_limit,
              ))
              (loop-PageEnd p limit (j ∷ post) 0) in
          rw (e, le→not_ltb m limit full, next_cursor-ok (key_copy j) nonempty)
            (ap (λ l. map pair front ++ l) (pages_at fuel (pre ++ front) j post there at_j ∙ rest)
              ∙ sym (map-append pair front (take_prefix b p (j ∷ post)))
              ∙ ap (map pair) (sym taken))

      -- With a positive limit, an iterator that has the laws of BadgerDB's and whose values can be
      -- read, and whatever the callback returns, the pages that follow one another's cursors on one
      -- snapshot make up the scan with no limit: every stored pair whose key has the prefix, once and
      -- in byte order. One page more than there are such pairs is enough.
      pub pages_complete :
          (fuel : ℕ)
          → length (filter (matches b p) (items t)) ≤ fuel
          → (pages (suc fuel) t p limit [] ≡ (iterate_by_prefix b background t p [] none process).1)
            × (pages (suc fuel) t p limit [] ≡ map pair (filter (matches b p) (items t)))
      unfolding iterate_by_prefix
      pages_complete fuel enough =
          let found : take_prefix b p (seek t p) ≡ filter (matches b p) (items t) =
            ap (take_prefix b p) (seek_lem t p) ∙ take_prefix-drop_below b p (items t) (sorted t) in
          let (pre, split) = drop_below_suffix b p (items t) in
          let paged =
            run_end fuel pre (seek t p) _ (split ∙ ap (λ l. pre ++ l) (sym (seek_lem t p)))
              (omega (arith, enough, ap length found)) (loop-PageEnd p limit (seek t p) 0) in
          (paged ∙ sym (loop_full p (seek t p) 0), paged ∙ ap (map pair) found)

-- A page asked for at a cursor, where the next stored key does not start with it, visits nothing
-- and returns the empty cursor of a finished scan, whatever keys of the prefix are to come.
pub lost_cursor :
    (b : BadgerApi) (t : b.Tx) (p : Bytes) (c : ℕ) (cs : Bytes) (limit : Option ℕ)
    (process : Bytes → Bytes → Bool) {x : b.Item} {xs : List b.Item}
    → b.seek t (c ∷ cs) ≡ x ∷ xs
    → has_prefix (c ∷ cs) (b.key_copy x) ≡ false
    → iterate_by_prefix b background t p (c ∷ cs) limit process ≡ (ok [], [])
unfolding iterate_by_prefix
lost_cursor b t p c cs none process next miss = rw (next, miss) refl
lost_cursor b t p c cs (some limit) process next miss = rw (next, miss) (ground arith)
