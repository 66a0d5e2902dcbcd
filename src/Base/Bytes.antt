-- ===== src/Base/Bytes.antt =====
-- Byte strings: equality, prefixes and the lexicographic order by which BadgerDB keeps its keys.
use Prim.Native.Nat.{ℕ}
use mathlib.Core.Path.{◌≡◌, refl}
use mathlib.Core.Logic.{◌↔◌, inl, inr}
use mathlib.Core.Bool.{Bool, true, false, ◌&&◌}
use mathlib.Core.List.{List, [], ◌∷◌}
use native.Mathlib.Omega.{arith}
use omashu.Base.Tests.{Bool-cases, ltb, ◌==◌, if◌then◌else◌}

abbrev pub Bytes : Type 0
Bytes = List ℕ

unfoldable pub bytes_eq : Bytes → Bytes → Bool
bytes_eq [] [] = true
bytes_eq (x ∷ xs) (y ∷ ys) = (x == y) && bytes_eq xs ys
bytes_eq _ _ = false

-- strings.HasPrefix, with the prefix first.
unfoldable pub has_prefix : Bytes → Bytes → Bool
has_prefix [] k = true
has_prefix (p ∷ ps) [] = false
has_prefix (p ∷ ps) (k ∷ ks) = (p == k) && has_prefix ps ks

-- bytes.Compare(a, b) < 0
unfoldable pub bytes_lt : Bytes → Bytes → Bool
bytes_lt xs [] = false
bytes_lt [] (y ∷ ys) = true
bytes_lt (x ∷ xs) (y ∷ ys) =
    let rest = bytes_lt xs ys in if ltb x y then true else if x == y then rest else false

pub bytes_eq-eq : (xs ys : Bytes) → bytes_eq xs ys ≡ true → xs ≡ ys
unfolding bytes_eq
bytes_eq-eq [] [] h = refl
bytes_eq-eq [] (y ∷ ys) h = cc
bytes_eq-eq (x ∷ xs) [] h = cc
bytes_eq-eq (x ∷ xs) (y ∷ ys) h = ground (arith, bytes_eq-eq xs ys)

pub bytes_eq_refl : (xs : Bytes) → bytes_eq xs xs ≡ true
unfolding bytes_eq
bytes_eq_refl [] = refl
bytes_eq_refl (x ∷ xs) = ground (arith, bytes_eq_refl xs)

pub bytes_eq_iff : (xs ys : Bytes) → (bytes_eq xs ys ≡ true) ↔ (xs ≡ ys)
bytes_eq_iff xs ys = (bytes_eq-eq xs ys, λ e. rw e (bytes_eq_refl ys))

pub has_prefix_refl : (k : Bytes) → has_prefix k k ≡ true
unfolding has_prefix
has_prefix_refl [] = refl
has_prefix_refl (k ∷ ks) = ground (arith, has_prefix_refl ks)

-- A string is not below its own prefix.
pub has_prefix-not_lt : (p k : Bytes) → has_prefix p k ≡ true → bytes_lt k p ≡ false
unfolding has_prefix bytes_lt
has_prefix-not_lt [] k h = refl
has_prefix-not_lt (p ∷ ps) [] h = cc
has_prefix-not_lt (p ∷ ps) (k ∷ ks) h = ground (arith, has_prefix-not_lt ps ks)

-- What lies between a prefix and a string that has it, has it too.
pub has_prefix_between :
    (p k l : Bytes)
    → bytes_lt k p ≡ false
    → bytes_lt k l ≡ true
    → has_prefix p l ≡ true
    → has_prefix p k ≡ true
unfolding has_prefix bytes_lt
has_prefix_between [] k l hk hl h = refl
has_prefix_between (p ∷ ps) k [] hk hl h = cc
has_prefix_between (p ∷ ps) [] (l ∷ ls) hk hl h = cc
has_prefix_between (p ∷ ps) (k ∷ ks) (l ∷ ls) hk hl h = ground (arith, has_prefix_between ps ks ls)

pub bytes_lt_irrefl : (k : Bytes) → bytes_lt k k ≡ false
unfolding bytes_lt
bytes_lt_irrefl [] = refl
bytes_lt_irrefl (k ∷ ks) = ground (arith, bytes_lt_irrefl ks)

pub bytes_lt_trans :
    (a b c : Bytes) → bytes_lt a b ≡ true → bytes_lt b c ≡ true → bytes_lt a c ≡ true
unfolding bytes_lt
bytes_lt_trans a b [] h k = cc
bytes_lt_trans a [] (c ∷ cs) h k = cc
bytes_lt_trans [] (b ∷ bs) (c ∷ cs) h k = refl
bytes_lt_trans (a ∷ as_) (b ∷ bs) (c ∷ cs) h k = ground (arith, bytes_lt_trans as_ bs cs)

pub bytes_lt_asymm : (a b : Bytes) → bytes_lt a b ≡ true → bytes_lt b a ≡ false
unfolding bytes_lt
bytes_lt_asymm a [] h = cc
bytes_lt_asymm [] (b ∷ bs) h = refl
bytes_lt_asymm (a ∷ as_) (b ∷ bs) h = ground (arith, bytes_lt_asymm as_ bs)

pub not_lt_trans :
    (p k l : Bytes) → bytes_lt k p ≡ false → bytes_lt k l ≡ true → bytes_lt l p ≡ false
not_lt_trans p k l h later = elim (Bool-cases (bytes_lt l p)) [
  | inl below ↦ cc (bytes_lt_trans k l p later below)
  | inr above ↦ above
]
