-- ===== src/Tso/Conflict.antt =====
-- What `hasConflict` of tso.go decides, and that `cleanupCommittedTransactions` keeps its answers.
use omashu.Base.{
  ℕ, ◌≤◌, ◌<◌, ◌≡◌, refl, sym, ◌∙◌, ◌↔◌, Bool, false, List, [], ◌∷◌, arith, any, filter, leb, All,
  All-map, Bool-cases, inl, inr, not_leb→lt, lt→not_leb,
}
use omashu.Base.Bytes.{Bytes}
use omashu.Tso.State.{CommittedTxn, has_key, conflicts_with, has_conflict, is_recent}

any_no_reads :
    (read_ts : ℕ) (committed : List CommittedTxn)
    → any (conflicts_with [] read_ts) committed ≡ false
unfolding conflicts_with
any_no_reads read_ts [] = refl
any_no_reads read_ts (c ∷ cs) = ground (arith, any_no_reads read_ts cs)

-- The early return for a transaction without reads changes no answer.
pub has_conflict-any :
    (committed : List CommittedTxn) (reads : List Bytes) (read_ts : ℕ)
    → has_conflict committed reads read_ts ≡ any (conflicts_with reads read_ts) committed
unfolding has_conflict
has_conflict-any committed [] read_ts = sym (any_no_reads read_ts committed)
has_conflict-any committed (r ∷ rs) read_ts = refl

conflicts_with_old :
    (c : CommittedTxn) (reads : List Bytes) (read_ts : ℕ)
    → c.ts ≤ read_ts
    → conflicts_with reads read_ts c ≡ false
unfolding conflicts_with
conflicts_with_old c reads read_ts h = ground arith

pub any-filter_recent :
    (m read_ts : ℕ) (reads : List Bytes) (committed : List CommittedTxn)
    → m ≤ read_ts
    → any (conflicts_with reads read_ts) (filter (is_recent m) committed)
      ≡ any (conflicts_with reads read_ts) committed
any-filter_recent m read_ts reads [] h = refl
any-filter_recent m read_ts reads (c ∷ cs) h = elim (Bool-cases (leb c.ts m)) [
  | inl old ↦
      ground (arith, any-filter_recent m read_ts reads cs h, conflicts_with_old c reads read_ts)
  | inr recent ↦ ground (arith, any-filter_recent m read_ts reads cs h)
]

-- Dropping the commits up to a mark, as the clean-up does, changes no verdict of `hasConflict` on a
-- transaction that reads at or above that mark.
pub has_conflict-filter_recent :
    (m read_ts : ℕ) (reads : List Bytes) (committed : List CommittedTxn)
    → m ≤ read_ts
    → has_conflict (filter (is_recent m) committed) reads read_ts
      ≡ has_conflict committed reads read_ts
has_conflict-filter_recent m read_ts reads committed h =
    has_conflict-any (filter (is_recent m) committed) reads read_ts
    ∙ any-filter_recent m read_ts reads committed h
    ∙ sym (has_conflict-any committed reads read_ts)

-- No committed transaction later than the read timestamp wrote a key that was read.
abbrev pub NoStaleRead : List CommittedTxn → List Bytes → ℕ → Type 0
NoStaleRead committed reads read_ts =
    All (λ c. read_ts < c.ts → All (λ key. has_key c.conflict_keys key ≡ false) reads) committed

any-All {ℓ} :
    {A : Type ℓ} (p : A → Bool) (xs : List A) → any p xs ≡ false → All (λ x. p x ≡ false) xs
any-All p [] h = tt
any-All p (x ∷ xs) h = elim (Bool-cases (p x)) [
  | inl yes_ ↦ ground arith
  | inr no_ ↦ (no_, any-All p xs (ground arith))
]

All-any {ℓ} :
    {A : Type ℓ} (p : A → Bool) (xs : List A) → All (λ x. p x ≡ false) xs → any p xs ≡ false
All-any p [] h = refl
All-any p (x ∷ xs) h = rw (h.0) (All-any p xs h.1)

conflicts_with-false :
    (c : CommittedTxn) (reads : List Bytes) (read_ts : ℕ)
    → conflicts_with reads read_ts c ≡ false
    → read_ts < c.ts
    → All (λ key. has_key c.conflict_keys key ≡ false) reads
unfolding conflicts_with
conflicts_with-false c reads read_ts h later =
    any-All (has_key c.conflict_keys) reads (rw (lt→not_leb _ _ later) at h)

false-conflicts_with :
    (c : CommittedTxn) (reads : List Bytes) (read_ts : ℕ)
    → (read_ts < c.ts → All (λ key. has_key c.conflict_keys key ≡ false) reads)
    → conflicts_with reads read_ts c ≡ false
unfolding conflicts_with
false-conflicts_with c reads read_ts h = elim (Bool-cases (leb c.ts read_ts)) [
  | inl old ↦ rw old
  | inr recent ↦
      rw recent (All-any (has_key c.conflict_keys) reads (h (not_leb→lt c.ts read_ts recent)))
]

-- `hasConflict` lets a transaction pass exactly when no commit later than its read timestamp has
-- written a key that it has read.
pub has_conflict-NoStaleRead_iff :
    (committed : List CommittedTxn) (reads : List Bytes) (read_ts : ℕ)
    → (has_conflict committed reads read_ts ≡ false) ↔ NoStaleRead committed reads read_ts
has_conflict-NoStaleRead_iff committed reads read_ts = (
  λ h.
      All-map _ _ committed (λ c. conflicts_with-false c reads read_ts)
        (any-All _ committed (sym (has_conflict-any committed reads read_ts) ∙ h)),
  λ h.
      has_conflict-any committed reads read_ts
      ∙ All-any _ committed (All-map _ _ committed (λ c. false-conflicts_with c reads read_ts) h),
)
