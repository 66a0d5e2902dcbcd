-- ===== src/Fsm/Commit.antt =====
-- What the commit of a command of fsm.go does to the database, also when other commands were committed
-- after its snapshot was taken.
use omashu.Base.{
  ℕ, ◌≤◌, ◌<◌, ◌≡◌, refl, sym, ap, ◌∙◌, Bool, true, false, ◌||◌, ◌&&◌, inl, inr, Bool-cases, arith,
  ltb, ltb→lt, not_ltb→le, if◌then◌else◌,
}
use omashu.Base.Bytes.{Bytes}
use omashu.Errors.{conflict, Result, ok, err, panic, ◌>>=◌}
use omashu.Badger.Api.{BadgerApi}
use omashu.Badger.Laws.{View, StoreLaws, Refines}
use omashu.Fsm.Footprint.{Noted, Notes}
use omashu.Fsm.Agree.{AllAlike}

module _ (b : BadgerApi) (laws : StoreLaws b) where
  open b use {Db, Tx, commit_at}
  open laws use {
    view, look, latest, opened_at, wrote, has_read, written_after, look_stable,
    written_after-latest, commit_at_lem, commit_at-conflict,
  }

  -- What reads see that are at or above every commit.
  abbrev pub newest : Db → View
  newest d = look d (latest d)

  -- A specified view becomes what is read from the commit timestamp on, and reads below it stay as
  -- they were; the keys `w` count as written at it. A specified error or panic is the result, and
  -- there is no new database.
  abbrev pub Outcome : Db → ℕ → (Bytes → Bool) → Result View → Result Db → Type 0
  Outcome d ts w (ok v) r =
      (d' : Db) × (r ≡ ok d')
      × ((at : ℕ) (k : Bytes) → look d' at k ≡ (if ltb at ts then look d at k else v k))
      × (latest d' ≡ ts)
      × ((at : ℕ) (k : Bytes)
          → written_after d' at k ≡ ((ltb at ts && w k) || written_after d at k))
  Outcome d ts w (err e) r = r ≡ err e
  Outcome d ts w panic r = r ≡ panic

  above_all : (d : Db) (at : ℕ) (k : Bytes) → latest d ≤ at → look d at k ≡ newest d k
  above_all d at k le =
      look_stable d (latest d) at k le (written_after-latest d (latest d) k (omega arith))

  -- A snapshot reads the newest value of a key that was not written after it.
  pub current_read :
      (d : Db) (r : ℕ) (k : Bytes) → written_after d r k ≡ false → look d r k ≡ newest d k
  current_read d r k h = elim (Bool-cases (ltb (latest d) r)) [
    | inl above ↦ above_all d r k (omega (arith, ltb→lt (latest d) r above))
    | inr below ↦ sym (look_stable d r (latest d) k (not_ltb→le (latest d) r below) h)
  ]

  -- A transaction that has neither written nor read.
  abbrev pub IsClean : Tx → Type 0
  IsClean t = (k : Bytes) → (wrote t k ≡ false) × (has_read t k ≡ false)

  module _ (d : Db) (t t' : Tx) (ts : ℕ) (w rd : Bytes → Bool) (clean : IsClean t)
      (noted : Noted b laws t t' w rd) where
    noted_wrote : (k : Bytes) → wrote t' k ≡ w k
    noted_wrote k = ground (arith, noted.0 k, clean k)

    noted_read : (k : Bytes) → has_read t' k ≡ rd k
    noted_read k = ground (arith, noted.1 k, clean k)

    -- The transaction's writes over the newest values are what is specified on the newest values.
    merged :
        (v1 v2 : View) (at : ℕ) (k : Bytes)
        → view t' ≡ v1
        → AllAlike w (view t) (newest d) (ok v1) (ok v2)
        → look d at k ≡ newest d k
        → (if wrote t' k then view t' k else look d at k) ≡ v2 k
    merged v1 v2 at k seen (here, away) now = elim (Bool-cases (w k)) [
      | inl written ↦ rw (noted_wrote k, written, seen) (here k written)
      | inr other ↦ rw (noted_wrote k, other) (now ∙ sym (away k other).1)
    ]

    merged_at :
        (v1 v2 : View) (at : ℕ) (k : Bytes)
        → latest d < ts
        → view t' ≡ v1
        → AllAlike w (view t) (newest d) (ok v1) (ok v2)
        → (if ltb at ts then look d at k else if wrote t' k then view t' k else look d at k)
          ≡ (if ltb at ts then look d at k else v2 k)
    merged_at v1 v2 at k above seen alike = elim (Bool-cases (ltb at ts)) [
      | inl before ↦ rw before refl
      | inr from ↦ rw from (
          merged v1 v2 at k seen alike
            (above_all d at k (omega (arith, not_ltb→le at ts from, above))))
    ]

  pub committed-Outcome :
      (d : Db) (t : Tx) (ts : ℕ) (w rd : Bytes → Bool) (x : Result Tx) (s1 s2 : Result View)
      → IsClean t
      → latest d < ts
      → opened_at t < ts
      → ((k : Bytes) → rd k ≡ true → written_after d (opened_at t) k ≡ false)
      → Refines b laws t x s1
      → Notes b laws t w rd x
      → AllAlike w (view t) (newest d) s1 s2
      → Outcome d ts w s2 (x >>= λ u. commit_at d u ts)
  committed-Outcome d t ts w rd (ok t') (ok v1) (ok v2) clean above below fresh r n a =
      let (d', done, seen, now, after) =
        commit_at_lem d t' ts above (omega (arith, r.1, below))
          (λ k read. rw (r.1) (fresh k (sym (noted_read d t t' ts w rd clean n k) ∙ read))) in
      (
        d',
        done,
        λ at k. seen at k ∙ merged_at d t t' ts w rd clean n v1 v2 at k above r.0 a,
        now,
        λ at k.
            after at k
            ∙ ap (λ x. (ltb at ts && x) || written_after d at k)
                (noted_wrote d t t' ts w rd clean n k),
      )
  committed-Outcome d t ts w rd (err e) (err e1) (err e2) clean above below fresh r n a =
      ap err (r ∙ a)
  committed-Outcome d t ts w rd panic panic panic clean above below fresh r n a = refl
  committed-Outcome d t ts w rd (ok t') (err e) s clean above below fresh r n a = absurd r
  committed-Outcome d t ts w rd (ok t') panic s clean above below fresh r n a = absurd r
  committed-Outcome d t ts w rd (err e) (ok v) s clean above below fresh r n a = absurd r
  committed-Outcome d t ts w rd (err e) panic s clean above below fresh r n a = absurd r
  committed-Outcome d t ts w rd panic (ok v) s clean above below fresh r n a = absurd r
  committed-Outcome d t ts w rd panic (err e) s clean above below fresh r n a = absurd r
  committed-Outcome d t ts w rd x (ok v) (err e) clean above below fresh r n a = absurd a
  committed-Outcome d t ts w rd x (ok v) panic clean above below fresh r n a = absurd a
  committed-Outcome d t ts w rd x (err e) (ok v) clean above below fresh r n a = absurd a
  committed-Outcome d t ts w rd x (err e) panic clean above below fresh r n a = absurd a
  committed-Outcome d t ts w rd x panic (ok v) clean above below fresh r n a = absurd a
  committed-Outcome d t ts w rd x panic (err e) clean above below fresh r n a = absurd a

  pub committed-conflict :
      (d : Db) (t : Tx) (ts : ℕ) (w rd : Bytes → Bool) (x : Result Tx) (v : View) (k : Bytes)
      → IsClean t
      → rd k ≡ true
      → written_after d (opened_at t) k ≡ true
      → Refines b laws t x (ok v)
      → Notes b laws t w rd x
      → (x >>= λ u. commit_at d u ts) ≡ err conflict
  committed-conflict d t ts w rd (ok t') v k clean reads later r n =
      commit_at-conflict d t' ts k (noted_read d t t' ts w rd clean n k ∙ reads) (rw (r.1) later)
  committed-conflict d t ts w rd (err e) v k clean reads later r n = absurd r
  committed-conflict d t ts w rd panic v k clean reads later r n = absurd r
