-- ===== src/Fsm/Agree.antt =====
-- What a command of fsm.go means depends on the snapshot only at the keys that it reads: on two views that
-- agree there it fails alike, or writes the same values.
use omashu.Base.{
  ℕ, ◌≡◌, refl, sym, subst, ◌∙◌, Bool, true, false, Option, none, some, [], ◌∷◌, arith, Bool-cases,
  inl, inr,
}
use omashu.Base.Bytes.{Bytes, bytes_eq, bytes_eq-eq, bytes_eq_refl}
use omashu.Errors.{Result, ok, err, panic, ◌>>=◌}
use omashu.Types.{
  CommandType, set, delete, decr_by, incr_by, update, UpdateDeltaType, unknown_delta, json,
  protobuf, UpdateMeta, Fields, command, Commands, nil, cons,
}
use omashu.Types.Delta.{Codec}
use omashu.Counter.{uint64_to_bytes}
use omashu.Badger.Api.{BadgerApi}
use omashu.Badger.Writes.{incremented, decremented, decode_stored, merge_stored, copy_into, entries}
use omashu.Badger.Laws.{View, write, spec_set, spec_delete, spec_incr, spec_decr}
use omashu.Fsm.{Delta, json_delta, proto_delta, unmarshal_update_delta}
use omashu.Fsm.Spec.{spec_delta, spec_by_type, spec_sub_command, spec_sub_commands}
use omashu.Fsm.Footprint.{is_reading, touches, reads}

-- Results on two views: the same failure, or the same value at the key and no change elsewhere.
abbrev pub Alike : Bytes → View → View → Result View → Result View → Type 0
Alike key u v (ok u') (ok v') =
    (u' key ≡ v' key) × ((j : Bytes) → bytes_eq key j ≡ false → (u' j ≡ u j) × (v' j ≡ v j))
Alike key u v (err e) (err e') = e ≡ e'
Alike key u v panic panic = Unit
Alike key u v _ _ = ⊥

write-Alike :
    (key : Bytes) (u v : View) (o : Option Bytes)
    → (write u key o key ≡ write v key o key)
      × ((j : Bytes) → bytes_eq key j ≡ false → (write u key o j ≡ u j) × (write v key o j ≡ v j))
write-Alike key u v o = (rw (bytes_eq_refl key) refl, λ j e. (rw e refl, rw e refl))

set-Alike :
    (key : Bytes) (u v : View) (x : Bytes) → Alike key u v (spec_set u key x) (spec_set v key x)
set-Alike [] u v x = refl
set-Alike (k ∷ ks) u v x = write-Alike (k ∷ ks) u v (some x)

delete-Alike : (key : Bytes) (u v : View) → Alike key u v (spec_delete u key) (spec_delete v key)
delete-Alike [] u v = refl
delete-Alike (k ∷ ks) u v = write-Alike (k ∷ ks) u v none

Alike-bind :
    {A : Type 0} (key : Bytes) (u v : View) (x : Result A) (f g : A → Result View)
    → ((a : A) → Alike key u v (f a) (g a))
    → Alike key u v (x >>= f) (x >>= g)
Alike-bind key u v (ok a) f g h = h a
Alike-bind key u v (err e) f g h = refl
Alike-bind key u v panic f g h = tt

incr-Alike :
    (key : Bytes) (u v : View) (delta : ℕ)
    → u key ≡ v key
    → Alike key u v (spec_incr u key delta) (spec_incr v key delta)
incr-Alike key u v delta e =
    subst
      (λ o.
        Alike key u v (incremented o delta >>= λ x. spec_set u key (uint64_to_bytes x))
          (spec_incr v key delta))
      (sym e)
      (Alike-bind key u v (incremented (v key) delta) _ _
        (λ x. set-Alike key u v (uint64_to_bytes x)))

decr-Alike :
    (key : Bytes) (u v : View) (delta : ℕ)
    → u key ≡ v key
    → Alike key u v (spec_decr u key delta) (spec_decr v key delta)
decr-Alike key u v delta e =
    subst
      (λ o.
        Alike key u v (decremented o delta >>= λ x. spec_set u key (uint64_to_bytes x))
          (spec_decr v key delta))
      (sym e)
      (Alike-bind key u v (decremented (v key) delta) _ _
        (λ x. set-Alike key u v (uint64_to_bytes x)))

-- The same of a batch: the same failure, or the same values where it writes and no change elsewhere.
abbrev pub AllAlike : (Bytes → Bool) → View → View → Result View → Result View → Type 0
AllAlike keys u v (ok u') (ok v') =
    ((j : Bytes) → keys j ≡ true → u' j ≡ v' j)
    × ((j : Bytes) → keys j ≡ false → (u' j ≡ u j) × (v' j ≡ v j))
AllAlike keys u v (err e) (err e') = e ≡ e'
AllAlike keys u v panic panic = Unit
AllAlike keys u v _ _ = ⊥

module _ (b : BadgerApi) (codec : Codec) where
  open codec use {json_marshal}

  delta-Alike :
      (key : Bytes) (u v : View) (d : Delta codec)
      → u key ≡ v key
      → Alike key u v (spec_delta b codec u key d) (spec_delta b codec v key d)
  delta-Alike key u v (json_delta m) e =
      subst
        (λ o.
          Alike key u v
            (decode_stored b codec o >>= λ full. copy_into full (entries m) >>= λ merged.
              json_marshal merged >>= λ bytes. spec_set u key bytes)
            (spec_delta b codec v key (json_delta m)))
        (sym e)
        (Alike-bind key u v (decode_stored b codec (v key)) _ _ (λ full.
          Alike-bind key u v (copy_into full (entries m)) _ _ (λ merged.
            Alike-bind key u v (json_marshal merged) _ _ (λ bytes. set-Alike key u v bytes))))
  delta-Alike key u v (proto_delta msg) e =
      subst
        (λ o.
          Alike key u v (merge_stored b codec o msg >>= λ bytes. spec_set u key bytes)
            (spec_delta b codec v key (proto_delta msg)))
        (sym e)
        (Alike-bind key u v (merge_stored b codec (v key) msg) _ _
          (λ bytes. set-Alike key u v bytes))

  by_type-Alike :
      (key : Bytes) (u v : View) (o : Option UpdateMeta) (x y : Result View)
      → Alike key u v x y
      → Alike key u v (spec_by_type b codec o x) (spec_by_type b codec o y)
  by_type-Alike key u v none x y h = tt
  by_type-Alike key u v (some meta) x y h = by_type meta.update_delta_type
    where
      by_type :
          (d : UpdateDeltaType)
          → Alike key u v
              (spec_by_type b codec
                (some (record { update_delta_type = d; message_name = meta.message_name }))
                x)
              (spec_by_type b codec
                (some (record { update_delta_type = d; message_name = meta.message_name }))
                y)
      by_type unknown_delta = refl
      by_type json = h
      by_type protobuf = h

  pub sub_command-Alike :
      (type : CommandType) (cmd : Fields) (u v : View)
      → (is_reading type ≡ true → u cmd.key ≡ v cmd.key)
      → Alike cmd.key u v
          (spec_sub_command b codec type cmd u)
          (spec_sub_command b codec type cmd v)
  sub_command-Alike set cmd u v h = set-Alike cmd.key u v cmd.value
  sub_command-Alike update cmd u v h = by_type-Alike cmd.key u v cmd.update_meta _ _ (
      Alike-bind cmd.key u v (unmarshal_update_delta codec cmd) _ _
        (λ d. delta-Alike cmd.key u v d (h refl)))
  sub_command-Alike delete cmd u v h = delete-Alike cmd.key u v
  sub_command-Alike incr_by cmd u v h = incr-Alike cmd.key u v cmd.incr_or_decr_delta (h refl)
  sub_command-Alike decr_by cmd u v h = decr-Alike cmd.key u v cmd.incr_or_decr_delta (h refl)
  sub_command-Alike _ cmd u v h = refl

  still_agree :
      (cmd : Fields) (subs cmds : Commands) (u v u1 v1 : View)
      → ((j : Bytes) → reads (cons (command cmd subs) cmds) j ≡ true → u j ≡ v j)
      → Alike cmd.key u v (ok u1) (ok v1)
      → (j : Bytes) → reads cmds j ≡ true
      → u1 j ≡ v1 j
  still_agree cmd subs cmds u v u1 v1 h (here, away) j r = elim (Bool-cases (bytes_eq cmd.key j)) [
    | inl same ↦ subst (λ k. u1 k ≡ v1 k) (bytes_eq-eq cmd.key j same) here
    | inr other ↦ let (a, c) = away j other in a ∙ h j (ground arith) ∙ sym c
  ]

  both-Alike :
      (cmd : Fields) (subs cmds : Commands) (u v u1 v1 : View) (x y : Result View)
      → Alike cmd.key u v (ok u1) (ok v1)
      → AllAlike (touches cmds) u1 v1 x y
      → AllAlike (touches (cons (command cmd subs) cmds)) u v x y
  both-Alike cmd subs cmds u v u1 v1 (ok u') (ok v') (here, away) (at, off) = (
    λ j t. elim (Bool-cases (touches cmds j)) [
      | inl later ↦ at j later
      | inr not_later ↦
          let same : bytes_eq cmd.key j ≡ true = ground arith in
          let (a, c) = off j not_later in
          a ∙ subst (λ k. u1 k ≡ v1 k) (bytes_eq-eq cmd.key j same) here ∙ sym c
    ],
    λ j t.
        let never : touches cmds j ≡ false = ground arith in
        let other : bytes_eq cmd.key j ≡ false = ground arith in
        let (a, c) = off j never in let (a1, c1) = away j other in (a ∙ a1, c ∙ c1),
  )
  both-Alike cmd subs cmds u v u1 v1 (err e) (err e') h k = k
  both-Alike cmd subs cmds u v u1 v1 panic panic h k = tt
  both-Alike cmd subs cmds u v u1 v1 (ok u') (err e) h k = absurd k
  both-Alike cmd subs cmds u v u1 v1 (ok u') panic h k = absurd k
  both-Alike cmd subs cmds u v u1 v1 (err e) (ok v') h k = absurd k
  both-Alike cmd subs cmds u v u1 v1 (err e) panic h k = absurd k
  both-Alike cmd subs cmds u v u1 v1 panic (ok v') h k = absurd k
  both-Alike cmd subs cmds u v u1 v1 panic (err e) h k = absurd k

  Alike-then :
      (cmd : Fields) (subs cmds : Commands) (u v : View) (x y : Result View)
      → ((j : Bytes) → reads (cons (command cmd subs) cmds) j ≡ true → u j ≡ v j)
      → Alike cmd.key u v x y
      → ((u1 v1 : View)
          → ((j : Bytes) → reads cmds j ≡ true → u1 j ≡ v1 j)
          → AllAlike
              (touches cmds)
              u1
              v1
              (spec_sub_commands b codec cmds u1)
              (spec_sub_commands b codec cmds v1))
      → AllAlike
          (touches (cons (command cmd subs) cmds))
          u
          v
          (x >>= λ w. spec_sub_commands b codec cmds w)
          (y >>= λ w. spec_sub_commands b codec cmds w)
  Alike-then cmd subs cmds u v (ok u1) (ok v1) h k rest =
      both-Alike cmd subs cmds u v u1 v1 _ _ k
        (rest u1 v1 (still_agree cmd subs cmds u v u1 v1 h k))
  Alike-then cmd subs cmds u v (err e) (err e') h k rest = k
  Alike-then cmd subs cmds u v panic panic h k rest = tt
  Alike-then cmd subs cmds u v (ok u') (err e) h k rest = absurd k
  Alike-then cmd subs cmds u v (ok u') panic h k rest = absurd k
  Alike-then cmd subs cmds u v (err e) (ok v') h k rest = absurd k
  Alike-then cmd subs cmds u v (err e) panic h k rest = absurd k
  Alike-then cmd subs cmds u v panic (ok v') h k rest = absurd k
  Alike-then cmd subs cmds u v panic (err e) h k rest = absurd k

  -- On two views that agree at the keys that a batch reads, it means the same.
  pub sub_commands-AllAlike :
      (cmds : Commands) (u v : View)
      → ((j : Bytes) → reads cmds j ≡ true → u j ≡ v j)
      → AllAlike
          (touches cmds)
          u
          v
          (spec_sub_commands b codec cmds u)
          (spec_sub_commands b codec cmds v)
  sub_commands-AllAlike nil u v h = (λ j t. cc, λ j t. (refl, refl))
  sub_commands-AllAlike (cons (command cmd subs) cmds) u v h =
      Alike-then cmd subs cmds u v _ _ h
        (sub_command-Alike cmd.type cmd u v (λ r. h cmd.key (rw (r, bytes_eq_refl cmd.key) refl)))
        (λ u1 v1 g. sub_commands-AllAlike cmds u1 v1 g)
