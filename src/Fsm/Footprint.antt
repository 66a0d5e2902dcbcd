-- ===== src/Fsm/Footprint.antt =====
-- The keys that applying a command writes, and the ones that it reads from its snapshot: those whose first
-- sub-command is an increment, a decrement or an update.
use omashu.Base.{
  ℕ, ◌≡◌, refl, ap, ◌∙◌, Bool, true, false, not, ◌&&◌, ◌||◌, Option, none, some, List, [], ◌∷◌,
  arith,
}
use omashu.Base.Bytes.{Bytes, bytes_eq}
use omashu.Errors.{Result, ok, err, panic, ◌>>=◌}
use omashu.Types.{
  first_ttl, CommandType, set, delete, decr_by, incr_by, update, UpdateDeltaType, unknown_delta,
  json, protobuf, UpdateMeta, Fields, command, Commands, nil, cons, fields,
}
use omashu.Types.Delta.{Codec}
use omashu.Counter.{uint64_to_bytes}
use omashu.Badger.Api.{BadgerApi}
use omashu.Badger.Reads.{get_with_txn}
use omashu.Badger.Writes.{
  incremented, decremented, decode_stored, merge_stored, copy_into, entries, set_with_txn,
  delete_with_txn, incr_by_with_txn, decr_by_with_txn, update_json_with_txn,
  update_protobuf_with_txn,
}
use omashu.Badger.Laws.{StoreLaws}
use omashu.Fsm.{
  get_ttl, Delta, json_delta, proto_delta, unmarshal_update_delta, apply_delta, apply_update,
  apply_sub_command, apply_sub_commands, by_delta_type, sub_command_as,
}

abbrev pub is_reading : CommandType → Bool
is_reading incr_by = true
is_reading decr_by = true
is_reading update = true
is_reading _ = false

abbrev pub is_single : CommandType → Bool
is_single set = true
is_single update = true
is_single delete = true
is_single incr_by = true
is_single decr_by = true
is_single _ = false

abbrev pub touches : Commands → Bytes → Bool
touches nil j = false
touches (cons cmd cmds) j = touches cmds j || bytes_eq (fields cmd).key j

-- The keys that are read before they are written.
abbrev pub reads : Commands → Bytes → Bool
reads nil j = false
reads (cons cmd cmds) j =
    (is_reading (fields cmd).type && bytes_eq (fields cmd).key j)
    || (not (bytes_eq (fields cmd).key j) && reads cmds j)

both_noted :
    (e w r rs h : Bool)
    → ((not (e || w) && rs) || ((not w && (r && e)) || h))
      ≡ ((not w && ((r && e) || (not e && rs))) || h)
both_noted e w r rs h = ground arith

or_assoc : (a b c : Bool) → (a || (b || c)) ≡ ((a || b) || c)
or_assoc a b c = ground arith

no_more : (w h : Bool) → ((not w && false) || h) ≡ h
no_more w h = ground arith

module _ (b : BadgerApi) (laws : StoreLaws b) where
  open b use {Tx, after_get}
  open laws use {
    wrote, has_read, wrote-after_get, has_read-after_get, set_entry-empty, set_entry_lem,
    delete-empty, delete_lem,
  }

  -- What a transaction has noted after an operation that writes `w` and reads `r`.
  abbrev pub Noted : Tx → Tx → (Bytes → Bool) → (Bytes → Bool) → Type 0
  Noted t t' w r =
      ((j : Bytes) → wrote t' j ≡ (w j || wrote t j))
      × ((j : Bytes) → has_read t' j ≡ ((not (wrote t j) && r j) || has_read t j))

  no_read : (w h : Bool) → h ≡ ((not w && false) || h)
  no_read w h = ground arith

  -- What a result notes, if it is no error.
  abbrev pub Notes : Tx → (Bytes → Bool) → (Bytes → Bool) → Result Tx → Type 0
  Notes t w r (ok t') = Noted t t' w r
  Notes t w r _ = Unit

  Notes-bind :
      {A : Type 0} (t : Tx) (w r : Bytes → Bool) (x : Result A) (f : A → Result Tx)
      → ((a : A) → Notes t w r (f a))
      → Notes t w r (x >>= f)
  Notes-bind t w r (ok a) f h = h a
  Notes-bind t w r (err e) f h = tt
  Notes-bind t w r panic f h = tt

  set_with_txn-Notes :
      (t : Tx) (key value : Bytes) (ttl : List ℕ)
      → Notes t (bytes_eq key) (λ j. false) (set_with_txn b t key value ttl)
  unfolding set_with_txn
  set_with_txn-Notes t [] value ttl = rw (set_entry-empty t value (first_ttl ttl)) tt
  set_with_txn-Notes t (k ∷ ks) value ttl =
      let (t', done, _, _, w, r) = set_entry_lem t (k ∷ ks) value (first_ttl ttl) (λ e. cc) in
      rw done (w, λ j. r j ∙ no_read (wrote t j) (has_read t j))

  delete_with_txn-Notes :
      (t : Tx) (key : Bytes) → Notes t (bytes_eq key) (λ j. false) (delete_with_txn b t key)
  unfolding delete_with_txn
  delete_with_txn-Notes t [] = rw (delete-empty t) tt
  delete_with_txn-Notes t (k ∷ ks) =
      let (t', done, _, _, w, r) = delete_lem t (k ∷ ks) (λ e. cc) in
      rw done (w, λ j. r j ∙ no_read (wrote t j) (has_read t j))

  noted_read :
      (t : Tx) (key : Bytes) (x : Result Tx)
      → Notes (after_get t key) (bytes_eq key) (λ j. false) x
      → Notes t (bytes_eq key) (bytes_eq key) x
  noted_read t key (ok t') (w, r) = (
    λ j. w j ∙ ap (λ x. bytes_eq key j || x) (wrote-after_get t key j),
    λ j.
        r j
        ∙ no_more (wrote (after_get t key) j) (has_read (after_get t key) j)
        ∙ has_read-after_get t key j,
  )
  noted_read t key (err e) h = tt
  noted_read t key panic h = tt

  -- A read of a key, and a write of it.
  set_after_get-Notes :
      (t : Tx) (key value : Bytes) (ttl : List ℕ)
      → Notes t (bytes_eq key) (bytes_eq key) (set_with_txn b (after_get t key) key value ttl)
  set_after_get-Notes t key value ttl =
      noted_read t key _ (set_with_txn-Notes (after_get t key) key value ttl)

  incr_by_with_txn-Notes :
      (t : Tx) (key : Bytes) (delta : ℕ)
      → Notes t (bytes_eq key) (bytes_eq key) (incr_by_with_txn b t key delta)
  unfolding incr_by_with_txn
  incr_by_with_txn-Notes t key delta = Notes-bind t _ _ (get_with_txn b t key) _ (λ stored.
      Notes-bind t _ _ (incremented stored delta) _
        (λ v. set_after_get-Notes t key (uint64_to_bytes v) []))

  decr_by_with_txn-Notes :
      (t : Tx) (key : Bytes) (delta : ℕ)
      → Notes t (bytes_eq key) (bytes_eq key) (decr_by_with_txn b t key delta)
  unfolding decr_by_with_txn
  decr_by_with_txn-Notes t key delta = Notes-bind t _ _ (get_with_txn b t key) _ (λ stored.
      Notes-bind t _ _ (decremented stored delta) _
        (λ v. set_after_get-Notes t key (uint64_to_bytes v) []))

  module _ (codec : Codec) where
    open codec use {json_marshal}

    apply_delta-Notes :
        (cmd : Fields) (t : Tx) (d : Delta codec)
        → Notes t (bytes_eq cmd.key) (bytes_eq cmd.key) (apply_delta b codec cmd t d)
    unfolding apply_delta update_json_with_txn update_protobuf_with_txn
    apply_delta-Notes cmd t (json_delta m) =
        Notes-bind t _ _ (get_with_txn b t cmd.key) _ (λ stored.
          Notes-bind t _ _ (decode_stored b codec stored) _ (λ full.
            Notes-bind t _ _ (copy_into full (entries m)) _ (λ merged.
              Notes-bind t _ _ (json_marshal merged) _
                (λ v. set_after_get-Notes t cmd.key v (get_ttl cmd)))))
    apply_delta-Notes cmd t (proto_delta msg) =
        Notes-bind t _ _ (get_with_txn b t cmd.key) _ (λ stored.
          Notes-bind t _ _ (merge_stored b codec stored msg) _
            (λ v. set_after_get-Notes t cmd.key v (get_ttl cmd)))

    by_delta_type-Notes :
        (t : Tx) (w r : Bytes → Bool) (o : Option UpdateMeta) (op : Result Tx)
        → Notes t w r op
        → Notes t w r (by_delta_type b codec o op)
    by_delta_type-Notes t w r none op h = tt
    by_delta_type-Notes t w r (some meta) op h = by_type meta.update_delta_type
      where
        by_type :
            (d : UpdateDeltaType)
            → Notes t w r (
                by_delta_type b codec
                  (some (record { update_delta_type = d; message_name = meta.message_name }))
                  op)
        by_type unknown_delta = tt
        by_type json = h
        by_type protobuf = h

    apply_update-Notes :
        (cmd : Fields) (t : Tx)
        → Notes t (bytes_eq cmd.key) (bytes_eq cmd.key) (apply_update b codec cmd t)
    unfolding apply_update
    apply_update-Notes cmd t =
        by_delta_type-Notes t _ _ cmd.update_meta _
          (Notes-bind t _ _ (unmarshal_update_delta codec cmd) _ (apply_delta-Notes cmd t))

    -- What a sub-command that succeeds has noted: its key as written, and as read if it reads.
    pub sub_command-Notes :
        (type : CommandType) (cmd : Fields) (t : Tx)
        → Notes t
            (bytes_eq cmd.key)
            (λ j. is_reading type && bytes_eq cmd.key j)
            (sub_command_as b codec type cmd t)
    sub_command-Notes set cmd t = set_with_txn-Notes t cmd.key cmd.value (get_ttl cmd)
    sub_command-Notes update cmd t = apply_update-Notes cmd t
    sub_command-Notes delete cmd t = delete_with_txn-Notes t cmd.key
    sub_command-Notes incr_by cmd t = incr_by_with_txn-Notes t cmd.key cmd.incr_or_decr_delta
    sub_command-Notes decr_by cmd t = decr_by_with_txn-Notes t cmd.key cmd.incr_or_decr_delta
    sub_command-Notes _ cmd t = tt

    Noted-both :
        (t t1 : Tx) (cmd : Fields) (cmds : Commands) (x : Result Tx)
        → Noted t t1 (bytes_eq cmd.key) (λ j. is_reading cmd.type && bytes_eq cmd.key j)
        → Notes t1 (touches cmds) (reads cmds) x
        → (subs : Commands)
        → Notes t (touches (cons (command cmd subs) cmds)) (reads (cons (command cmd subs) cmds)) x
    Noted-both t t1 cmd cmds (ok t') (w1, r1) (w2, r2) subs = (
      λ j.
          w2 j
          ∙ ap (λ x. touches cmds j || x) (w1 j)
          ∙ or_assoc (touches cmds j) (bytes_eq cmd.key j) (wrote t j),
      λ j.
          r2 j
          ∙ ap (λ w. (not w && reads cmds j) || has_read t1 j) (w1 j)
          ∙ ap (λ h. (not (bytes_eq cmd.key j || wrote t j) && reads cmds j) || h) (r1 j)
          ∙ both_noted (bytes_eq cmd.key j) (wrote t j) (is_reading cmd.type) (reads cmds j)
              (has_read t j),
    )
    Noted-both t t1 cmd cmds (err e) n h subs = tt
    Noted-both t t1 cmd cmds panic n h subs = tt

    noted_then :
        (t : Tx) (cmd : Fields) (subs cmds : Commands) (x : Result Tx)
        → Notes t (bytes_eq cmd.key) (λ j. is_reading cmd.type && bytes_eq cmd.key j) x
        → ((t1 : Tx) → Notes t1 (touches cmds) (reads cmds) (apply_sub_commands b codec cmds t1))
        → Notes t
            (touches (cons (command cmd subs) cmds))
            (reads (cons (command cmd subs) cmds))
            (x >>= apply_sub_commands b codec cmds)
    noted_then t cmd subs cmds (ok t1) n h =
        Noted-both t t1 cmd cmds (apply_sub_commands b codec cmds t1) n (h t1) subs
    noted_then t cmd subs cmds (err e) n h = tt
    noted_then t cmd subs cmds panic n h = tt

    -- The same of a batch: its keys, and the ones that are read before they are written.
    pub sub_commands-Notes :
        (cmds : Commands) (t : Tx)
        → Notes t (touches cmds) (reads cmds) (apply_sub_commands b codec cmds t)
    unfolding apply_sub_commands apply_sub_command
    sub_commands-Notes nil t = (λ j. refl, λ j. no_read (wrote t j) (has_read t j))
    sub_commands-Notes (cons (command cmd subs) cmds) t =
        noted_then t cmd subs cmds (sub_command_as b codec cmd.type cmd t)
          (sub_command-Notes cmd.type cmd t) (λ t1. sub_commands-Notes cmds t1)
