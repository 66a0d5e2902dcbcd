-- ===== src/Examples/Database.antt =====
-- Runs of the store's scans and of the state machine on small databases.
use omashu.Base.{
  ℕ, List, false, ◌≡◌, ◌≢◌, refl, true, none, some, [], ◌∷◌, arith, length, map, filter, any,
}
use omashu.Base.Bytes.{bytes_eq, Bytes, has_prefix}
use omashu.Errors.{conflict, ok, err}
use omashu.Types.{
  set, incr_by, transaction, Fields, zero_fields, command, Commands, nil, cons, new_set_command,
  new_incr_by_command, new_delete_by_prefix_command,
}
use omashu.Badger.Api.{background}
use omashu.Badger.Reads.{count, get_keys_by_prefix, has_child, iterate_by_prefix}
use omashu.Badger.Scan.{matches, matching, scans_agree}
use omashu.Badger.Pages.{pages, pages_complete}
use omashu.Counter.{uint64_to_bytes}
use omashu.Badger.Writes.{incremented}
use omashu.Fsm.{apply_command}
use omashu.Fsm.Spec.{spec_sub_commands}
use omashu.Fsm.Footprint.{touches, reads}
use omashu.Fsm.Commit.{Outcome, newest}
use omashu.Fsm.Batch.{apply_transaction-Outcome, stale_single_refused}
use omashu.Fsm.Overtaken.{overtaken_refused}
use omashu.Fsm.PrefixDelete.{prefix_delete_never_applied}
use omashu.Fsm.Log.{Logged, IsLog, Implements, run_serially, apply_log, log_serial}
use omashu.Examples.Commits.{Commits, function_store, function_laws, no_commits}
use omashu.Examples.Stores.{three_items, fixed_store, fixed_laws, plain_codec}

scans_agree_example :
    (count fixed_store background tt (1 ∷ [])
      ≡ length (matching fixed_store fixed_laws tt (1 ∷ [])))
    × (get_keys_by_prefix fixed_store background tt (1 ∷ [])
        ≡ ok (map (λ (i : Bytes × Bytes). i.0) (matching fixed_store fixed_laws tt (1 ∷ []))))
    × (has_child fixed_store tt (1 ∷ []) ≡ any (matches fixed_store (1 ∷ [])) three_items)
unfolding fixed_laws
scans_agree_example = scans_agree fixed_store fixed_laws tt (1 ∷ [])

-- The keys under 1 in pages of one.
pages_complete_example :
    (pages fixed_store (λ i. i.1) (λ x. refl) (λ k v. true) 3 tt (1 ∷ []) 1 []
      ≡ (iterate_by_prefix fixed_store background tt (1 ∷ []) [] none (λ k v. true)).1)
    × (pages fixed_store (λ i. i.1) (λ x. refl) (λ k v. true) 3 tt (1 ∷ []) 1 []
        ≡ map (λ i. (i.0, i.1)) (filter (matches fixed_store (1 ∷ [])) three_items))
unfolding has_prefix fixed_laws
pages_complete_example =
    pages_complete fixed_store (λ i. i.1) (λ x. refl) (λ k v. true) fixed_laws tt (1 ∷ []) 1
      (omega arith) 2 (omega arith)

-- Key 1 was written at 3.
abbrev written_once : Commits
written_once = (3, (1 ∷ [], some (5 ∷ [])) ∷ []) ∷ []

abbrev batch : Fields
batch = record (zero_fields [] transaction) { read_ts = 2; commit_ts = 8 }

-- Key 1 is set, and the counter at key 2 is incremented.
abbrev two_writes : Commands
two_writes =
    cons (new_set_command [] (1 ∷ []) (7 ∷ []) []) (cons (new_incr_by_command [] (2 ∷ []) 3) nil)

two_writes_fresh :
    (k : Bytes) → reads two_writes k ≡ true → function_laws.written_after written_once 2 k ≡ false
unfolding function_laws new_set_command new_incr_by_command
two_writes_fresh k r = ground arith

apply_transaction-Outcome_example :
    Outcome function_store function_laws written_once 8
      (touches two_writes)
      (spec_sub_commands function_store plain_codec two_writes
        (newest function_store function_laws written_once))
      (apply_command function_store plain_codec background written_once (command batch two_writes))
unfolding function_laws
apply_transaction-Outcome_example =
    apply_transaction-Outcome function_store function_laws plain_codec background written_once batch
      two_writes refl (omega arith) (omega arith) two_writes_fresh

abbrev one_set : Fields
one_set = record (zero_fields [] set) { key = 1 ∷ []; value = 7 ∷ []; read_ts = 2; commit_ts = 8 }

-- Two increments of key 2 from one snapshot.
abbrev increment : ℕ → Fields
increment ts = record (zero_fields [] incr_by) {
  key = 2 ∷ [];
  incr_or_decr_delta = 1;
  read_ts = 2;
  commit_ts = ts;
}

abbrev incremented_once : Commits
incremented_once = (3, (2 ∷ [], some (uint64_to_bytes 1)) ∷ []) ∷ []

stale_single_refused_example :
    apply_command function_store plain_codec background incremented_once (command (increment 4) nil)
    ≡ err conflict
unfolding function_laws incremented bytes_eq
stale_single_refused_example =
    stale_single_refused function_store function_laws plain_codec background incremented_once
      (increment 4) nil _ refl refl refl

overtaken_refused_example :
    (d' : Commits) × (apply_command function_store plain_codec background no_commits
        (command (increment 3) nil)
      ≡ ok d')
    × (apply_command function_store plain_codec background d' (command (increment 4) nil)
        ≡ err conflict)
unfolding function_laws incremented
overtaken_refused_example =
    overtaken_refused function_store function_laws plain_codec background no_commits (increment 3)
      (increment 4) nil nil _ _ refl (omega arith) (omega arith) (λ r. refl) refl refl refl
      (omega arith) refl

abbrev stale_batch : Commands
stale_batch = cons (new_incr_by_command [] (2 ∷ []) 3) nil

-- A transaction that sets key 1, and one with the same snapshot that increments key 2.
abbrev logged : ℕ → Commands → Logged
logged ts subs = record {
  cmd = record (zero_fields [] transaction) { read_ts = 2; commit_ts = ts };
  subs = subs;
}

abbrev two_logged : List Logged
two_logged =
    logged 3 (cons (new_set_command [] (1 ∷ []) (7 ∷ []) []) nil)
    ∷ logged 4 (cons (new_incr_by_command [] (2 ∷ []) 3) nil)
    ∷ []

other_key :
    (k : Bytes)
    → touches (cons (new_set_command [] (1 ∷ []) (7 ∷ []) []) nil) k ≡ true
    → reads (cons (new_incr_by_command [] (2 ∷ []) 3) nil) k ≡ false
unfolding new_set_command new_incr_by_command bytes_eq
other_key [] touched = cc
other_key (x ∷ []) touched = ground arith
other_key (x ∷ y ∷ ks) touched = ground arith

two_logged-IsLog : IsLog [] two_logged
two_logged-IsLog = (
  record { is_transaction = refl; reads_below = omega arith; increases = tt; not_stale = tt },
  (
    record {
      is_transaction = refl;
      reads_below = omega arith;
      increases = (omega arith, tt);
      not_stale = (λ k later touched. other_key k touched, tt);
    },
    tt,
  ),
)

log_serial_example :
    Implements function_store function_laws plain_codec background
      (run_serially function_store plain_codec background
        (newest function_store function_laws no_commits)
        two_logged)
      (apply_log function_store plain_codec background no_commits two_logged)
unfolding function_laws
log_serial_example =
    log_serial function_store function_laws plain_codec background no_commits two_logged refl
      two_logged-IsLog

abbrev prefix_delete : Commands
prefix_delete = cons (new_delete_by_prefix_command [] (1 ∷ [])) nil

prefix_delete_never_applied_example :
    apply_command function_store plain_codec background no_commits (command batch prefix_delete)
    ≢ ok no_commits
unfolding new_delete_by_prefix_command
prefix_delete_never_applied_example =
    prefix_delete_never_applied function_store plain_codec background no_commits no_commits batch
      prefix_delete refl refl
