-- ===== src/Distributed/Leadership.antt =====
-- distributed.go: onLeaderChange, with the parts of tso.go that start and stop the oracle's goroutine.
-- A channel that is only closed, never sent on, is known by whether it is there, open or closed; closing
-- a closed channel is a panic. `start` is the answer of StartServing after it has made its channel.
use omashu.Base.{
  ℕ, ◌≡◌, ◌≢◌, refl, Bool, true, false, List, [], ◌∷◌, ◌++◌, arith, ◌==◌, ==_iff, Bool-cases, inl,
  inr, if◌then◌else◌,
}
use omashu.Errors.{Result, ok, panic, ◌>>=◌}

pub data Channel : Type 0 where
  absent open_ closed : Channel

-- The oracle's stopNotifier, whether leaderChangeNotifier is set, and the calls of the user's hook.
pub record Service : Type 0 where
  pub stop_notifier : Channel
  pub leader_change_notifier : Bool
  pub hook_calls : List (ℕ × ℕ)

-- TSO.Close
unfoldable pub close_tso : Channel → Result Channel
close_tso absent = ok absent
close_tso open_ = ok closed
close_tso closed = panic

-- Gaining leadership: an oracle that cannot start ends the program.
abbrev pub started : Service → Result (Unit {0}) → Result Service
started s (ok _) = ok (record s { stop_notifier = open_; leader_change_notifier = true })
started s _ = panic

-- Losing leadership.
abbrev pub stopped : Service → Result Service
stopped s = close_tso s.stop_notifier >>= λ c.
    ok (record s { stop_notifier = c; leader_change_notifier = false })

unfoldable pub on_leader_change : ℕ → Result (Unit {0}) → Service → ℕ → ℕ → Result Service
unfolding close_tso
on_leader_change id start s prev_leader new_leader =
    (if new_leader == id then started s start else ok s) >>= λ t.
    (if prev_leader == id then stopped t else ok t) >>= λ u.
    ok (record u { hook_calls = u.hook_calls ++ (prev_leader, new_leader) ∷ [] })

-- The leaders that node.go's handleLeaderChange sees one after the other, from the current one on; each
-- start of the oracle succeeds.
unfoldable pub leaders : ℕ → Service → ℕ → List ℕ → Result (Service × ℕ)
unfolding on_leader_change
leaders id s lead [] = ok (s, lead)
leaders id s lead (new ∷ rest) =
    let changed = on_leader_change id (ok tt) s lead new >>= λ t. leaders id t new rest in
    let same = leaders id s lead rest in if new == lead then same else changed

-- The oracle runs exactly while this node leads.
abbrev pub Runs : Service → Bool → Type 0
Runs s true = (s.stop_notifier ≡ open_) × (s.leader_change_notifier ≡ true)
Runs s false = (s.stop_notifier ≢ open_) × (s.leader_change_notifier ≡ false)

not_leader : (prev new id : ℕ) → new ≢ prev → (prev == id) ≡ true → (new == id) ≡ false
not_leader prev new id other was = elim (Bool-cases (new == id)) [
  | inl is ↦ absurd (other (omega (arith, (==_iff prev id).0 was, (==_iff new id).0 is)))
  | inr no_ ↦ no_
]

same : (id : ℕ) → (id == id) ≡ true
same id = (==_iff id id).1 refl

-- The change by what its two tests say.
abbrev changed_as : Service → ℕ → ℕ → Bool → Bool → Result Service
changed_as s prev new was is = (if is then started s (ok tt) else ok s) >>= λ t.
    (if was then stopped t else ok t) >>= λ u.
    ok (record u { hook_calls = u.hook_calls ++ (prev, new) ∷ [] })

changed_as-Runs :
    (s : Service) (prev new : ℕ) (was is : Bool)
    → (was ≡ true → is ≡ false)
    → Runs s was
    → (t : Service) × (changed_as s prev new was is ≡ ok t) × Runs t is
unfolding close_tso
changed_as-Runs s prev new true true not_both h = cc (not_both refl)
changed_as-Runs s prev new true false not_both h = (
  record {
    stop_notifier = closed;
    leader_change_notifier = false;
    hook_calls = s.hook_calls ++ (prev, new) ∷ [];
  },
  rw (h.0) refl,
  (λ e. cc, refl),
)
changed_as-Runs s prev new false true not_both h = (_, refl, (refl, refl))
changed_as-Runs s prev new false false not_both h = (_, refl, h)

on_leader_change-Runs :
    (id : ℕ) (s : Service) (prev new : ℕ)
    → new ≢ prev
    → Runs s (prev == id)
    → (t : Service) × (on_leader_change id (ok tt) s prev new ≡ ok t) × Runs t (new == id)
unfolding on_leader_change
on_leader_change-Runs id s prev new other h =
    changed_as-Runs s prev new (prev == id) (new == id) (λ was. not_leader prev new id other was) h

-- From an oracle that never ran, and while each start succeeds: whatever leaders follow one another,
-- no change panics, and the oracle runs exactly when the last leader is this node.
pub leaders-Runs :
    (id lead : ℕ) (s : Service) (news : List ℕ)
    → Runs s (lead == id)
    → (t : Service) × (last : ℕ) × (leaders id s lead news ≡ ok (t, last)) × Runs t (last == id)
unfolding leaders
leaders-Runs id lead s [] h = (s, lead, refl, h)
leaders-Runs id lead s (new ∷ rest) h = elim (Bool-cases (new == lead)) [
  | inl stays ↦ rw stays (leaders-Runs id lead s rest h)
  | inr other ↦
      let (t, changed, runs) =
        on_leader_change-Runs id s lead new (λ e. cc ((==_iff new lead).1 e, other)) h in
      rw (other, changed) (leaders-Runs id new t rest runs)
]

-- Once this node has lost its leadership to another, closing the store closes the oracle's channel a
-- second time, which panics.
pub close_after_term :
    (id new : ℕ) (s : Service)
    → new ≢ id
    → Runs s true
    → (t : Service) × (on_leader_change id (ok tt) s id new ≡ ok t)
      × (close_tso t.stop_notifier ≡ panic)
unfolding on_leader_change close_tso
close_after_term id new s other h = (
  record {
    stop_notifier = closed;
    leader_change_notifier = false;
    hook_calls = s.hook_calls ++ (id, new) ∷ [];
  },
  rw (not_leader id new id other (same id), same id, h.0) refl,
  refl,
)
