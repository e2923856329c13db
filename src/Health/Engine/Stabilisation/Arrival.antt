-- ===== src/Health/Engine/Stabilisation/Arrival.antt =====
-- tms/health/engine.py, `confirm_transitions`: the confirmed state.
use trino_management_service.Prelude.{
  ℕ, zero, suc, ◌≤◌, ◌≡◌, refl, sym, ap, ◌∙◌, inl, inr, ltb, leb, ◌==◌, Bool, true, false, ◌&&◌,
  ◌||◌, Option, none, some, String, List, [], ◌∷◌, arith, Bool-cases,
}
use trino_management_service.Health.States.{HealthState}
use trino_management_service.Health.Context.{TestId}
use trino_management_service.Health.Engine.{same_health, Pending, is_state, Engine, ClusterHealth}
use trino_management_service.Health.Engine.Stabilisation.{
  holds_for, same_health→eq, same_health_refl, Entry, next, entry_of, setting, entry-seen, shown,
  states_of, history, engine_after, engine_after-seen,
}

-- What is pending has not been seen often enough yet.
abbrev short : ℕ → Option Pending → Bool
short polls none = true
short polls (some p) = leb 1 p.times && (p.times == 1 || ltb p.times polls)

abbrev pending_for : ℕ → HealthState → Option Pending → Bool
pending_for n s none = false
pending_for n s (some p) = same_health p.candidate s && leb n p.times

-- While a state is seen again and again it is the confirmed one, or it is pending.
abbrev on_the_way : ℕ → HealthState → Entry → Bool
on_the_way n s entry = is_state s entry.confirmed_state || pending_for n s entry.pending_state

next-short :
    (polls : ℕ) (s : HealthState) (entry : Entry)
    → short polls entry.pending_state ≡ true
    → short polls (next polls s entry).pending_state ≡ true
unfolding next
next-short polls s entry h = ground arith

next-starts :
    (polls : ℕ) (s : HealthState) (entry : Entry)
    → short polls entry.pending_state ≡ true
    → on_the_way 1 s (next polls s entry) ≡ true
unfolding next
next-starts polls s entry h = ground (arith, same_health_refl s)

next-goes_on :
    (polls n : ℕ) (s : HealthState) (entry : Entry)
    → on_the_way n s entry ≡ true
    → on_the_way (suc n) s (next polls s entry) ≡ true
unfolding next
next-goes_on polls n s entry h = ground (arith, same_health_refl s)

is_state→eq : (s : HealthState) (o : Option HealthState) → is_state s o ≡ true → o ≡ some s
is_state→eq s none h = cc
is_state→eq s (some t) h = ap some (sym (same_health→eq s t h))

arrived :
    (polls n : ℕ) (s : HealthState) (entry : Entry)
    → short polls entry.pending_state ≡ true
    → on_the_way n s entry ≡ true
    → 2 ≤ n
    → polls ≤ n
    → entry.confirmed_state ≡ some s
arrived polls n s entry h w two le = elim (Bool-cases (is_state s entry.confirmed_state)) [
  | inl there ↦ is_state→eq s entry.confirmed_state there
  | inr other ↦ ground arith
]

short-shown :
    (polls : ℕ) (hs : List HealthState)
    → short (setting polls) (shown polls hs).pending_state ≡ true
unfolding shown
short-shown polls [] = refl
short-shown polls (h ∷ hs) = next-short (setting polls) h (shown polls hs) (short-shown polls hs)

on_the_way-shown :
    (polls n : ℕ) (s : HealthState) (hs : List HealthState)
    → holds_for (suc n) s hs ≡ true
    → on_the_way (suc n) s (shown polls hs) ≡ true
unfolding shown
on_the_way-shown polls n s [] h = ground arith
on_the_way-shown polls zero s (x ∷ hs) h =
    let same : x ≡ s = same_health→eq x s (ground arith) in
    rw same (next-starts (setting polls) s (shown polls hs) (short-shown polls hs))
on_the_way-shown polls (suc n) s (x ∷ hs) h =
    let same : x ≡ s = same_health→eq x s (ground arith) in
    let before = on_the_way-shown polls n s hs (ground arith) in
    rw same (next-goes_on (setting polls) (suc n) s (shown polls hs) before)

shown_long_enough :
    (polls n : ℕ) (s : HealthState) (hs : List HealthState)
    → holds_for (suc (suc n)) s hs ≡ true
    → polls ≤ suc (suc n)
    → (shown polls hs).confirmed_state ≡ some s
shown_long_enough polls n s hs held enough =
    arrived (setting polls) (suc (suc n)) s (shown polls hs) (short-shown polls hs)
      (on_the_way-shown polls (suc n) s hs held) (omega arith) (ground arith)

-- Whatever evaluations of whatever clusters were given to `confirm_transitions`, a state that a test
-- of a cluster showed `stabilization_polls` times in a row, and at least twice, is the confirmed one.
pub confirmed_when_held :
    (polls : ℕ) (g : Bool) (c : String) (t : TestId) (n : ℕ) (s : HealthState)
    (runs : List ClusterHealth)
    → holds_for (suc (suc n)) s (states_of c t (history runs)) ≡ true
    → polls ≤ suc (suc n)
    → (engine_after polls g runs).confirmed c t ≡ some s
unfolding entry_of
confirmed_when_held polls g c t n s runs held enough =
    ap (λ (e : Engine). e.confirmed c t) (engine_after-seen polls g runs)
    ∙ ap (λ (entry : Entry). entry.confirmed_state) (entry-seen polls g c t (history runs))
    ∙ shown_long_enough polls n s (states_of c t (history runs)) held enough
