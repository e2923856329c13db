-- ===== src/Health/Engine/Stabilisation/Held.antt =====
-- tms/health/engine.py, `confirm_transitions`: what comes before a transition.
use trino_management_service.Prelude.{
  ℕ, ◌+◌, ◌≤◌, ◌≡◌, sym, subst, ap, inl, inr, ltb, Bool, true, false, not, ◌&&◌, all, any, eq_refl,
  refl, ◌∙◌, Option, none, some, String, List, [], ◌∷◌, arith, Bool-cases, Option-cases,
}
use trino_management_service.Health.States.{HealthState}
use trino_management_service.Health.Context.{TestId, HealthResult}
use trino_management_service.Health.Engine.{
  same_health, Pending, Engine, Transition, is_state, confirm_one, confirm_pending, same_test,
  confirm_results, confirm_transitions, ClusterHealth,
}
use trino_management_service.Health.Engine.Stabilisation.{
  Observation, observe, states_of, history, engine_after, engine_after-seen, shown, seen, holds_for,
  same_health→eq, same_health_refl, holds_for-le, Entry, pending_next, next, entry_of, setting,
  setting-seen, entry-seen,
}

-- What is pending was seen as often as it says, at least once.
WasSeen : List HealthState → Option Pending → Type 0
WasSeen hs none = Unit
WasSeen hs (some p) = (holds_for p.times p.candidate hs ≡ true) × (1 ≤ p.times)

pending_next-WasSeen :
    (polls : ℕ) (h : HealthState) (hs : List HealthState) (confirmed : Option HealthState)
    (p : Pending)
    → WasSeen hs (some p)
    → WasSeen
        (h ∷ hs)
        (pending_next polls h
          (record { confirmed_state = confirmed; pending_state = some p })
          p).pending_state
unfolding WasSeen
pending_next-WasSeen polls h hs confirmed p w = elim (Bool-cases (same_health p.candidate h)) [
  | inl again ↦ elim (Bool-cases (ltb (p.times + 1) polls)) [
    | inl short ↦
        rw (again, short) (ground (arith, same_health→eq p.candidate h again, w.0), omega arith)
    | inr enough ↦ rw (again, enough) tt
  ]
  | inr new ↦ rw new (ground (arith, same_health_refl h))
]

next-WasSeen :
    (polls : ℕ) (h : HealthState) (hs : List HealthState) (confirmed : Option HealthState)
    (pending : Option Pending)
    → WasSeen hs pending
    → WasSeen
        (h ∷ hs)
        (next polls h
          (record { confirmed_state = confirmed; pending_state = pending })).pending_state
unfolding next WasSeen
next-WasSeen polls h hs confirmed none w = elim (Bool-cases (is_state h confirmed)) [
  | inl same ↦ rw same tt
  | inr other ↦ rw other (ground (arith, same_health_refl h))
]
next-WasSeen polls h hs confirmed (some p) w = elim (Bool-cases (is_state h confirmed)) [
  | inl same ↦ rw same tt
  | inr other ↦ rw other (pending_next-WasSeen polls h hs confirmed p w)
]

shown-WasSeen : (polls : ℕ) (hs : List HealthState) → WasSeen hs (shown polls hs).pending_state
unfolding shown WasSeen
shown-WasSeen polls [] = tt
shown-WasSeen polls (h ∷ hs) =
    next-WasSeen (setting polls) h hs (shown polls hs).confirmed_state
      (shown polls hs).pending_state (shown-WasSeen polls hs)

seen-WasSeen :
    (polls : ℕ) (g : Bool) (c : String) (t : TestId) (obs : List Observation)
    → WasSeen (states_of c t obs) ((seen polls g obs).pending c t)
unfolding entry_of
seen-WasSeen polls g c t obs =
    subst (λ (entry : Entry). WasSeen (states_of c t obs) entry.pending_state)
      (sym (entry-seen polls g c t obs)) (shown-WasSeen polls (states_of c t obs))

-- An event is of the test that it is made for.
event_of :
    (c : String) (t : TestId) (s : HealthState) (e : Engine) {event : Transition}
    → (confirm_one c t s e).0 ≡ some event
    → (event.cluster ≡ c) × (event.test_id ≡ t)
unfolding confirm_one confirm_pending
event_of c t s e {event} made = elim (Option-cases (e.pending c t)) [
  | inl missing ↦ ground arith
  | inr (p, before) ↦ ground arith
]

-- No test is listed twice.
abbrev pub distinct_tests : List HealthResult → Bool
distinct_tests [] = true
distinct_tests (r ∷ rest) =
    not (any (λ (q : HealthResult). same_test r.test_id q.test_id) rest) && distinct_tests rest

-- A transition is made only of a pending state that is seen again, often enough.
event_conditions :
    (c : String) (t : TestId) (h : HealthState) (e : Engine) (p : Pending) {event : Transition}
    → e.pending c t ≡ some p
    → (confirm_one c t h e).0 ≡ some event
    → (same_health p.candidate h ≡ true)
      × (e.stabilization_polls ≤ p.times + 1)
      × (event.to_state ≡ h)
unfolding confirm_one confirm_pending
event_conditions c t h e p before made = ground arith

held_on :
    (h : HealthState) (hs : List HealthState) (p : Pending)
    → same_health p.candidate h ≡ true
    → holds_for p.times p.candidate hs ≡ true
    → holds_for (p.times + 1) h (h ∷ hs) ≡ true
held_on h hs p same held = ground (arith, same_health→eq p.candidate h same, same_health_refl h)

event_was_held :
    (c : String) (t : TestId) (h : HealthState) (hs : List HealthState) (e : Engine)
    {event : Transition}
    → WasSeen hs (e.pending c t)
    → (confirm_one c t h e).0 ≡ some event
    → (holds_for e.stabilization_polls h (h ∷ hs) ≡ true)
      × (holds_for 2 h (h ∷ hs) ≡ true)
      × (event.to_state ≡ h)
unfolding confirm_one confirm_pending WasSeen
event_was_held c t h hs e {event} w made = elim (Option-cases (e.pending c t)) [
  | inl missing ↦ ground arith
  | inr (p, before) ↦
      let (again, enough, to) = event_conditions c t h e p before made in
      let (held, once) : WasSeen hs (some p) = subst (WasSeen hs) before w in
      let longer = held_on h hs p again held in
      (
        holds_for-le e.stabilization_polls (p.times + 1) h (h ∷ hs) enough longer,
        holds_for-le 2 (p.times + 1) h (h ∷ hs) (omega arith) longer,
        to,
      )
]

-- The last `stabilization_polls` states that the test of an event showed, and in any case the last
-- two, were all the one that the event is to.
abbrev pub was_held : ℕ → List Observation → Transition → Bool
was_held polls obs event =
    let states = states_of event.cluster event.test_id obs in
    holds_for polls event.to_state states && holds_for 2 event.to_state states

-- What one round reports was held, its own state included.
round_was_held :
    (polls : ℕ) (g : Bool) (c : String) (t : TestId) (s : HealthState) (obs : List Observation)
    {event : Transition}
    → (confirm_one c t s (seen polls g obs)).0 ≡ some event
    → was_held polls (record { cluster = c; test_id = t; state = s } ∷ obs) event ≡ true
unfolding confirm_one confirm_pending
round_was_held polls g c t s obs {event} made =
    let hs = states_of c t obs in
    let (held, twice, to) =
      event_was_held c t s hs (seen polls g obs) (seen-WasSeen polls g c t obs) made in
    let long : holds_for polls s (s ∷ hs) ≡ true =
      holds_for-le polls (seen polls g obs).stabilization_polls s (s ∷ hs)
        (rw (setting-seen polls g obs) (ground arith)) held in
    let (of_cluster, of_test) = event_of c t s (seen polls g obs) made in
    let obs' : List Observation = record { cluster = c; test_id = t; state = s } ∷ obs in
    let here : states_of c t obs' ≡ s ∷ hs = ground (arith, eq_refl c) in
    let same : states_of event.cluster event.test_id obs' ≡ s ∷ hs =
      ap (λ (d : String). states_of d event.test_id obs') of_cluster
      ∙ ap (λ (u : TestId). states_of c u obs') of_test
      ∙ here in
    subst
      (λ (xs : List HealthState).
        holds_for polls event.to_state xs && holds_for 2 event.to_state xs ≡ true)
      (sym same) (rw to (ground (arith, long, twice)))

-- What other tests show later does not change what was held.
later_others :
    (polls : ℕ) (c : String) (rs : List HealthResult) (obs : List Observation) (event : Transition)
    → any (λ (r : HealthResult). same_test event.test_id r.test_id) rs ≡ false
    → was_held polls (observe c rs obs) event ≡ was_held polls obs event
later_others polls c [] obs event h = refl
later_others polls c (r ∷ rest) obs event h =
    later_others polls c rest (record { cluster = c; test_id = r.test_id; state = r.state } ∷ obs)
      event (ground arith)
    ∙ ground arith

results_were_held :
    (polls : ℕ) (g : Bool) (c : String) (rs : List HealthResult) (obs : List Observation)
    → distinct_tests rs ≡ true
    → all (was_held polls (observe c rs obs)) (confirm_results c rs (seen polls g obs)).0 ≡ true
unfolding confirm_results seen
results_were_held polls g c [] obs h = refl
results_were_held polls g c (r ∷ rest) obs h =
    let next_obs : List Observation =
      record { cluster = c; test_id = r.test_id; state = r.state } ∷ obs in
    let ih = results_were_held polls g c rest next_obs (ground arith) in
    elim (Option-cases (confirm_one c r.test_id r.state (seen polls g obs)).0) [
      | inl quiet ↦ rw quiet ih
      | inr (event, made) ↦
          let here = round_was_held polls g c r.test_id r.state obs made in
          let (of_cluster, of_test) = event_of c r.test_id r.state (seen polls g obs) made in
          let kept = later_others polls c rest next_obs event (rw of_test (ground arith)) in
          rw (made, kept, here) ih
    ]

-- Whatever evaluations of whatever clusters came before, `confirm_transitions` reports a transition to
-- a state only when the last `stabilization_polls` states of the same test of the same cluster, the one
-- just evaluated included, were all this one, and in any case the last two; if the evaluation lists no
-- test twice.
pub transition_was_held :
    (polls : ℕ) (g : Bool) (health : ClusterHealth) (runs : List ClusterHealth)
    → distinct_tests health.results ≡ true
    → all
        (was_held polls (history (health ∷ runs)))
        (confirm_transitions health (engine_after polls g runs)).0
      ≡ true
unfolding confirm_transitions
transition_was_held polls g health runs h =
    rw (engine_after-seen polls g runs)
      (results_were_held polls g health.cluster health.results (history runs) h)
