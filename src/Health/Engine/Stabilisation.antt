-- ===== src/Health/Engine/Stabilisation.antt =====
-- tms/health/engine.py, `confirm_transitions`: the evaluations of any clusters, one after another, as
-- the list of what the tests showed, the latest first; and what the engine keeps of one test of one
-- cluster, which depends on the states of this test alone.
pub mod Held
pub mod Arrival
use trino_management_service.Prelude.{
  ℕ, zero, suc, ◌+◌, ◌≤◌, ◌<◌, ◌≡◌, refl, sym, ap, subst, ◌∙◌, ◌⊎◌, inl, inr, ltb, leb, ◌==◌, Bool,
  true, false, not, ◌&&◌, ◌||◌, Option, none, some, String, str_eq, eq_refl, eq_iff, List, [], ◌∷◌,
  arith, if◌then◌else◌, Bool-cases, Option-cases,
}
use trino_management_service.Health.States.{HealthState, good, concerning, bad, unknown, severity}
use trino_management_service.Health.Context.{
  TestId, h01, h02, h03, h04, h05, h06, h07, h08, h09, number_of, HealthResult,
}
use trino_management_service.Health.Engine.{
  same_test, same_health, put, Pending, Engine, new_engine, Transition, is_state, confirm_one,
  confirm_pending, confirm_results, confirm_transitions, ClusterHealth,
}

-- What a test of a cluster showed.
pub record Observation : Type 0 where
  pub cluster : String
  pub test_id : TestId
  pub state : HealthState

-- The results of a cluster, in their order, put before what was seen earlier.
abbrev pub observe : String → List HealthResult → List Observation → List Observation
observe c [] earlier = earlier
observe c (r ∷ rest) earlier =
    observe c rest (record { cluster = c; test_id = r.test_id; state = r.state } ∷ earlier)

-- All that was seen in these evaluations, the latest first, as they are listed.
abbrev pub history : List ClusterHealth → List Observation
history [] = []
history (health ∷ runs) = observe health.cluster health.results (history runs)

abbrev pub is_key : String → TestId → Observation → Bool
is_key c t o = str_eq c o.cluster && same_test t o.test_id

-- The states that one test of one cluster showed.
abbrev pub states_of : String → TestId → List Observation → List HealthState
states_of c t [] = []
states_of c t (o ∷ obs) =
    let earlier = states_of c t obs in if is_key c t o then o.state ∷ earlier else earlier

-- The engine after these evaluations, the latest of which is listed first.
unfoldable pub engine_after : ℕ → Bool → List ClusterHealth → Engine
engine_after polls g [] = new_engine polls g
engine_after polls g (health ∷ runs) = (confirm_transitions health (engine_after polls g runs)).1

-- The engine after these rounds of the loop.
unfoldable pub seen : ℕ → Bool → List Observation → Engine
seen polls g [] = new_engine polls g
seen polls g (o ∷ obs) = (confirm_one o.cluster o.test_id o.state (seen polls g obs)).1

confirm_results-seen :
    (polls : ℕ) (g : Bool) (c : String) (rs : List HealthResult) (obs : List Observation)
    → (confirm_results c rs (seen polls g obs)).1 ≡ seen polls g (observe c rs obs)
unfolding confirm_results seen
confirm_results-seen polls g c [] obs = refl
confirm_results-seen polls g c (r ∷ rest) obs =
    confirm_results-seen polls g c rest
      (record { cluster = c; test_id = r.test_id; state = r.state } ∷ obs)

pub engine_after-seen :
    (polls : ℕ) (g : Bool) (runs : List ClusterHealth)
    → engine_after polls g runs ≡ seen polls g (history runs)
unfolding engine_after seen confirm_transitions
engine_after-seen polls g [] = refl
engine_after-seen polls g (health ∷ runs) =
    ap (λ (e : Engine). (confirm_results health.cluster health.results e).1)
      (engine_after-seen polls g runs)
    ∙ confirm_results-seen polls g health.cluster health.results (history runs)

-- Whether the latest `n` states are all this one.
abbrev pub holds_for : ℕ → HealthState → List HealthState → Bool
holds_for zero s hs = true
holds_for (suc n) s [] = false
holds_for (suc n) s (h ∷ hs) = same_health h s && holds_for n s hs

same_health→eq : (a b : HealthState) → same_health a b ≡ true → a ≡ b
unfolding severity
same_health→eq a b h = ground arith

same_health_refl : (a : HealthState) → same_health a a ≡ true
unfolding severity
same_health_refl a = ground arith

same_test→eq : (t u : TestId) → same_test t u ≡ true → t ≡ u
same_test→eq t u h = ground arith

put_here :
    {V : Type 0} (c : String) (t : TestId) (v : V) (table : String → TestId → V)
    → put c t v table c t ≡ v
unfolding put
put_here c t v table = ground (arith, eq_refl c)

holds_for-le :
    (m n : ℕ) (s : HealthState) (hs : List HealthState)
    → m ≤ n
    → holds_for n s hs ≡ true
    → holds_for m s hs ≡ true
holds_for-le zero n s hs le h = refl
holds_for-le (suc m) zero s hs le h = ground arith
holds_for-le (suc m) (suc n) s [] le h = h
holds_for-le (suc m) (suc n) s (x ∷ hs) le h = ground (arith, holds_for-le m n s hs)

-- The entry of one test in the two tables, and what one round makes of it.
record Entry : Type 0 where
  confirmed_state : Option HealthState
  pending_state : Option Pending

abbrev pending_next : ℕ → HealthState → Entry → Pending → Entry
pending_next polls s entry p =
    if same_health p.candidate s
    then if ltb (p.times + 1) polls
      then record entry { pending_state = some (record p { times = p.times + 1 }) }
      else record { confirmed_state = some s; pending_state = none }
    else record entry { pending_state = some (record { candidate = s; times = 1 }) }

next : ℕ → HealthState → Entry → Entry
next polls s entry =
    if is_state s entry.confirmed_state
    then record entry { pending_state = none }
    else elim entry.pending_state [
      | none ↦ record entry { pending_state = some (record { candidate = s; times = 1 }) }
      | some p ↦ pending_next polls s entry p
    ]

entry_of : String → TestId → Engine → Entry
entry_of c t e = record { confirmed_state = e.confirmed c t; pending_state = e.pending c t }

entry_of-confirm_one :
    (c : String) (t : TestId) (s : HealthState) (e : Engine)
    → entry_of c t (confirm_one c t s e).1 ≡ next e.stabilization_polls s (entry_of c t e)
unfolding confirm_one confirm_pending entry_of next put
entry_of-confirm_one c t s e = elim (Bool-cases (is_state s (e.confirmed c t))) [
  | inl same ↦ ground (arith, eq_refl c)
  | inr other ↦ elim (Option-cases (e.pending c t)) [
    | inl missing ↦ ground (arith, eq_refl c)
    | inr (p, before) ↦ ground (arith, eq_refl c)
  ]
]

-- A round for another test, or another cluster, leaves the entry as it is.
entry_of-confirm_other :
    (c : String) (t : TestId) (o : Observation) (e : Engine)
    → is_key c t o ≡ false
    → entry_of c t (confirm_one o.cluster o.test_id o.state e).1 ≡ entry_of c t e
unfolding confirm_one confirm_pending entry_of put
entry_of-confirm_other c t o e h = elim (Option-cases (e.pending o.cluster o.test_id)) [
  | inl missing ↦ ground arith
  | inr (p, before) ↦ ground arith
]

abbrev setting : ℕ → ℕ
setting polls = if polls == 0 then 1 else polls

setting-confirm_one :
    (c : String) (t : TestId) (s : HealthState) (e : Engine)
    → (confirm_one c t s e).1.stabilization_polls ≡ e.stabilization_polls
unfolding confirm_one confirm_pending
setting-confirm_one c t s e = elim (Option-cases (e.pending c t)) [
  | inl missing ↦ ground arith
  | inr (p, before) ↦ ground arith
]

setting-seen :
    (polls : ℕ) (g : Bool) (obs : List Observation)
    → (seen polls g obs).stabilization_polls ≡ setting polls
unfolding seen new_engine
setting-seen polls g [] = refl
setting-seen polls g (o ∷ obs) =
    setting-confirm_one o.cluster o.test_id o.state (seen polls g obs) ∙ setting-seen polls g obs

-- The entry of a test that showed these states.
shown : ℕ → List HealthState → Entry
shown polls [] = record { confirmed_state = none; pending_state = none }
shown polls (s ∷ states) = next (setting polls) s (shown polls states)

-- Of what was seen, the entry of a test depends on the states of this test of this cluster alone.
entry-seen :
    (polls : ℕ) (g : Bool) (c : String) (t : TestId) (obs : List Observation)
    → entry_of c t (seen polls g obs) ≡ shown polls (states_of c t obs)
unfolding seen shown new_engine entry_of
entry-seen polls g c t [] = refl
entry-seen polls g c t (o ∷ obs) =
    let e = seen polls g obs in
    elim (Bool-cases (is_key c t o)) [
      | inr other ↦ rw other (entry_of-confirm_other c t o e other ∙ entry-seen polls g c t obs)
      | inl key ↦
          let cluster : c ≡ o.cluster = ground (arith, key, eq_iff c o.cluster) in
          let test : t ≡ o.test_id = same_test→eq t o.test_id (ground (arith, key)) in
          let here : entry_of c t (confirm_one o.cluster o.test_id o.state e).1
              ≡ next e.stabilization_polls o.state (entry_of c t e) =
            subst
              (λ (d : String).
                entry_of c t (confirm_one d o.test_id o.state e).1
                ≡ next e.stabilization_polls o.state (entry_of c t e))
              cluster
              (subst
                (λ (u : TestId).
                  entry_of c t (confirm_one c u o.state e).1
                  ≡ next e.stabilization_polls o.state (entry_of c t e))
                test (entry_of-confirm_one c t o.state e)) in
          rw key (
            here
            ∙ ap (λ (n : ℕ). next n o.state (entry_of c t e)) (setting-seen polls g obs)
            ∙ ap (next (setting polls) o.state) (entry-seen polls g c t obs))
    ]
