-- ===== src/Health/Engine.antt =====
-- tms/health/engine.py: the evaluation of the catalogue, and the confirmation of transitions. The
-- three dictionaries of the engine are functions. A test does not raise on the inputs of
-- Health.Context, so the `except` of `evaluate` has nothing to catch.
pub mod Evaluation
pub mod Stabilisation
use trino_management_service.Prelude.{
  ℕ, suc, ◌+◌, ltb, ◌==◌, Bool, true, false, not, ◌&&◌, Option, none, some, String, str_eq,
  is_blank, List, [], ◌∷◌, keep, map, if◌then◌else◌,
}
use trino_management_service.Health.States.{HealthState, unknown, severity, worst, requires_advice}
use trino_management_service.Health.Context.{
  TestId, h01, h02, h03, h04, h05, h06, h07, h08, h09, number_of, Context, Advice, no_advice,
  collected, stale_data, no_remedy, HealthResult,
}
use trino_management_service.Health.Tests.{run_test, current_oom_kills}

abbrev pub same_test : TestId → TestId → Bool
same_test a b = number_of a == number_of b

abbrev pub same_health : HealthState → HealthState → Bool
same_health a b = severity a == severity b

-- Keys are a cluster and a test, `"{}::{}"` in the code.
abbrev pub Table : Type 0 → Type 0
Table V = String → TestId → Option V

unfoldable pub put {ℓ} :
    {V : Type ℓ} → String → TestId → V → (String → TestId → V) → String → TestId → V
put c t v table d u = if str_eq d c && same_test u t then v else table d u

-- A candidate state, and how often in a row it was seen.
pub record Pending : Type 0 where
  pub candidate : HealthState
  pub times : ℕ

pub record Engine : Type 0 where
  pub stabilization_polls : ℕ
  pub gateway_enabled : Bool
  pub confirmed : Table HealthState
  pub pending : Table Pending
  pub oom_counters : String → Option ℕ

-- `HealthEngine(...)`: `max(1, stabilization_polls)`, for a number that is not negative.
unfoldable pub new_engine : ℕ → Bool → Engine
new_engine polls gateway_enabled = record {
  stabilization_polls = if polls == 0 then 1 else polls;
  gateway_enabled = gateway_enabled;
  confirmed = λ c t. none;
  pending = λ c t. none;
  oom_counters = λ c. none;
}

-- The overrides of a deployment: what is switched off.
pub record Overrides : Type 0 where
  pub disabled : TestId → Bool
  pub rollup_disabled : Bool

abbrev pub all_tests : List TestId
all_tests = h01 ∷ h02 ∷ h03 ∷ h04 ∷ h05 ∷ h06 ∷ h07 ∷ h08 ∷ h09 ∷ []

abbrev pub in_catalogue : Bool → Overrides → TestId → Bool
in_catalogue gateway_enabled overrides t =
    if same_test t h08 && not gateway_enabled then false else not (overrides.disabled t)

unfoldable pub active_test_ids : Engine → Overrides → List TestId
active_test_ids engine overrides = keep (in_catalogue engine.gateway_enabled overrides) all_tests

-- `(result.advice or "").strip()` is not empty.
abbrev pub is_given : Advice → Bool
is_given no_advice = false
is_given (collected s) = not (is_blank s)
is_given _ = true

unfoldable pub check_advice : HealthResult → HealthResult
check_advice r =
    if requires_advice r.state && not (is_given r.advice)
    then record r { advice = no_remedy }
    else r

-- A stale reading is never shown as a current one.
unfoldable pub downgrade : Bool → HealthResult → HealthResult
downgrade stale r = if stale then record r { state = unknown; advice = stale_data } else r

unfoldable pub evaluate_test : Context → Bool → TestId → HealthResult
unfolding check_advice downgrade
evaluate_test ctx stale t = check_advice (downgrade stale (run_test t ctx))

pub record ClusterHealth : Type 0 where
  pub cluster : String
  pub rollup_state : HealthState
  pub rollup_enabled : Bool
  pub results : List HealthResult
  pub stale : Bool

-- The counter of a cluster, once H-07 has read it.
abbrev carried : Option ℕ → String → (String → Option ℕ) → String → Option ℕ
carried none cluster counters = counters
carried (some kills) cluster counters = λ c. if str_eq c cluster then some kills else counters c

-- H-07 writes its counter where it is one of the tests that run.
abbrev read_kills : Engine → Overrides → Context → Option ℕ
read_kills engine overrides ctx =
    if in_catalogue engine.gateway_enabled overrides h07 then current_oom_kills ctx else none

abbrev with_previous : Engine → Context → Context
with_previous engine ctx = record ctx { previous_oom_kills = engine.oom_counters ctx.cluster_name }

unfoldable pub rollup : Bool → List HealthResult → HealthState
rollup enabled results =
    if enabled then worst (map (λ (r : HealthResult). r.state) results) else unknown

unfoldable pub results_of : Engine → Context → Bool → Overrides → List HealthResult
unfolding evaluate_test active_test_ids
results_of engine ctx stale overrides =
    map (evaluate_test (with_previous engine ctx) stale) (active_test_ids engine overrides)

unfoldable pub evaluate : Engine → Context → Bool → Overrides → ClusterHealth × Engine
unfolding rollup results_of
evaluate engine ctx stale overrides =
    let results = results_of engine ctx stale overrides in
    (
      record {
        cluster = ctx.cluster_name;
        rollup_state = rollup (not overrides.rollup_disabled) results;
        rollup_enabled = not overrides.rollup_disabled;
        results = results;
        stale = stale;
      },
      record engine {
        oom_counters =
            carried (read_kills engine overrides ctx) ctx.cluster_name engine.oom_counters;
      },
    )

pub record Transition : Type 0 where
  pub cluster : String
  pub test_id : TestId
  pub from_state : HealthState
  pub to_state : HealthState

abbrev set_pending : String → TestId → Option Pending → Engine → Engine
set_pending c t p engine = record engine { pending = put c t p engine.pending }

abbrev set_confirmed : String → TestId → HealthState → Engine → Engine
set_confirmed c t s engine = record engine { confirmed = put c t (some s) engine.confirmed }

abbrev pub is_state : HealthState → Option HealthState → Bool
is_state s none = false
is_state s (some t) = same_health s t

-- The first observation is a baseline and no transition.
abbrev transition_from : String → TestId → Option HealthState → HealthState → Option Transition
transition_from c t none s = none
transition_from c t (some before) s =
    some (record { cluster = c; test_id = t; from_state = before; to_state = s })

-- The state differs from the confirmed one, and `p` is what was pending.
confirm_pending :
    String → TestId → HealthState → Option Pending → Engine → Option Transition × Engine
unfolding put
confirm_pending c t s none engine =
    (none, set_pending c t (some (record { candidate = s; times = 1 })) engine)
confirm_pending c t s (some p) engine =
    if same_health p.candidate s
    then if ltb (p.times + 1) engine.stabilization_polls
      then (none, set_pending c t (some (record p { times = p.times + 1 })) engine)
      else (
        transition_from c t (engine.confirmed c t) s,
        set_confirmed c t s (set_pending c t none engine),
      )
    else (none, set_pending c t (some (record { candidate = s; times = 1 })) engine)

-- One round of the loop of `confirm_transitions`.
unfoldable pub confirm_one : String → TestId → HealthState → Engine → Option Transition × Engine
unfolding confirm_pending
confirm_one c t s engine =
    if is_state s (engine.confirmed c t)
    then (none, set_pending c t none engine)
    else confirm_pending c t s (engine.pending c t) engine

abbrev pub add_event : Option Transition → List Transition → List Transition
add_event none events = events
add_event (some e) events = e ∷ events

unfoldable pub confirm_results : String → List HealthResult → Engine → List Transition × Engine
unfolding confirm_one
confirm_results c [] engine = ([], engine)
confirm_results c (r ∷ rest) engine =
    let (event, engine') = confirm_one c r.test_id r.state engine in
    let (events, last) = confirm_results c rest engine' in (add_event event events, last)

unfoldable pub confirm_transitions : ClusterHealth → Engine → List Transition × Engine
unfolding confirm_results
confirm_transitions health engine = confirm_results health.cluster health.results engine
