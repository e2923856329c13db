-- ===== src/Health/Engine/Evaluation.antt =====
-- tms/health/engine.py, `evaluate`: what every evaluation of a cluster keeps to.
use trino_management_service.Prelude.{
  ◌≡◌, refl, Bool, true, false, not, List, [], ◌∷◌, all, map, arith, if◌then◌else◌,
}
use trino_management_service.Health.States.{HealthState, unknown, worst, requires_advice}
use trino_management_service.Health.States.Rollup.{is_unknown_state, worst-unknown}
use trino_management_service.Health.Context.{TestId, Context, HealthResult}
use trino_management_service.Health.Tests.{run_test}
use trino_management_service.Health.Engine.{
  Engine, Overrides, active_test_ids, is_given, check_advice, downgrade, evaluate_test, results_of,
  rollup, evaluate, with_previous,
}

abbrev pub is_advised : HealthResult → Bool
is_advised r = if requires_advice r.state then is_given r.advice else true

all-map :
    (p : HealthResult → Bool) (f : TestId → HealthResult) (ts : List TestId)
    → ((t : TestId) → p (f t) ≡ true)
    → all p (map f ts) ≡ true
all-map p f [] h = refl
all-map p f (t ∷ ts) h = rw (h t) (all-map p f ts h)

is_advised-check_advice : (r : HealthResult) → is_advised (check_advice r) ≡ true
unfolding check_advice requires_advice
is_advised-check_advice r = ground arith

-- Every result of an evaluation that is BAD or CONCERNING tells the operator what to do, whatever the
-- tests and the collector say.
pub evaluate-advised :
    (engine : Engine) (ctx : Context) (stale : Bool) (overrides : Overrides)
    → all is_advised (evaluate engine ctx stale overrides).0.results ≡ true
unfolding evaluate results_of evaluate_test
evaluate-advised engine ctx stale overrides =
    all-map is_advised (evaluate_test (with_previous engine ctx) stale)
      (active_test_ids engine overrides)
      (λ t. is_advised-check_advice (downgrade stale (run_test t (with_previous engine ctx))))

stale_unknown : (r : HealthResult) → (check_advice (downgrade true r)).state ≡ unknown
unfolding check_advice downgrade requires_advice
stale_unknown r = refl

rollup_of_unknown :
    (enabled : Bool) (states : List HealthState)
    → all is_unknown_state states ≡ true
    → (if enabled then worst states else unknown) ≡ unknown
rollup_of_unknown true states h = worst-unknown states h
rollup_of_unknown false states h = refl

all_unknown :
    (f : TestId → HealthResult) (ts : List TestId)
    → ((t : TestId) → (f t).state ≡ unknown)
    → all is_unknown_state (map (λ (r : HealthResult). r.state) (map f ts)) ≡ true
all_unknown f [] h = refl
all_unknown f (t ∷ ts) h = rw (h t) (all_unknown f ts h)

-- An evaluation of stale data is UNKNOWN in every result and in the roll-up, whatever was collected.
pub evaluate-stale :
    (engine : Engine) (ctx : Context) (overrides : Overrides)
    → let health = (evaluate engine ctx true overrides).0 in
      (all is_unknown_state (map (λ (r : HealthResult). r.state) health.results) ≡ true)
      × (health.rollup_state ≡ unknown)
unfolding evaluate results_of evaluate_test rollup
evaluate-stale engine ctx overrides =
    let results =
      all_unknown (evaluate_test (with_previous engine ctx) true) (active_test_ids engine overrides)
        (λ t. stale_unknown (run_test t (with_previous engine ctx))) in
    (
      results,
      rollup_of_unknown (not overrides.rollup_disabled)
          (map (λ (r : HealthResult). r.state) (results_of engine ctx true overrides)) results,
    )
