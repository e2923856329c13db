-- ===== src/Checks/Health.antt =====
-- The health tests and the engine on concrete inputs.
use trino_management_service.Prelude.{
  ◌≡◌, refl, arith, true, false, none, some, String, str_eq, List, [], ◌∷◌, all, map, Option,
  if◌then◌else◌,
}
use trino_management_service.Health.States.{HealthState, good, bad, unknown, severity}
use trino_management_service.Health.States.Rollup.{is_unknown_state}
use trino_management_service.Health.Context.{
  TestId, h01, h04, h05, whole, Value, number, Context, HealthResult, number_at,
}
use trino_management_service.Health.Tests.{
  run_test, node_manager, planned_out, worker_registration, current_oom_kills,
}
use trino_management_service.Health.Tests.Laws.{missing_input}
use trino_management_service.Health.Engine.{
  Engine, new_engine, Overrides, evaluate, Transition, confirm_one, put, confirm_transitions,
  confirm_results, ClusterHealth,
}
use trino_management_service.Health.Engine.Evaluation.{is_advised, evaluate-advised, evaluate-stale}
use trino_management_service.Health.Engine.Stabilisation.{history, engine_after}
use trino_management_service.Health.Engine.Stabilisation.Held.{transition_was_held, was_held}
use trino_management_service.Health.Engine.Stabilisation.Arrival.{confirmed_when_held}

abbrev empty : Context
empty = record {
  cluster_name = "prod-a";
  expected_workers = 12;
  thresholds = λ key. none;
  info = none;
  jmx = none;
  queries = none;
  coordinator_counted_in_active_nodes = true;
  gateway_backends = none;
  previous_oom_kills = some 4;
}

-- Ten workers and the coordinator are active, and two workers drain.
abbrev nodes : String → Option Value
nodes key =
    if str_eq key "ActiveNodeCount"
    then some (number (whole 11))
    else if str_eq key "DrainingNodeCount"
    then some (number (whole 2))
    else none

abbrev draining_two : Context
draining_two = record empty { jmx = some (record { mbeans = λ name. some nodes; advice = none }) }

abbrev counters : String → Option Value
counters key = some (number (whole 3))

abbrev restarted : Context
restarted = record empty { jmx = some (record { mbeans = λ name. some counters; advice = none }) }

-- The failed queries are counted, and the completed ones are not.
abbrev failures_only : String → Option Value
failures_only key =
    if str_eq key "FailedQueries.FiveMinute.Count" then some (number (whole 0)) else none

abbrev half_read : Context
half_read = record empty {
  jmx = some (record { mbeans = λ name. some failures_only; advice = none });
}

missing_input_example : (run_test h05 half_read).state ≡ unknown
missing_input_example = missing_input h05 half_read (unfold number_at in refl)

active_nodes : number_at draining_two node_manager "ActiveNodeCount" ≡ some (whole 11)
unfolding number_at
active_nodes = refl

planned_is_good : (worker_registration draining_two).state ≡ good
unfolding worker_registration number_at planned_out
planned_is_good = refl

kills_now : current_oom_kills restarted ≡ some 3
unfolding current_oom_kills number_at
kills_now = refl

abbrev engine : Engine
engine = new_engine 2 true

abbrev no_overrides : Overrides
no_overrides = record { disabled = λ t. false; rollup_disabled = false }

evaluate-advised_example :
    all is_advised (evaluate engine restarted false no_overrides).0.results ≡ true
evaluate-advised_example = evaluate-advised engine restarted false no_overrides

evaluate-stale_example :
    let health = (evaluate engine restarted true no_overrides).0 in
    (all is_unknown_state (map (λ (r : HealthResult). r.state) health.results) ≡ true)
    × (health.rollup_state ≡ unknown)
evaluate-stale_example = evaluate-stale engine restarted no_overrides

-- What a test of a cluster says in one evaluation, beside H-01.
abbrev reading : TestId → HealthState → HealthResult
reading t s = record (run_test t empty) { test_id = t; state = s }

abbrev evaluation : String → HealthState → HealthState → ClusterHealth
evaluation cluster s u = record {
  cluster = cluster;
  rollup_state = unknown;
  rollup_enabled = false;
  results = reading h01 s ∷ reading h04 u ∷ [];
  stale = false;
}

-- Two clusters and two tests in turn, the latest evaluation first.
abbrev latest_first : List ClusterHealth
latest_first =
    evaluation "prod-b" good good
    ∷ evaluation "prod-a" good bad
    ∷ evaluation "prod-b" bad good
    ∷ evaluation "prod-a" good good
    ∷ evaluation "prod-a" good good
    ∷ []

abbrev to_bad : Transition
to_bad = record { cluster = "prod-a"; test_id = h04; from_state = good; to_state = bad }

-- The second bad reading of H-04 is reported, and nothing else.
made :
    (confirm_transitions (evaluation "prod-a" good bad) (engine_after 2 true latest_first)).0
    ≡ to_bad ∷ []
unfolding confirm_transitions confirm_results confirm_one engine_after new_engine put severity
made = refl

transition_was_held_example :
    all
      (was_held 2 (history (evaluation "prod-a" good bad ∷ latest_first)))
      (confirm_transitions (evaluation "prod-a" good bad) (engine_after 2 true latest_first)).0
    ≡ true
transition_was_held_example =
    transition_was_held 2 true (evaluation "prod-a" good bad) latest_first refl

confirmed_when_held_example : (engine_after 2 true latest_first).confirmed "prod-b" h04 ≡ some good
confirmed_when_held_example =
    confirmed_when_held 2 true "prod-b" h04 0 good latest_first (unfold severity in refl)
      (omega arith)
