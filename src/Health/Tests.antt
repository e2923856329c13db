-- ===== src/Health/Tests.antt =====
-- tms/health/tests.py: the catalogue of health tests, H-01 to H-09.
pub mod Laws
use trino_management_service.Prelude.{
  ℕ, zero, suc, ◌+◌, ◌-◌, ◌*◌, ◌/◌, leb, ◌==◌, Bool, true, false, not, Option, none, some, String,
  str_eq, List, [], ◌∷◌, if◌then◌else◌,
}
use trino_management_service.Health.States.{HealthState, good, concerning, bad, unknown}
use trino_management_service.Health.Context.{
  TestId, h01, h02, h03, h04, h05, h06, h07, h08, h09, Ratio, den, whole, times_hundred, at_least,
  truncated, Field, amount, below_zero, not_a_number, Value, object, Info, Backend, Context, Advice,
  no_advice, no_data_yet, no_info, no_starting_field, heap_unreadable, no_heap_maximum,
  no_completed_queries, no_backend_list, no_queries_yet, queries_untrusted, coordinator_down,
  still_starting, missing_workers, heap_is_full, high_failure_rate, internal_errors,
  killed_for_memory, not_registered, inactive, nothing, said, workers, percent, counted, kills,
  HealthResult, threshold, attribute, number_at, told_or, unknown_result, jmx_unavailable, grade,
  unless_good,
}

abbrev good_result : TestId → String → HealthResult
good_result t text = record {
  test_id = t;
  state = good;
  observed_value = said text;
  threshold = none;
  advice = no_advice;
}

abbrev alarm : TestId → HealthState → String → Advice → HealthResult
alarm t state text told = record {
  test_id = t;
  state = state;
  observed_value = said text;
  threshold = none;
  advice = told;
}

unfoldable pub coordinator_responsive : Context → HealthResult
unfolding unknown_result
coordinator_responsive ctx = elim ctx.info [
  | none ↦ unknown_result h01 no_data_yet
  | some info ↦
      if info.trustworthy
      then good_result h01 "responsive"
      else alarm h01 bad "unreachable" (told_or info.advice coordinator_down)
]

abbrev started : Option Bool → HealthResult
unfolding unknown_result
started none = unknown_result h02 no_starting_field
started (some true) = alarm h02 concerning "starting" still_starting
started (some false) = good_result h02 "started"

unfoldable pub startup_complete : Context → HealthResult
unfolding unknown_result
startup_complete ctx = elim ctx.info [
  | none ↦ unknown_result h02 no_info
  | some info ↦ if info.trustworthy then started info.starting else unknown_result h02 no_info
]

abbrev pub node_manager : String
node_manager = "trino.node:name=CoordinatorNodeManager"

abbrev truncated_or_zero : Option Ratio → ℕ
truncated_or_zero none = 0
truncated_or_zero (some r) = truncated r

unfoldable pub planned_out : Context → ℕ
unfolding number_at
planned_out ctx =
    truncated_or_zero (number_at ctx node_manager "DrainingNodeCount")
    + truncated_or_zero (number_at ctx node_manager "DrainedNodeCount")
    + truncated_or_zero (number_at ctx node_manager "ShuttingDownNodeCount")

-- `max(0, expected - active_workers - planned)`, the coordinator not being a worker.
unfoldable pub unplanned_missing : ℕ → Bool → ℕ → ℕ → ℕ
unplanned_missing expected coordinator_counted active planned =
    if coordinator_counted then (expected + 1) - active - planned else expected - active - planned

-- `max(1, int(expected * bad_pct / 100.0))`
unfoldable pub missing_threshold : ℕ → Ratio → ℕ
missing_threshold expected bad_pct =
    let share = (expected * bad_pct.num) / (100 * den bad_pct) in if share == 0 then 1 else share

-- The state and the advice of H-03; the text's percentage follows from its four numbers.
registration : ℕ → Bool → ℕ → ℕ → Ratio → HealthResult
unfolding unplanned_missing missing_threshold
registration expected coordinator_counted active planned bad_pct =
    let missing = unplanned_missing expected coordinator_counted active planned in
    let state =
      if missing == 0
      then good
      else if leb (missing_threshold expected bad_pct) missing
      then bad
      else concerning in
    record {
      test_id = h03;
      state = state;
      observed_value = workers active coordinator_counted expected planned missing;
      threshold = some (whole expected);
      advice = if missing == 0 then no_advice else missing_workers active expected missing planned;
    }

registration_of : Context → Option Ratio → HealthResult
unfolding registration
registration_of ctx none = jmx_unavailable h03 ctx
registration_of ctx (some active) =
    registration ctx.expected_workers ctx.coordinator_counted_in_active_nodes (truncated active)
      (planned_out ctx) (threshold ctx "missing_workers_pct_bad" (whole 20))

unfoldable pub worker_registration : Context → HealthResult
unfolding registration_of
worker_registration ctx = registration_of ctx (number_at ctx node_manager "ActiveNodeCount")

-- A result that grades a value by two thresholds.
unfoldable pub graded : TestId → Ratio → Ratio → Ratio → Advice → HealthResult
unfolding grade
graded t value concerning_at bad_at told =
    let state = grade value concerning_at bad_at in
    record {
      test_id = t;
      state = state;
      observed_value = percent value;
      threshold = some bad_at;
      advice = unless_good state told;
    }

-- `a / b`, for a `b` that is not zero.
abbrev quotient : Ratio → Ratio → Ratio
quotient a b = record { num = a.num * den b; under = den a * b.num - 1 }

heap_result : Context → Ratio → HealthResult
unfolding graded
heap_result ctx pct =
    graded h04 pct (threshold ctx "heap_used_pct_concerning" (whole 80))
      (threshold ctx "heap_used_pct_bad" (whole 90)) (heap_is_full pct)

-- Below every threshold; the percentage below zero is not kept.
abbrev heap_below_zero : Context → HealthResult
heap_below_zero ctx = record {
  test_id = h04;
  state = good;
  observed_value = said "below zero";
  threshold = some (threshold ctx "heap_used_pct_bad" (whole 90));
  advice = no_advice;
}

-- The fields `used` and `max` of the heap.
heap_usage : Context → Option Field → Option Field → HealthResult
unfolding heap_result unknown_result
heap_usage ctx (some (amount used)) (some (amount maximum)) =
    if maximum.num == 0
    then unknown_result h04 no_heap_maximum
    else heap_result ctx (times_hundred (quotient used maximum))
heap_usage ctx (some below_zero) (some (amount maximum)) =
    if maximum.num == 0 then unknown_result h04 no_heap_maximum else heap_below_zero ctx
heap_usage ctx (some (amount used)) (some below_zero) = unknown_result h04 no_heap_maximum
heap_usage ctx (some below_zero) (some below_zero) = unknown_result h04 no_heap_maximum
heap_usage ctx _ _ = unknown_result h04 heap_unreadable

abbrev memory : String
memory = "java.lang:type=Memory"

heap_of : Context → Option Value → HealthResult
unfolding heap_usage
heap_of ctx (some (object fields)) = heap_usage ctx (fields "used") (fields "max")
heap_of ctx _ = jmx_unavailable h04 ctx

unfoldable pub heap_used : Context → HealthResult
unfolding heap_of
heap_used ctx = heap_of ctx (attribute ctx memory "HeapMemoryUsage")

abbrev query_manager : String
query_manager = "trino.execution:name=QueryManager"

-- `min(pct, 100)`, written as the code's test.
unfoldable pub clamped : Ratio → Ratio
clamped pct = if at_least (whole 100) pct then pct else whole 100

failure_rate : Context → Ratio → Ratio → HealthResult
unfolding graded clamped unknown_result
failure_rate ctx failed completed =
    let pct = clamped (times_hundred (quotient failed completed)) in
    if completed.num == 0
    then unknown_result h05 no_completed_queries
    else graded h05 pct (threshold ctx "failure_rate_pct_concerning" (whole 5))
        (threshold ctx "failure_rate_pct_bad" (whole 20)) (high_failure_rate pct)

failure_rate_of : Context → Option Ratio → Option Ratio → HealthResult
unfolding failure_rate
failure_rate_of ctx (some failed) (some completed) = failure_rate ctx failed completed
failure_rate_of ctx _ _ = jmx_unavailable h05 ctx

unfoldable pub query_failure_rate : Context → HealthResult
unfolding failure_rate_of
query_failure_rate ctx =
    failure_rate_of ctx (number_at ctx query_manager "FailedQueries.FiveMinute.Count")
      (number_at ctx query_manager "CompletedQueries.FiveMinute.Count")

abbrev counted_result : HealthResult → ℕ → HealthResult
counted_result r n = record r { observed_value = counted n }

unfoldable pub internal_failures : Context → HealthResult
unfolding graded
internal_failures ctx = elim (number_at ctx query_manager "InternalFailures.FiveMinute.Count") [
  | none ↦ jmx_unavailable h06 ctx
  | some internal ↦
      let count = truncated internal in
      counted_result
        (graded h06 (whole count) (threshold ctx "internal_failures_concerning" (whole 1))
          (threshold ctx "internal_failures_bad" (whole 5)) (internal_errors count))
        count
]

-- A decrease of the counter, after a restart, counts no kills.
kills_since : Context → ℕ → Option ℕ → HealthResult
unfolding graded
kills_since ctx current none = record {
  test_id = h07;
  state = good;
  observed_value = kills current none;
  threshold = none;
  advice = no_advice;
}
kills_since ctx current (some previous) =
    let delta = current - previous in
    let r =
      graded h07 (whole delta) (threshold ctx "oom_kills_concerning" (whole 1))
        (threshold ctx "oom_kills_bad" (whole 3)) (killed_for_memory delta) in
    record r { observed_value = kills current (some delta) }

abbrev cluster_memory : String
cluster_memory = "trino.memory:name=ClusterMemoryManager"

-- `ctx.current_oom_kills`, which the test writes.
unfoldable pub current_oom_kills : Context → Option ℕ
current_oom_kills ctx = elim (number_at ctx cluster_memory "QueriesKilledDueToOutOfMemory") [
  | none ↦ none
  | some total ↦ some (truncated total)
]

kills_of : Context → Option ℕ → HealthResult
unfolding kills_since
kills_of ctx none = jmx_unavailable h07 ctx
kills_of ctx (some current) = kills_since ctx current ctx.previous_oom_kills

unfoldable pub oom_kills : Context → HealthResult
unfolding kills_of
oom_kills ctx = kills_of ctx (current_oom_kills ctx)

abbrev is_named : Option String → String → Bool
is_named none cluster = false
is_named (some c) cluster = str_eq c cluster

-- The joined cluster, or, where no join was recorded at all, the name.
abbrev pub fronts : Backend → String → Bool
fronts b cluster = elim b.cluster [ none ↦ is_named b.name cluster | some c ↦ is_named c cluster ]

find_entry : String → List Backend → Option Backend
find_entry cluster [] = none
find_entry cluster (b ∷ rest) = if fronts b cluster then some b else find_entry cluster rest

registered : Option Backend → HealthResult
registered none = alarm h08 bad "not registered" not_registered
registered (some b) =
    if b.active then good_result h08 "active" else alarm h08 concerning "inactive" inactive

unfoldable pub gateway_registration : Context → HealthResult
unfolding find_entry registered unknown_result
gateway_registration ctx = elim ctx.gateway_backends [
  | none ↦ unknown_result h08 no_backend_list
  | some backends ↦ registered (find_entry ctx.cluster_name backends)
]

unfoldable pub permission_self_check : Context → HealthResult
unfolding unknown_result
permission_self_check ctx = elim ctx.queries [
  | none ↦ unknown_result h09 no_queries_yet
  | some queries ↦
      if queries.trustworthy
      then good_result h09 "consistent"
      else record (unknown_result h09 no_advice) {
        advice = told_or queries.advice queries_untrusted;
      }
]

-- `ALL_TESTS`. The result of H-09 leaves out the collection error that it observed.
unfoldable pub run_test : TestId → Context → HealthResult
run_test h01 ctx = coordinator_responsive ctx
run_test h02 ctx = startup_complete ctx
run_test h03 ctx = worker_registration ctx
run_test h04 ctx = heap_used ctx
run_test h05 ctx = query_failure_rate ctx
run_test h06 ctx = internal_failures ctx
run_test h07 ctx = oom_kills ctx
run_test h08 ctx = gateway_registration ctx
run_test h09 ctx = permission_self_check ctx
