-- ===== src/Health/Tests/Laws.antt =====
-- tms/health/tests.py: what holds of the tests of the catalogue.
use trino_management_service.Prelude.{
  ℕ, ◌+◌, ◌-◌, ◌≤◌, ◌≡◌, ◌↔◌, refl, inl, inr, ◌==◌, Bool, true, Option, none, some, arith,
  if◌then◌else◌, Bool-cases, List, [], ◌∷◌, all, ◌&&◌, false, String,
}
use trino_management_service.Health.States.{good, unknown}
use trino_management_service.Health.Context.{
  TestId, h01, h02, h03, h04, h05, h06, h07, h08, h09, Ratio, whole, at_least, truncated, Context,
  Info, Queries, Field, amount, below_zero, Value, object, attribute, Observed, percent, threshold,
  number_at, jmx_unavailable, unknown_result, grade, times_hundred,
}
use trino_management_service.Health.Tests.{
  run_test, coordinator_responsive, startup_complete, worker_registration, node_manager,
  planned_out, unplanned_missing, heap_used, query_failure_rate, clamped, graded, internal_failures,
  oom_kills, current_oom_kills, gateway_registration, permission_self_check, quotient,
  query_manager, failure_rate, failure_rate_of, kills_since, registration,
}

-- What a test reads of the collected data.
pub data Input : Type 0 where
  info_snapshot starting_field backend_list trusted_queries : Input
  counter : String → String → Input
  heap_field : String → Input

-- The inputs of the catalogue. The three counts of planned workers that H-03 also reads are not among
-- them, as a missing one counts as 0.
abbrev pub inputs_of : TestId → List Input
inputs_of h01 = info_snapshot ∷ []
inputs_of h02 = starting_field ∷ []
inputs_of h03 = counter "trino.node:name=CoordinatorNodeManager" "ActiveNodeCount" ∷ []
inputs_of h04 = heap_field "used" ∷ heap_field "max" ∷ []
inputs_of h05 =
    counter "trino.execution:name=QueryManager" "FailedQueries.FiveMinute.Count"
    ∷ counter "trino.execution:name=QueryManager" "CompletedQueries.FiveMinute.Count"
    ∷ []
inputs_of h06 = counter "trino.execution:name=QueryManager" "InternalFailures.FiveMinute.Count" ∷ []
inputs_of h07 =
    counter "trino.memory:name=ClusterMemoryManager" "QueriesKilledDueToOutOfMemory" ∷ []
inputs_of h08 = backend_list ∷ []
inputs_of h09 = trusted_queries ∷ []

abbrev is_there : {A : Type 0} → Option A → Bool
is_there none = false
is_there (some a) = true

abbrev has_starting : Option Info → Bool
has_starting none = false
has_starting (some info) = info.trustworthy && is_there info.starting

abbrev is_trusted : Option Queries → Bool
is_trusted none = false
is_trusted (some queries) = queries.trustworthy

abbrev is_numeric : Option Field → Bool
is_numeric (some (amount r)) = true
is_numeric (some below_zero) = true
is_numeric _ = false

abbrev numeric_field : String → Option Value → Bool
numeric_field key (some (object fields)) = is_numeric (fields key)
numeric_field key _ = false

abbrev pub is_read : Context → Input → Bool
is_read ctx info_snapshot = is_there ctx.info
is_read ctx starting_field = has_starting ctx.info
is_read ctx backend_list = is_there ctx.gateway_backends
is_read ctx trusted_queries = is_trusted ctx.queries
is_read ctx (counter name key) = is_there (number_at ctx name key)
is_read ctx (heap_field key) =
    numeric_field key (attribute ctx "java.lang:type=Memory" "HeapMemoryUsage")

-- A test of the catalogue one of whose inputs (`inputs_of`) is missing, not a number or, for H-02 and
-- H-09, not to be trusted, is UNKNOWN, and never GOOD. The counts of planned workers, which H-03 reads
-- as 0 where they are missing, are not among the inputs.
pub missing_input :
    (t : TestId) (ctx : Context)
    → all (is_read ctx) (inputs_of t) ≡ false
    → (run_test t ctx).state ≡ unknown
unfolding run_test coordinator_responsive startup_complete worker_registration heap_used
    query_failure_rate internal_failures oom_kills current_oom_kills gateway_registration
    permission_self_check jmx_unavailable unknown_result
missing_input h01 ctx missing = ground arith
missing_input h02 ctx missing = ground arith
missing_input h03 ctx missing = ground arith
missing_input h04 ctx missing = ground arith
missing_input h05 ctx missing = ground arith
missing_input h06 ctx missing = ground arith
missing_input h07 ctx missing = ground arith
missing_input h08 ctx missing = ground arith
missing_input h09 ctx missing = ground arith

-- The workers among the active nodes.
abbrev pub at_work : Context → Ratio → ℕ
at_work ctx active =
    if ctx.coordinator_counted_in_active_nodes then truncated active - 1 else truncated active

registration-good :
    (expected : ℕ) (counts : Bool) (active planned : ℕ) (r : Ratio)
    → 1 ≤ active
    → ((registration expected counts active planned r).state ≡ good)
      ↔ (expected ≤ (if counts then active - 1 else active) + planned)
unfolding registration unplanned_missing
registration-good expected counts active planned r one = ground arith

-- H-03 is GOOD exactly when the expected workers are at work or out by plan: those that are drained
-- or shut down on purpose are never counted as missing. Some node, the coordinator, is active.
pub registration_good_iff :
    (ctx : Context) {active : Ratio}
    → number_at ctx node_manager "ActiveNodeCount" ≡ some active
    → 1 ≤ truncated active
    → ((worker_registration ctx).state ≡ good)
      ↔ (ctx.expected_workers ≤ at_work ctx active + planned_out ctx)
unfolding worker_registration
registration_good_iff ctx {active} h one = rw h (
    registration-good ctx.expected_workers ctx.coordinator_counted_in_active_nodes
      (truncated active) (planned_out ctx) (threshold ctx "missing_workers_pct_bad" (whole 20)) one)

grade-zero : (c b : Ratio) → 1 ≤ c.num → 1 ≤ b.num → grade (whole 0) c b ≡ good
unfolding grade
grade-zero c b hc hb = ground arith

-- When the counter of kills did not grow, as after a restart of the coordinator, H-07 is GOOD, for
-- thresholds above zero.
pub oom_kills_after_restart :
    (ctx : Context) {current previous : ℕ}
    → current_oom_kills ctx ≡ some current
    → ctx.previous_oom_kills ≡ some previous
    → current ≤ previous
    → 1 ≤ (threshold ctx "oom_kills_concerning" (whole 1)).num
    → 1 ≤ (threshold ctx "oom_kills_bad" (whole 3)).num
    → (oom_kills ctx).state ≡ good
unfolding oom_kills kills_since graded threshold
oom_kills_after_restart ctx {current} {previous} now before le c b =
    let none_new : current - previous ≡ 0 = omega arith in
    rw (now, before, none_new)
      (grade-zero (threshold ctx "oom_kills_concerning" (whole 1))
        (threshold ctx "oom_kills_bad" (whole 3)) c b)

abbrev pub is_within_hundred : Observed → Bool
is_within_hundred (percent r) = at_least (whole 100) r
is_within_hundred _ = true

clamped-bounded : (r : Ratio) → at_least (whole 100) (clamped r) ≡ true
unfolding clamped
clamped-bounded r = elim (Bool-cases (at_least (whole 100) r)) [
  | inl below ↦ rw (below, below) refl
  | inr above ↦ rw above refl
]

failure_rate_of-bounded :
    (ctx : Context) (failed completed : Option Ratio)
    → is_within_hundred (failure_rate_of ctx failed completed).observed_value ≡ true
unfolding failure_rate_of failure_rate jmx_unavailable unknown_result graded
failure_rate_of-bounded ctx none completed = refl
failure_rate_of-bounded ctx (some failed) none = refl
failure_rate_of-bounded ctx (some failed) (some completed) =
    elim (Bool-cases (completed.num == 0)) [
      | inl idle ↦ rw idle refl
      | inr busy ↦ rw busy (clamped-bounded (times_hundred (quotient failed completed)))
    ]

-- H-05 never shows a failure rate above 100 percent, whatever the counters are.
pub query_failure_rate-bounded :
    (ctx : Context) → is_within_hundred (query_failure_rate ctx).observed_value ≡ true
unfolding query_failure_rate
query_failure_rate-bounded ctx =
    failure_rate_of-bounded ctx (number_at ctx query_manager "FailedQueries.FiveMinute.Count")
      (number_at ctx query_manager "CompletedQueries.FiveMinute.Count")
