-- ===== src/Health/Context.antt =====
-- tms/health/tests.py: what a health test reads and what it answers. A float is an exact fraction,
-- and a count that JMX reports is not negative; only the heap maximum may be -1.
use trino_management_service.Prelude.{
  ℕ, suc, ◌*◌, ◌/◌, leb, Bool, Option, none, some, String, List, is_empty, if◌then◌else◌,
}
use trino_management_service.Health.States.{HealthState, good, concerning, bad, unknown}

pub data TestId : Type 0 where
  h01 h02 h03 h04 h05 h06 h07 h08 h09 : TestId

-- The number of a test in its name, `H-01` to `H-09`.
abbrev pub number_of : TestId → ℕ
number_of h01 = 1
number_of h02 = 2
number_of h03 = 3
number_of h04 = 4
number_of h05 = 5
number_of h06 = 6
number_of h07 = 7
number_of h08 = 8
number_of h09 = 9

-- `num / (under + 1)`
pub record Ratio : Type 0 where
  pub num : ℕ
  pub under : ℕ

abbrev pub den : Ratio → ℕ
den r = suc r.under

abbrev pub whole : ℕ → Ratio
whole n = record { num = n; under = 0 }

-- `100 * r`
abbrev pub times_hundred : Ratio → Ratio
times_hundred r = record r { num = 100 * r.num }

-- `a >= b`
abbrev pub at_least : Ratio → Ratio → Bool
at_least a b = leb (b.num * den a) (a.num * den b)

-- `int(r)`
abbrev pub truncated : Ratio → ℕ
truncated r = r.num / den r

-- A field of a composite attribute.
pub data Field : Type 0 where
  amount : Ratio → Field
  -- a number below zero
  below_zero : Field
  not_a_number : Field

pub data Value : Type 0 where
  number : Ratio → Value
  boolean : Bool → Value
  object : (String → Option Field) → Value
  other : Value

-- The `advice` of the collector's snapshot, where it has one.
pub record Jmx : Type 0 where
  -- an MBean that is missing, or is not an object, is `none`
  pub mbeans : String → Option (String → Option Value)
  pub advice : Option String

pub record Info : Type 0 where
  pub trustworthy : Bool
  pub advice : Option String
  -- `none`: there is no `info` object, or it has no field `starting`
  pub starting : Option Bool

pub record Queries : Type 0 where
  pub trustworthy : Bool
  pub advice : Option String

-- The outer `none` is a backend without the key `cluster`.
pub record Backend : Type 0 where
  pub name : Option String
  pub cluster : Option (Option String)
  pub active : Bool

pub record Context : Type 0 where
  pub cluster_name : String
  pub expected_workers : ℕ
  -- the inner `none` is a value that is not a number
  pub thresholds : String → Option (Option Ratio)
  pub info : Option Info
  pub jmx : Option Jmx
  pub queries : Option Queries
  pub coordinator_counted_in_active_nodes : Bool
  pub gateway_backends : Option (List Backend)
  pub previous_oom_kills : Option ℕ

-- What a result tells the operator to do: the collector's own text, one of the test's, or nothing.
pub data Advice : Type 0 where
  no_advice : Advice
  collected : String → Advice
  no_data_yet no_info no_starting_field jmx_unreadable heap_unreadable no_heap_maximum
        no_completed_queries :
      Advice
  no_backend_list no_queries_yet queries_untrusted coordinator_down still_starting : Advice
  missing_workers : ℕ → ℕ → ℕ → ℕ → Advice
  heap_is_full high_failure_rate : Ratio → Advice
  internal_errors killed_for_memory : ℕ → Advice
  not_registered inactive stale_data no_remedy : Advice

pub data Observed : Type 0 where
  nothing : Observed
  said : String → Observed
  -- the active nodes, whether the coordinator is one of them, the expected, the planned and the
  -- unplanned missing workers
  workers : ℕ → Bool → ℕ → ℕ → ℕ → Observed
  percent : Ratio → Observed
  counted : ℕ → Observed
  kills : ℕ → Option ℕ → Observed

pub record HealthResult : Type 0 where
  pub test_id : TestId
  pub state : HealthState
  pub observed_value : Observed
  pub threshold : Option Ratio
  pub advice : Advice

abbrev or_default : Option Ratio → Ratio → Ratio
or_default none default = default
or_default (some r) default = r

unfoldable pub threshold : Context → String → Ratio → Ratio
threshold ctx key default = elim (ctx.thresholds key) [
  | none ↦ default
  | some v ↦ or_default v default
]

unfoldable pub mbean : Context → String → Option (String → Option Value)
mbean ctx name = elim ctx.jmx [ none ↦ none | some jmx ↦ jmx.mbeans name ]

unfoldable pub attribute : Context → String → String → Option Value
unfolding mbean
attribute ctx name key = elim (mbean ctx name) [ none ↦ none | some attributes ↦ attributes key ]

abbrev pub as_number : Option Value → Option Ratio
as_number (some (number r)) = some r
as_number _ = none

unfoldable pub number_at : Context → String → String → Option Ratio
unfolding attribute
number_at ctx name key = as_number (attribute ctx name key)

-- `advice or default`
abbrev pub told_or : Option String → Advice → Advice
told_or none default = default
told_or (some s) default = if is_empty s then default else collected s

unfoldable pub unknown_result : TestId → Advice → HealthResult
unknown_result t told = record {
  test_id = t;
  state = unknown;
  observed_value = nothing;
  threshold = none;
  advice = told;
}

unfoldable pub jmx_unavailable : TestId → Context → HealthResult
unfolding unknown_result
jmx_unavailable t ctx =
    unknown_result t
      (elim ctx.jmx [ none ↦ jmx_unreadable | some jmx ↦ told_or jmx.advice jmx_unreadable ])

-- BAD from the one threshold on, CONCERNING from the other.
unfoldable pub grade : Ratio → Ratio → Ratio → HealthState
grade value concerning_at bad_at =
    if at_least value bad_at then bad else if at_least value concerning_at then concerning else good

-- No advice where the state is GOOD.
abbrev pub unless_good : HealthState → Advice → Advice
unless_good good told = no_advice
unless_good _ told = told
