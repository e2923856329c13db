-- ===== src/Health/States.antt =====
-- tms/health/states.py: the four health states and their roll-up.
pub mod Rollup
use trino_management_service.Prelude.{
  ℕ, Bool, true, false, Option, none, some, List, [], ◌∷◌, ltb, if◌then◌else◌,
}

pub data HealthState : Type 0 where
  good concerning bad unknown : HealthState

pub HealthState-discrete : Discrete HealthState
HealthState-discrete = hlevel

-- `_SEVERITY`
unfoldable pub severity : HealthState → ℕ
severity good = 0
severity unknown = 1
severity concerning = 2
severity bad = 3

-- Python's `max(xs, key=severity)`: the first of the greatest.
max_severity : HealthState → List HealthState → HealthState
unfolding severity
max_severity best [] = best
max_severity best (s ∷ rest) =
    max_severity (if ltb (severity best) (severity s) then s else best) rest

unfoldable pub worst : List HealthState → HealthState
unfolding max_severity
worst [] = unknown
worst (s ∷ rest) = max_severity s rest

unfoldable pub requires_advice : HealthState → Bool
requires_advice bad = true
requires_advice concerning = true
requires_advice _ = false

abbrev pub is_good : HealthState → Bool
is_good good = true
is_good _ = false

unfoldable pub is_worse : HealthState → Option HealthState → Bool
unfolding severity
is_worse new_state none = if is_good new_state then false else true
is_worse new_state (some old_state) = ltb (severity old_state) (severity new_state)
