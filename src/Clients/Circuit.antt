-- ===== src/Clients/Circuit.antt =====
-- tms/clients/circuit.py: the circuit breaker. The clock is an argument of every operation that
-- reads it; a time is a number of the clock's smallest steps.
pub mod Trials
use trino_management_service.Prelude.{
  ℕ, zero, suc, ◌+◌, ◌-◌, leb, ltb, Bool, true, false, not, ◌&&◌, if◌then◌else◌, Option, none, some,
}

pub data CircuitState : Type 0 where
  closed opened half_open : CircuitState

pub record Breaker : Type 0 where
  pub failure_threshold : ℕ
  pub reset_seconds : ℕ
  pub consecutive_failures : ℕ
  pub opened_at : ℕ
  pub state : CircuitState

-- `CircuitBreaker(...)`: a threshold below 1 is refused.
unfoldable pub new_breaker : ℕ → ℕ → Option Breaker
new_breaker failure_threshold reset_seconds =
    if ltb failure_threshold 1
    then none
    else some (record {
      failure_threshold = failure_threshold;
      reset_seconds = reset_seconds;
      consecutive_failures = 0;
      opened_at = 0;
      state = closed;
    })

abbrev pub is_open : CircuitState → Bool
is_open opened = true
is_open _ = false

-- The property `state`: it moves an open breaker on when its time is over. A clock that went back
-- has not reached it.
unfoldable pub look : ℕ → Breaker → Breaker
look now b =
    if is_open b.state && leb (b.opened_at + b.reset_seconds) now
    then record b { state = half_open }
    else b

unfoldable pub allows_request : ℕ → Breaker → Bool × Breaker
unfolding look
allows_request now b = (not (is_open (look now b).state), look now b)

unfoldable pub record_success : Breaker → Breaker
record_success b = record b { consecutive_failures = 0; state = closed }

unfoldable pub record_failure : Bool → ℕ → Breaker → Breaker
record_failure transient now b =
    let counted = record b { consecutive_failures = b.consecutive_failures + 1 } in
    if transient
    then if leb b.failure_threshold counted.consecutive_failures
      then record counted { state = opened; opened_at = now }
      else counted
    else b

unfoldable pub seconds_until_retry : ℕ → Breaker → ℕ × Breaker
unfolding look
seconds_until_retry now b =
    let seen = look now b in
    (if is_open seen.state then (b.opened_at + b.reset_seconds) - now else 0, seen)
