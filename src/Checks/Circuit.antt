-- ===== src/Checks/Circuit.antt =====
-- The circuit breaker on concrete inputs.
use trino_management_service.Prelude.{◌<◌, ◌≡◌, ◌↔◌, refl, true, false, some, List, [], ◌∷◌}
use trino_management_service.Clients.Circuit.{
  closed, opened, Breaker, new_breaker, allows_request, record_failure,
}
use trino_management_service.Clients.Circuit.Trials.{
  CircuitOp, ask, fail, act, act_all, streak, closed_iff_streak,
}

abbrev fresh : Breaker
fresh = record {
  failure_threshold = 2;
  reset_seconds = 30;
  consecutive_failures = 0;
  opened_at = 0;
  state = closed;
}

made : new_breaker 2 30 ≡ some fresh
unfolding new_breaker
made = refl

abbrev two_fail : List CircuitOp
two_fail = fail true 5 ∷ fail false 6 ∷ ask 7 ∷ fail true 8 ∷ []

closed_iff_streak_example :
    ((act_all two_fail fresh).consecutive_failures ≡ streak 0 two_fail)
    × (((act_all two_fail fresh).state ≡ closed) ↔ (streak 0 two_fail < 2))
closed_iff_streak_example = closed_iff_streak 2 30 two_fail {b = fresh} made

is_opened : (act_all two_fail fresh).state ≡ opened
unfolding act_all act allows_request record_failure
is_opened = refl

abbrev waiting : Breaker
waiting = record fresh { consecutive_failures = 2; opened_at = 8; state = opened }
