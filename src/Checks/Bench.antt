-- ===== src/Checks/Bench.antt =====
-- Schedules and the benchmark guard on concrete inputs.
use trino_management_service.Prelude.{
  ℕ, ◌+◌, ◌*◌, ◌≤◌, ◌<◌, ◌≡◌, refl, arith, true, false, ◌&&◌, none, some, strip, List, [], ◌∷◌, ok,
}
use trino_management_service.Bench.Schedules.{
  Fields, Schedule, Schedules, validate, advance, seconds, claim_due,
}
use trino_management_service.Bench.Schedules.Firing.{advance-next, claim_due_once}
use trino_management_service.Bench.Guard.{MappedBackend, Envelope, view, is_ok, check}
use trino_management_service.Bench.Guard.Quiet.{is_idle, is_out_of_rotation, check-quiet}

abbrev nightly : Fields
nightly = record {
  name = "nightly";
  interval_minutes = 1440;
  repetitions = 3;
  clusters = "prod-a" ∷ [];
  reason = "trend";
}

accepted :
    validate (some " nightly ") (some 1440) (some 3) ("prod-a" ∷ "" ∷ []) (some "trend")
    ≡ ok nightly
unfolding validate strip
accepted = refl

-- Three days late.
advance-next_example :
    (300000 < advance 40000 1440 300000)
    × (40000 < advance 40000 1440 300000)
    × ((k : ℕ) × (advance 40000 1440 300000 ≡ 40000 + seconds 1440 * k))
    × ((40000 ≤ 300000 → advance 40000 1440 300000 ≤ 300000 + seconds 1440)
        × (300000 ≤ 40000 → advance 40000 1440 300000 ≡ 40000 + seconds 1440))
advance-next_example = advance-next 40000 1440 300000 (omega arith)

abbrev row : Schedule
row = record {
  id = 1;
  fields = nightly;
  next_run_at = 40000;
  enabled = true;
  paused_reason = none;
  consecutive_failures = 0;
}

abbrev schedules : Schedules
schedules = record { rows = row ∷ record row { id = 2; enabled = false } ∷ []; next_id = 3 }

claim_due_once_example :
    claim_due 300000 (claim_due 300000 schedules).1 ≡ ([], (claim_due 300000 schedules).1)
claim_due_once_example = claim_due_once 300000 schedules refl

abbrev backends : List MappedBackend
backends = record { name = "prod-a-1"; cluster = some "prod-a" } ∷ []

abbrev idle : Envelope
idle = record { stale = false; running = some 0 }

check-quiet_example :
    is_ok (check "prod-a" (some (some (("prod-a-1", false) ∷ []))) backends (some idle) none) ≡ (
      is_idle (view (some idle) none)
      && is_out_of_rotation "prod-a" (some (some (("prod-a-1", false) ∷ []))) backends)
check-quiet_example =
    check-quiet "prod-a" (some (some (("prod-a-1", false) ∷ []))) backends (some idle) none
