-- ===== src/Bench/Schedules.antt =====
-- tms/bench/schedules.py: the schedules of the benchmarks. A time is a number of seconds; the
-- repository is the in-memory one.
pub mod Firing
use trino_management_service.Prelude.{
  ℕ, zero, suc, ◌+◌, ◌-◌, ◌*◌, ◌/◌, ltb, leb, ◌==◌, String, str_eq, strip, is_empty, Bool, true,
  false, not, ◌&&◌, ◌||◌, Option, none, some, List, [], ◌∷◌, ◌++◌, keep, any, length, Result, ok,
  err, guard, ◌>>=◌, ◌>>◌, if◌then◌else◌,
}
use trino_management_service.Core.Audit.Reason.{chars}

abbrev pub min_interval_minutes : ℕ
min_interval_minutes = 15

abbrev pub max_interval_minutes : ℕ
max_interval_minutes = 60 * 24 * 90

-- What `validate` says of a schedule that it refuses.
pub data Invalid : Type 0 where
  no_name long_name no_reason interval_not_a_number short_interval long_interval : Invalid
  repetitions_not_a_number bad_repetitions no_cluster : Invalid

pub record Fields : Type 0 where
  pub name : String
  pub interval_minutes : ℕ
  pub repetitions : ℕ
  pub clusters : List String
  pub reason : String

abbrev text_or_empty : Option String → String
text_or_empty none = ""
text_or_empty (some s) = s

-- `int(value)`, where the value is a number.
abbrev as_int : Option ℕ → Invalid → Result Invalid ℕ
as_int none e = err e
as_int (some n) e = ok n

abbrev is_given : String → Bool
is_given s = not (is_empty s)

unfoldable pub validate :
    Option String → Option ℕ → Option ℕ → List String → Option String → Result Invalid Fields
validate name interval_minutes repetitions clusters reason = do
  let clean = strip (text_or_empty name)
  guard (not (is_empty clean)) no_name
  guard (leb (chars clean) 200) long_name
  guard (not (is_empty (strip (text_or_empty reason)))) no_reason
  interval ← as_int interval_minutes interval_not_a_number
  guard (leb min_interval_minutes interval) short_interval
  guard (leb interval max_interval_minutes) long_interval
  reps ← as_int repetitions repetitions_not_a_number
  guard (leb 1 reps && leb reps 50) bad_repetitions
  let chosen = keep is_given clusters
  guard (ltb 0 (length chosen)) no_cluster
  ok (record {
    name = clean;
    interval_minutes = interval;
    repetitions = reps;
    clusters = chosen;
    reason = strip (text_or_empty reason);
  })

abbrev pub seconds : ℕ → ℕ
seconds minutes = 60 * minutes

-- `advance(next_run_at, interval_minutes, now)`
unfoldable pub advance : ℕ → ℕ → ℕ → ℕ
advance next_run_at interval_minutes now =
    let step = seconds interval_minutes in
    let missed = (now - next_run_at) / step in
    if leb (next_run_at + step) now then next_run_at + step * (missed + 1) else next_run_at + step

pub record Schedule : Type 0 where
  pub id : ℕ
  pub fields : Fields
  pub next_run_at : ℕ
  pub enabled : Bool
  pub paused_reason : Option String
  pub consecutive_failures : ℕ

pub record Schedules : Type 0 where
  pub rows : List Schedule
  pub next_id : ℕ

abbrev pub is_called : String → Schedule → Bool
is_called name row = str_eq row.fields.name name

-- `create`: `none` where the name is taken.
unfoldable pub create : Fields → ℕ → Schedules → Option (Schedule × Schedules)
create fields next_run_at repository =
    let row : Schedule = record {
      id = repository.next_id;
      fields = fields;
      next_run_at = next_run_at;
      enabled = true;
      paused_reason = none;
      consecutive_failures = 0;
    } in
    if any (is_called fields.name) repository.rows
    then none
    else some (row, record { rows = repository.rows ++ row ∷ []; next_id = repository.next_id + 1 })

get_row : ℕ → List Schedule → Option Schedule
get_row id [] = none
get_row id (row ∷ rest) = if row.id == id then some row else get_row id rest

unfoldable pub get : ℕ → Schedules → Option Schedule
unfolding get_row
get id repository = get_row id repository.rows

abbrev is_other : ℕ → Schedule → Bool
is_other id row = not (row.id == id)

unfoldable pub delete : ℕ → Schedules → Bool × Schedules
delete id repository =
    let left = keep (is_other id) repository.rows in
    (not (length left == length repository.rows), record repository { rows = left })

unfoldable pub is_due : ℕ → Schedule → Bool
is_due now row = row.enabled && leb row.next_run_at now

unfoldable pub move_on : ℕ → Schedule → Schedule
unfolding advance
move_on now row = record row {
  next_run_at = advance row.next_run_at row.fields.interval_minutes now;
}

unfoldable pub claim_rows : ℕ → List Schedule → List Schedule × List Schedule
claim_rows now [] = ([], [])
claim_rows now (row ∷ rest) =
    let (claimed, left) = claim_rows now rest in
    if is_due now row
    then (move_on now row ∷ claimed, move_on now row ∷ left)
    else (claimed, row ∷ left)

-- `claim_due`: what is claimed, and the repository after it.
unfoldable pub claim_due : ℕ → Schedules → List Schedule × Schedules
unfolding claim_rows
claim_due now repository =
    let (claimed, rows) = claim_rows now repository.rows in
    (claimed, record repository { rows = rows })
