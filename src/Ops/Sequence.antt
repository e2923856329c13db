-- ===== src/Ops/Sequence.antt =====
-- tms/ops/sequence.py: the safe restart sequence. A method that mutates `self` returns the new
-- record, and one that raises returns the exception; every raise comes before the first write.
-- A log line keeps its template and arguments (`Message`) in place of the formatted text, and
-- carries no time stamp, which nothing in the sequence reads.
pub mod Trace
use trino_management_service.Prelude.{
  ℕ, zero, suc, String, Bool, true, false, not, ◌||◌, Option, none, some, List, [], ◌∷◌, ◌++◌, ltb,
  leb, ◌==◌, str_eq, is_empty, is_blank, strip, if◌then◌else◌, Result, ok, err, guard, ◌>>=◌, ◌>>◌,
}
use trino_management_service.Health.States.{HealthState, good, is_good}

pub data State : Type 0 where
  pending draining drained restarting verifying completed aborting aborted : State

-- A place for each state, to compare states by.
abbrev pub place : State → ℕ
place pending = 0
place draining = 1
place drained = 2
place restarting = 3
place verifying = 4
place completed = 5
place aborting = 6
place aborted = 7

-- `s == t`
abbrev pub same_state : State → State → Bool
same_state s t = place s == place t

-- `s in states`
abbrev pub state_in : State → List State → Bool
state_in s [] = false
state_in s (t ∷ rest) = same_state s t || state_in s rest

-- `TERMINAL`
abbrev pub terminal : List State
terminal = completed ∷ aborted ∷ []

-- `TRAFFIC_STOPPED`
abbrev pub traffic_stopped_states : List State
traffic_stopped_states = draining ∷ drained ∷ restarting ∷ verifying ∷ aborting ∷ []

-- `STEP_ORDER`
abbrev pub step_order : List State
step_order = pending ∷ draining ∷ drained ∷ restarting ∷ verifying ∷ completed ∷ []

-- `ALLOWED_LEVELS`; a level outside this type is the one that `log` refuses.
pub data Level : Type 0 where
  info warn error output : Level

-- The texts of the progress log. The last seven are those of `ops/service.py`.
pub data Message : Type 0 where
  blocking_new_queries : String → Message
  all_finished : String → Message
  waiting_for : ℕ → Message
  store_detail : String → Message
  confirmed_empty : String → Message
  forced_past : ℕ → String → Message
  bringing_down : String → Message
  checking_health : String → Message
  health_is_good : Message
  back_in_rotation : String → Message
  abort_note : String → Message
  restoring_traffic : String → Message
  aborted_back : String → Message
  could_not_stop : String → Message
  playbook_line : String → Message
  playbook_finished : Message
  playbook_failed : String → String → Message
  lost_sight : String → Message
  restart_it_yourself : String → Message
  running_playbook : Message
  could_not_restore : String → String → Message

pub record Event : Type 0 where
  pub state : State
  pub level : Level
  pub message : Message

-- What `StepBlocked` says.
pub data Blocked : Type 0 where
  no_observation : Blocked
  still_running : ℕ → Blocked
  would_not_start : String → String → Blocked
  health_not_good : Option HealthState → Blocked
  refusing_traffic : Option HealthState → Blocked

pub data SequenceError : Type 0 where
  reason_required : SequenceError
  cannot_from : State → List State → SequenceError
  override_reason_required : SequenceError
  already_finished : SequenceError
  blocked : Blocked → SequenceError

-- `class RestartSequence`
pub record Sequence : Type 0 where
  pub cluster : String
  pub reason : String
  pub actor : String
  pub state : State
  pub history : List Event
  pub drain_timeout_seconds : ℕ
  pub running_queries : Option ℕ
  pub health_state : Option HealthState
  pub config_store_ready : Option Bool
  pub config_store_detail : String

-- `__init__`
unfoldable pub new : String → String → String → ℕ → Result SequenceError Sequence
unfolding is_blank
new cluster reason actor timeout =
    if is_blank reason
    then err reason_required
    else ok (record {
      cluster = cluster;
      reason = strip reason;
      actor = actor;
      state = pending;
      history = [];
      drain_timeout_seconds = timeout;
      running_queries = none;
      health_state = none;
      config_store_ready = none;
      config_store_detail = "";
    })

unfoldable pub log : Message → Level → Sequence → Sequence
log m level s = record s {
  history = s.history ++ record { state = s.state; level = level; message = m } ∷ [];
}

-- `_record`, whose note no caller leaves blank.
unfoldable pub record_step : State → Message → Sequence → Sequence
unfolding log
record_step step note s = log note info (record s { state = step })

-- `_require`
unfoldable pub require : List State → Sequence → Result SequenceError Unit
require allowed s = guard (state_in s.state allowed) (cannot_from s.state allowed)

unfoldable pub traffic_stopped : Sequence → Bool
traffic_stopped s = state_in s.state traffic_stopped_states

unfoldable pub is_terminal : Sequence → Bool
is_terminal s = state_in s.state terminal

unfoldable pub needs_operator_action : Sequence → Bool
needs_operator_action s = state_in s.state (drained ∷ restarting ∷ [])

unfoldable pub begin : Sequence → Result SequenceError Sequence
unfolding require record_step
begin s = do require (pending ∷ []) s; ok (record_step draining (blocking_new_queries s.cluster) s)

-- `running_queries != previous`
abbrev pub differs : Option ℕ → ℕ → Bool
differs none n = true
differs (some m) n = not (m == n)

abbrev pub or_kept : Option HealthState → Option HealthState → Option HealthState
or_kept none kept = kept
or_kept (some h) kept = some h

unfoldable pub observe : ℕ → Option HealthState → Sequence → Sequence
unfolding record_step log
observe running health s =
    let seen = record s {
      running_queries = some running;
      health_state = or_kept health s.health_state;
    } in
    if same_state s.state draining
    then (if running == 0
        then record_step drained (all_finished s.cluster) seen
        else if differs s.running_queries running
        then log (waiting_for running) info seen
        else seen)
    else seen

-- `ready != previous`, for a `ready` that is not None
abbrev pub flips : Option Bool → Bool → Bool
flips none b = true
flips (some true) b = not b
flips (some false) b = b

unfoldable pub observe_config_store : Option Bool → String → Sequence → Sequence
unfolding log
observe_config_store none detail s = record s {
  config_store_ready = none;
  config_store_detail = detail;
}
observe_config_store (some ready) detail s =
    let seen = record s { config_store_ready = some ready; config_store_detail = detail } in
    if is_empty detail
    then seen
    else if flips s.config_store_ready ready
    then log (store_detail detail) (if ready then info else warn) seen
    else seen

-- The tests of `confirm_drained` on the observed count.
abbrev pub count_blocks : Option ℕ → Option Blocked
count_blocks none = some no_observation
count_blocks (some zero) = none
count_blocks (some (suc n)) = some (still_running (suc n))

abbrev pub block_on : Option Blocked → Result SequenceError Unit
block_on none = ok tt
block_on (some b) = err (blocked b)

unfoldable pub confirm_drained : Sequence → Result SequenceError Sequence
unfolding require record_step
confirm_drained s = do
  require (draining ∷ drained ∷ []) s
  block_on (count_blocks s.running_queries)
  ok (record_step drained (confirmed_empty s.cluster) s)

-- `self.history[-1]["level"] = "warn"`
unfoldable pub warn_last : List Event → List Event
warn_last [] = []
warn_last (e ∷ []) = record e { level = warn } ∷ []
warn_last (e ∷ f ∷ rest) = e ∷ warn_last (f ∷ rest)

-- `running_queries or 0`
abbrev pub or_zero : Option ℕ → ℕ
or_zero none = 0
or_zero (some n) = n

unfoldable pub force_drained : String → Sequence → Result SequenceError Sequence
unfolding require record_step warn_last
force_drained override s = do
  require (draining ∷ drained ∷ []) s
  guard (not (is_blank override)) override_reason_required
  let t = record_step drained (forced_past (or_zero s.running_queries) (strip override)) s
  ok (record t { history = warn_last t.history })

-- `config_store_ready is False`
abbrev pub is_false : Option Bool → Bool
is_false (some false) = true
is_false _ = false

unfoldable pub mark_restarting : Sequence → Result SequenceError Sequence
unfolding require record_step
mark_restarting s = do
  require (drained ∷ []) s
  guard (not (is_false s.config_store_ready))
      (blocked (would_not_start s.cluster s.config_store_detail))
  ok (record_step restarting (bringing_down s.cluster) s)

unfoldable pub mark_restarted : Sequence → Result SequenceError Sequence
unfolding require record_step
mark_restarted s = do
  require (restarting ∷ []) s
  ok (record_step verifying (checking_health s.cluster) s)

-- `health_state == "GOOD"`
abbrev pub known_good : Option HealthState → Bool
known_good none = false
known_good (some h) = is_good h

unfoldable pub confirm_healthy : Sequence → Result SequenceError Sequence
unfolding require log
confirm_healthy s = do
  require (verifying ∷ []) s
  guard (known_good s.health_state) (blocked (health_not_good s.health_state))
  ok (log health_is_good info s)

unfoldable pub complete : Sequence → Result SequenceError Sequence
unfolding require record_step
complete s = do
  require (verifying ∷ []) s
  guard (known_good s.health_state) (blocked (refusing_traffic s.health_state))
  ok (record_step completed (back_in_rotation s.cluster) s)

abbrev pub abort_message : String → String → Message
abort_message note cluster = if is_empty note then restoring_traffic cluster else abort_note note

unfoldable pub begin_abort : String → Sequence → Result SequenceError Sequence
unfolding is_terminal record_step warn_last
begin_abort note s = do
  guard (not (is_terminal s)) already_finished
  let t = record_step aborting (abort_message note s.cluster) s
  ok (record t { history = warn_last t.history })

unfoldable pub finish_abort : Sequence → Result SequenceError Sequence
unfolding require record_step
finish_abort s = do require (aborting ∷ []) s; ok (record_step aborted (aborted_back s.cluster) s)

pub data StepStatus : Type 0 where
  done current waiting given_up : StepStatus

-- The status of the step at place `i`, for a sequence in state `s`. Both the index of a step in
-- `STEP_ORDER` and that of the state are their places.
unfoldable pub status_at : State → ℕ → StepStatus
status_at aborting i = given_up
status_at aborted i = given_up
status_at completed i = done
status_at s i = if ltb i (place s) then done else if i == place s then current else waiting

abbrev pub rows : State → List State → List (State × StepStatus)
rows s [] = []
rows s (step ∷ rest) = (step, status_at s (place step)) ∷ rows s rest

unfoldable pub steps : Sequence → List (State × StepStatus)
unfolding status_at
steps s = rows s.state step_order
