-- ===== src/Ops/Service/Calls.antt =====
-- tms/ops/service.py: the calls of `RestartService`, from `start` to `abort`.
pub mod Guards
pub mod Outcomes
pub mod Aborting
pub mod Keeping
pub mod AbortKeeps
pub mod StartKeeps
pub mod Invariant
use trino_management_service.Prelude.{
  ℕ, String, Bool, true, false, not, ◌&&◌, Option, none, some, List, [], ◌∷◌, ◌++◌, Result, ok, err,
  length, ◌==◌, is_empty, is_blank, or_else, if◌then◌else◌,
}
use trino_management_service.Exec.{Exec, pure, raise, lift, modify, check, after, ◌>>=◌, ◌>>◌}
use trino_management_service.Api.Permissions.{Principal}
use trino_management_service.Core.Audit.Reason.{join}
use trino_management_service.Health.States.{HealthState, severity}
use trino_management_service.Ops.Sequence.{
  State, place, info, warn, error, could_not_stop, restart_it_yourself, running_playbook,
  could_not_restore, SequenceError, blocked, Sequence, new, log, begin, confirm_drained,
  force_drained, mark_restarting, mark_restarted, confirm_healthy, complete, begin_abort,
  finish_abort,
}
use trino_management_service.Ops.Repository.{Repository, Stored, save, create, load}
use trino_management_service.Ops.Service.{
  Service, require_admin, cluster_or_404, audited, observed, observe_stored, poll_executor,
  set_gateway_active, load_or_404, save_stored, get,
}
use trino_management_service.Ops.Service.Types.{
  Effect, executor_start, World, ExecutorState, pending_operator, Environment, no_reason,
  preflight_refused, restart_in_progress, not_restored, sequence_refused, gateway_off, no_backend,
  gateway_error, audit_reason_required, ServiceError, not_found, invalid_request,
  upstream_unavailable, executor_error, sequence_error,
}

abbrev as_invalid : SequenceError → ServiceError
as_invalid e = invalid_request (sequence_refused e)

abbrev with_sequence : Stored → Sequence → Stored
with_sequence st s = record st { sequence = s }

abbrev preflight : Option String → Service Unit
preflight none = pure tt
preflight (some message) = raise (invalid_request (preflight_refused message))

create_row : Sequence → List String → Service Stored
create_row s roles w = elim (create s roles w.repository) [
  | none ↦ (err (invalid_request restart_in_progress), w)
  | some (st, repository) ↦ (ok st, record w { repository = repository })
]

-- `str(exc)` of the exceptions that can leave a guarded Gateway call.
abbrev error_text : String → ServiceError → String
error_text cluster (gateway_error message) = message
error_text cluster (upstream_unavailable (no_backend c)) =
    join "No Gateway backend is matched to cluster "
      (join c ". TMS will not guess which backend to deactivate.")
error_text cluster (upstream_unavailable r) =
    "The Gateway integration is off, so TMS cannot stop traffic to this cluster. A restart without stopping intake would kill running queries."
error_text cluster ServiceError.audit_unavailable =
    join "audit store is unavailable; refusing to perform CLUSTER_RESTART on " cluster
error_text cluster e = "reason is required for write actions"

-- `except Exception` of `start`: the sequence is closed as aborted, and the exception goes on.
close_out : Stored → ServiceError → Service Unit
close_out st e = do
  let told = log (could_not_stop (error_text st.sequence.cluster e)) error st.sequence
  aborting ← lift sequence_error (begin_abort "Nothing was changed." told)
  aborted ← lift sequence_error (finish_abort aborting)
  saved ← save_stored (with_sequence st aborted) none
  raise e

or_close_out : Stored → Result ServiceError Unit × World → Result ServiceError Unit × World
unfolding close_out
or_close_out st (ok u, w) = (ok u, w)
or_close_out st (err e, w) = close_out st e w

stop_traffic : Environment → Principal → Stored → String → Service Unit
unfolding or_close_out
stop_traffic e p st reason w =
    or_close_out st
      (audited e p st.sequence.cluster reason (set_gateway_active e st.sequence.cluster false) w)

unfoldable pub start : Environment → Principal → String → String → Service Sequence
unfolding create_row stop_traffic
start e p cluster reason = do
  require_admin p
  cluster_or_404 e cluster
  check (not (is_blank reason)) (invalid_request no_reason)
  preflight (e.executor.preflight cluster)
  s ← lift sequence_error (new cluster reason p.username 900)
  st ← create_row s p.roles
  stop_traffic e p st reason
  begun ← lift sequence_error (begin st.sequence)
  saved ← save_stored (observe_stored e (with_sequence st begun)) none
  get e st.id

abbrev same_count : Option ℕ → Option ℕ → Bool
same_count none none = true
same_count (some m) (some n) = m == n
same_count none (some n) = false
same_count (some m) none = false

abbrev same_health : Option HealthState → Option HealthState → Bool
same_health none none = true
same_health (some a) (some b) = severity a == severity b
same_health none (some b) = false
same_health (some a) none = false

-- `_fingerprint(a) == _fingerprint(b)`
unfoldable pub same_fingerprint : Sequence → Sequence → Bool
same_fingerprint a b =
    place a.state == place b.state
    && same_count a.running_queries b.running_queries
    && same_health a.health_state b.health_state
    && length a.history == length b.history

-- Saved only when the fingerprint changed; the answer shows the polled sequence either way.
pub save_if_changed : Stored → Sequence → Service Sequence
save_if_changed st polled w =
    if same_fingerprint polled st.sequence
    then (ok polled, w)
    else (ok polled, (save_stored (with_sequence st polled) none w).1)

unfoldable pub refresh : Environment → ℕ → Service Sequence
unfolding save_if_changed
refresh e id = do
  st ← load_or_404 id
  polled ← lift sequence_error (poll_executor e (observe_stored e st))
  save_if_changed st polled

unfoldable pub force_drain : Environment → Principal → ℕ → String → Service Sequence
force_drain e p id override = do
  require_admin p
  st ← load_or_404 id
  forced ← lift as_invalid (force_drained override (observed e st.sequence))
  saved ←
      audited e p forced.cluster override (save_stored (with_sequence st forced) (some override))
  get e id

-- `self.executor.start(cluster, id)`
call_executor : Environment → String → ℕ → Service ExecutorState
call_executor e cluster id w = elim (e.executor.start_fails cluster id) [
  | some message ↦ (err (executor_error message), w)
  | none ↦ (
    ok (e.executor.start cluster id),
    record w { effects = w.effects ++ executor_start cluster id ∷ [] },
  )
]

-- What is logged once the executor has answered.
started_log : ExecutorState → Sequence → Sequence
started_log pending_operator s = log (restart_it_yourself s.cluster) warn s
started_log other s = log running_playbook info s

unfoldable pub restart : Environment → Principal → ℕ → Service Sequence
unfolding call_executor started_log
restart e p id = do
  require_admin p
  st ← load_or_404 id
  empty ← lift as_invalid (confirm_drained (observed e st.sequence))
  down ← lift as_invalid (mark_restarting empty)
  state ← audited e p down.cluster down.reason (call_executor e down.cluster id)
  saved ← save_stored (with_sequence st (started_log state down)) none
  get e id

unfoldable pub mark_restarted_call : Environment → Principal → ℕ → Service Sequence
mark_restarted_call e p id = do
  require_admin p
  st ← load_or_404 id
  back ← lift as_invalid (mark_restarted st.sequence)
  saved ← save_stored (observe_stored e (with_sequence st back)) none
  get e id

-- `confirm_healthy` of `complete`: a step that is only blocked is saved before it is refused.
abbrev confirm_or_save : Stored → Result SequenceError Sequence → Service Sequence
confirm_or_save st (ok s) = pure s
confirm_or_save st (err (blocked b)) = do
  saved ← save_stored st none
  raise (as_invalid (blocked b))
confirm_or_save st (err x) = raise (as_invalid x)

unfoldable pub complete_call : Environment → Principal → ℕ → Service Sequence
complete_call e p id = do
  require_admin p
  loaded ← load_or_404 id
  let st = observe_stored e loaded
  healthy ← confirm_or_save st (confirm_healthy st.sequence)
  audited e p healthy.cluster healthy.reason (set_gateway_active e healthy.cluster true)
  back ← lift sequence_error (complete healthy)
  saved ← save_stored (with_sequence st back) none
  get e id

-- `except Exception` of `abort`: the sequence stays in ABORTING, and says so.
or_stay_aborting : Stored → Result ServiceError Unit × World → Result ServiceError Unit × World
or_stay_aborting st (ok u, w) = (ok u, w)
or_stay_aborting st (err e, w) =
    let cluster = st.sequence.cluster in
    let told = log (could_not_restore (error_text cluster e) cluster) error st.sequence in
    (
      err (upstream_unavailable (not_restored cluster)),
      (save_stored (with_sequence st told) none w).1,
    )

restore_traffic : Environment → Principal → Stored → String → Service Unit
unfolding or_stay_aborting
restore_traffic e p st reason w =
    or_stay_aborting st
      (audited e p st.sequence.cluster reason (set_gateway_active e st.sequence.cluster true) w)

unfoldable pub abort : Environment → Principal → ℕ → String → Service Sequence
unfolding restore_traffic
abort e p id note = do
  require_admin p
  loaded ← load_or_404 id
  aborting ← lift as_invalid (begin_abort note loaded.sequence)
  st ← save_stored (with_sequence loaded aborting) none
  restore_traffic e p st (or_else note aborting.reason)
  aborted ← lift sequence_error (finish_abort aborting)
  saved ← save_stored (with_sequence st aborted) none
  get e id
