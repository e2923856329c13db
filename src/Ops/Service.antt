-- ===== src/Ops/Service.antt =====
-- tms/ops/service.py: driving the restart sequence. The world that a call changes is the
-- repository, the audit trail and the calls made to the Gateway and to the executor; what the
-- outside answers during the call is an argument, `Environment`.
pub mod Types
pub mod Calls
use trino_management_service.Prelude.{
  ℕ, zero, suc, ◌+◌, String, Bool, true, false, not, ◌&&◌, ◌||◌, Option, none, some, List, [], ◌∷◌,
  ◌++◌, Result, ok, err, length, count, ◌==◌, str_eq, is_empty, is_blank, or_else, if◌then◌else◌,
  ◌≡◌, refl,
}
use trino_management_service.Exec.{Exec, pure, raise, check, ◌>>=◌}
use trino_management_service.Api.Permissions.{Principal, manage_health, can}
use trino_management_service.Core.Audit.{
  AuditRecord, AuditError, reason_required, audit_unavailable, Outcome, success, failure, action,
  finish,
}
use trino_management_service.Health.States.{HealthState, severity}
use trino_management_service.Ops.Sequence.{
  State, draining, drained, restarting, verifying, state_in, same_state, place, Level, info, warn,
  error, output, Event, Message, could_not_stop, playbook_line, playbook_finished, playbook_failed,
  lost_sight, restart_it_yourself, running_playbook, could_not_restore, SequenceError, Sequence,
  new, log, begin, observe, observe_config_store, confirm_drained, force_drained, mark_restarting,
  mark_restarted, confirm_healthy, complete, begin_abort, finish_abort,
}
use trino_management_service.Ops.Repository.{Repository, Stored, mark_persisted, load, save}
use trino_management_service.Ops.Service.Types.{
  Effect, gateway_call, executor_start, World, QuerySnapshot, Backend, ExecutorState,
  pending_operator, executor_running, succeeded, failed, executor_unknown, Probe, Executor,
  Environment, Refusal, no_permission, no_reason, unknown_cluster, no_sequence, preflight_refused,
  restart_in_progress, gateway_off, no_backend, not_restored, sequence_refused, ServiceError,
  forbidden, not_found, invalid_request, upstream_unavailable, audit_reason_required, gateway_error,
  executor_error, sequence_error,
}

abbrev pub Service : Type 0 → Type 0
Service A = Exec World ServiceError A

unfoldable pub require_admin : Principal → Service Unit
require_admin p = check (can manage_health p) (forbidden no_permission)

abbrev is_some : {A : Type 0} → Option A → Bool
is_some none = false
is_some (some a) = true

unfoldable pub cluster_or_404 : Environment → String → Service Unit
cluster_or_404 e cluster =
    check (is_some (e.clusters cluster)) (not_found (unknown_cluster cluster))

abbrev audit_error : AuditError → ServiceError
audit_error reason_required = audit_reason_required
audit_error audit_unavailable = ServiceError.audit_unavailable

-- `with self._audited(principal, cluster, reason): body`
outcome_of : {A : Type 0} → Result ServiceError A → Outcome
outcome_of (ok a) = success
outcome_of (err x) = failure

audited_body : {A : Type 0} → Environment → Service A → Result AuditError AuditRecord → Service A
unfolding outcome_of
audited_body e body (err x) w = (err (audit_error x), w)
audited_body e body (ok r) w =
    let (result, w') = body w in
    (result, record w' { trail = finish e.audit_write_ok (outcome_of result) r w'.trail })

unfoldable pub audited :
    {A : Type 0} → Environment → Principal → String → String → Service A → Service A
unfolding audited_body
audited e p cluster reason body =
    audited_body e body
      (action e.audit_writable p.username p.roles "CLUSTER_RESTART" cluster (some reason))

abbrev pub running_of : Option QuerySnapshot → Option ℕ
running_of none = none
running_of (some q) = if q.trustworthy then some (q.running + q.queued) else none

abbrev pub health_of : Option (Option HealthState) → Option HealthState
health_of none = none
health_of (some h) = h

abbrev or_kept_health : Option HealthState → Sequence → Sequence
or_kept_health none s = s
or_kept_health (some h) s = record s { health_state = some h }

-- The first half of `_observe`: an untrusted or missing query snapshot leaves the count as it was.
observe_cluster : Option ℕ → Option HealthState → Sequence → Sequence
observe_cluster (some n) health s = observe n health s
observe_cluster none health s = or_kept_health health s

-- The probe of the cluster's environment, where there is a store and the cluster is configured.
abbrev pub probe_of : Option (String → Probe) → Option String → Option Probe
probe_of none c = none
probe_of (some probe) none = none
probe_of (some probe) (some node_environment) = some (probe node_environment)

abbrev note_probe : Option Probe → Sequence → Sequence
note_probe none s = s
note_probe (some p) s = observe_config_store p.ready p.detail s

-- `_observe_config_store`: only while draining or drained.
unfoldable pub check_config_store : Environment → Sequence → Sequence
check_config_store e s =
    if state_in s.state (draining ∷ drained ∷ [])
    then note_probe (probe_of e.config_store (e.clusters s.cluster)) s
    else s

unfoldable pub observed : Environment → Sequence → Sequence
unfolding observe_cluster check_config_store
observed e s = check_config_store e (
    observe_cluster (running_of (e.query_snapshot s.cluster))
      (health_of (e.health_snapshot s.cluster)) s)

-- `_observe`
abbrev pub observe_stored : Environment → Stored → Stored
observe_stored e st = record st { sequence = observed e st.sequence }

abbrev is_output : Level → Bool
is_output output = true
is_output _ = false

log_lines : List String → Sequence → Sequence
log_lines [] s = s
log_lines (l ∷ rest) s = log_lines rest (log (playbook_line l) output s)

abbrev new_lines : Option (ℕ → ℕ → List String) → ℕ → Sequence → List String
new_lines none id s = []
new_lines (some lines) id s = lines id (count (λ (v : Event). is_output v.level) s.history)

-- What the executor's state means for a sequence whose new output is logged.
react : Executor → ExecutorState → ℕ → Sequence → Result SequenceError Sequence
react x succeeded id s = mark_restarted (log playbook_finished info s)
react x failed id s = ok (log (playbook_failed (x.result_error id) s.cluster) error s)
react x executor_unknown id s = ok (log (lost_sight s.cluster) warn s)
react x pending_operator id s = ok s
react x executor_running id s = ok s

unfoldable pub poll_executor : Environment → Stored → Result SequenceError Sequence
unfolding log_lines react
poll_executor e st =
    let s = st.sequence in
    if same_state s.state restarting && e.executor.automated
    then react e.executor (e.executor.status s.cluster st.id) st.id
        (log_lines (new_lines e.executor.lines_since st.id s) s)
    else ok s

find_backend : String → List Backend → Option String
find_backend cluster [] = none
find_backend cluster (b ∷ rest) =
    let later = find_backend cluster rest in
    elim b.cluster [ none ↦ later | some c ↦ if str_eq c cluster then some b.name else later ]

unfoldable pub backend_name : Environment → String → Service String
unfolding find_backend
backend_name e cluster = elim (find_backend cluster e.backends) [
  | none ↦ raise (upstream_unavailable (no_backend cluster))
  | some name ↦ pure name
]

-- `self.gateway.set_active(backend, active)`
call_gateway : (String → Bool → Option String) → String → Bool → Service Unit
call_gateway answer backend active w = elim (answer backend active) [
  | none ↦ (ok tt, record w { effects = w.effects ++ gateway_call backend active true ∷ [] })
  | some message ↦ (
    err (gateway_error message),
    record w { effects = w.effects ++ gateway_call backend active false ∷ [] },
  )
]

unfoldable pub set_gateway_active : Environment → String → Bool → Service Unit
unfolding backend_name call_gateway
set_gateway_active e cluster active = elim e.gateway [
  | none ↦ raise (upstream_unavailable gateway_off)
  | some answer ↦ do backend ← backend_name e cluster; call_gateway answer backend active
]

unfoldable pub load_or_404 : ℕ → Service Stored
load_or_404 id w = elim (load id w.repository) [
  | none ↦ (err (not_found (no_sequence id)), w)
  | some st ↦ (ok st, w)
]

-- `self.repository.save(stored, force_reason)`; what is stored is then marked as persisted.
unfoldable pub save_stored : Stored → Option String → Service Stored
save_stored st force_reason w =
    (ok (mark_persisted st), record w { repository = save st force_reason w.repository })

-- The sequence that `get` shows; it observes, and does not save.
unfoldable pub get : Environment → ℕ → Service Sequence
unfolding load_or_404
get e id = do st ← load_or_404 id; pure (observed e st.sequence)
