-- ===== src/Ops/Service/Types.antt =====
-- What the restart service works on, and what it is told from outside: the snapshots, the Gateway
-- client, the configuration, the resource group store, the executor and the audit store.
use trino_management_service.Prelude.{ℕ, String, Bool, Option, List}
use trino_management_service.Health.States.{HealthState}
use trino_management_service.Core.Audit.{AuditRecord}
use trino_management_service.Ops.Sequence.{SequenceError}
use trino_management_service.Ops.Repository.{Repository}

-- A call that changes something outside: a backend put in rotation or out of it, with whether the
-- Gateway answered without an error, or a playbook started. What is only asked of the Gateway and the
-- executor (the backends, a preflight, the state and the lines of a run) are the answers in
-- `Environment`, and is not recorded.
pub data Effect : Type 0 where
  gateway_call : String → Bool → Bool → Effect
  executor_start : String → ℕ → Effect

pub record World : Type 0 where
  pub repository : Repository
  pub effects : List Effect
  pub trail : List AuditRecord

-- `KIND_QUERIES`: the summary's counts, which are 0 where they are missing.
pub record QuerySnapshot : Type 0 where
  pub trustworthy : Bool
  pub running : ℕ
  pub queued : ℕ

-- A row of the Gateway snapshot's `backends`.
pub record Backend : Type 0 where
  pub name : String
  pub cluster : Option String

-- The states of `ops/executor.py`.
pub data ExecutorState : Type 0 where
  pending_operator executor_running succeeded failed executor_unknown : ExecutorState

pub record Probe : Type 0 where
  pub ready : Option Bool
  pub detail : String

pub record Executor : Type 0 where
  pub automated : Bool
  -- the message of the exception, if there is one
  pub preflight : String → Option String
  pub start_fails : String → ℕ → Option String
  pub start : String → ℕ → ExecutorState
  pub status : String → ℕ → ExecutorState
  -- `lines_since`, where the executor has it
  pub lines_since : Option (ℕ → ℕ → List String)
  -- the error of `result`, or the empty text
  pub result_error : ℕ → String

pub record Environment : Type 0 where
  pub query_snapshot : String → Option QuerySnapshot
  -- the inner `none` is a snapshot without a roll-up state
  pub health_snapshot : String → Option (Option HealthState)
  pub backends : List Backend
  -- `none`: the Gateway integration is off; otherwise the error of a call, if it fails
  pub gateway : Option (String → Bool → Option String)
  -- the `node_environment` of a configured cluster
  pub clusters : String → Option String
  pub config_store : Option (String → Probe)
  pub executor : Executor
  pub audit_writable : Bool
  pub audit_write_ok : Bool

-- What a refusal says.
pub data Refusal : Type 0 where
  no_permission no_reason restart_in_progress gateway_off : Refusal
  unknown_cluster no_backend preflight_refused : String → Refusal
  no_sequence : ℕ → Refusal
  not_restored : String → Refusal
  sequence_refused : SequenceError → Refusal

-- The exceptions that leave the service: those of `api/errors.py`, those of the audit guard, and
-- the raw ones of the Gateway client and the executor.
pub data ServiceError : Type 0 where
  forbidden not_found invalid_request upstream_unavailable : Refusal → ServiceError
  audit_reason_required audit_unavailable : ServiceError
  gateway_error executor_error : String → ServiceError
  sequence_error : SequenceError → ServiceError
