-- ===== src/Core/Audit.antt =====
-- tms/core/audit.py: the guard around every write action. The time stamp and the request id of a
-- record are left out; both are fresh values that nothing compares.
pub mod Reason
use trino_management_service.Prelude.{
  ℕ, ◌+◌, ◌-◌, String, Bool, true, false, Option, none, some, List, [], ◌∷◌, ◌++◌, Result, ok, err,
  ltb, if◌then◌else◌, is_empty,
}
use trino_management_service.Core.Audit.Reason.{normalise_reason}

pub data Outcome : Type 0 where
  success failure : Outcome

-- `AuditRecord`. The action type and the target kind are those of the caller.
pub record AuditRecord : Type 0 where
  pub actor : String
  pub actor_roles : List String
  pub action_type : String
  pub target_id : String
  pub reason : String
  pub outcome : Outcome

pub data AuditError : Type 0 where
  reason_required audit_unavailable : AuditError

-- `AuditGuard.action`, up to the block that it guards: the reason is checked before the storage.
unfoldable pub action :
    Bool → String → List String → String → String → Option String → Result AuditError AuditRecord
action writable actor roles action_type target_id reason = elim (normalise_reason reason) [
  | none ↦ err reason_required
  | some clean ↦
      if writable
      then ok (record {
        actor = actor;
        actor_roles = roles;
        action_type = action_type;
        target_id = target_id;
        reason = clean;
        outcome = failure;
      })
      else err audit_unavailable
]

-- `_AuditedAction.__exit__`: the record with the real outcome is appended, and a store that fails to
-- take it loses it.
unfoldable pub finish : Bool → Outcome → AuditRecord → List AuditRecord → List AuditRecord
finish write_ok outcome r trail =
    if write_ok then trail ++ record r { outcome = outcome } ∷ [] else trail
