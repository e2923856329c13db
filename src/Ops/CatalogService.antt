-- ===== src/Ops/CatalogService.antt =====
-- tms/ops/catalogservice.py: creating, editing, deleting and deploying catalogs. A deployment goes on
-- in a thread of its own; `deploy` is the call, up to the start of the thread, and `deploy_now` what
-- the thread does once the playbook has ended. The content of the file and the command are functions
-- of the deployment's row. The tables can be reached.
pub mod Proved
pub mod Allowed
pub mod Keeping
pub mod Starting
pub mod History
pub mod Race
use trino_management_service.Prelude.{
  ℕ, String, str_eq, is_empty, Bool, true, false, not, ◌&&◌, Option, none, some, List, [], ◌∷◌,
  ◌++◌, map, mem_text, Result, ok, err, if◌then◌else◌,
}
use trino_management_service.Exec.{Exec, pure, raise, lift, modify, check, gets, after, ◌>>=◌, ◌>>◌}
use trino_management_service.Api.Permissions.{Principal, can, manage_health}
use trino_management_service.Core.Audit.Reason.{join}
use trino_management_service.Core.Audit.{
  AuditRecord, AuditError, reason_required, audit_unavailable, Outcome, success, failure, finish,
}
use trino_management_service.Ops.Catalogs.{
  Properties, CatalogError, Fields, validate, DeployRefusal, refuse_deploy, fingerprint,
}
use trino_management_service.Ops.CatalogStore.{
  Draft, DeployState, succeeded, failed, DeployAction, deploy, remove, Deployment,
  CatalogRepository, create, get, update, delete, start_deployment, finish_deployment,
}

pub record Settings : Type 0 where
  -- `config.cluster(name)` succeeds
  pub is_cluster : String → Bool
  pub inventories : String → Option String
  pub development : List String
  pub digest : String → String
  pub audit_writable : Bool
  pub audit_write_ok : Bool

pub record World : Type 0 where
  pub repository : CatalogRepository
  pub busy : String → Bool
  pub trail : List AuditRecord

pub data CatalogServiceError : Type 0 where
  forbidden no_reason audit_down duplicate_name : CatalogServiceError
  unknown_cluster no_inventory already_running : String → CatalogServiceError
  no_catalog : ℕ → CatalogServiceError
  not_valid no_longer_valid : CatalogError → CatalogServiceError
  refused : DeployRefusal → CatalogServiceError

abbrev pub Call : Type 0 → Type 0
Call A = Exec World CatalogServiceError A

unfoldable pub require_admin : Principal → Call Unit
require_admin p = check (can manage_health p) forbidden

inventory_of : String → Option String → Call String
inventory_of cluster none = raise (no_inventory cluster)
inventory_of cluster (some i) = if is_empty i then raise (no_inventory cluster) else pure i

unfoldable pub cluster_or_404 : Settings → String → Call String
unfolding inventory_of
cluster_or_404 s cluster = do
  check (s.is_cluster cluster) (unknown_cluster cluster)
  inventory_of cluster (s.inventories cluster)

found_or_404 : ℕ → Option Draft → Call Draft
found_or_404 id none = raise (no_catalog id)
found_or_404 id (some d) = pure d

unfoldable pub draft_or_404 : ℕ → Call Draft
unfolding found_or_404
draft_or_404 id w = found_or_404 id (get id w.repository) w

abbrev audit_error : AuditError → CatalogServiceError
audit_error reason_required = no_reason
audit_error audit_unavailable = audit_down

outcome_of : {A : Type 0} → Result CatalogServiceError A → Outcome
outcome_of (ok a) = success
outcome_of (err x) = failure

audited_body : {A : Type 0} → Settings → Call A → Result AuditError AuditRecord → Call A
unfolding outcome_of
audited_body s body (err x) w = (err (audit_error x), w)
audited_body s body (ok r) w =
    let (result, w') = body w in
    (result, record w' { trail = finish s.audit_write_ok (outcome_of result) r w'.trail })

-- `with self._audited(...): body`
unfoldable pub audited :
    {A : Type 0} → Settings → Principal → String → String → Option String → Call A → Call A
unfolding audited_body
audited s p action_type target reason body = audited_body s body (
    trino_management_service.Core.Audit.action s.audit_writable p.username p.roles action_type
      target reason)

create_row : Option (Draft × CatalogRepository) → Call Draft
create_row none w = (err duplicate_name, w)
create_row (some (row, repository)) w = (ok row, record w { repository = repository })

-- `CatalogService.create`
unfoldable pub create_catalog :
    Settings
    → Principal
    → String
    → String
    → List (String × Option String)
    → Option String
    → Option String
    → Call Draft
unfolding create_row
create_catalog s p name connector properties reason notes = do
  require_admin p
  fields ← lift not_valid (validate name connector properties)
  audited s p "CATALOG_CHANGE" fields.name reason (λ w.
      create_row
        (create fields.name fields.connector fields.properties notes p.username w.repository) w)

abbrev pub given : Properties → List (String × Option String)
given properties = map (λ item. (item.0, some item.1)) properties

-- The changes of `save`: an edit of what the file says takes the mark away.
unfoldable pub edit : Settings → Fields → Option String → String → Draft → Draft → Draft
edit s fields notes username existing row =
    let changed = record row {
      connector = fields.connector;
      properties = fields.properties;
      notes = notes;
      updated_by = some username;
    } in
    if str_eq (fingerprint s.digest existing.connector existing.properties)
      (fingerprint s.digest fields.connector fields.properties)
    then changed
    else record changed { verified_on = none }

update_row : ℕ → (Draft → Draft) → Call Unit
update_row id change =
    modify (λ (w : World). record w { repository = update id change w.repository })

-- `CatalogService.save`
unfoldable pub save :
    Settings
    → Principal
    → ℕ
    → String
    → List (String × Option String)
    → Option String
    → Option String
    → Call Unit
unfolding update_row
save s p id connector properties reason notes = do
  require_admin p
  existing ← draft_or_404 id
  fields ← lift not_valid (validate existing.name connector properties)
  audited s p "CATALOG_CHANGE" existing.name reason
      (update_row id (edit s fields notes p.username existing))

delete_row : ℕ → Call Unit
delete_row id = modify (λ (w : World). record w { repository = delete id w.repository })

-- `CatalogService.delete`
unfoldable pub delete_catalog : Settings → Principal → ℕ → Option String → Call Unit
unfolding delete_row
delete_catalog s p id reason = do
  require_admin p
  existing ← draft_or_404 id
  audited s p "CATALOG_CHANGE" existing.name reason (delete_row id)

check_refusal : Option DeployRefusal → Call Unit
check_refusal none = pure tt
check_refusal (some r) = raise (refused r)

-- The checks of a deployment that is not a removal.
unfoldable pub check_deploy : Settings → DeployAction → Draft → String → Call Unit
unfolding check_refusal
check_deploy s remove draft cluster = pure tt
check_deploy s deploy draft cluster = do
  fields ← lift no_longer_valid (validate draft.name draft.connector (given draft.properties))
  check_refusal (refuse_deploy draft.verified_on cluster s.development)

abbrev set_busy : String → Bool → World → World
set_busy cluster b w = record w { busy = λ c. if str_eq c cluster then b else w.busy c }

take_busy : String → Call Unit
take_busy cluster = do
  idle ← gets (λ (w : World). not (w.busy cluster))
  check idle (already_running cluster)
  modify (set_busy cluster true)

start_row : Principal → Draft → String → DeployAction → Option String → Call Deployment
start_row p draft cluster action reason w =
    let (row, repository) = start_deployment draft cluster action reason p.username w.repository in
    (ok row, record w { repository = repository })

-- `except Exception`: the cluster is free again.
or_release :
    {A : Type 0}
    → String
    → Result CatalogServiceError A × World
    → Result CatalogServiceError A × World
or_release cluster (ok a, w) = (ok a, w)
or_release cluster (err x, w) = (err x, set_busy cluster false w)

begin : Settings → Principal → Draft → String → DeployAction → Option String → Call Deployment
unfolding or_release start_row
begin s p draft cluster action reason w = or_release cluster (
    audited s p "CATALOG_DEPLOY" (join cluster (join ":" draft.name)) reason
      (start_row p draft cluster action reason) w)

-- `CatalogService.deploy`, where the action is one of the two that there are.
unfoldable pub deploy_catalog :
    Settings → Principal → ℕ → String → Option String → DeployAction → Call Deployment
unfolding take_busy begin
deploy_catalog s p id cluster reason action = do
  require_admin p
  inventory ← cluster_or_404 s cluster
  draft ← draft_or_404 id
  check_deploy s action draft cluster
  take_busy cluster
  begin s p draft cluster action reason

abbrev is_deploy : DeployAction → Bool
is_deploy deploy = true
is_deploy remove = false

abbrev pub mark_verified : String → Draft → Draft
mark_verified cluster row = record row { verified_on = some cluster }

-- `_deploy_now` for the row of a deployment, once its playbook has failed with a message or succeeded.
unfoldable pub deploy_now : Settings → Deployment → Option String → World → World
unfolding delete_row
deploy_now s row (some message) w =
    set_busy row.cluster false
      (record w { repository = finish_deployment row.id failed (some message) w.repository })
deploy_now s row none w =
    let finished = finish_deployment row.id succeeded none w.repository in
    let marked =
      if is_deploy row.action && mem_text row.cluster s.development
      then update row.catalog_id (mark_verified row.cluster) finished
      else finished in
    set_busy row.cluster false (record w { repository = marked })
