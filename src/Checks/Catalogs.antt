-- ===== src/Checks/Catalogs.antt =====
-- Catalogs on concrete inputs: a development cluster "dev" and one that serves queries, "prod".
use trino_management_service.Prelude.{
  ◌≤◌, ◌≡◌, refl, true, false, ok, String, Option, str_eq, some, none, List, [], ◌∷◌, all, length,
  strip, ◌||◌,
}
use trino_management_service.Api.Permissions.{Principal, principal, can, capabilities}
use trino_management_service.Core.Audit.{action}
use trino_management_service.Core.Audit.Reason.{normalise_reason}
use trino_management_service.Ops.Patterns.{is_name, is_secret_key, is_env_reference}
use trino_management_service.Ops.Catalogs.{
  Fields, max_properties, validate, refuse_deploy, fingerprint,
}
use trino_management_service.Ops.Catalogs.Secrets.{is_storable, validate-storable}
use trino_management_service.Ops.CatalogStore.{
  Draft, Deployment, deploy, get, update, start_deployment,
}
use trino_management_service.Ops.CatalogService.{
  Settings, World, edit, save, deploy_catalog, mark_verified, deploy_now, require_admin,
  cluster_or_404, draft_or_404, check_deploy, audited,
}
use trino_management_service.Ops.CatalogService.Allowed.{started_row}
use trino_management_service.Ops.CatalogService.Proved.{is_proved}
use trino_management_service.Ops.CatalogService.History.{
  Step, create_step, save_step, deploy_step, run, new_world, run-is_proved,
}
use trino_management_service.Ops.CatalogService.Race.{was_sent, edit_while_deploying}

abbrev settings : Settings
settings = record {
  is_cluster = λ c. str_eq c "dev" || str_eq c "prod";
  inventories = λ c. some "hosts";
  development = "dev" ∷ [];
  digest = λ t. t;
  audit_writable = true;
  audit_write_ok = true;
}

abbrev admin : Principal
admin = principal "ann" ("admin" ∷ []) none

abbrev steps : List Step
steps =
    create_step admin "hive" "hive" (("connection-password", some "${ENV:PW}") ∷ []) (some "new")
      none
    ∷ deploy_step admin 1 "dev" (some "try it") deploy none
    ∷ deploy_step admin 1 "prod" (some "go") deploy none
    ∷ save_step admin 1 "iceberg" [] (some "change") none
    ∷ deploy_step admin 1 "prod" (some "again") deploy none
    ∷ []

run-is_proved_example : is_proved settings (run settings steps new_world).repository ≡ true
run-is_proved_example = run-is_proved settings steps

abbrev stored : Fields
stored = record {
  name = "hive";
  connector = "hive";
  properties = ("connection-password", " ${ENV:PW} ") ∷ [];
}

validate-storable_example :
    (is_name stored.name ≡ true)
    × (is_name stored.connector ≡ true)
    × (length stored.properties ≤ max_properties)
    × (all is_storable stored.properties ≡ true)
validate-storable_example =
    validate-storable " hive" "hive "
      ((" ", none) ∷ ("connection-password ", some " ${ENV:PW} ") ∷ []) {fields = stored}
      (unfold validate is_name strip is_secret_key is_env_reference in refl)

abbrev draft : Draft
draft = record {
  id = 1;
  name = "hive";
  connector = "hive";
  properties = [];
  notes = none;
  verified_on = none;
  created_by = "ann";
  updated_by = none;
}

abbrev world : World
world = record new_world {
  repository = record new_world.repository { drafts = draft ∷ []; next_id = 2 };
}

abbrev changed : List (String × Option String)
changed = ("connection-password", some "${ENV:PW}") ∷ []

abbrev edited : Draft
edited = record draft {
  properties = ("connection-password", "${ENV:PW}") ∷ [];
  updated_by = some "ann";
}

abbrev row : Deployment
row = started_row settings draft "dev" deploy (some "try") "ann" 1

-- After the start of the deployment, and after the edit.
abbrev started : World
started = (deploy_catalog settings admin 1 "dev" (some "try") deploy world).1

abbrev saved : World
saved = (save settings admin 1 "hive" changed (some "change") none started).1

-- Both calls succeed, and what the edit says is in no deployment.
calls_succeed :
    (deploy_catalog settings admin 1 "dev" (some "try") deploy world ≡ (ok row, started))
    × (save settings admin 1 "hive" changed (some "change") none started ≡ (ok tt, saved))
    × (get 1 saved.repository ≡ some edited)
    × (was_sent settings edited.connector edited.properties started.repository.deployments ≡ false)
unfolding save deploy_catalog require_admin cluster_or_404 draft_or_404 check_deploy audited can
    principal capabilities validate is_name action normalise_reason refuse_deploy start_deployment
    get strip is_secret_key is_env_reference update edit fingerprint
calls_succeed = (refl, refl, refl, refl)

edit_while_deploying_example :
    let after = (deploy_now settings row none saved).repository in
    (get 1 after ≡ some (mark_verified "dev" edited))
    × (was_sent settings edited.connector edited.properties after.deployments ≡ false)
edit_while_deploying_example =
    edit_while_deploying settings admin admin 1 "dev" "hive" changed (some "try") (some "change")
      none world {row = row} {started = started} {saved = saved} {edited = edited} refl
      calls_succeed.0 calls_succeed.1 calls_succeed.2 calls_succeed.3
