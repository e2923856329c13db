-- ===== src/Ops/CatalogStore.antt =====
-- tms/ops/catalogstore.py: the in-memory repository of catalog drafts and of their deployments. The
-- times are left out.
use trino_management_service.Prelude.{
  ℕ, suc, ◌==◌, String, str_eq, not, Option, none, some, List, [], ◌∷◌, ◌++◌, any, keep,
  if◌then◌else◌,
}
use trino_management_service.Ops.Catalogs.{Properties}

pub record Draft : Type 0 where
  pub id : ℕ
  pub name : String
  pub connector : String
  pub properties : Properties
  pub notes : Option String
  pub verified_on : Option String
  pub created_by : String
  pub updated_by : Option String

pub data DeployState : Type 0 where
  running succeeded failed : DeployState

pub data DeployAction : Type 0 where
  deploy remove : DeployAction

pub record Deployment : Type 0 where
  pub id : ℕ
  pub catalog_id : ℕ
  pub catalog_name : String
  pub cluster : String
  pub action : DeployAction
  pub connector : String
  pub properties : Properties
  pub state : DeployState
  pub detail : Option String
  pub reason : Option String
  pub actor : String

pub record CatalogRepository : Type 0 where
  pub drafts : List Draft
  pub deployments : List Deployment
  pub next_id : ℕ
  pub next_deploy : ℕ

-- `InMemoryCatalogRepository()`
abbrev pub new_repository : CatalogRepository
new_repository = record { drafts = []; deployments = []; next_id = 1; next_deploy = 1 }

-- `none` is `DuplicateCatalog`.
unfoldable pub create :
    String
    → String
    → Properties
    → Option String
    → String
    → CatalogRepository
    → Option (Draft × CatalogRepository)
create name connector properties notes actor repo =
    let row : Draft = record {
      id = repo.next_id;
      name = name;
      connector = connector;
      properties = properties;
      notes = notes;
      verified_on = none;
      created_by = actor;
      updated_by = none;
    } in
    if any (λ (d : Draft). str_eq d.name name) repo.drafts
    then none
    else some (row, record repo { drafts = repo.drafts ++ row ∷ []; next_id = suc repo.next_id })

abbrev pub find_draft : ℕ → List Draft → Option Draft
find_draft id [] = none
find_draft id (d ∷ rest) = if d.id == id then some d else find_draft id rest

unfoldable pub get : ℕ → CatalogRepository → Option Draft
get id repo = find_draft id repo.drafts

-- `update`, whose changes are a function of the row: the first row with the id is changed.
abbrev pub update_first : ℕ → (Draft → Draft) → List Draft → List Draft
update_first id change [] = []
update_first id change (d ∷ rest) =
    if d.id == id then change d ∷ rest else d ∷ update_first id change rest

unfoldable pub update : ℕ → (Draft → Draft) → CatalogRepository → CatalogRepository
update id change repo = record repo { drafts = update_first id change repo.drafts }

unfoldable pub delete : ℕ → CatalogRepository → CatalogRepository
delete id repo = record repo { drafts = keep (λ (d : Draft). not (d.id == id)) repo.drafts }

unfoldable pub start_deployment :
    Draft
    → String
    → DeployAction
    → Option String
    → String
    → CatalogRepository
    → Deployment × CatalogRepository
start_deployment draft cluster action reason actor repo =
    let row : Deployment = record {
      id = repo.next_deploy;
      catalog_id = draft.id;
      catalog_name = draft.name;
      cluster = cluster;
      action = action;
      connector = draft.connector;
      properties = draft.properties;
      state = running;
      detail = none;
      reason = reason;
      actor = actor;
    } in
    (
      row,
      record repo {
        deployments = repo.deployments ++ row ∷ [];
        next_deploy = suc repo.next_deploy;
      },
    )

abbrev pub finish_rows : ℕ → DeployState → Option String → List Deployment → List Deployment
finish_rows id state detail [] = []
finish_rows id state detail (row ∷ rest) =
    let later = finish_rows id state detail rest in
    if row.id == id then record row { state = state; detail = detail } ∷ later else row ∷ later

unfoldable pub finish_deployment :
    ℕ → DeployState → Option String → CatalogRepository → CatalogRepository
finish_deployment id state detail repo = record repo {
  deployments = finish_rows id state detail repo.deployments;
}
