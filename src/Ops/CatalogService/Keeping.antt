-- ===== src/Ops/CatalogService/Keeping.antt =====
-- tms/ops/catalogservice.py: what creating, editing and deleting keeps.
use trino_management_service.Prelude.{
  ℕ, String, true, Option, some, List, ◌≡◌, inl, inr, arith, Bool-cases, Option-cases, Result-cases,
}
use trino_management_service.Api.Permissions.{Principal, can, manage_health}
use trino_management_service.Core.Audit.{action}
use trino_management_service.Ops.Catalogs.{Properties, validate}
use trino_management_service.Ops.CatalogStore.{Draft, CatalogRepository, create, get}
use trino_management_service.Ops.CatalogService.{
  Settings, World, Call, edit, require_admin, draft_or_404, audited, audited_body, create_catalog,
  save, delete_catalog, create_row, found_or_404, update_row, delete_row,
}
use trino_management_service.Ops.CatalogService.Proved.{
  is_proved, create-is_proved, delete-is_proved, change_draft-is_proved, edit-draft_proved,
  find-all, draft_proved,
}

module _ (s : Settings) where
  audited-is_proved :
      {A : Type 0} (p : Principal) (action_type target : String) (reason : Option String)
      (body : Call A) (w : World)
      → is_proved s w.repository ≡ true
      → is_proved s (body w).1.repository ≡ true
      → is_proved s (audited s p action_type target reason body w).1.repository ≡ true
  unfolding audited audited_body
  audited-is_proved {A} p action_type target reason body w h k =
      elim (Result-cases (action s.audit_writable p.username p.roles action_type target reason)) [
        | inl (x, refused) ↦ rw refused h
        | inr (r, fine) ↦ rw fine k
      ]

  create_row-is_proved :
      (name connector : String) (properties : Properties) (notes : Option String) (actor : String)
      (w : World)
      → is_proved s w.repository ≡ true
      → is_proved s
          (create_row (create name connector properties notes actor w.repository) w).1.repository
        ≡ true
  unfolding create_row
  create_row-is_proved name connector properties notes actor w h =
      elim (Option-cases (create name connector properties notes actor w.repository)) [
        | inl taken ↦ rw taken h
        | inr ((d, repo), made) ↦
            rw made (create-is_proved s name connector properties notes actor w.repository made h)
      ]

  pub create_catalog-is_proved :
      (p : Principal) (name connector : String) (properties : List (String × Option String))
      (reason notes : Option String) (w : World)
      → is_proved s w.repository ≡ true
      → is_proved s (create_catalog s p name connector properties reason notes w).1.repository
        ≡ true
  unfolding create_catalog require_admin
  create_catalog-is_proved p name connector properties reason notes w h =
      elim (Bool-cases (can manage_health p)) [
        | inr no_right ↦ rw no_right h
        | inl may ↦ elim (Result-cases (validate name connector properties)) [
          | inl (x, bad) ↦ rw (may, bad) h
          | inr (fields, good) ↦
              rw (may, good)
                (audited-is_proved p "CATALOG_CHANGE" fields.name reason
                  (λ (v : World).
                    create_row
                      (create fields.name fields.connector fields.properties notes p.username
                        v.repository)
                      v)
                  w h
                  (create_row-is_proved fields.name fields.connector fields.properties notes
                    p.username w h))
        ]
      ]

  pub find-draft_proved :
      (id : ℕ) (repo : CatalogRepository) {d : Draft}
      → get id repo ≡ some d
      → is_proved s repo ≡ true
      → draft_proved s repo.deployments d ≡ true
  unfolding get is_proved
  find-draft_proved id repo found h =
      find-all s (draft_proved s repo.deployments) id repo.drafts found (ground (arith, h))

  pub save-is_proved :
      (p : Principal) (id : ℕ) (connector : String) (properties : List (String × Option String))
      (reason notes : Option String) (w : World)
      → is_proved s w.repository ≡ true
      → is_proved s (save s p id connector properties reason notes w).1.repository ≡ true
  unfolding save require_admin draft_or_404 found_or_404
  save-is_proved p id connector properties reason notes w h =
      elim (Bool-cases (can manage_health p)) [
        | inr no_right ↦ rw no_right h
        | inl may ↦ elim (Option-cases (get id w.repository)) [
          | inl missing ↦ rw (may, missing) h
          | inr (d, found) ↦ elim (Result-cases (validate d.name connector properties)) [
            | inl (x, bad) ↦ rw (may, found, bad) h
            | inr (fields, good) ↦
                rw (may, found, good)
                  (audited-is_proved p "CATALOG_CHANGE" d.name reason
                    (update_row id (edit s fields notes p.username d)) w h
                    (unfold update_row in
                      change_draft-is_proved s id (edit s fields notes p.username d) w.repository
                        found
                        (edit-draft_proved s fields notes p.username w.repository.deployments d
                          (find-draft_proved id w.repository found h))
                        h))
          ]
        ]
      ]

  pub delete_catalog-is_proved :
      (p : Principal) (id : ℕ) (reason : Option String) (w : World)
      → is_proved s w.repository ≡ true
      → is_proved s (delete_catalog s p id reason w).1.repository ≡ true
  unfolding delete_catalog require_admin draft_or_404 found_or_404
  delete_catalog-is_proved p id reason w h = elim (Bool-cases (can manage_health p)) [
    | inr no_right ↦ rw no_right h
    | inl may ↦ elim (Option-cases (get id w.repository)) [
      | inl missing ↦ rw (may, missing) h
      | inr (d, found) ↦
          rw (may, found)
            (audited-is_proved p "CATALOG_CHANGE" d.name reason (delete_row id) w h
              (unfold delete_row in delete-is_proved s id w.repository h))
    ]
  ]
