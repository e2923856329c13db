-- ===== src/Ops/CatalogService/Starting.antt =====
-- tms/ops/catalogservice.py: what the start of a deployment does.
use trino_management_service.Prelude.{
  ℕ, String, true, Option, none, some, Result, ok, err, ◌≡◌, refl, ap, inl, inr, arith, Bool-cases,
  Option-cases, Result-cases,
}
use trino_management_service.Exec.{Exec-cases}
use trino_management_service.Api.Permissions.{Principal, can, manage_health}
use trino_management_service.Core.Audit.{AuditError, AuditRecord, action}
use trino_management_service.Ops.Catalogs.{validate, refuse_deploy}
use trino_management_service.Ops.CatalogStore.{
  Draft, DeployAction, deploy, remove, Deployment, get, start_deployment,
}
use trino_management_service.Ops.CatalogService.{
  Settings, World, CatalogServiceError, is_deploy, require_admin, cluster_or_404, draft_or_404,
  audited, audited_body, check_deploy, take_busy, begin, deploy_catalog, found_or_404, inventory_of,
  check_refusal, start_row, or_release, given,
}
use trino_management_service.Ops.CatalogService.Allowed.{started_row}

module _ (s : Settings) where
  check_deploy-ok :
      (act : DeployAction) (d : Draft) (cluster : String) (w : World) {u : Unit} {v : World}
      → check_deploy s act d cluster w ≡ (ok u, v)
      → (v ≡ w) × (is_deploy act ≡ true → refuse_deploy d.verified_on cluster s.development ≡ none)
  unfolding check_deploy check_refusal
  check_deploy-ok remove d cluster w h = ground (arith, h)
  check_deploy-ok deploy d cluster w h =
      elim (Result-cases (validate d.name d.connector (given d.properties))) [
        | inl (x, bad) ↦ ground (arith, rw bad at h)
        | inr (fields, good) ↦
            elim (Option-cases (refuse_deploy d.verified_on cluster s.development)) [
              | inl fine ↦ ground (arith, rw (good, fine) at h, fine)
              | inr (r, bad) ↦ ground (arith, rw (good, bad) at h)
            ]
      ]

  -- What a deployment does to the repository, if it starts.
  unfoldable pub Started :
      Principal
      → ℕ
      → String
      → Option String
      → DeployAction
      → World
      → Result CatalogServiceError Deployment × World
      → Type 0
  Started p id cluster reason act w (err x, v) = v.repository ≡ w.repository
  Started p id cluster reason act w (ok row, v) =
      (d : Draft) × (get id w.repository ≡ some d)
      × (is_deploy act ≡ true → refuse_deploy d.verified_on cluster s.development ≡ none)
      × (row ≡ started_row s d cluster act reason p.username w.repository.next_deploy)
      × (v.repository ≡ (start_deployment d cluster act reason p.username w.repository).1)

  begin-Started :
      (p : Principal) (id : ℕ) (d : Draft) (cluster : String) (act : DeployAction)
      (reason : Option String) (w v : World)
      → v.repository ≡ w.repository
      → get id w.repository ≡ some d
      → (is_deploy act ≡ true → refuse_deploy d.verified_on cluster s.development ≡ none)
      → Started p id cluster reason act w (begin s p d cluster act reason v)
  unfolding Started begin or_release audited audited_body start_row start_deployment
  begin-Started p id d cluster act reason w v same found gate =
      elim (Result-cases (
        action s.audit_writable p.username p.roles "CATALOG_DEPLOY"
          (trino_management_service.Core.Audit.Reason.join cluster
            (trino_management_service.Core.Audit.Reason.join ":" d.name))
          reason)) [
            | inl (x, refused) ↦ rw refused same
            | inr (r, fine) ↦ rw (fine, same) (d, found, gate, refl, refl)
          ]

  cluster_keeps : (cluster : String) (w : World) → (cluster_or_404 s cluster w).1 ≡ w
  unfolding cluster_or_404 inventory_of
  cluster_keeps cluster w = ground arith

  check_deploy_keeps :
      (act : DeployAction) (d : Draft) (cluster : String) (w : World)
      → (check_deploy s act d cluster w).1 ≡ w
  unfolding check_deploy check_refusal
  check_deploy_keeps remove d cluster w = refl
  check_deploy_keeps deploy d cluster w =
      elim (Result-cases (validate d.name d.connector (given d.properties))) [
        | inl (x, bad) ↦ rw bad refl
        | inr (fields, good) ↦ rw good (ground arith)
      ]

  busy_keeps : (cluster : String) (w : World) → (take_busy cluster w).1.repository ≡ w.repository
  unfolding take_busy
  busy_keeps cluster w = ground arith

  pub deploy_catalog-Started :
      (p : Principal) (id : ℕ) (cluster : String) (reason : Option String) (act : DeployAction)
      (w : World)
      → Started p id cluster reason act w (deploy_catalog s p id cluster reason act w)
  unfolding deploy_catalog require_admin draft_or_404 found_or_404 Started
  deploy_catalog-Started p id cluster reason act w = elim (Bool-cases (can manage_health p)) [
    | inr no_right ↦ rw no_right refl
    | inl may ↦ elim (Exec-cases (cluster_or_404 s cluster w)) [
      | inl (x, v, bad) ↦
          (let same = cluster_keeps cluster w in
            rw (may, bad) (ap (λ (u : World). u.repository) (rw bad at same)))
      | inr (i, v, good) ↦
          (let same : v ≡ w = (let k = cluster_keeps cluster w in rw good at k) in
            elim (Option-cases (get id w.repository)) [
              | inl missing ↦ rw (may, good, same, missing) refl
              | inr (d, found) ↦ elim (Exec-cases (check_deploy s act d cluster w)) [
                | inl (x, u, bad) ↦
                    (let k = check_deploy_keeps act d cluster w in
                      rw (may, good, same, found, bad)
                        (ap (λ (u : World). u.repository) (rw bad at k)))
                | inr (t, u, checked) ↦
                    let (still, gate) = check_deploy-ok act d cluster w checked in
                    let free = busy_keeps cluster w in
                    elim (Exec-cases (take_busy cluster w)) [
                      | inl (x, b, bad) ↦
                          rw (may, good, same, found, checked, still, bad) (rw bad at free)
                      | inr (q, b, taken) ↦
                          rw (may, good, same, found, checked, still, taken)
                            (begin-Started p id d cluster act reason w b (rw taken at free) found
                              gate)
                    ]
              ]
            ])
    ]
  ]
