-- ===== src/Ops/CatalogService/Race.antt =====
-- tms/ops/catalogservice.py: a draft that is edited while its deployment runs.
use trino_management_service.Prelude.{
  ℕ, ◌==◌, String, mem_text, Bool, true, false, Option, none, some, List, [], ◌∷◌, any, ok, ◌≡◌,
  refl, sym, subst, inl, inr, arith, Bool-cases,
}
use trino_management_service.Api.Permissions.{Principal}
use trino_management_service.Ops.Catalogs.{Properties}
use trino_management_service.Ops.CatalogStore.{
  Draft, Deployment, DeployState, succeeded, deploy, find_draft, update_first, finish_rows, get,
  update, finish_deployment,
}
use trino_management_service.Ops.CatalogService.{
  Settings, World, mark_verified, require_admin, draft_or_404, found_or_404, audited, audited_body,
  update_row, save, deploy_catalog, deploy_now,
}
use trino_management_service.Ops.CatalogService.Proved.{find_id, same_file}
use trino_management_service.Ops.CatalogService.Allowed.{started_row}
use trino_management_service.Ops.CatalogService.Starting.{Started, deploy_catalog-Started}

found_updated :
    (id : ℕ) (f : Draft → Draft) (ds : List Draft) {d : Draft}
    → find_draft id ds ≡ some d
    → (f d).id ≡ id
    → find_draft id (update_first id f ds) ≡ some (f d)
found_updated id f [] {d} h e = ground (arith, h)
found_updated id f (x ∷ ds) {d} h e = elim (Bool-cases (x.id == id)) [
  | inl here ↦ ground (arith, here, h, e)
  | inr there ↦
      (let ih = found_updated id f ds {d = d} (rw there at h) e in
        rw there (ground (arith, there, ih)))
]

-- Whether a deployment in the table, of whatever catalog and state, is of this file.
abbrev pub was_sent : Settings → String → Properties → List Deployment → Bool
was_sent s connector properties rows = any (λ r. same_file s r connector properties) rows

finish_rows-was_sent :
    (s : Settings) (connector : String) (properties : Properties) (id : ℕ) (state : DeployState)
    (detail : Option String) (rows : List Deployment)
    → was_sent s connector properties (finish_rows id state detail rows)
      ≡ was_sent s connector properties rows
finish_rows-was_sent s connector properties id state detail [] = refl
finish_rows-was_sent s connector properties id state detail (r ∷ rows) =
    ground (arith, finish_rows-was_sent s connector properties id state detail rows)

-- An edit leaves the deployments alone.
deployments-save :
    (s : Settings) (q : Principal) (id : ℕ) (connector : String)
    (properties : List (String × Option String)) (why notes : Option String) (w : World)
    → (save s q id connector properties why notes w).1.repository.deployments
      ≡ w.repository.deployments
unfolding save require_admin draft_or_404 found_or_404 audited audited_body update_row update
deployments-save s q id connector properties why notes w = ground arith

-- What the end of the thread makes of the repository, for a deployment to a development cluster.
marked_at_end :
    (s : Settings) (d : Draft) (id : ℕ) (cluster : String) (reason : Option String) (actor : String)
    (n : ℕ) (w : World) {edited : Draft}
    → d.id ≡ id
    → mem_text cluster s.development ≡ true
    → get id w.repository ≡ some edited
    → let after =
        (deploy_now s (started_row s d cluster deploy reason actor n) none w).repository in
      (get id after ≡ some (mark_verified cluster edited))
      × (after.deployments ≡ finish_rows n succeeded none w.repository.deployments)
unfolding get update deploy_now finish_deployment
marked_at_end s d id cluster reason actor n w {edited} same dev found =
    let marked =
      found_updated id (mark_verified cluster) w.repository.drafts {d = edited} found
        (find_id s id w.repository.drafts found) in
    rw dev (
      subst
          (λ (k : ℕ).
            find_draft id (update_first k (mark_verified cluster) w.repository.drafts)
            ≡ some (mark_verified cluster edited))
          (sym same) marked,
      refl,
    )

-- A draft is deployed to a development cluster, and before the playbook ends, with success, it is saved
-- with a text that no deployment in the table is of, the one that runs included. Then the draft bears
-- the mark of the cluster on this text, and still no deployment is of it.
pub edit_while_deploying :
    (s : Settings) (p q : Principal) (id : ℕ) (cluster connector : String)
    (properties : List (String × Option String)) (reason why notes : Option String) (w : World)
    {row : Deployment} {started saved : World} {edited : Draft}
    → mem_text cluster s.development ≡ true
    → deploy_catalog s p id cluster reason deploy w ≡ (ok row, started)
    → save s q id connector properties why notes started ≡ (ok tt, saved)
    → get id saved.repository ≡ some edited
    → was_sent s edited.connector edited.properties started.repository.deployments ≡ false
    → let after = (deploy_now s row none saved).repository in
      (get id after ≡ some (mark_verified cluster edited))
      × (was_sent s edited.connector edited.properties after.deployments ≡ false)
unfolding Started get
edit_while_deploying s p q id cluster connector properties reason why notes w {row} {started}
      {saved} {edited} dev begun edit found unsent =
    let n = w.repository.next_deploy in
    let (d, there, gate, made, rest) : Started s p id cluster reason deploy w (ok row, started) =
      subst (Started s p id cluster reason deploy w) begun
        (deploy_catalog-Started s p id cluster reason deploy w) in
    let (mark, rows) =
      marked_at_end s d id cluster reason p.username n saved {edited = edited}
        (find_id s id w.repository.drafts there) dev found in
    let kept : saved.repository.deployments ≡ started.repository.deployments =
      (let k = deployments-save s q id connector properties why notes started in rw edit at k) in
    let same =
      finish_rows-was_sent s edited.connector edited.properties n succeeded none
        saved.repository.deployments in
    rw made (mark, rw (rows, same, kept) unsent)
