-- ===== src/Ops/CatalogService/History.antt =====
-- tms/ops/catalogservice.py: calls one after another, each deployment's thread done before the next.
use trino_management_service.Prelude.{
  ℕ, suc, String, true, false, Option, none, some, List, [], ◌∷◌, ◌++◌, mem_text, Result, ok, err,
  ◌≡◌, refl, sym, subst, inl, inr, arith, any-append, eq_refl, Bool-cases,
}
use trino_management_service.Api.Permissions.{Principal}
use trino_management_service.Core.Audit.{action}
use trino_management_service.Ops.Catalogs.{refuse_deploy, fingerprint}
use trino_management_service.Ops.CatalogStore.{
  Draft, DeployAction, DeployState, succeeded, failed, deploy, remove, Deployment,
  CatalogRepository, new_repository, get, start_deployment, finish_deployment,
}
use trino_management_service.Ops.CatalogService.{
  Settings, World, CatalogServiceError, is_deploy, mark_verified, create_catalog, save,
  delete_catalog, deploy_catalog, deploy_now,
}
use trino_management_service.Ops.CatalogService.Proved.{
  is_proved, change_draft-is_proved, add_row-is_proved, find_id, finish_rows-append, draft_proved,
  proof_of_mark,
}
use trino_management_service.Ops.CatalogService.Allowed.{started_row, start-row_proved}
use trino_management_service.Ops.CatalogService.Keeping.{
  create_catalog-is_proved, save-is_proved, delete_catalog-is_proved, find-draft_proved,
}
use trino_management_service.Ops.CatalogService.Starting.{Started, deploy_catalog-Started}

pub data Step : Type 0 where
  create_step :
      Principal
      → String
      → String
      → List (String × Option String)
      → Option String
      → Option String
      → Step
  save_step :
      Principal → ℕ → String → List (String × Option String) → Option String → Option String → Step
  delete_step : Principal → ℕ → Option String → Step
  -- with what the playbook answers: a failure's message, or none
  deploy_step : Principal → ℕ → String → Option String → DeployAction → Option String → Step

run_thread : Settings → Option String → Result CatalogServiceError Deployment × World → World
run_thread s outcome (err x, w) = w
run_thread s outcome (ok row, w) = deploy_now s row outcome w

unfoldable pub apply : Settings → Step → World → World
unfolding run_thread
apply s (create_step p name connector properties reason notes) w =
    (create_catalog s p name connector properties reason notes w).1
apply s (save_step p id connector properties reason notes) w =
    (save s p id connector properties reason notes w).1
apply s (delete_step p id reason) w = (delete_catalog s p id reason w).1
apply s (deploy_step p id cluster reason action outcome) w =
    run_thread s outcome (deploy_catalog s p id cluster reason action w)

unfoldable pub run : Settings → List Step → World → World
run s [] w = w
run s (step ∷ rest) w = run s rest (apply s step w)

abbrev pub new_world : World
new_world = record { repository = new_repository; busy = λ c. false; trail = [] }

module _ (s : Settings) where
  ended_row :
      Draft
      → String
      → DeployAction
      → Option String
      → String
      → ℕ
      → DeployState
      → Option String
      → Deployment
  ended_row d cluster act reason actor n state detail =
      record (started_row s d cluster act reason actor n) { state = state; detail = detail }

  -- The repository once a deployment was started and its row finished.
  started_finished : CatalogRepository → Deployment → CatalogRepository
  started_finished repo row = record repo {
    deployments = repo.deployments ++ row ∷ [];
    next_deploy = suc repo.next_deploy;
  }

  finish-start :
      (d : Draft) (cluster : String) (act : DeployAction) (reason : Option String) (actor : String)
      (repo : CatalogRepository) (state : DeployState) (detail : Option String)
      → is_proved s repo ≡ true
      → finish_deployment repo.next_deploy state detail
          (start_deployment d cluster act reason actor repo).1
        ≡ started_finished repo (ended_row d cluster act reason actor repo.next_deploy state detail)
  unfolding finish_deployment start_deployment started_finished ended_row is_proved
  finish-start d cluster act reason actor repo state detail h =
      rw
        (finish_rows-append s repo.next_deploy state detail repo.deployments
          (started_row s d cluster act reason actor repo.next_deploy) (ground (arith, h)) refl)
        refl

  started_finished-is_proved :
      (d : Draft) (cluster : String) (act : DeployAction) (reason : Option String) (actor : String)
      (repo : CatalogRepository) (state : DeployState) (detail : Option String)
      → is_proved s repo ≡ true
      → draft_proved s repo.deployments d ≡ true
      → (is_deploy act ≡ true → refuse_deploy d.verified_on cluster s.development ≡ none)
      → is_proved s (
          started_finished repo
            (ended_row d cluster act reason actor repo.next_deploy state detail))
        ≡ true
  unfolding started_finished ended_row
  started_finished-is_proved d cluster act reason actor repo state detail h dh gate =
      add_row-is_proved s repo (ended_row d cluster act reason actor repo.next_deploy state detail)
        refl (start-row_proved s d cluster act reason actor repo h dh gate) h

  -- The mark of a deployment that succeeded is that of its own row.
  marked-draft_proved :
      (d : Draft) (cluster : String) (reason : Option String) (actor : String)
      (repo : CatalogRepository)
      → mem_text cluster s.development ≡ true
      → draft_proved s
          (started_finished repo
            (ended_row d cluster deploy reason actor repo.next_deploy succeeded none)).deployments
          (mark_verified cluster d)
        ≡ true
  unfolding started_finished ended_row
  marked-draft_proved d cluster reason actor repo dev =
      let row = ended_row d cluster deploy reason actor repo.next_deploy succeeded none in
      rw
        (any-append (λ row. proof_of_mark s d.id d.connector d.properties cluster row)
          repo.deployments (row ∷ []))
        (ground
          (arith, dev, eq_refl cluster, eq_refl (fingerprint s.digest d.connector d.properties)))

  get_started :
      (d : Draft) (id : ℕ) (repo : CatalogRepository) (row : Deployment)
      → get id repo ≡ some d
      → get d.id (started_finished repo row) ≡ some d
  unfolding get started_finished
  get_started d id repo row found =
      subst (λ (n : ℕ). get n (started_finished repo row) ≡ some d)
        (sym (find_id s id repo.drafts found)) found

  deploy_now-is_proved :
      (d : Draft) (id : ℕ) (cluster : String) (act : DeployAction) (reason : Option String)
      (actor : String) (w v : World) (outcome : Option String)
      → get id w.repository ≡ some d
      → (is_deploy act ≡ true → refuse_deploy d.verified_on cluster s.development ≡ none)
      → v.repository ≡ (start_deployment d cluster act reason actor w.repository).1
      → is_proved s w.repository ≡ true
      → is_proved s
          (deploy_now s
            (started_row s d cluster act reason actor w.repository.next_deploy)
            outcome
            v).repository
        ≡ true
  unfolding deploy_now
  deploy_now-is_proved d id cluster act reason actor w v (some message) found gate same h =
      let dh = find-draft_proved s id w.repository found h in
      rw (same, finish-start d cluster act reason actor w.repository failed (some message) h)
        (started_finished-is_proved d cluster act reason actor w.repository failed (some message) h
          dh gate)
  deploy_now-is_proved d id cluster remove reason actor w v none found gate same h =
      let dh = find-draft_proved s id w.repository found h in
      rw (same, finish-start d cluster remove reason actor w.repository succeeded none h)
        (started_finished-is_proved d cluster remove reason actor w.repository succeeded none h dh
          gate)
  deploy_now-is_proved d id cluster deploy reason actor w v none found gate same h =
      let dh = find-draft_proved s id w.repository found h in
      let done =
        started_finished-is_proved d cluster deploy reason actor w.repository succeeded none h dh
          gate in
      elim (Bool-cases (mem_text cluster s.development)) [
        | inr outside ↦
            rw
              (
                same,
                outside,
                finish-start d cluster deploy reason actor w.repository succeeded none h,
              )
              done
        | inl dev ↦
            let row =
              ended_row d cluster deploy reason actor w.repository.next_deploy succeeded none in
            rw (same, dev, finish-start d cluster deploy reason actor w.repository succeeded none h)
              (change_draft-is_proved s d.id (mark_verified cluster)
                (started_finished w.repository row) (get_started d id w.repository row found)
                (marked-draft_proved d cluster reason actor w.repository dev) done)
      ]

  thread-is_proved :
      (p : Principal) (id : ℕ) (cluster : String) (reason : Option String) (act : DeployAction)
      (outcome : Option String) (w : World) (r : Result CatalogServiceError Deployment × World)
      → Started s p id cluster reason act w r
      → is_proved s w.repository ≡ true
      → is_proved s (run_thread s outcome r).repository ≡ true
  unfolding Started run_thread
  thread-is_proved p id cluster reason act outcome w (err x, v) same h = rw same h
  thread-is_proved p id cluster reason act outcome w (ok row, v) (d, found, gate, e, same) h =
      rw e (deploy_now-is_proved d id cluster act reason p.username w v outcome found gate same h)

  apply-is_proved :
      (step : Step) (w : World)
      → is_proved s w.repository ≡ true
      → is_proved s (apply s step w).repository ≡ true
  unfolding apply
  apply-is_proved (create_step p name connector properties reason notes) w h =
      create_catalog-is_proved s p name connector properties reason notes w h
  apply-is_proved (save_step p id connector properties reason notes) w h =
      save-is_proved s p id connector properties reason notes w h
  apply-is_proved (delete_step p id reason) w h = delete_catalog-is_proved s p id reason w h
  apply-is_proved (deploy_step p id cluster reason act outcome) w h =
      thread-is_proved p id cluster reason act outcome w
        (deploy_catalog s p id cluster reason act w)
        (deploy_catalog-Started s p id cluster reason act w) h

  run-is_proved_from :
      (steps : List Step) (w : World)
      → is_proved s w.repository ≡ true
      → is_proved s (run s steps w).repository ≡ true
  unfolding run
  run-is_proved_from [] w h = h
  run-is_proved_from (step ∷ rest) w h =
      run-is_proved_from rest (apply s step w) (apply-is_proved step w h)

  -- Whatever is called, if each deployment ends before the next call: a deployment to a cluster that is
  -- not for development comes after a successful one, to a development cluster, of the same catalog
  -- with the same fingerprint; and a mark on a draft is that of such a deployment of what it says now.
  pub run-is_proved : (steps : List Step) → is_proved s (run s steps new_world).repository ≡ true
  unfolding is_proved
  run-is_proved steps = run-is_proved_from steps new_world (unfold is_proved in refl)
