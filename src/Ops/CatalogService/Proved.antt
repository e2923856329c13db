-- ===== src/Ops/CatalogService/Proved.antt =====
-- tms/ops/catalogservice.py: what stands behind a deployment to a cluster that serves queries.
use trino_management_service.Prelude.{
  ℕ, suc, ◌==◌, ltb, String, str_eq, eq_iff, Bool, true, false, not, ◌&&◌, ◌||◌, Option, none, some,
  List, [], ◌∷◌, ◌++◌, any, all, mem_text, ◌≡◌, refl, sym, inl, inr, arith, Bool-cases,
  Option-cases, all-append, any-append, all-weaken, all-keep,
}
use trino_management_service.Ops.Catalogs.{Properties, Fields, fingerprint}
use trino_management_service.Ops.CatalogStore.{
  Draft, DeployState, succeeded, Deployment, CatalogRepository, find_draft, update_first,
  finish_rows, create, get, update, delete,
}
use trino_management_service.Ops.CatalogService.{Settings, is_deploy, edit}

abbrev pub is_succeeded : DeployState → Bool
is_succeeded succeeded = true
is_succeeded _ = false

-- The file of a deployment and that of a draft, as far as a fingerprint tells.
abbrev pub same_file : Settings → Deployment → String → Properties → Bool
same_file s row connector properties =
    str_eq (fingerprint s.digest row.connector row.properties)
      (fingerprint s.digest connector properties)

-- The row is a deployment of this file of this catalog that succeeded.
abbrev pub is_proof : Settings → ℕ → String → Properties → Deployment → Bool
is_proof s id connector properties row =
    is_succeeded row.state
    && is_deploy row.action
    && row.catalog_id == id
    && same_file s row connector properties

module _ (s : Settings) where
  -- The row is a successful deployment of this file of this catalog to the cluster of the mark, which
  -- is one for development.
  abbrev pub proof_of_mark : ℕ → String → Properties → String → Deployment → Bool
  proof_of_mark id connector properties cluster row =
      str_eq row.cluster cluster
      && mem_text row.cluster s.development
      && is_proof s id connector properties row

  -- The mark of a draft is that of a successful deployment, to a development cluster, of what it says
  -- now.
  abbrev pub draft_proved : List Deployment → Draft → Bool
  draft_proved rows d = elim d.verified_on [
    | none ↦ true
    | some cluster ↦ any (λ row. proof_of_mark d.id d.connector d.properties cluster row) rows
  ]

  -- A deployment to a cluster that is not for development comes after a successful one of the same file
  -- of the same catalog to one that is.
  abbrev pub row_proved : List Deployment → Deployment → Bool
  row_proved rows r =
      not (is_deploy r.action && not (mem_text r.cluster s.development))
      || any
          (λ row.
            ltb row.id r.id
            && mem_text row.cluster s.development
            && is_proof s r.catalog_id r.connector r.properties row)
          rows

  unfoldable pub is_proved : CatalogRepository → Bool
  is_proved repo =
      all (draft_proved repo.deployments) repo.drafts
      && all (row_proved repo.deployments) repo.deployments
      && all (λ (row : Deployment). ltb row.id repo.next_deploy) repo.deployments

  pub find-all :
      (p : Draft → Bool) (id : ℕ) (ds : List Draft) {d : Draft}
      → find_draft id ds ≡ some d
      → all p ds ≡ true
      → p d ≡ true
  find-all p id [] {d} h k = ground (arith, h)
  find-all p id (e ∷ ds) {d} h k = ground (arith, h, k, find-all p id ds {d = d})

  pub find_id : (id : ℕ) (ds : List Draft) {d : Draft} → find_draft id ds ≡ some d → d.id ≡ id
  find_id id [] {d} h = ground (arith, h)
  find_id id (e ∷ ds) {d} h = ground (arith, h, find_id id ds {d = d})

  pub update_first-all :
      (p : Draft → Bool) (id : ℕ) (f : Draft → Draft) (ds : List Draft) {d : Draft}
      → find_draft id ds ≡ some d
      → p (f d) ≡ true
      → all p ds ≡ true
      → all p (update_first id f ds) ≡ true
  update_first-all p id f [] {d} h k l = ground (arith, h)
  update_first-all p id f (e ∷ ds) {d} h k l = elim (Bool-cases (e.id == id)) [
    | inl here ↦ ground (arith, here, h, k, l)
    | inr there ↦
        (let ih = update_first-all p id f ds {d = d} (rw there at h) k (ground (arith, l)) in
          ground (arith, there, h, l, ih))
  ]

  pub finish_rows-append :
      (id : ℕ) (state : DeployState) (detail : Option String) (rows : List Deployment)
      (r : Deployment)
      → all (λ (row : Deployment). ltb row.id id) rows ≡ true
      → r.id ≡ id
      → finish_rows id state detail (rows ++ r ∷ [])
        ≡ rows ++ record r { state = state; detail = detail } ∷ []
  finish_rows-append id state detail [] r h e = ground (arith, h, e)
  finish_rows-append id state detail (row ∷ rows) r h e =
      let ih = finish_rows-append id state detail rows r (ground (arith, h)) e in
      ground (arith, h, ih)

  draft_proved-more :
      (rows : List Deployment) (r : Deployment) (d : Draft)
      → draft_proved rows d ≡ true
      → draft_proved (rows ++ r ∷ []) d ≡ true
  draft_proved-more rows r d h = elim (Option-cases d.verified_on) [
    | inl no_mark ↦ rw no_mark refl
    | inr (cluster, mark) ↦
        rw
          (
            mark,
            any-append (λ row. proof_of_mark d.id d.connector d.properties cluster row) rows
                (r ∷ []),
          )
          (let old = rw mark at h in ground (arith, old))
  ]

  row_proved-more :
      (rows : List Deployment) (r q : Deployment)
      → row_proved rows q ≡ true
      → row_proved (rows ++ r ∷ []) q ≡ true
  row_proved-more rows r q h =
      rw
        (any-append
          (λ row.
            ltb row.id q.id
            && mem_text row.cluster s.development
            && is_proof s q.catalog_id q.connector q.properties row)
          rows (r ∷ []))
        (ground (arith, h))

  all-draft_proved :
      (rows : List Deployment) (r : Deployment) (ds : List Draft)
      → all (draft_proved rows) ds ≡ true
      → all (draft_proved (rows ++ r ∷ [])) ds ≡ true
  all-draft_proved rows r ds =
      all-weaken (draft_proved rows) (draft_proved (rows ++ r ∷ [])) ds (draft_proved-more rows r)

  -- A row that is added, with a number behind those of the others, keeps what was proved.
  pub add_row-is_proved :
      (repo : CatalogRepository) (r : Deployment)
      → r.id ≡ repo.next_deploy
      → row_proved repo.deployments r ≡ true
      → is_proved repo ≡ true
      → is_proved (record repo {
        deployments = repo.deployments ++ r ∷ [];
        next_deploy = suc repo.next_deploy;
      })
        ≡ true
  unfolding is_proved
  add_row-is_proved repo r e new h =
      let rows = repo.deployments in
      let fresh : all (λ (row : Deployment). ltb row.id repo.next_deploy) rows ≡ true =
        ground (arith, h) in
      let later =
        all-weaken (λ (row : Deployment). ltb row.id repo.next_deploy)
          (λ (row : Deployment). ltb row.id (suc repo.next_deploy)) rows
          (λ row lt. ground (arith, lt)) fresh in
      let drafts = all-draft_proved rows r repo.drafts (ground (arith, h)) in
      let old =
        all-weaken (row_proved rows) (row_proved (rows ++ r ∷ [])) rows (row_proved-more rows r)
          (ground (arith, h)) in
      let here = row_proved-more rows r r new in
      rw
        (
          all-append (row_proved (rows ++ r ∷ [])) rows (r ∷ []),
          all-append (λ (row : Deployment). ltb row.id (suc repo.next_deploy)) rows (r ∷ []),
          drafts,
          old,
          here,
          later,
        )
        (ground (arith, e))

  pub change_draft-is_proved :
      (id : ℕ) (f : Draft → Draft) (repo : CatalogRepository) {d : Draft}
      → get id repo ≡ some d
      → draft_proved repo.deployments (f d) ≡ true
      → is_proved repo ≡ true
      → is_proved (update id f repo) ≡ true
  unfolding is_proved get update
  change_draft-is_proved id f repo {d} found new h =
      rw
        (update_first-all (draft_proved repo.deployments) id f repo.drafts found new
          (ground (arith, h)))
        (ground (arith, h))

  pub create-is_proved :
      (name connector : String) (properties : Properties) (notes : Option String) (actor : String)
      (repo : CatalogRepository) {d : Draft} {after : CatalogRepository}
      → create name connector properties notes actor repo ≡ some (d, after)
      → is_proved repo ≡ true
      → is_proved after ≡ true
  unfolding is_proved create
  create-is_proved name connector properties notes actor repo {d} {after} made h =
      ground (arith, made, h, all-append (draft_proved repo.deployments) repo.drafts (d ∷ []))

  pub delete-is_proved :
      (id : ℕ) (repo : CatalogRepository)
      → is_proved repo ≡ true
      → is_proved (delete id repo) ≡ true
  unfolding is_proved delete
  delete-is_proved id repo h =
      rw
        (all-keep (draft_proved repo.deployments) (λ (d : Draft). not (d.id == id)) repo.drafts
          (ground (arith, h)))
        (ground (arith, h))

  pub edit-draft_proved :
      (fields : Fields) (notes : Option String) (username : String) (rows : List Deployment)
      (d : Draft)
      → draft_proved rows d ≡ true
      → draft_proved rows (edit s fields notes username d d) ≡ true
  unfolding edit
  edit-draft_proved fields notes username rows d h =
      elim (Bool-cases (
        str_eq (fingerprint s.digest d.connector d.properties)
          (fingerprint s.digest fields.connector fields.properties))) [
            | inr differs ↦ rw differs refl
            | inl same ↦
                let e : fingerprint s.digest d.connector d.properties
                    ≡ fingerprint s.digest fields.connector fields.properties =
                  ground (
                    arith,
                    same,
                    eq_iff (fingerprint s.digest d.connector d.properties)
                        (fingerprint s.digest fields.connector fields.properties),
                  ) in
                elim (Option-cases d.verified_on) [
                  | inl no_mark ↦ rw (same, no_mark) refl
                  | inr (cluster, mark) ↦ (let old = rw mark at h in rw (same, mark, sym e) old)
                ]
          ]
