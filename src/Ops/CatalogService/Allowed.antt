-- ===== src/Ops/CatalogService/Allowed.antt =====
-- tms/ops/catalogservice.py: what stands behind a deployment that the gate lets through.
use trino_management_service.Prelude.{
  ℕ, ltb, String, str_eq, eq_iff, true, false, ◌&&◌, Option, none, some, List, [], ◌∷◌, any, all,
  mem_text, ◌≡◌, refl, inl, inr, arith, Bool-cases,
}
use trino_management_service.Ops.Catalogs.{refuse_deploy}
use trino_management_service.Ops.CatalogStore.{
  Draft, running, DeployAction, deploy, remove, Deployment, CatalogRepository,
}
use trino_management_service.Ops.CatalogService.{Settings, is_deploy}
use trino_management_service.Ops.CatalogService.Proved.{
  is_proof, proof_of_mark, draft_proved, row_proved, is_proved,
}

module _ (s : Settings) where
  -- A draft that may go to a cluster that is not for development bears a mark of one that is.
  allowed-marked :
      (verified_on : Option String) (cluster : String)
      → refuse_deploy verified_on cluster s.development ≡ none
      → mem_text cluster s.development ≡ false
      → (proved : String) × (verified_on ≡ some proved) × (mem_text proved s.development ≡ true)
  unfolding refuse_deploy
  allowed-marked none cluster h outside = ground (arith, h, outside)
  allowed-marked (some proved) cluster h outside = (proved, refl, ground (arith, h, outside))

  mem_eq :
      (a b : String) (xs : List String)
      → str_eq a b ≡ true
      → mem_text b xs ≡ true
      → mem_text a xs ≡ true
  mem_eq a b xs e h = (let same : a ≡ b = ground (arith, e, eq_iff a b) in rw same h)

  -- The proof that a mark stands for, for the next row.
  any-proof :
      (rows : List Deployment) (d : Draft) (proved : String) (n : ℕ)
      → all (λ (row : Deployment). ltb row.id n) rows ≡ true
      → mem_text proved s.development ≡ true
      → any (λ row. proof_of_mark s d.id d.connector d.properties proved row) rows ≡ true
      → any
          (λ row.
            ltb row.id n
            && mem_text row.cluster s.development
            && is_proof s d.id d.connector d.properties row)
          rows
        ≡ true
  any-proof [] d proved n fresh listed h = ground (arith, h)
  any-proof (row ∷ rows) d proved n fresh listed h =
      ground (
        arith,
        fresh,
        listed,
        h,
        mem_eq row.cluster proved s.development,
        any-proof rows d proved n,
      )

  abbrev pub started_row : Draft → String → DeployAction → Option String → String → ℕ → Deployment
  started_row d cluster action reason actor n = record {
    id = n;
    catalog_id = d.id;
    catalog_name = d.name;
    cluster = cluster;
    action = action;
    connector = d.connector;
    properties = d.properties;
    state = running;
    detail = none;
    reason = reason;
    actor = actor;
  }

  pub start-row_proved :
      (d : Draft) (cluster : String) (action : DeployAction) (reason : Option String)
      (actor : String) (repo : CatalogRepository)
      → is_proved s repo ≡ true
      → draft_proved s repo.deployments d ≡ true
      → (is_deploy action ≡ true → refuse_deploy d.verified_on cluster s.development ≡ none)
      → row_proved s repo.deployments (started_row d cluster action reason actor repo.next_deploy)
        ≡ true
  unfolding is_proved
  start-row_proved d cluster remove reason actor repo h dh gate = refl
  start-row_proved d cluster deploy reason actor repo h dh gate =
      elim (Bool-cases (mem_text cluster s.development)) [
        | inl dev ↦ rw dev refl
        | inr outside ↦
            let (proved, mark, listed) = allowed-marked d.verified_on cluster (gate refl) outside in
            rw outside (
              any-proof repo.deployments d proved repo.next_deploy (ground (arith, h)) listed
                (rw mark at dh))
      ]
