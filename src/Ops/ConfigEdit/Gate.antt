-- ===== src/Ops/ConfigEdit/Gate.antt =====
-- tms/ops/configedit.py: when a change may be deployed.
use trino_management_service.Prelude.{
  ◌<◌, ltb, String, is_empty, Bool, true, false, not, ◌&&◌, ◌||◌, Option, none, some, List, [], ◌∷◌,
  all, length, mem_text, ◌≡◌, ◌↔◌, refl, arith,
}
use trino_management_service.Ops.Catalogs.{insert_text}
use trino_management_service.Ops.ConfigEdit.{
  Edit, is_set, unknown_names, refuse_deploy, refuse_unproved,
}

-- The cluster's build has the name of what is set.
abbrev pub is_known : List String → Edit → Bool
is_known valid_names e = not (is_set e) || mem_text e.key valid_names

-- The mark is that of a development cluster.
abbrev pub is_proved_on : List String → Option String → Bool
is_proved_on development none = false
is_proved_on development (some cluster) = not (is_empty cluster) && mem_text cluster development

insert_text-nonempty : (s : String) (ts : List String) → ltb 0 (length (insert_text s ts)) ≡ true
insert_text-nonempty s [] = refl
insert_text-nonempty s (t ∷ ts) = ground arith

unknown_names-none :
    (entries : List Edit) (valid_names : List String)
    → ltb 0 (length (unknown_names entries valid_names)) ≡ not (all (is_known valid_names) entries)
unfolding unknown_names
unknown_names-none [] valid_names = refl
unknown_names-none (e ∷ rest) valid_names = ground (
  arith,
  unknown_names-none rest valid_names,
  insert_text-nonempty e.key (unknown_names rest valid_names),
)

nonempty_of_mem : (s : String) (xs : List String) → mem_text s xs ≡ true → ltb 0 (length xs) ≡ true
nonempty_of_mem s [] h = ground (arith, h)
nonempty_of_mem s (x ∷ xs) h = ground arith

-- A change may go to a cluster exactly when the cluster was scanned, names were found, every name that
-- is set is one of them, and the cluster is for development or the change was proved on one that is.
pub refuse_deploy_iff :
    (entries : List Edit) (verified_on : Option String) (cluster : String)
    (development valid_names : List String) (scanned : Bool)
    → (refuse_deploy entries verified_on cluster development valid_names scanned ≡ none)
      ↔ (scanned ≡ true)
        × (0 < length valid_names)
        × (all (is_known valid_names) entries ≡ true)
        × ((mem_text cluster development || is_proved_on development verified_on) ≡ true)
unfolding refuse_deploy refuse_unproved
refuse_deploy_iff entries none cluster development valid_names scanned =
    ground (arith, unknown_names-none entries valid_names, nonempty_of_mem cluster development)
refuse_deploy_iff entries (some proved) cluster development valid_names scanned = ground (
  arith,
  unknown_names-none entries valid_names,
  nonempty_of_mem cluster development,
  nonempty_of_mem proved development,
)
