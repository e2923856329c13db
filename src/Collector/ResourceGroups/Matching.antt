-- ===== src/Collector/ResourceGroups/Matching.antt =====
-- tms/collector/resourcegroups.py: the groups that run against the groups that are configured.
use trino_management_service.Prelude.{
  ◌||◌, ◌&&◌, String, str_eq, eq_iff, Bool, true, false, not, some, List, [], ◌∷◌, any, keep, map,
  mem_text, ◌≡◌, refl, inl, inr, arith, Bool-cases, Option-cases,
}
use trino_management_service.Collector.ResourceGroups.{
  Group, Configured, is_running, Row, find_group, status_of, reconcile_rows, unmanaged,
}

abbrev pub runs_as : String → Row → Bool
runs_as id row = str_eq row.group.id id && elim row.status [ is_running ↦ true | _ ↦ false ]

abbrev pub has_id : String → Group → Bool
has_id id g = str_eq g.id id

abbrev ids : List Configured → List String
ids configured = map (λ (c : Configured). c.id) configured

found_if_there :
    (id : String) (live : List Group)
    → any (has_id id) live ≡ true
    → (g : Group) × (find_group id live ≡ some g)
found_if_there id [] h = ground (arith, h)
found_if_there id (g ∷ rest) h = elim (Option-cases (find_group id rest)) [
  | inr (later, found) ↦ (later, rw found refl)
  | inl nothing ↦ elim (Bool-cases (str_eq g.id id)) [
    | inl here ↦ (g, rw (nothing, here) refl)
    | inr there ↦
        let (later, found) = found_if_there id rest (ground (arith, there, h)) in
        ground (arith, nothing, found)
  ]
]

row_runs :
    (id : String) (configured : List Configured) (live : List Group)
    → any (has_id id) live ≡ true
    → mem_text id (ids configured) ≡ true
    → any (runs_as id) (reconcile_rows configured live true) ≡ true
unfolding reconcile_rows status_of
row_runs id [] live here h = ground (arith, h)
row_runs id (c ∷ rest) live here h = elim (Bool-cases (str_eq c.id id)) [
  | inl same ↦
      let e : c.id ≡ id = ground (arith, same, eq_iff c.id id) in
      let (g, found) = found_if_there id live here in
      let as_found : find_group c.id live ≡ some g = rw e found in rw (same, as_found) refl
  | inr differs ↦
      (let ih = row_runs id rest live here (ground (arith, differs, h)) in
        ground (arith, differs, ih))
]

kept_alone :
    (id : String) (live : List Group) (known : List String)
    → any (has_id id) live ≡ true
    → mem_text id known ≡ false
    → any (has_id id) (keep (λ (g : Group). not (mem_text g.id known)) live) ≡ true
kept_alone id [] known here h = ground (arith, here)
kept_alone id (g ∷ rest) known here h = elim (Bool-cases (str_eq g.id id)) [
  | inl same ↦
      (let e : g.id ≡ id = ground (arith, same, eq_iff g.id id) in
        rw (e, h) (ground (arith, e, same)))
  | inr differs ↦
      (let ih = kept_alone id rest known (ground (arith, differs, here)) h in
        ground (arith, differs, ih))
]

-- Where the cluster was asked, no group that runs is lost: it is on the screen as the running row of a
-- configured group, or among those with nothing behind them.
pub reconcile_covers :
    (id : String) (configured : List Configured) (live : List Group)
    → any (has_id id) live ≡ true
    → (any (runs_as id) (reconcile_rows configured live true)
        || any (has_id id) (unmanaged configured live true))
      ≡ true
unfolding unmanaged
reconcile_covers id configured live here = elim (Bool-cases (mem_text id (ids configured))) [
  | inl known ↦ (let runs = row_runs id configured live here known in ground (arith, runs))
  | inr unknown ↦
      (let alone = kept_alone id live (ids configured) here unknown in ground (arith, alone))
]
