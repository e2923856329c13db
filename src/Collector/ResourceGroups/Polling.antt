-- ===== src/Collector/ResourceGroups/Polling.antt =====
-- tms/collector/resourcegroups.py: a poll that fails for some groups.
use trino_management_service.Prelude.{
  suc, ◌+◌, ◌-◌, ◌==◌, ltb, String, true, Option, none, some, List, [], ◌∷◌, ◌++◌, length,
  length-append, if◌then◌else◌, ◌≡◌, ◌∙◌, refl, sym, subst, arith,
}
use trino_management_service.Collector.ResourceGroups.{
  Attributes, Group, summarise_group, Client, Gathered, nothing_gathered, read_groups, read_one,
  group_paths, collect, collect_paths, collect_names, collection, dotted, read_error, unavailable,
}

abbrev add_answer : Option Attributes → List String → List Group → List Group
add_answer none path rest = rest
add_answer (some attributes) path rest = summarise_group path attributes ∷ rest

-- The groups whose MBean answers.
abbrev pub answering : Client → List (String × List String) → List Group
answering client [] = []
answering client ((name, path) ∷ rest) =
    add_answer (client.get_mbean name) path (answering client rest)

append_assoc : (xs ys zs : List Group) → (xs ++ ys) ++ zs ≡ xs ++ (ys ++ zs)
append_assoc [] ys zs = refl
append_assoc (x ∷ xs) ys zs = rw (append_assoc xs ys zs) refl

append_nil : (xs : List Group) → xs ++ [] ≡ xs
append_nil [] = refl
append_nil (x ∷ xs) = rw (append_nil xs) refl

read_one-answering :
    (o : Option Attributes) (found : Option String) (path : List String) (g : Gathered)
    (rest : List Group)
    → ((read_one o found path g).groups ++ rest ≡ g.groups ++ add_answer o path rest)
      × (length (read_one o found path g).failures + length (add_answer o path rest)
          ≡ suc (length g.failures + length rest))
unfolding read_one
read_one-answering none found path g rest =
    (refl, ground (arith, length-append g.failures (dotted path ∷ [])))
read_one-answering (some attributes) found path g rest =
    (append_assoc g.groups (summarise_group path attributes ∷ []) rest, omega arith)

read_groups-answering :
    (client : Client) (paths : List (String × List String)) (g : Gathered)
    → ((read_groups client paths g).groups ≡ g.groups ++ answering client paths)
      × (length (read_groups client paths g).failures + length (answering client paths)
          ≡ length g.failures + length paths)
unfolding read_groups
read_groups-answering client [] g = (sym (append_nil g.groups), refl)
read_groups-answering client ((name, path) ∷ rest) g =
    let next = read_one (client.get_mbean name) (client.read_advice name) path g in
    let (same, counted) = read_groups-answering client rest next in
    let (one, added) =
      read_one-answering (client.get_mbean name) (client.read_advice name) path g
        (answering client rest) in
    (same ∙ one, omega (arith, counted, added))

collect_paths-answering :
    (client : Client) (paths : List (String × List String))
    → ltb 0 (length paths) ≡ true
    → ((collect_paths client paths).groups ≡ answering client paths)
      × ((collect_paths client paths).error ≡ (
          if (length paths - length (answering client paths)) == 0
          then none
          else some (unavailable (length paths - length (answering client paths)) (length paths))))
unfolding collect_paths read_error collection
collect_paths-answering client [] h = ground (arith, h)
collect_paths-answering client (p ∷ paths) h =
    let (same, counted) = read_groups-answering client (p ∷ paths) nothing_gathered in
    let failed : length (read_groups client (p ∷ paths) nothing_gathered).failures
        ≡ length (p ∷ paths) - length (answering client (p ∷ paths)) =
      omega (arith, counted) in
    (same, rw failed refl)

-- A poll that lists the MBeans gives the groups whose MBean answers, in their order, whatever fails
-- for the others; and it reports how many of how many failed, exactly when one did.
pub collect-answering :
    (client : Client) (names : List String)
    → client.list_mbean_names ≡ some names
    → ltb 0 (length (group_paths names)) ≡ true
    → let paths = group_paths names in
      let failed = length paths - length (answering client paths) in
      ((collect client).groups ≡ answering client paths)
      × ((collect client).error
          ≡ (if failed == 0 then none else some (unavailable failed (length paths))))
unfolding collect collect_names
collect-answering client names listed some_paths =
    subst
      (λ (o : Option (List String)).
        ((collect_names client o).groups ≡ answering client (group_paths names))
        × ((collect_names client o).error ≡ (
            if (length (group_paths names) - length (answering client (group_paths names))) == 0
            then none
            else some (
                unavailable
                  (length (group_paths names) - length (answering client (group_paths names)))
                  (length (group_paths names))))))
      (sym listed) (collect_paths-answering client (group_paths names) some_paths)
