-- ===== src/Ops/ResourceGroupRules/Accepted.antt =====
-- tms/ops/resource_group_rules.py: when a tree of groups and selectors may be saved.
use trino_management_service.Prelude.{
  ℕ, ◌==◌, ltb, leb, String, str_eq, eq_iff, is_empty, Bool, true, not, ◌&&◌, ◌||◌, Option, none,
  some, List, [], ◌∷◌, any, all, map, length, mem_text, ◌≡◌, ◌↔◌, refl, inl, inr, arith, Bool-cases,
}
use trino_management_service.Core.Audit.Reason.{chars}
use trino_management_service.Ops.Catalogs.{insert_text}
use trino_management_service.Ops.ResourceGroupRules.{
  Finding, Formats, Group, Selector, max_regex, max_user_group_regex, group_ids,
}
use trino_management_service.Ops.ResourceGroupRules.Tree.{
  sorted_ids, times, duplicates, is_beneath, by_priority, below, priorities, parent_id, shares,
  check_hierarchy, too_long, no_regex, check_selector, each_selector, unreached, check_selectors,
  validate, blocking,
}
use trino_management_service.Ops.ResourceGroupRules.Clean.{
  clean, clean-append, tidy, missing_or, is_sound_group, check_groups-clean,
}

blocking-clean : (fs : List Finding) → (blocking fs ≡ []) ↔ (clean fs ≡ true)
unfolding blocking clean
blocking-clean [] = ground arith
blocking-clean (f ∷ fs) = ground (arith, blocking-clean fs)

-- Every id stands once.
abbrev pub once_in : List String → String → Bool
once_in ids s = leb (times s ids) 1

duplicates-clean : (ss ids : List String) → clean (duplicates ss ids) ≡ all (once_in ids) ss
unfolding duplicates clean
duplicates-clean [] ids = refl
duplicates-clean (s ∷ ss) ids = simp (tidy, duplicates-clean ss ids) (ground arith)

insert_text-all :
    (p : String → Bool) (s : String) (ss : List String)
    → all p (insert_text s ss) ≡ (p s && all p ss)
insert_text-all p s [] = refl
insert_text-all p s (t ∷ ss) = elim (Bool-cases (str_eq s t)) [
  | inl same ↦ (let e : s ≡ t = ground (arith, same, eq_iff s t) in rw (same, e) (ground arith))
  | inr differs ↦ rw differs (ground (arith, insert_text-all p s ss))
]

sorted_ids-all : (p : String → Bool) (ss : List String) → all p (sorted_ids ss) ≡ all p ss
unfolding sorted_ids
sorted_ids-all p [] = refl
sorted_ids-all p (s ∷ ss) = simp (insert_text-all p s (sorted_ids ss), sorted_ids-all p ss)

-- Where a group goes by priority, so do all beneath it.
abbrev pub agrees : List Group → Group → Bool
agrees groups g =
    not (by_priority g) || all (λ other. not (is_beneath g other) || by_priority other) groups

below-clean :
    (g : Group) (groups : List Group)
    → clean (below g groups) ≡ all (λ other. not (is_beneath g other) || by_priority other) groups
unfolding below clean
below-clean g [] = refl
below-clean g (other ∷ rest) = simp (tidy, below-clean g rest) (ground arith)

priorities-clean : (gs groups : List Group) → clean (priorities gs groups) ≡ all (agrees groups) gs
unfolding priorities clean
priorities-clean [] groups = refl
priorities-clean (g ∷ gs) groups = elim (Bool-cases (by_priority g)) [
  | inl p ↦ simp (p, clean-append, below-clean g groups, priorities-clean gs groups)
  | inr n ↦ simp (n, priorities-clean gs groups)
]

shares-clean :
    (formats : Formats) (parents : List String) (groups : List Group)
    → clean (shares formats parents groups) ≡ true
unfolding shares clean
shares-clean formats [] groups = refl
shares-clean formats (p ∷ ps) groups = simp (tidy, shares-clean formats ps groups)

check_hierarchy-clean :
    (formats : Formats) (groups : List Group)
    → clean (check_hierarchy formats groups)
      ≡ (all (once_in (group_ids groups)) (group_ids groups) && all (agrees groups) groups)
unfolding check_hierarchy
check_hierarchy-clean formats groups = simp (
  tidy,
  duplicates-clean (sorted_ids (group_ids groups)) (group_ids groups),
  sorted_ids-all (once_in (group_ids groups)) (group_ids groups),
  priorities-clean groups groups,
  shares-clean formats (sorted_ids (map parent_id groups)) groups,
)

module _ (formats : Formats) where
  abbrev pub fits : Option String → ℕ → Bool
  fits none limit = true
  fits (some s) limit = leb (chars s) limit

  abbrev pub compiles : Option String → Bool
  compiles none = true
  compiles (some s) = missing_or formats.is_regex s

  -- The selector points at a group, each of its texts fits its column, and what is to be a regular
  -- expression is one.
  abbrev pub is_sound_selector : List Group → Selector → Bool
  is_sound_selector groups s =
      not (is_empty s.target)
      && mem_text s.target (group_ids groups)
      && fits s.user_regex max_regex
      && fits s.source_regex max_regex
      && fits s.query_type max_regex
      && fits s.client_tags max_regex
      && fits s.original_user_regex max_regex
      && fits s.authenticated_user_regex max_regex
      && fits s.user_group_regex max_user_group_regex
      && compiles s.user_regex
      && compiles s.source_regex
      && compiles s.original_user_regex
      && compiles s.authenticated_user_regex
      && compiles s.user_group_regex

  fits-too_long : (o : Option String) (limit : ℕ) → not (too_long formats o limit) ≡ fits o limit
  fits-too_long none limit = refl
  fits-too_long (some s) limit = ground arith

  compiles-no_regex : (o : Option String) → not (no_regex formats o) ≡ compiles o
  compiles-no_regex none = refl
  compiles-no_regex (some s) = ground arith

  not_or : (a b : Bool) → not (a || b) ≡ (not a && not b)
  not_or a b = ground arith

  check_selector-clean :
      (groups : List Group) (provider : Bool) (s : Selector)
      → clean (check_selector formats groups provider s) ≡ is_sound_selector groups s
  unfolding check_selector
  check_selector-clean groups provider s = simp (fits-too_long, compiles-no_regex, tidy, not_or)

  each_selector-clean :
      (groups : List Group) (provider : Bool) (ss : List Selector)
      → clean (each_selector formats groups provider ss) ≡ all (is_sound_selector groups) ss
  unfolding each_selector clean
  each_selector-clean groups provider [] = refl
  each_selector-clean groups provider (s ∷ ss) =
      simp (tidy, check_selector-clean groups provider s, each_selector-clean groups provider ss)

  not_zero : (n : ℕ) → not (ltb 0 n) ≡ (n == 0)
  not_zero n = ground arith

  unreached-clean :
      (ss : List Selector) (groups gs : List Group) → clean (unreached formats ss groups gs) ≡ true
  unfolding unreached clean
  unreached-clean ss groups [] = refl
  unreached-clean ss groups (g ∷ gs) = simp (tidy, unreached-clean ss groups gs)

  -- What a tree must be to be saved.
  abbrev pub is_savable : List Group → List Selector → Bool
  is_savable groups selectors =
      all (is_sound_group formats) groups
      && all (once_in (group_ids groups)) (group_ids groups)
      && all (agrees groups) groups
      && all (is_sound_selector groups) selectors
      && (length groups == 0 || any (λ (s : Selector). s.catch_all) selectors)

  validate-clean :
      (groups : List Group) (selectors : List Selector) (provider : Bool)
      → clean (validate formats groups selectors provider) ≡ is_savable groups selectors
  unfolding validate check_selectors
  validate-clean groups selectors provider = simp (
    check_groups-clean formats groups,
    check_hierarchy-clean formats groups,
    each_selector-clean groups provider selectors,
    unreached-clean selectors groups groups,
    not_zero (length groups),
    tidy,
  )

  -- No finding refuses the save exactly when every group is sound by itself, no two have one path, the
  -- groups beneath a group of query priority have it too, every selector points at a group and fits
  -- its columns, and some selector takes every query, unless there is no group.
  pub validate_iff :
      (groups : List Group) (selectors : List Selector) (provider : Bool)
      → (blocking (validate formats groups selectors provider) ≡ [])
        ↔ (is_savable groups selectors ≡ true)
  validate_iff groups selectors provider =
      rw⁻¹ (validate-clean groups selectors provider)
        (blocking-clean (validate formats groups selectors provider))
