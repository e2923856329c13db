-- ===== src/Ops/ResourceGroupRules/Tree.antt =====
-- tms/ops/resource_group_rules.py: `_check_hierarchy`, `_check_selectors`, and the rules together.
use trino_management_service.Prelude.{
  ℕ, ◌+◌, ltb, String, str_eq, is_empty, Bool, false, not, ◌&&◌, ◌||◌, Option, none, some, List, [],
  ◌∷◌, ◌++◌, any, count, keep, map, length, mem_text, if◌then◌else◌,
}
use trino_management_service.Core.Audit.Reason.{chars, join}
use trino_management_service.Ops.Patterns.{after_literal, is_some}
use trino_management_service.Ops.Catalogs.{insert_text}
use trino_management_service.Collector.ResourceGroups.{dotted}
use trino_management_service.Ops.ResourceGroupRules.{
  v6, v7, v8, v9, v10, w1, w4, w5, Finding, error, warning, Formats, Group, Selector, max_regex,
  max_user_group_regex, found, is_set, percentage_of, group_ids,
}
use trino_management_service.Ops.ResourceGroupRules.Groups.{check_groups}

-- The ids, each once and sorted, as the keys of a dictionary that is sorted.
unfoldable pub sorted_ids : List String → List String
sorted_ids [] = []
sorted_ids (s ∷ rest) = insert_text s (sorted_ids rest)

abbrev pub times : String → List String → ℕ
times s ids = count (str_eq s) ids

unfoldable pub duplicates : List String → List String → List Finding
duplicates [] ids = []
duplicates (s ∷ rest) ids = found (ltb 1 (times s ids)) (error v9 s) ++ duplicates rest ids

-- `text.startswith(prefix)`
unfoldable pub starts_with : String → String → Bool
starts_with text prefix = is_some (after_literal (λ c. c) prefix text)

abbrev pub is_beneath : Group → Group → Bool
is_beneath g other = starts_with other.id (join g.id ".")

abbrev pub by_priority : Group → Bool
by_priority g = str_eq g.scheduling_policy "query_priority"

unfoldable pub below : Group → List Group → List Finding
below g [] = []
below g (other ∷ rest) =
    found (is_beneath g other && not (by_priority other)) (error v6 other.id) ++ below g rest

unfoldable pub priorities : List Group → List Group → List Finding
unfolding below
priorities [] all_groups = []
priorities (g ∷ rest) all_groups =
    let later = priorities rest all_groups in
    if by_priority g then below g all_groups ++ later else later

-- `path[:-1]`
abbrev without_last : List String → List String
without_last [] = []
without_last (s ∷ []) = []
without_last (s ∷ t ∷ rest) = s ∷ without_last (t ∷ rest)

abbrev pub parent_id : Group → String
parent_id g = dotted (without_last g.path)

-- `by_id.get(id)`: the last group of an id is in the dictionary.
abbrev find_group : String → List Group → Option Group
find_group id [] = none
find_group id (g ∷ rest) = elim (find_group id rest) [
  | some later ↦ some later
  | none ↦ if str_eq g.id id then some g else none
]

abbrev or_zero : Option ℕ → ℕ
or_zero none = 0
or_zero (some n) = n

module _ (formats : Formats) where
  share_of : Option Group → Option ℕ
  unfolding percentage_of
  share_of none = none
  share_of (some g) = percentage_of formats g.soft_memory_limit

  sum_shares : String → List Group → ℕ
  unfolding percentage_of
  sum_shares parent [] = 0
  sum_shares parent (g ∷ rest) =
      let later = sum_shares parent rest in
      if str_eq (parent_id g) parent
      then or_zero (percentage_of formats g.soft_memory_limit) + later
      else later

  exceeds : Option ℕ → ℕ → Bool
  exceeds none total = false
  exceeds (some parent_share) total = ltb parent_share total

  unfoldable pub shares : List String → List Group → List Finding
  unfolding share_of sum_shares exceeds
  shares [] groups = []
  shares (parent ∷ rest) groups =
      found
        (is_set parent && exceeds (share_of (find_group parent groups)) (sum_shares parent groups))
        (warning w1 parent)
      ++ shares rest groups

  unfoldable pub check_hierarchy : List Group → List Finding
  unfolding duplicates priorities shares sorted_ids
  check_hierarchy groups =
      duplicates (sorted_ids (group_ids groups)) (group_ids groups)
      ++ priorities groups groups
      ++ shares (sorted_ids (map parent_id groups)) groups

  abbrev pub too_long : Option String → ℕ → Bool
  too_long none limit = false
  too_long (some s) limit = ltb limit (chars s)

  abbrev pub no_regex : Option String → Bool
  no_regex none = false
  no_regex (some s) = is_set s && not (formats.is_regex s)

  abbrev pub is_given : Option String → Bool
  is_given none = false
  is_given (some s) = is_set s

  -- One round of the loop of `_check_selectors`.
  unfoldable pub check_selector : List Group → Bool → Selector → List Finding
  check_selector groups provider s =
      let sid = join "selector " s.id in
      found (is_empty s.target || not (mem_text s.target (group_ids groups))) (error v8 sid)
      ++ found (too_long s.user_regex max_regex) (error v7 sid)
      ++ found (too_long s.source_regex max_regex) (error v7 sid)
      ++ found (too_long s.query_type max_regex) (error v7 sid)
      ++ found (too_long s.client_tags max_regex) (error v7 sid)
      ++ found (too_long s.original_user_regex max_regex) (error v7 sid)
      ++ found (too_long s.authenticated_user_regex max_regex) (error v7 sid)
      ++ found (too_long s.user_group_regex max_user_group_regex) (error v7 sid)
      ++ found (no_regex s.user_regex) (error v7 sid)
      ++ found (no_regex s.source_regex) (error v7 sid)
      ++ found (no_regex s.original_user_regex) (error v7 sid)
      ++ found (no_regex s.authenticated_user_regex) (error v7 sid)
      ++ found (no_regex s.user_group_regex) (error v7 sid)
      ++ found (is_given s.user_group_regex && not provider) (warning w4 sid)

  unfoldable pub each_selector : List Group → Bool → List Selector → List Finding
  each_selector groups provider [] = []
  each_selector groups provider (s ∷ rest) =
      check_selector groups provider s ++ each_selector groups provider rest

  unfoldable pub unreached : List Selector → List Group → List Group → List Finding
  unreached selectors groups [] = []
  unreached selectors groups (g ∷ rest) =
      found
        (not (mem_text g.id (map (λ (s : Selector). s.target) selectors))
          && not (any (is_beneath g) groups))
        (warning w5 g.id)
      ++ unreached selectors groups rest

  unfoldable pub check_selectors : List Group → List Selector → Bool → List Finding
  unfolding each_selector unreached
  check_selectors groups selectors provider =
      each_selector groups provider selectors
      ++ found (ltb 0 (length groups) && not (any (λ (s : Selector). s.catch_all) selectors))
          (error v10 "selectors")
      ++ unreached selectors groups groups

  unfoldable pub validate : List Group → List Selector → Bool → List Finding
  validate groups selectors provider =
      check_groups formats groups
      ++ check_hierarchy groups
      ++ check_selectors groups selectors provider

-- `blocking`
unfoldable pub blocking : List Finding → List Finding
blocking findings = keep (λ (f : Finding). f.blocking) findings
