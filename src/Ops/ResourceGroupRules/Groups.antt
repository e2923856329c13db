-- ===== src/Ops/ResourceGroupRules/Groups.antt =====
-- tms/ops/resource_group_rules.py, `_check_groups`: each group by itself.
use trino_management_service.Prelude.{
  ℕ, ◌==◌, ltb, String, is_empty, strip, not, ◌&&◌, Option, none, some, List, [], ◌∷◌, ◌++◌,
  mem_text, if◌then◌else◌,
}
use trino_management_service.Core.Audit.Reason.{chars}
use trino_management_service.Ops.ResourceGroupRules.Units.{is_duration}
use trino_management_service.Ops.ResourceGroupRules.{
  v1, v2, v3, v4, v5, w2, w3, Finding, error, warning, Formats, Group, max_name,
  scheduling_policies, found, label, is_set, is_size,
}

-- `_check_groups`, the limits that are required.
unfoldable pub required : Option ℕ → String → List Finding
required none target = error v2 target ∷ []
required (some n) target = found (n == 0) (error v2 target)

-- The test of a stripped name.
unfoldable pub check_name : String → String → List Finding
check_name name target =
    if is_empty name
    then error v1 target ∷ []
    else found (ltb max_name (chars name)) (error v1 target)

module _ (formats : Formats) where
  -- The test of the scan limit: it is no size, or it is a quota.
  unfoldable pub check_scan : String → String → List Finding
  check_scan scan target =
      if is_set scan && not (is_size formats scan)
      then error v3 target ∷ []
      else found (is_set scan) (warning w3 target)

  -- One round of the loop of `_check_groups`.
  unfoldable pub check_group : Group → List Finding
  unfolding required check_name check_scan
  check_group g =
      let target = label g in
      check_name (strip g.name) target
      ++ required g.max_queued target
      ++ required g.hard_concurrency_limit target
      ++ found (is_set g.soft_memory_limit && not (is_size formats g.soft_memory_limit))
          (error v3 target)
      ++ found (is_set g.soft_cpu_limit && not (is_duration formats.is_decimal g.soft_cpu_limit))
          (error v3 target)
      ++ found (is_set g.hard_cpu_limit && not (is_duration formats.is_decimal g.hard_cpu_limit))
          (error v3 target)
      ++ found (is_set g.soft_cpu_limit && is_empty g.hard_cpu_limit) (error v4 target)
      ++ found
          (is_set g.scheduling_policy && not (mem_text g.scheduling_policy scheduling_policies))
          (error v5 target)
      ++ check_scan g.hard_physical_data_scan_limit target
      ++ found (is_set g.hard_cpu_limit) (warning w3 target)
      ++ found (not g.jmx_export) (warning w2 target)

  unfoldable pub check_groups : List Group → List Finding
  check_groups [] = []
  check_groups (g ∷ rest) = check_group g ++ check_groups rest
