-- ===== src/Checks/ResourceGroups.antt =====
-- Resource groups on concrete inputs.
use trino_management_service.Prelude.{
  ◌-◌, ◌==◌, leb, ◌≡◌, ◌↔◌, ◌||◌, refl, String, str_eq, Bool, true, false, some, none, List, [],
  ◌∷◌, any, length, strip, if◌then◌else◌,
}
use trino_management_service.Ops.Patterns.{after_literal}
use trino_management_service.Collector.ResourceGroups.{
  Attributes, Group, Configured, Client, BlockedGroup, summarise_group, reconcile_rows, unmanaged,
  group_path, group_paths, collect, unavailable,
}
use trino_management_service.Collector.ResourceGroups.Matching.{runs_as, has_id, reconcile_covers}
use trino_management_service.Collector.ResourceGroups.Polling.{answering, collect-answering}
use trino_management_service.Ops.Patterns.{is_digit}
use trino_management_service.Ops.ResourceGroupRules.{Formats, Selector}
use trino_management_service.Ops.ResourceGroupRules.Tree.{blocking, validate}
use trino_management_service.Ops.ResourceGroupRules.Accepted.{is_savable, validate_iff}

abbrev busy : Attributes
busy = record {
  number = λ n.
      if str_eq n "QueuedQueries"
      then some 3
      else if str_eq n "RunningQueries"
      then some 2
      else if str_eq n "HardConcurrencyLimit"
      then some 2
      else none;
  scheduling_policy = none;
}

abbrev adhoc : Group
adhoc = summarise_group ("global" ∷ "adhoc" ∷ []) busy

abbrev is_long : BlockedGroup → Bool
is_long b = leb 2 b.queued

abbrev configured : List Configured
configured = record { id = "global"; jmx_export = true } ∷ []

reconcile_covers_example :
    (any (runs_as "global.adhoc") (reconcile_rows configured (adhoc ∷ []) true)
      || any (has_id "global.adhoc") (unmanaged configured (adhoc ∷ []) true))
    ≡ true
reconcile_covers_example =
    reconcile_covers "global.adhoc" configured (adhoc ∷ []) (unfold summarise_group in refl)

abbrev names : List String
names =
    "trino.execution.resourcegroups:type=InternalResourceGroup,name=global"
    ∷ "trino.execution.resourcegroups:type=InternalResourceGroup,name=global.etl" ∷ []

-- The MBean of one group of two answers.
abbrev client : Client
client = record {
  list_mbean_names = some names;
  list_error = ("", none);
  get_mbean = λ n.
      if str_eq n "trino.execution.resourcegroups:type=InternalResourceGroup,name=global"
      then some busy
      else none;
  read_advice = λ n. none;
}

collect-answering_example :
    let paths = group_paths names in
    let failed = length paths - length (answering client paths) in
    ((collect client).groups ≡ answering client paths)
    × ((collect client).error
        ≡ (if failed == 0 then none else some (unavailable failed (length paths))))
collect-answering_example =
    collect-answering client names refl (unfold group_paths group_path strip after_literal in refl)

abbrev formats : Formats
formats = record { is_decimal = λ c. is_digit c; is_regex = λ s. true; share = λ s. 80 }

abbrev global : trino_management_service.Ops.ResourceGroupRules.Group
global = record {
  id = "global";
  name = "global";
  path = "global" ∷ [];
  max_queued = some 10;
  hard_concurrency_limit = some 5;
  soft_memory_limit = "80%";
  soft_cpu_limit = "";
  hard_cpu_limit = "";
  scheduling_policy = "fair";
  hard_physical_data_scan_limit = "";
  jmx_export = true;
}

abbrev everything : Selector
everything = record {
  id = "1";
  target = "global";
  catch_all = true;
  user_regex = none;
  source_regex = none;
  query_type = none;
  client_tags = none;
  original_user_regex = none;
  authenticated_user_regex = none;
  user_group_regex = none;
}

validate_iff_example :
    (blocking (validate formats (global ∷ []) (everything ∷ []) false) ≡ [])
    ↔ (is_savable formats (global ∷ []) (everything ∷ []) ≡ true)
validate_iff_example = validate_iff formats (global ∷ []) (everything ∷ []) false
