-- ===== src/Ops/ResourceGroupRules.antt =====
-- tms/ops/resource_group_rules.py: what may be saved as resource groups and selectors. Unicode's table
-- of digits, the compiler of regular expressions and the reading of a number are the library's, and
-- stand in the record `Formats`; a share is a number of a unit so small that sums are exact. The
-- messages are left out, and a negative limit is as good as 0.
pub mod Units
pub mod Groups
pub mod Tree
pub mod Clean
pub mod Accepted
use trino_management_service.Prelude.{
  ℕ, ◌+◌, ◌==◌, ltb, String, str_eq, is_empty, strip, Bool, true, false, not, ◌&&◌, ◌||◌, Option,
  none, some, List, [], ◌∷◌, ◌++◌, any, count, keep, map, length, mem_text, if◌then◌else◌,
}
use trino_management_service.Core.Audit.Reason.{chars, join}
use Units.{is_data_size, is_percentage, strip_percent}
use trino_management_service.Ops.Patterns.{after_literal, is_some}
use trino_management_service.Ops.Catalogs.{insert_text}
use trino_management_service.Collector.ResourceGroups.{dotted}

pub data Code : Type 0 where
  v1 v2 v3 v4 v5 v6 v7 v8 v9 v10 w1 w2 w3 w4 w5 : Code

pub record Finding : Type 0 where
  -- `level == ERROR`
  pub blocking : Bool
  pub code : Code
  pub target : String

abbrev pub error : Code → String → Finding
error code target = record { blocking = true; code = code; target = target }

abbrev pub warning : Code → String → Finding
warning code target = record { blocking = false; code = code; target = target }

pub record Formats : Type 0 where
  -- `\d` of a regular expression on text
  pub is_decimal : ℕ → Bool
  -- `re.compile` succeeds
  pub is_regex : String → Bool
  -- `float`, for the digits of a percentage
  pub share : String → ℕ

-- A text that is empty is as one that is missing.
pub record Group : Type 0 where
  pub id : String
  pub name : String
  pub path : List String
  pub max_queued : Option ℕ
  pub hard_concurrency_limit : Option ℕ
  pub soft_memory_limit : String
  pub soft_cpu_limit : String
  pub hard_cpu_limit : String
  pub scheduling_policy : String
  pub hard_physical_data_scan_limit : String
  pub jmx_export : Bool

pub record Selector : Type 0 where
  pub id : String
  pub target : String
  pub catch_all : Bool
  -- `none`: the column is not set
  pub user_regex : Option String
  pub source_regex : Option String
  pub query_type : Option String
  pub client_tags : Option String
  pub original_user_regex : Option String
  pub authenticated_user_regex : Option String
  pub user_group_regex : Option String

abbrev pub max_name : ℕ
max_name = 250

abbrev pub max_regex : ℕ
max_regex = 512

abbrev pub max_user_group_regex : ℕ
max_user_group_regex = 2048

abbrev pub scheduling_policies : List String
scheduling_policies = "fair" ∷ "weighted_fair" ∷ "weighted" ∷ "query_priority" ∷ []

-- `if test: findings.append(f)`
abbrev pub found : Bool → Finding → List Finding
found true f = f ∷ []
found false f = []

-- `group.get("id") or group.get("name") or "(unnamed)"`
abbrev pub label : Group → String
label g =
    if not (is_empty g.id) then g.id else if not (is_empty g.name) then g.name else "(unnamed)"

abbrev pub is_set : String → Bool
is_set s = not (is_empty s)

abbrev pub is_positive : Option ℕ → Bool
is_positive none = false
is_positive (some n) = ltb 0 n

abbrev pub group_ids : List Group → List String
group_ids groups = map (λ (g : Group). g.id) groups

module _ (formats : Formats) where
  unfoldable pub percentage_of : String → Option ℕ
  percentage_of value =
      if is_empty value || not (is_percentage formats.is_decimal value)
      then none
      else some (formats.share (strip (strip_percent (strip value))))

  abbrev pub is_size : String → Bool
  is_size s = is_data_size formats.is_decimal s || is_percentage formats.is_decimal s
