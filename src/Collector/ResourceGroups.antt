-- ===== src/Collector/ResourceGroups.antt =====
-- tms/collector/resourcegroups.py: resource groups as the MBeans of a cluster report them. The numbers
-- of an MBean are natural numbers; an attribute that is missing or no number is `none`.
pub mod Blocked
pub mod Matching
pub mod Polling
use Prim.Native.Char.{code}
use trino_management_service.Prelude.{
  ℕ, suc, ◌+◌, ◌==◌, ltb, leb, String, str_eq, is_empty, strip, Bool, true, false, not, ◌&&◌, ◌||◌,
  Option, none, some, List, [], ◌∷◌, ◌++◌, keep, map, length, mem_text, if◌then◌else◌, ◌≡◌, refl,
}
use trino_management_service.Core.Audit.Reason.{join}
use trino_management_service.Ops.Patterns.{after_literal}

-- `_UNLIMITED // 2`
abbrev pub unlimited_floor : ℕ
unlimited_floor = 4611686018427387903

pub data Bottleneck : Type 0 where
  rejecting concurrency_capped memory_capped cpu_capped : Bottleneck

unfoldable pub bottleneck_text : Option Bottleneck → String
bottleneck_text none = ""
bottleneck_text (some rejecting) = "Queue full — new queries rejected"
bottleneck_text (some concurrency_capped) = "At concurrency limit"
bottleneck_text (some memory_capped) = "At memory limit"
bottleneck_text (some cpu_capped) = "At CPU limit"

-- `raw.split(".")` without its empty segments: the first segment, and the ones behind it.
abbrev push : String → List String → List String
push w ws = if is_empty w then ws else w ∷ ws

cut : String → String × List String
cut String.[] = (String.[], [])
cut (String.◌∷◌ c s) =
    let rest = cut s in
    if code c == 46 then (String.[], push rest.0 rest.1) else (String.◌∷◌ c rest.0, rest.1)

segments : String → List String
unfolding cut
segments s = push (cut s).0 (cut s).1

path_of : Option String → Option (List String)
unfolding segments
path_of none = none
path_of (some raw) = if is_empty (strip raw) then none else some (segments (strip raw))

unfoldable pub group_path : String → Option (List String)
unfolding path_of
group_path object_name = path_of (
    after_literal (λ c. c) "trino.execution.resourcegroups:type=InternalResourceGroup,name="
      object_name)

-- The attributes of an MBean.
pub record Attributes : Type 0 where
  pub number : String → Option ℕ
  pub scheduling_policy : Option String

limit_of : Option ℕ → Option ℕ
limit_of none = none
limit_of (some value) = if leb unlimited_floor value || value == 0 then none else some value

-- `_limit`
unfoldable pub limit : Attributes → String → Option ℕ
unfolding limit_of
limit attributes name = limit_of (attributes.number name)

-- `x or 0`
abbrev pub or_zero : Option ℕ → ℕ
or_zero none = 0
or_zero (some n) = n

pub record Group : Type 0 where
  pub path : List String
  pub id : String
  pub name : String
  pub running : ℕ
  pub queued : ℕ
  pub waiting_queued : ℕ
  pub hard_concurrency_limit : Option ℕ
  pub soft_concurrency_limit : Option ℕ
  pub max_queued : Option ℕ
  pub soft_memory_limit_bytes : Option ℕ
  pub hard_cpu_limit_ms : Option ℕ
  pub memory_bytes : Option ℕ
  pub cpu_ms : Option ℕ
  pub input_bytes : Option ℕ
  pub scheduling_policy : Option String
  pub scheduling_weight : Option ℕ
  pub started_total : Option ℕ
  pub bottleneck : Option Bottleneck

-- `limit and used >= limit`, where the limit is not zero.
abbrev pub reached : Option ℕ → ℕ → Bool
reached none used = false
reached (some limit) used = ltb 0 limit && leb limit used

-- `limit and used and used >= limit`
abbrev pub reached_if_known : Option ℕ → Option ℕ → Bool
reached_if_known limit none = false
reached_if_known limit (some used) = ltb 0 used && reached limit used

unfoldable pub diagnose : Group → Option Bottleneck
diagnose g =
    if reached g.max_queued g.queued
    then some rejecting
    else if g.queued == 0
    then none
    else if reached g.hard_concurrency_limit g.running
    then some concurrency_capped
    else if reached_if_known g.soft_memory_limit_bytes g.memory_bytes
    then some memory_capped
    else if reached_if_known g.hard_cpu_limit_ms g.cpu_ms
    then some cpu_capped
    else none

-- `".".join(path)`
abbrev pub dotted : List String → String
dotted [] = ""
dotted (s ∷ []) = s
dotted (s ∷ t ∷ rest) = join s (join "." (dotted (t ∷ rest)))

-- `path[-1] if path else ""`
abbrev last_segment : List String → String
last_segment [] = ""
last_segment (s ∷ []) = s
last_segment (s ∷ t ∷ rest) = last_segment (t ∷ rest)

unfoldable pub summarise_group : List String → Attributes → Group
unfolding limit diagnose
summarise_group path attributes =
    let summary : Group = record {
      path = path;
      id = dotted path;
      name = last_segment path;
      running = or_zero (attributes.number "RunningQueries");
      queued = or_zero (attributes.number "QueuedQueries");
      waiting_queued = or_zero (attributes.number "WaitingQueuedQueries");
      hard_concurrency_limit = limit attributes "HardConcurrencyLimit";
      soft_concurrency_limit = limit attributes "SoftConcurrencyLimit";
      max_queued = limit attributes "MaxQueuedQueries";
      soft_memory_limit_bytes = limit attributes "SoftMemoryLimitBytes";
      hard_cpu_limit_ms = limit attributes "HardCpuLimitMillis";
      memory_bytes = attributes.number "MemoryUsageBytes";
      cpu_ms = attributes.number "CpuUsageMillis";
      input_bytes = attributes.number "PhysicalInputDataUsageBytes";
      scheduling_policy = attributes.scheduling_policy;
      scheduling_weight = attributes.number "SchedulingWeight";
      started_total = attributes.number "StartedQueries.TotalCount";
      bottleneck = none;
    } in
    record summary { bottleneck = diagnose summary }

-- An item of `blocked`.
pub record BlockedGroup : Type 0 where
  pub id : String
  pub reason : Bottleneck
  pub queued : ℕ

pub record Rollup : Type 0 where
  pub groups : ℕ
  pub running : ℕ
  pub queued : ℕ
  pub blocked_groups : ℕ
  pub blocked : List BlockedGroup

abbrev add_blocked : Option Bottleneck → Group → List BlockedGroup → List BlockedGroup
add_blocked none g rest = rest
add_blocked (some reason) g rest = record { id = g.id; reason = reason; queued = g.queued } ∷ rest

blocked_of : List Group → List BlockedGroup
blocked_of [] = []
blocked_of (g ∷ rest) = add_blocked g.bottleneck g (blocked_of rest)

-- `sorted(..., key=queued, reverse=True)`: equal ones keep their order.
abbrev insert_blocked : BlockedGroup → List BlockedGroup → List BlockedGroup
insert_blocked b [] = b ∷ []
insert_blocked b (c ∷ rest) =
    let later = insert_blocked b rest in if ltb b.queued c.queued then c ∷ later else b ∷ c ∷ rest

sort_blocked : List BlockedGroup → List BlockedGroup
sort_blocked [] = []
sort_blocked (b ∷ rest) = insert_blocked b (sort_blocked rest)

abbrev pub sum_of : {A : Type 0} → (A → ℕ) → List A → ℕ
sum_of f [] = 0
sum_of f (a ∷ rest) = f a + sum_of f rest

unfoldable pub rollup : List Group → Rollup
unfolding blocked_of sort_blocked
rollup groups = record {
  groups = length groups;
  running = sum_of (λ (g : Group). g.running) groups;
  queued = sum_of (λ (g : Group). g.queued) groups;
  blocked_groups = length (blocked_of groups);
  blocked = sort_blocked (blocked_of groups);
}

-- A group of the configuration.
pub record Configured : Type 0 where
  pub id : String
  pub jmx_export : Bool

pub data Status : Type 0 where
  is_running is_idle is_hidden is_unknown : Status

pub record Row : Type 0 where
  pub group : Configured
  pub status : Status
  pub observed : Option Group

-- `by_id.get(id)`: of two groups with one id the later one is in the dictionary.
abbrev pub find_group : String → List Group → Option Group
find_group id [] = none
find_group id (g ∷ rest) = elim (find_group id rest) [
  | some later ↦ some later
  | none ↦ if str_eq g.id id then some g else none
]

status_of : Bool → Option Group → Bool → Status
status_of false observed exported = is_unknown
status_of true (some g) exported = is_running
status_of true none true = is_idle
status_of true none false = is_hidden

-- The rows of the configured groups, with the group that each was found with.
unfoldable pub reconcile_rows : List Configured → List Group → Bool → List Row
unfolding status_of
reconcile_rows configured live live_available =
    map
      (λ (c : Configured). record {
        group = c;
        status = status_of live_available (find_group c.id live) c.jmx_export;
        observed = find_group c.id live;
      })
      configured

-- The groups that run with nothing behind them.
unfoldable pub unmanaged : List Configured → List Group → Bool → List Group
unmanaged configured live live_available =
    if live_available
    then keep (λ (g : Group). not (mem_text g.id (map (λ (c : Configured). c.id) configured))) live
    else []

pub data CollectError : Type 0 where
  list_failed : String → CollectError
  no_groups : CollectError
  -- so many of so many MBeans
  unavailable : ℕ → ℕ → CollectError

pub data Advice : Type 0 where
  client_advice : String → Advice
  no_groups_advice : Advice

-- The answer of `collect`.
pub record Collection : Type 0 where
  pub groups : List Group
  pub summary : Rollup
  pub error : Option CollectError
  pub advice : Option Advice

-- The client of a cluster: the error of a call has a message, and perhaps an advice.
pub record Client : Type 0 where
  pub list_mbean_names : Option (List String)
  pub list_error : String × Option String
  -- `none` where the read fails
  pub get_mbean : String → Option Attributes
  pub read_advice : String → Option String

add_path : String → Option (List String) → List (String × List String) → List (String × List String)
add_path name none rest = rest
add_path name (some []) rest = rest
add_path name (some (s ∷ path)) rest = (name, s ∷ path) ∷ rest

unfoldable pub group_paths : List String → List (String × List String)
unfolding add_path
group_paths [] = []
group_paths (name ∷ rest) = add_path name (group_path name) (group_paths rest)

-- What the loop over the paths has gathered: the groups, the failures and the first advice.
pub record Gathered : Type 0 where
  pub groups : List Group
  pub failures : List String
  pub advice : Option String

or_advice : Option String → Option String → Option String
or_advice none later = later
or_advice (some a) later = some a

read_one : Option Attributes → Option String → List String → Gathered → Gathered
unfolding or_advice
read_one none found path g = record g {
  failures = g.failures ++ dotted path ∷ [];
  advice = or_advice g.advice found;
}
read_one (some attributes) found path g = record g {
  groups = g.groups ++ summarise_group path attributes ∷ [];
}

unfoldable pub read_groups : Client → List (String × List String) → Gathered → Gathered
unfolding read_one
read_groups client [] g = g
read_groups client ((name, path) ∷ rest) g =
    read_groups client rest (read_one (client.get_mbean name) (client.read_advice name) path g)

abbrev pub nothing_gathered : Gathered
nothing_gathered = record { groups = []; failures = []; advice = none }

-- `Collection(groups, error, advice)`
unfoldable pub collection : List Group → Option CollectError → Option Advice → Collection
collection groups error advice = record {
  groups = groups;
  summary = rollup groups;
  error = error;
  advice = advice;
}

-- `failures and "{} of {} ..."`
read_error : ℕ → ℕ → Option CollectError
read_error failed total = if failed == 0 then none else some (unavailable failed total)

as_advice : Option String → Option Advice
as_advice none = none
as_advice (some a) = some (client_advice a)

collect_paths : Client → List (String × List String) → Collection
unfolding collection read_error as_advice
collect_paths client [] = collection [] (some no_groups) (some no_groups_advice)
collect_paths client (p ∷ paths) =
    let g = read_groups client (p ∷ paths) nothing_gathered in
    collection g.groups (read_error (length g.failures) (length (p ∷ paths))) (as_advice g.advice)

collect_names : Client → Option (List String) → Collection
unfolding collect_paths collection as_advice
collect_names client none =
    collection [] (some (list_failed client.list_error.0)) (as_advice client.list_error.1)
collect_names client (some names) = collect_paths client (group_paths names)

unfoldable pub collect : Client → Collection
unfolding collect_names
collect client = collect_names client client.list_mbean_names

paths_of_names :
    group_paths (
      "java.lang:type=Memory"
      ∷ "trino.execution.resourcegroups:type=InternalResourceGroup,name=global..adhoc " ∷ [])
    ≡ (
      "trino.execution.resourcegroups:type=InternalResourceGroup,name=global..adhoc ",
      "global" ∷ "adhoc" ∷ [],
    )
      ∷ []
unfolding group_paths group_path strip after_literal
paths_of_names = refl
