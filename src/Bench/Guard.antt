-- ===== src/Bench/Guard.antt =====
-- tms/bench/guard.py: was a cluster out of rotation and idle when it was measured?
pub mod Quiet
use trino_management_service.Prelude.{
  ℕ, zero, suc, ◌==◌, String, str_eq, Bool, true, false, Option, none, some, List, [], ◌∷◌, ◌++◌,
  any, keep, if◌then◌else◌,
}

pub data Code : Type 0 where
  no_gateway no_backend still_routed gateway_unreachable queries_running no_query_view
        stale_query_view :
      Code

abbrev number_of : Code → ℕ
number_of no_gateway = 0
number_of no_backend = 1
number_of still_routed = 2
number_of gateway_unreachable = 3
number_of queries_running = 4
number_of no_query_view = 5
number_of stale_query_view = 6

abbrev same_code : Code → Code → Bool
same_code a b = number_of a == number_of b

-- `GuardResult`. The time of the observation is left out.
pub record GuardResult : Type 0 where
  pub cluster : String
  pub refusals : List Code
  pub backends : List (String × Option Bool)
  pub running_queries : Option ℕ
  pub checked_gateway_live : Bool

unfoldable pub new_result : String → GuardResult
new_result cluster = record {
  cluster = cluster;
  refusals = [];
  backends = [];
  running_queries = none;
  checked_gateway_live = false;
}

unfoldable pub is_ok : GuardResult → Bool
is_ok r = elim r.refusals [ [] ↦ true | _ ↦ false ]

unfoldable pub refuse : Code → GuardResult → GuardResult
refuse code r =
    if any (same_code code) r.refusals then r else record r { refusals = r.refusals ++ code ∷ [] }

-- A backend of the Gateway snapshot, with the cluster that it fronts.
pub record MappedBackend : Type 0 where
  pub name : String
  pub cluster : Option String

abbrev pub is_of : String → MappedBackend → Bool
is_of cluster b = elim b.cluster [ none ↦ false | some c ↦ str_eq c cluster ]

-- `live.get(name)`: of two entries with one name, the dictionary keeps the later.
abbrev pub live_state : List (String × Bool) → String → Option Bool
live_state [] name = none
live_state ((n, active) ∷ rest) name =
    let later = live_state rest name in
    elim later [ some a ↦ some a | none ↦ if str_eq n name then some active else none ]

abbrev pub is_excluded : Option Bool → Bool
is_excluded (some false) = true
is_excluded _ = false

note_backend : String → Option Bool → GuardResult → GuardResult
unfolding refuse
note_backend name active r =
    let noted = record r { backends = r.backends ++ (name, active) ∷ [] } in
    if is_excluded active
    then noted
    else refuse (if r.checked_gateway_live then still_routed else gateway_unreachable) noted

note_backends : List (String × Bool) → List MappedBackend → GuardResult → GuardResult
unfolding note_backend
note_backends live [] r = r
note_backends live (b ∷ rest) r =
    note_backends live rest (note_backend b.name (live_state live b.name) r)

-- What the live listing answers; `none` where it raises.
note_live : Option (List (String × Bool)) → List MappedBackend → GuardResult → GuardResult
unfolding note_backends refuse
note_live none mapped r = note_backends [] mapped (refuse gateway_unreachable r)
note_live (some live) mapped r =
    note_backends live mapped (record r { checked_gateway_live = true })

note_mapped : Option (List (String × Bool)) → List MappedBackend → GuardResult → GuardResult
unfolding note_live refuse
note_mapped live [] r = refuse no_backend r
note_mapped live (b ∷ mapped) r = note_live live (b ∷ mapped) r

-- The Gateway client, where the integration is on, and its live listing.
unfoldable pub check_rotation :
    String → Option (Option (List (String × Bool))) → List MappedBackend → GuardResult → GuardResult
unfolding note_mapped refuse
check_rotation cluster none backends r = refuse no_gateway r
check_rotation cluster (some live) backends r = note_mapped live (keep (is_of cluster) backends) r

-- The view of the running queries: whether it is stale, and the count where it has one.
pub record Envelope : Type 0 where
  pub stale : Bool
  pub running : Option ℕ

note_running : Option ℕ → GuardResult → GuardResult
unfolding refuse
note_running none r = refuse no_query_view r
note_running (some zero) r = record r { running_queries = some 0 }
note_running (some (suc n)) r = refuse queries_running (record r { running_queries = some (suc n) })

unfoldable pub check_idle : Option Envelope → GuardResult → GuardResult
unfolding note_running refuse
check_idle none r = refuse no_query_view r
check_idle (some e) r = note_running e.running (if e.stale then refuse stale_query_view r else r)

-- The view is the caller's, or else the stored one.
abbrev pub view : Option Envelope → Option Envelope → Option Envelope
view none stored = stored
view (some e) stored = some e

-- `check(cluster, gateway_client, snapshots, ..., queries_envelope)`
unfoldable pub check :
    String
    → Option (Option (List (String × Bool)))
    → List MappedBackend
    → Option Envelope
    → Option Envelope
    → GuardResult
unfolding check_rotation check_idle new_result
check cluster gateway backends given stored =
    check_idle (view given stored) (check_rotation cluster gateway backends (new_result cluster))
