-- ===== src/Bench/Guard/Quiet.antt =====
-- tms/bench/guard.py: what `ok` means.
use trino_management_service.Prelude.{
  ℕ, zero, suc, ◌≡◌, refl, ap, ◌∙◌, inl, inr, String, Bool, true, false, not, ◌&&◌, Option, none,
  some, List, [], ◌∷◌, ◌++◌, keep, if◌then◌else◌, arith, Bool-cases,
}
use trino_management_service.Bench.Guard.{
  Code, no_gateway, no_backend, still_routed, gateway_unreachable, no_query_view, queries_running,
  stale_query_view, GuardResult, new_result, is_ok, refuse, MappedBackend, is_of, live_state,
  is_excluded, note_backend, note_backends, note_live, note_mapped, check_rotation, Envelope,
  note_running, check_idle, view, check,
}

-- Every backend of the cluster is listed live, as deactivated, and there is one.
abbrev all_excluded : List (String × Bool) → List MappedBackend → Bool
all_excluded live [] = true
all_excluded live (b ∷ rest) = is_excluded (live_state live b.name) && all_excluded live rest

abbrev some_excluded : List (String × Bool) → List MappedBackend → Bool
some_excluded live [] = false
some_excluded live (b ∷ rest) = all_excluded live (b ∷ rest)

abbrev excluded_of : Option (List (String × Bool)) → List MappedBackend → Bool
excluded_of none mapped = false
excluded_of (some live) mapped = some_excluded live mapped

abbrev pub is_out_of_rotation :
    String → Option (Option (List (String × Bool))) → List MappedBackend → Bool
is_out_of_rotation cluster none backends = false
is_out_of_rotation cluster (some live) backends = excluded_of live (keep (is_of cluster) backends)

abbrev no_query : Option ℕ → Bool
no_query (some zero) = true
no_query _ = false

-- There is a view, it is not stale, and it counts no query.
abbrev pub is_idle : Option Envelope → Bool
is_idle none = false
is_idle (some e) = not e.stale && no_query e.running

is_ok-refuse_on :
    (code : Code) (r : GuardResult) (before : List Code)
    → r.refusals ≡ before
    → is_ok (refuse code r) ≡ false
unfolding is_ok refuse
is_ok-refuse_on code r [] h = ground arith
is_ok-refuse_on code r (c ∷ cs) h = ground arith

is_ok-refuse : (code : Code) (r : GuardResult) → is_ok (refuse code r) ≡ false
is_ok-refuse code r = is_ok-refuse_on code r r.refusals refl

abbrev code_of : GuardResult → Code
code_of r = if r.checked_gateway_live then still_routed else gateway_unreachable

abbrev noted : String → Option Bool → GuardResult → GuardResult
noted name active r = record r { backends = r.backends ++ (name, active) ∷ [] }

is_ok-note_backend :
    (name : String) (active : Option Bool) (r : GuardResult)
    → is_ok (note_backend name active r) ≡ (is_excluded active && is_ok r)
unfolding note_backend is_ok
is_ok-note_backend name active r = elim (Bool-cases (is_excluded active)) [
  | inl quiet ↦ rw quiet refl
  | inr serving ↦ rw serving (unfold is_ok in is_ok-refuse (code_of r) (noted name active r))
]

swapped : (a b c : Bool) → (a && (b && c)) ≡ ((b && a) && c)
swapped a b c = ground arith

is_ok-note_backends :
    (live : List (String × Bool)) (mapped : List MappedBackend) (r : GuardResult)
    → is_ok (note_backends live mapped r) ≡ (all_excluded live mapped && is_ok r)
unfolding note_backends
is_ok-note_backends live [] r = refl
is_ok-note_backends live (b ∷ rest) r =
    is_ok-note_backends live rest (note_backend b.name (live_state live b.name) r)
    ∙ ap (λ (t : Bool). all_excluded live rest && t)
        (is_ok-note_backend b.name (live_state live b.name) r)
    ∙ swapped (all_excluded live rest) (is_excluded (live_state live b.name)) (is_ok r)

all_excluded-nothing :
    (b : MappedBackend) (rest : List MappedBackend) → all_excluded [] (b ∷ rest) ≡ false
all_excluded-nothing b rest = refl

ok_new :
    (t : Bool) (cluster : String)
    → (t && is_ok (record (new_result cluster) { checked_gateway_live = true })) ≡ t
unfolding is_ok new_result
ok_new t cluster = ground arith

is_ok-note_mapped :
    (cluster : String) (live : Option (List (String × Bool))) (mapped : List MappedBackend)
    → is_ok (note_mapped live mapped (new_result cluster)) ≡ excluded_of live mapped
unfolding note_mapped note_live
is_ok-note_mapped cluster none [] = is_ok-refuse no_backend (new_result cluster)
is_ok-note_mapped cluster (some live) [] = is_ok-refuse no_backend (new_result cluster)
is_ok-note_mapped cluster none (b ∷ rest) =
    is_ok-note_backends [] (b ∷ rest) (refuse gateway_unreachable (new_result cluster))
is_ok-note_mapped cluster (some live) (b ∷ rest) =
    is_ok-note_backends live (b ∷ rest)
      (record (new_result cluster) { checked_gateway_live = true })
    ∙ ok_new (all_excluded live (b ∷ rest)) cluster

is_ok-check_rotation :
    (cluster : String) (gateway : Option (Option (List (String × Bool))))
    (backends : List MappedBackend)
    → is_ok (check_rotation cluster gateway backends (new_result cluster))
      ≡ is_out_of_rotation cluster gateway backends
unfolding check_rotation
is_ok-check_rotation cluster none backends = is_ok-refuse no_gateway (new_result cluster)
is_ok-check_rotation cluster (some live) backends =
    is_ok-note_mapped cluster live (keep (is_of cluster) backends)

is_ok-stale :
    (stale : Bool) (r : GuardResult)
    → is_ok (if stale then refuse stale_query_view r else r) ≡ (not stale && is_ok r)
is_ok-stale true r = is_ok-refuse stale_query_view r
is_ok-stale false r = refl

is_ok-note_running :
    (running : Option ℕ) (r : GuardResult)
    → is_ok (note_running running r) ≡ (no_query running && is_ok r)
unfolding note_running
is_ok-note_running none r = is_ok-refuse no_query_view r
is_ok-note_running (some zero) r = unfold is_ok in refl
is_ok-note_running (some (suc n)) r =
    is_ok-refuse queries_running (record r { running_queries = some (suc n) })

is_ok-check_idle :
    (e : Option Envelope) (r : GuardResult) → is_ok (check_idle e r) ≡ (is_idle e && is_ok r)
unfolding check_idle
is_ok-check_idle none r = is_ok-refuse no_query_view r
is_ok-check_idle (some e) r =
    is_ok-note_running e.running (if e.stale then refuse stale_query_view r else r)
    ∙ ap (λ (t : Bool). no_query e.running && t) (is_ok-stale e.stale r)
    ∙ swapped (no_query e.running) (not e.stale) (is_ok r)

-- The guard calls a cluster quiet exactly when the Gateway is on, its live listing answered and shows every
-- backend of the cluster, of which there is one at least, as deactivated, and there is a view of the
-- running queries that is not stale and counts none.
pub check-quiet :
    (cluster : String) (gateway : Option (Option (List (String × Bool))))
    (backends : List MappedBackend) (given stored : Option Envelope)
    → is_ok (check cluster gateway backends given stored)
      ≡ (is_idle (view given stored) && is_out_of_rotation cluster gateway backends)
unfolding check
check-quiet cluster gateway backends given stored =
    is_ok-check_idle (view given stored)
      (check_rotation cluster gateway backends (new_result cluster))
    ∙ ap (λ (t : Bool). is_idle (view given stored) && t)
        (is_ok-check_rotation cluster gateway backends)
