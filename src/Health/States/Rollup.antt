-- ===== src/Health/States/Rollup.antt =====
-- tms/health/states.py: the roll-up of a cluster's states.
use trino_management_service.Prelude.{
  ◌≤◌, ◌≡◌, refl, ◌||◌, Bool, true, false, List, [], ◌∷◌, all, any, ltb, leb, ◌==◌, arith,
  if◌then◌else◌,
}
use trino_management_service.Health.States.{
  HealthState, good, concerning, bad, unknown, severity, max_severity, worst,
}

abbrev pub is_unknown_state : HealthState → Bool
is_unknown_state unknown = true
is_unknown_state _ = false

max_severity-unknown :
    (states : List HealthState)
    → all is_unknown_state states ≡ true
    → max_severity unknown states ≡ unknown
unfolding max_severity
max_severity-unknown [] h = refl
max_severity-unknown (unknown ∷ rest) h = max_severity-unknown rest h
max_severity-unknown (good ∷ rest) h = cc
max_severity-unknown (concerning ∷ rest) h = cc
max_severity-unknown (bad ∷ rest) h = cc

pub worst-unknown :
    (states : List HealthState) → all is_unknown_state states ≡ true → worst states ≡ unknown
unfolding worst
worst-unknown [] h = refl
worst-unknown (unknown ∷ rest) h = max_severity-unknown rest h
worst-unknown (good ∷ rest) h = cc
worst-unknown (concerning ∷ rest) h = cc
worst-unknown (bad ∷ rest) h = cc

-- Whether a state is no more severe than this one.
abbrev pub is_within : HealthState → HealthState → Bool
is_within top s = leb (severity s) (severity top)

abbrev worse : HealthState → HealthState → HealthState
worse best s = if ltb (severity best) (severity s) then s else best

worse-bounds :
    (best s : HealthState)
    → (severity best ≤ severity (worse best s)) × (severity s ≤ severity (worse best s))
worse-bounds best s = ground arith

within :
    (next s top : HealthState)
    → severity s ≤ severity next
    → severity next ≤ severity top
    → is_within top s ≡ true
within next s top a b = ground arith

max_severity-top :
    (best : HealthState) (states : List HealthState)
    → (severity best ≤ severity (max_severity best states))
      × (all (is_within (max_severity best states)) states ≡ true)
unfolding max_severity
max_severity-top best [] = (omega arith, refl)
max_severity-top best (s ∷ rest) =
    let top = max_severity-top (worse best s) rest in
    let (least, new) = worse-bounds best s in
    (
      omega (arith, top, least),
      rw (within (worse best s) s (max_severity (worse best s) rest) new top.0) top.1,
    )

abbrev pub is_same : HealthState → HealthState → Bool
is_same a b = severity a == severity b

is_same_refl : (a : HealthState) → is_same a a ≡ true
is_same_refl a = ground arith

member_step :
    (m best s : HealthState) (b : Bool)
    → (is_same m (worse best s) || b) ≡ true
    → (is_same m best || (is_same m s || b)) ≡ true
member_step m best s b h = ground arith

max_severity-member :
    (best : HealthState) (states : List HealthState)
    → (is_same (max_severity best states) best || any (is_same (max_severity best states)) states)
      ≡ true
unfolding max_severity
max_severity-member best [] = rw (is_same_refl best) refl
max_severity-member best (s ∷ rest) =
    let next = worse best s in
    member_step (max_severity next rest) best s (any (is_same (max_severity next rest)) rest)
      (max_severity-member next rest)

-- The roll-up of one state or more is one of them, and none of them is more severe.
pub worst-most_severe :
    (s : HealthState) (rest : List HealthState)
    → (any (is_same (worst (s ∷ rest))) (s ∷ rest) ≡ true)
      × (all (is_within (worst (s ∷ rest))) (s ∷ rest) ≡ true)
unfolding worst
worst-most_severe s rest =
    let (first, others) = max_severity-top s rest in
    (max_severity-member s rest, ground (arith, first, others))
