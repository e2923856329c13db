-- ===== src/Clients/Circuit/Trials.antt =====
-- tms/clients/circuit.py: when the breaker lets a call through.
use trino_management_service.Prelude.{
  ℕ, ◌+◌, ◌≤◌, ◌<◌, ◌≡◌, ◌↔◌, refl, sym, ap, ◌∙◌, leb, ltb, Bool, true, false, ◌&&◌, if◌then◌else◌,
  List, [], ◌∷◌, arith, some,
}
use trino_management_service.Clients.Circuit.{
  CircuitState, closed, opened, half_open, Breaker, new_breaker, look, allows_request,
  record_success, record_failure, seconds_until_retry,
}

-- What a caller does, each at a time of the clock.
pub data CircuitOp : Type 0 where
  ask wait : ℕ → CircuitOp
  succeed : CircuitOp
  fail : Bool → ℕ → CircuitOp

unfoldable pub act : CircuitOp → Breaker → Breaker
act (ask now) b = (allows_request now b).1
act (wait now) b = (seconds_until_retry now b).1
act succeed b = record_success b
act (fail kind now) b = record_failure kind now b

unfoldable pub act_all : List CircuitOp → Breaker → Breaker
act_all [] b = b
act_all (o ∷ os) b = act_all os (act o b)

-- The transient failures since the last success.
abbrev pub streak : ℕ → List CircuitOp → ℕ
streak n [] = n
streak n (succeed ∷ os) = streak 0 os
streak n (fail true now ∷ os) = streak (n + 1) os
streak n (_ ∷ os) = streak n os

abbrev is_closed : CircuitState → Bool
is_closed closed = true
is_closed _ = false

abbrev is_consistent : Breaker → Bool
is_consistent b =
    leb 1 b.failure_threshold
    && (if is_closed b.state
        then ltb b.consecutive_failures b.failure_threshold
        else leb b.failure_threshold b.consecutive_failures)

act-consistent :
    (o : CircuitOp) (b : Breaker) → is_consistent b ≡ true → is_consistent (act o b) ≡ true
unfolding act allows_request seconds_until_retry record_success record_failure look
act-consistent (ask now) b h = ground arith
act-consistent (wait now) b h = ground arith
act-consistent succeed b h = ground arith
act-consistent (fail kind now) b h = ground arith

act-threshold : (o : CircuitOp) (b : Breaker) → (act o b).failure_threshold ≡ b.failure_threshold
unfolding act allows_request seconds_until_retry record_success record_failure look
act-threshold (ask now) b = ground arith
act-threshold (wait now) b = ground arith
act-threshold succeed b = refl
act-threshold (fail kind now) b = ground arith

act-streak :
    (o : CircuitOp) (os : List CircuitOp) (b : Breaker)
    → streak b.consecutive_failures (o ∷ os) ≡ streak (act o b).consecutive_failures os
unfolding act allows_request seconds_until_retry record_success record_failure look
act-streak (ask now) os b = ground arith
act-streak (wait now) os b = ground arith
act-streak succeed os b = refl
act-streak (fail true now) os b = ground arith
act-streak (fail false now) os b = refl

act_all-consistent :
    (os : List CircuitOp) (b : Breaker)
    → is_consistent b ≡ true
    → (is_consistent (act_all os b) ≡ true)
      × ((act_all os b).failure_threshold ≡ b.failure_threshold)
      × ((act_all os b).consecutive_failures ≡ streak b.consecutive_failures os)
unfolding act_all
act_all-consistent [] b h = (h, refl, refl)
act_all-consistent (o ∷ os) b h =
    let (good, limit, count) = act_all-consistent os (act o b) (act-consistent o b h) in
    (good, limit ∙ act-threshold o b, count ∙ sym (act-streak o os b))

closed_of :
    (b : Breaker) (n threshold : ℕ)
    → is_consistent b ≡ true
    → b.consecutive_failures ≡ n
    → b.failure_threshold ≡ threshold
    → (b.state ≡ closed) ↔ (n < threshold)
closed_of b n threshold h c t = ground arith

-- Whatever is done with a new breaker, it counts the transient failures since the last success, and it
-- is closed exactly while these are fewer than its threshold; failures that are not transient do not
-- count.
pub closed_iff_streak :
    (threshold reset : ℕ) (os : List CircuitOp) {b : Breaker}
    → new_breaker threshold reset ≡ some b
    → ((act_all os b).consecutive_failures ≡ streak 0 os)
      × (((act_all os b).state ≡ closed) ↔ (streak 0 os < threshold))
unfolding new_breaker
closed_iff_streak threshold reset os {b} made =
    let fresh : is_consistent b ≡ true = ground arith in
    let zero_count : b.consecutive_failures ≡ 0 = ground arith in
    let limit : b.failure_threshold ≡ threshold = ground arith in
    let (kept, same, count) = act_all-consistent os b fresh in
    let counted : (act_all os b).consecutive_failures ≡ streak 0 os =
      count ∙ ap (λ (n : ℕ). streak n os) zero_count in
    (counted, closed_of (act_all os b) (streak 0 os) threshold kept counted (same ∙ limit))

-- While the breaker is open no call goes through before the time is over; the first one after it goes
-- through, and if it fails for a transient reason the breaker is open again from then on.
pub trial_reopens :
    (threshold reset : ℕ) (os : List CircuitOp) (now later : ℕ) {b : Breaker}
    → new_breaker threshold reset ≡ some b
    → (act_all os b).state ≡ opened
    → let t = act_all os b in
      ((allows_request now t).0 ≡ leb (t.opened_at + t.reset_seconds) now)
      × ((record_failure true later (allows_request now t).1).state ≡ opened)
      × ((allows_request now t).0 ≡ true
          → (record_failure true later (allows_request now t).1).opened_at ≡ later)
unfolding new_breaker allows_request record_failure look
trial_reopens threshold reset os now later {b} made was_open =
    let (kept, same, count) = act_all-consistent os b (ground arith) in ground arith

-- The calls at these times, one after another, each asked for.
abbrev pub admits_all : List ℕ → Breaker → Bool
admits_all [] b = true
admits_all (now ∷ later) b = (allows_request now b).0 && admits_all later (allows_request now b).1

half_open_admits : (times : List ℕ) (b : Breaker) → b.state ≡ half_open → admits_all times b ≡ true
unfolding allows_request look
half_open_admits [] b h = refl
half_open_admits (now ∷ later) b h = ground (arith, half_open_admits later b h)

-- Once the time of an open breaker is over, it admits every call until an outcome is recorded, not
-- only one.
pub trials_not_limited :
    (b : Breaker) (now : ℕ) (times : List ℕ)
    → b.state ≡ opened
    → b.opened_at + b.reset_seconds ≤ now
    → admits_all (now ∷ times) b ≡ true
unfolding allows_request look
trials_not_limited b now times h over =
    ground (arith, half_open_admits times (record b { state = half_open }) refl)
