-- ===== src/Ops/Sequence/Trace/Visits.antt =====
-- tms/ops/sequence.py: the order of the steps, as the progress log records it.
use trino_management_service.Prelude.{
  ◌≡◌, refl, ◌∙◌, strip, String, ℕ, Bool-cases, inl, inr, Bool, true, false, if◌then◌else◌, List,
  [], ◌∷◌, ◌++◌, arith, ok, none, some,
}
use trino_management_service.Ops.Sequence.{
  State, pending, draining, drained, restarting, verifying, completed, aborting, aborted, Sequence,
  new, same_state, blocking_new_queries, all_finished, waiting_for, store_detail, confirmed_empty,
  forced_past, or_zero, bringing_down, checking_health, health_is_good, back_in_rotation,
  abort_message, aborted_back, warn, Event, Message, Level, info, warn_last,
}
use trino_management_service.Ops.Sequence.Trace.{
  Op, do_begin, do_observe, do_observe_store, do_confirm_drained, do_force_drained,
  do_mark_restarting, do_mark_restarted, do_confirm_healthy, do_complete, do_begin_abort,
  do_finish_abort, step, run, run_induction,
}

-- Whether the states occur in the log in this order, other lines between them.
pub visits : List State → List Event → Bool
visits [] h = true
visits (x ∷ p) [] = false
visits (x ∷ p) (e ∷ h) =
    let later = visits (x ∷ p) h in if same_state e.state x then visits p h else later

visits-append : (p : List State) (h k : List Event) → visits p h ≡ true → visits p (h ++ k) ≡ true
unfolding visits
visits-append [] h k v = refl
visits-append (x ∷ p) [] k v = cc
visits-append (x ∷ p) (e ∷ h) k v = elim (Bool-cases (same_state e.state x)) [
  | inl here ↦ rw here (visits-append p h k (rw here at v))
  | inr later ↦ rw later (visits-append (x ∷ p) h k (rw later at v))
]

same_state_refl : (x : State) → same_state x x ≡ true
same_state_refl x = ground arith

visits-snoc :
    (p : List State) (h : List Event) (x : State) (e : Event)
    → visits p h ≡ true
    → e.state ≡ x
    → visits (p ++ x ∷ []) (h ++ e ∷ []) ≡ true
unfolding visits
visits-snoc [] [] x e v q = rw q (rw same_state_refl)
visits-snoc [] (f ∷ h) x e v q = elim (Bool-cases (same_state f.state x)) [
  | inl here ↦ rw here
  | inr later ↦ rw later (visits-snoc [] h x e refl q)
]
visits-snoc (y ∷ p) [] x e v q = cc
visits-snoc (y ∷ p) (f ∷ h) x e v q = elim (Bool-cases (same_state f.state y)) [
  | inl here ↦ rw here (visits-snoc p h x e (rw here at v) q)
  | inr later ↦ rw later (visits-snoc (y ∷ p) h x e (rw later at v) q)
]

visits-warn_last : (p : List State) (h : List Event) → visits p (warn_last h) ≡ visits p h
unfolding visits warn_last
visits-warn_last [] h = refl
visits-warn_last (x ∷ p) [] = refl
visits-warn_last (x ∷ p) (e ∷ []) = refl
visits-warn_last (x ∷ p) (e ∷ f ∷ rest) =
    rw (visits-warn_last p (f ∷ rest), visits-warn_last (x ∷ p) (f ∷ rest))

-- The states that a sequence has been through, but for an abort, which may come from anywhere.
abbrev pub trail : State → List State
trail pending = []
trail draining = draining ∷ []
trail drained = draining ∷ drained ∷ []
trail restarting = draining ∷ drained ∷ restarting ∷ []
trail verifying = draining ∷ drained ∷ restarting ∷ verifying ∷ []
trail completed = draining ∷ drained ∷ restarting ∷ verifying ∷ completed ∷ []
trail aborting = aborting ∷ []
trail aborted = aborting ∷ aborted ∷ []

abbrev pub HasTrail : Sequence → Type 0
HasTrail s = visits (trail s.state) s.history ≡ true

-- A line in state `x` behind the log takes the trail on to `x`; any line keeps it.
abbrev line : State → Message → Level → Event
line x m l = record { state = x; level = l; message = m }

arrives :
    (s : Sequence) (x : State) (m : Message)
    → HasTrail s
    → visits (trail s.state ++ x ∷ []) (s.history ++ line x m info ∷ []) ≡ true
arrives s x m v = visits-snoc (trail s.state) s.history x (line x m info) v refl

stays :
    (s : Sequence) (e : Event) → HasTrail s → visits (trail s.state) (s.history ++ e ∷ []) ≡ true
stays s e v = visits-append (trail s.state) s.history (e ∷ []) v

-- An abort is logged from any state.
aborts :
    (s : Sequence) (m : Message)
    → visits (aborting ∷ []) (warn_last (s.history ++ line aborting m info ∷ [])) ≡ true
unfolding visits
aborts s m =
    visits-warn_last (aborting ∷ []) (s.history ++ line aborting m info ∷ [])
    ∙ visits-snoc [] s.history aborting (line aborting m info) refl refl

step-HasTrail : (o : Op) (s : Sequence) → HasTrail s → HasTrail (step o s)
unfolding step
step-HasTrail do_begin s v = ground (arith, arrives s draining (blocking_new_queries s.cluster) v)
step-HasTrail (do_observe n k) s v = ground (
  arith,
  arrives s drained (all_finished s.cluster) v,
  stays s (line s.state (waiting_for n) info) v,
)
step-HasTrail (do_observe_store none d) s v = v
step-HasTrail (do_observe_store (some true) d) s v =
    ground (arith, stays s (line s.state (store_detail d) info) v)
step-HasTrail (do_observe_store (some false) d) s v =
    ground (arith, stays s (line s.state (store_detail d) warn) v)
step-HasTrail do_confirm_drained s v = ground (
  arith,
  arrives s drained (confirmed_empty s.cluster) v,
  stays s (line drained (confirmed_empty s.cluster) info) v,
)
step-HasTrail (do_force_drained r) s v =
    let m = forced_past (or_zero s.running_queries) (strip r) in
    let warned = λ (p : List State). visits-warn_last p (s.history ++ line drained m info ∷ []) in
    ground (
      arith,
      warned (trail s.state),
      warned (trail s.state ++ drained ∷ []),
      arrives s drained m v,
      stays s (line drained m info) v,
    )
step-HasTrail do_mark_restarting s v =
    ground (arith, arrives s restarting (bringing_down s.cluster) v)
step-HasTrail do_mark_restarted s v =
    ground (arith, arrives s verifying (checking_health s.cluster) v)
step-HasTrail do_confirm_healthy s v = ground (arith, stays s (line s.state health_is_good info) v)
step-HasTrail do_complete s v = ground (arith, arrives s completed (back_in_rotation s.cluster) v)
step-HasTrail (do_begin_abort note) s v = ground (arith, aborts s (abort_message note s.cluster))
step-HasTrail do_finish_abort s v = ground (arith, arrives s aborted (aborted_back s.cluster) v)

-- A sequence that starts with an empty log has, at every later moment, logged the states of its
-- trail in their order: before COMPLETED come DRAINING, DRAINED, RESTARTING and VERIFYING.
pub run_in_order :
    (os : List Op) (s : Sequence)
    → s.state ≡ pending
    → visits (trail (run os s).state) (run os s).history ≡ true
run_in_order os s p = run_induction HasTrail step-HasTrail os s (rw p (unfold visits in refl))

-- No run from a new sequence, whatever its operations, reaches COMPLETED unless it logged
-- DRAINING, DRAINED, RESTARTING, VERIFYING and COMPLETED, in that order.
pub completed_in_order :
    (os : List Op) (cluster reason actor : String) (timeout : ℕ) {s : Sequence}
    → new cluster reason actor timeout ≡ ok s
    → (run os s).state ≡ completed
    → visits (draining ∷ drained ∷ restarting ∷ verifying ∷ completed ∷ []) (run os s).history
      ≡ true
unfolding new
completed_in_order os cluster reason actor timeout {s} made finished =
    rw finished at (run_in_order os s (ground arith))
