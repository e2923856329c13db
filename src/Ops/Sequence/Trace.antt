-- ===== src/Ops/Sequence/Trace.antt =====
-- tms/ops/sequence.py: the methods as one operation, and runs of them. A method that raises
-- leaves the object as it was.
pub mod Diagram
pub mod Visits
pub mod Evidence
use trino_management_service.Prelude.{ℕ, String, Bool, Option, List, [], ◌∷◌, Result, ok, err}
use trino_management_service.Health.States.{HealthState}
use trino_management_service.Ops.Sequence.{
  Sequence, SequenceError, begin, observe, observe_config_store, confirm_drained, force_drained,
  mark_restarting, mark_restarted, confirm_healthy, complete, begin_abort, finish_abort,
}

pub data Op : Type 0 where
  do_begin : Op
  do_observe : ℕ → Option HealthState → Op
  do_observe_store : Option Bool → String → Op
  do_confirm_drained : Op
  do_force_drained : String → Op
  do_mark_restarting : Op
  do_mark_restarted : Op
  do_confirm_healthy : Op
  do_complete : Op
  do_begin_abort : String → Op
  do_finish_abort : Op

unfoldable pub apply : Op → Sequence → Result SequenceError Sequence
unfolding begin observe observe_config_store confirm_drained force_drained mark_restarting
    mark_restarted confirm_healthy complete begin_abort finish_abort
apply do_begin s = begin s
apply (do_observe n h) s = ok (observe n h s)
apply (do_observe_store r d) s = ok (observe_config_store r d s)
apply do_confirm_drained s = confirm_drained s
apply (do_force_drained r) s = force_drained r s
apply do_mark_restarting s = mark_restarting s
apply do_mark_restarted s = mark_restarted s
apply do_confirm_healthy s = confirm_healthy s
apply do_complete s = complete s
apply (do_begin_abort note) s = begin_abort note s
apply do_finish_abort s = finish_abort s

-- The object after a call that may have raised.
abbrev pub settle : Result SequenceError Sequence → Sequence → Sequence
settle (ok t) s = t
settle (err e) s = s

unfoldable pub step : Op → Sequence → Sequence
unfolding apply
step o s = settle (apply o s) s

unfoldable pub run : List Op → Sequence → Sequence
run [] s = s
run (o ∷ os) s = run os (step o s)

-- What every step keeps holds at the end of every run.
pub run_induction {ℓ} :
    (P : Sequence → Type ℓ)
    → ((o : Op) (s : Sequence) → P s → P (step o s))
    → (os : List Op) (s : Sequence) → P s
    → P (run os s)
unfolding run
run_induction P keep [] s h = h
run_induction P keep (o ∷ os) s h = run_induction P keep os (step o s) (keep o s h)
