-- ===== src/Ops/Sequence/Trace/Diagram.antt =====
-- The state diagram of tms/ops/sequence.py, and what no operation does to a state.
use trino_management_service.Prelude.{
  ◌≡◌, refl, ◌⊎◌, ◌↔◌, String, Bool, true, false, none, some, List, [], ◌∷◌, ◌∙◌, arith, Result, ok,
  err, count, if◌then◌else◌,
}
use trino_management_service.Health.States.{good}
use trino_management_service.Ops.Sequence.{
  State, pending, draining, drained, restarting, verifying, completed, aborting, aborted, Sequence,
  SequenceError, is_terminal, traffic_stopped, mark_restarting, complete, begin_abort, finish_abort,
  is_false, StepStatus, current, steps,
}
use trino_management_service.Ops.Sequence.Trace.{
  Op, do_begin, do_observe, do_observe_store, do_confirm_drained, do_force_drained,
  do_mark_restarting, do_mark_restarted, do_confirm_healthy, do_complete, do_begin_abort,
  do_finish_abort, apply, step, run,
}

abbrev pub not_finished : State → Bool
not_finished completed = false
not_finished aborted = false
not_finished _ = true

infix 40 ◌⟶◌
pub data ◌⟶◌ : State → State → Type 0 where
  stop_intake : pending ⟶ draining
  empty : draining ⟶ drained
  restart : drained ⟶ restarting
  came_back : restarting ⟶ verifying
  restore : verifying ⟶ completed
  give_up : {s : State} → not_finished s ≡ true → s ⟶ aborting
  put_back : aborting ⟶ aborted

ruleset edges = (stop_intake, empty, restart, came_back, restore, give_up, put_back)

-- An operation that succeeds follows one arrow of the diagram, or leaves the state as it is.
pub apply_follows_diagram :
    (o : Op) (s : Sequence) {t : Sequence}
    → apply o s ≡ ok t
    → (t.state ≡ s.state) ⊎ (s.state ⟶ t.state)
unfolding apply
apply_follows_diagram do_begin s h = grind (arith, edges)
apply_follows_diagram (do_observe n k) s h = grind (arith, edges)
apply_follows_diagram (do_observe_store none d) s h = grind (arith, edges)
apply_follows_diagram (do_observe_store (some r) d) s h = grind (arith, edges)
apply_follows_diagram do_confirm_drained s h = grind (arith, edges)
apply_follows_diagram (do_force_drained r) s h = grind (arith, edges)
apply_follows_diagram do_mark_restarting s h = grind (arith, edges)
apply_follows_diagram do_mark_restarted s h = grind (arith, edges)
apply_follows_diagram do_confirm_healthy s h = grind (arith, edges)
apply_follows_diagram do_complete s h = grind (arith, edges)
apply_follows_diagram (do_begin_abort note) s h = grind (arith, edges)
apply_follows_diagram do_finish_abort s h = grind (arith, edges)

step-keeps-terminal : (o : Op) (s : Sequence) → is_terminal s ≡ true → (step o s).state ≡ s.state
unfolding step is_terminal
step-keeps-terminal do_begin s h = ground arith
step-keeps-terminal (do_observe n k) s h = ground arith
step-keeps-terminal (do_observe_store none d) s h = ground arith
step-keeps-terminal (do_observe_store (some r) d) s h = ground arith
step-keeps-terminal do_confirm_drained s h = ground arith
step-keeps-terminal (do_force_drained r) s h = ground arith
step-keeps-terminal do_mark_restarting s h = ground arith
step-keeps-terminal do_mark_restarted s h = ground arith
step-keeps-terminal do_confirm_healthy s h = ground arith
step-keeps-terminal do_complete s h = ground arith
step-keeps-terminal (do_begin_abort note) s h = ground arith
step-keeps-terminal do_finish_abort s h = ground arith

is_terminal_of_state :
    (s t : Sequence) → t.state ≡ s.state → is_terminal s ≡ true → is_terminal t ≡ true
unfolding is_terminal
is_terminal_of_state s t e h = ground arith

-- A sequence that is COMPLETED or ABORTED stays in that state, whatever operations follow.
pub terminal_absorbs :
    (os : List Op) (s : Sequence) → is_terminal s ≡ true → (run os s).state ≡ s.state
unfolding run
terminal_absorbs [] s h = refl
terminal_absorbs (o ∷ os) s h =
    let same = step-keeps-terminal o s h in
    terminal_absorbs os (step o s) (is_terminal_of_state s (step o s) same h) ∙ same

-- From every state that is not terminal, an abort and its confirmation end in ABORTED; the first
-- of the two alone leaves traffic stopped.
pub abort_puts_back :
    (note : String) (s : Sequence)
    → is_terminal s ≡ false
    → (traffic_stopped (step (do_begin_abort note) s) ≡ true)
      × ((run (do_begin_abort note ∷ do_finish_abort ∷ []) s).state ≡ aborted)
unfolding run step is_terminal traffic_stopped begin_abort finish_abort
abort_puts_back note s h = ground arith

abbrev pub succeeds : Result SequenceError Sequence → Bool
succeeds (ok t) = true
succeeds (err e) = false

-- The restart may begin exactly when the sequence is DRAINED and the resource group store has not
-- been seen to be unusable.
pub mark_restarting_iff :
    (s : Sequence)
    → (succeeds (mark_restarting s) ≡ true)
      ↔ ((s.state ≡ drained) × (is_false s.config_store_ready ≡ false))
unfolding mark_restarting
mark_restarting_iff s = ground arith

-- Traffic may return exactly when the sequence is VERIFYING and the last health seen is GOOD.
pub complete_iff :
    (s : Sequence)
    → (succeeds (complete s) ≡ true) ↔ ((s.state ≡ verifying) × (s.health_state ≡ some good))
unfolding complete
complete_iff s = ground arith

abbrev pub is_current : State × StepStatus → Bool
is_current (s, current) = true
is_current (s, other) = false

abbrev pub in_progress : State → Bool
in_progress completed = false
in_progress aborting = false
in_progress aborted = false
in_progress _ = true

-- The checklist has one current step while the restart is under way, and none once it is completed,
-- being aborted or aborted.
pub steps_one_current :
    (s : Sequence) → count is_current (steps s) ≡ (if in_progress s.state then 1 else 0)
unfolding steps
steps_one_current s = ground arith
