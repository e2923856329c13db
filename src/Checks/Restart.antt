-- ===== src/Checks/Restart.antt =====
-- A restart from start to end on concrete inputs.
use trino_management_service.Prelude.{
  ◌≡◌, ◌⊎◌, refl, true, false, none, some, List, [], ◌∷◌, ok, is_blank,
}
use trino_management_service.Health.States.{good}
use trino_management_service.Ops.Sequence.{
  pending, draining, drained, restarting, verifying, completed, aborted, Sequence, new, is_terminal,
  traffic_stopped, force_drained,
}
use trino_management_service.Ops.Sequence.Trace.{
  Op, do_begin, do_observe, do_force_drained, do_mark_restarting, do_mark_restarted,
  do_confirm_healthy, do_complete, do_begin_abort, do_finish_abort, apply, step, run,
}
use trino_management_service.Ops.Sequence.Trace.Diagram.{
  ◌⟶◌, apply_follows_diagram, terminal_absorbs, abort_puts_back,
}
use trino_management_service.Ops.Sequence.Trace.Visits.{visits, completed_in_order}
use trino_management_service.Ops.Sequence.Trace.Evidence.{
  past_drain, says_empty, says_empty_or_forced, has_line, drained_has_evidence,
  unforced_drain_was_empty,
}

abbrev fresh : Sequence
fresh = record {
  cluster = "prod-a";
  reason = "upgrade";
  actor = "ann";
  state = pending;
  history = [];
  drain_timeout_seconds = 900;
  running_queries = none;
  health_state = none;
  config_store_ready = none;
  config_store_detail = "";
}

abbrev happy : List Op
happy =
    do_begin
    ∷ do_observe 2 none
    ∷ do_observe 0 (some good)
    ∷ do_mark_restarting
    ∷ do_mark_restarted
    ∷ do_confirm_healthy
    ∷ do_complete
    ∷ []

abbrev forced : List Op
forced = do_begin ∷ do_observe 2 none ∷ do_force_drained "stuck" ∷ do_mark_restarting ∷ []

happy_completes : (run happy fresh).state ≡ completed
unfolding run step
happy_completes = refl

completed_in_order_example :
    visits (draining ∷ drained ∷ restarting ∷ verifying ∷ completed ∷ []) (run happy fresh).history
    ≡ true
completed_in_order_example =
    completed_in_order happy "prod-a" " upgrade " "ann" 900 {s = fresh} (unfold new in refl)
      happy_completes

begun : apply do_begin fresh ≡ ok (step do_begin fresh)
unfolding step
begun = refl

apply_follows_diagram_example :
    ((step do_begin fresh).state ≡ pending) ⊎ (pending ⟶ (step do_begin fresh).state)
apply_follows_diagram_example = apply_follows_diagram do_begin fresh {t = step do_begin fresh} begun

over : is_terminal (run happy fresh) ≡ true
unfolding run step is_terminal
over = refl

terminal_absorbs_example : (run forced (run happy fresh)).state ≡ (run happy fresh).state
terminal_absorbs_example = terminal_absorbs forced (run happy fresh) over

under_way : is_terminal (run forced fresh) ≡ false
unfolding run step is_terminal is_blank
under_way = refl

abort_puts_back_example :
    (traffic_stopped (step (do_begin_abort "") (run forced fresh)) ≡ true)
    × ((run (do_begin_abort "" ∷ do_finish_abort ∷ []) (run forced fresh)).state ≡ aborted)
abort_puts_back_example = abort_puts_back "" (run forced fresh) under_way

abbrev waiting : Sequence
waiting = record fresh { state = draining; running_queries = some 2 }

forced_ok : force_drained " stuck " waiting ≡ ok (step (do_force_drained " stuck ") waiting)
unfolding step is_blank
forced_ok = refl

forced_restarts : past_drain (run forced fresh).state ≡ true
unfolding run step is_blank
forced_restarts = refl

drained_has_evidence_example : has_line says_empty_or_forced (run forced fresh).history ≡ true
drained_has_evidence_example = drained_has_evidence forced fresh refl forced_restarts

happy_gets_past : past_drain (run happy fresh).state ≡ true
unfolding run step
happy_gets_past = refl

unforced_drain_was_empty_example : has_line says_empty (run happy fresh).history ≡ true
unforced_drain_was_empty_example = unforced_drain_was_empty happy fresh refl refl happy_gets_past
