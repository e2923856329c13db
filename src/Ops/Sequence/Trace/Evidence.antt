-- ===== src/Ops/Sequence/Trace/Evidence.antt =====
-- tms/ops/sequence.py: what the log shows of a drain, by the cluster being empty or by force.
use trino_management_service.Prelude.{
  ℕ, String, ◌≡◌, refl, Bool, true, false, ◌||◌, none, some, List, [], ◌∷◌, ◌++◌, arith, all, All,
  strip, ok, ap,
}
use trino_management_service.Ops.Sequence.{
  State, pending, drained, restarting, verifying, completed, Sequence, Event, Message, info, warn,
  force_drained, warn_last, all_finished, waiting_for, store_detail, confirmed_empty, forced_past,
  or_zero, bringing_down, checking_health, health_is_good, back_in_rotation,
}
use trino_management_service.Ops.Sequence.Trace.{
  Op, do_begin, do_observe, do_observe_store, do_confirm_drained, do_force_drained,
  do_mark_restarting, do_mark_restarted, do_confirm_healthy, do_complete, do_begin_abort,
  do_finish_abort, step, run,
}

warn_last-snoc :
    (h : List Event) (e : Event) → warn_last (h ++ e ∷ []) ≡ h ++ record e { level = warn } ∷ []
unfolding warn_last
warn_last-snoc [] e = refl
warn_last-snoc (f ∷ []) e = refl
warn_last-snoc (f ∷ g ∷ h) e = ap (λ (t : List Event). f ∷ t) (warn_last-snoc (g ∷ h) e)

-- A forced drain that succeeds appends one line at level `warn`, with the number of queries last
-- seen and the stripped reason, and is DRAINED.
pub force_drained_recorded :
    (reason : String) (s : Sequence) {t : Sequence}
    → force_drained reason s ≡ ok t
    → (t.state ≡ drained)
      × (t.history
          ≡ s.history
            ++ record {
              state = drained;
              level = warn;
              message = forced_past (or_zero s.running_queries) (strip reason);
            }
              ∷ [])
unfolding force_drained
force_drained_recorded reason s h = ground (
  arith,
  warn_last-snoc s.history (record {
    state = drained;
    level = info;
    message = forced_past (or_zero s.running_queries) (strip reason);
  }),
)

-- Lines that say the cluster was seen to be empty, and lines of a forced drain.
abbrev pub says_empty : Message → Bool
says_empty (all_finished c) = true
says_empty (confirmed_empty c) = true
says_empty _ = false

abbrev pub says_forced : Message → Bool
says_forced (forced_past n r) = true
says_forced _ = false

abbrev pub past_drain : State → Bool
past_drain drained = true
past_drain restarting = true
past_drain verifying = true
past_drain completed = true
past_drain _ = false

pub has_line : (Message → Bool) → List Event → Bool
has_line p [] = false
has_line p (e ∷ h) = p e.message || has_line p h

has_line-append :
    (p : Message → Bool) (h k : List Event) → has_line p (h ++ k) ≡ (has_line p h || has_line p k)
unfolding has_line
has_line-append p [] k = refl
has_line-append p (e ∷ h) k = ground (arith, has_line-append p h k)

has_line-warn_last : (p : Message → Bool) (h : List Event) → has_line p (warn_last h) ≡ has_line p h
unfolding has_line warn_last
has_line-warn_last p [] = refl
has_line-warn_last p (e ∷ []) = refl
has_line-warn_last p (e ∷ f ∷ h) = rw (has_line-warn_last p (f ∷ h))

-- `p` holds of the lines that say the cluster was empty, and of all that `o` logs on a forced drain.
abbrev Permits : (Message → Bool) → Op → Type 0
Permits p (do_force_drained r) = (n : ℕ) → p (forced_past n (strip r)) ≡ true
Permits p _ = Unit

module _ (p : Message → Bool) (finished : (c : String) → p (all_finished c) ≡ true)
    (confirmed : (c : String) → p (confirmed_empty c) ≡ true) where
  abbrev HasEvidence : Sequence → Type 0
  HasEvidence s = past_drain s.state ≡ true → has_line p s.history ≡ true

  abbrev line : State → Message → List Event
  line x m = record { state = x; level = info; message = m } ∷ []

  step-HasEvidence : (o : Op) (s : Sequence) → Permits p o → HasEvidence s → HasEvidence (step o s)
  unfolding step has_line
  step-HasEvidence do_begin s a h q = ground (arith)
  step-HasEvidence (do_observe n k) s a h q = ground (
    arith,
    finished s.cluster,
    has_line-append p s.history (line drained (all_finished s.cluster)),
    has_line-append p s.history (line s.state (waiting_for n)),
    h,
  )
  step-HasEvidence (do_observe_store none d) s a h q = h q
  step-HasEvidence (do_observe_store (some true) d) s a h q =
      ground (arith, has_line-append p s.history (line s.state (store_detail d)), h)
  step-HasEvidence (do_observe_store (some false) d) s a h q =
      let warned : List Event =
        record { state = s.state; level = warn; message = store_detail d } ∷ [] in
      ground (arith, has_line-append p s.history warned, h)
  step-HasEvidence do_confirm_drained s a h q = ground (
    arith,
    confirmed s.cluster,
    has_line-append p s.history (line drained (confirmed_empty s.cluster)),
    h,
  )
  step-HasEvidence (do_force_drained r) s a h q =
      let m = forced_past (or_zero s.running_queries) (strip r) in
      ground (
        arith,
        a (or_zero s.running_queries),
        has_line-warn_last p (s.history ++ line drained m),
        has_line-append p s.history (line drained m),
        h,
      )
  step-HasEvidence do_mark_restarting s a h q =
      ground (arith, has_line-append p s.history (line restarting (bringing_down s.cluster)), h)
  step-HasEvidence do_mark_restarted s a h q =
      ground (arith, has_line-append p s.history (line verifying (checking_health s.cluster)), h)
  step-HasEvidence do_confirm_healthy s a h q =
      ground (arith, has_line-append p s.history (line s.state health_is_good), h)
  step-HasEvidence do_complete s a h q =
      ground (arith, has_line-append p s.history (line completed (back_in_rotation s.cluster)), h)
  step-HasEvidence (do_begin_abort note) s a h q = ground (arith, h)
  step-HasEvidence do_finish_abort s a h q = ground (arith, h)

  run-HasEvidence :
      (os : List Op) (s : Sequence) → All (Permits p) os → HasEvidence s → HasEvidence (run os s)
  unfolding run
  run-HasEvidence [] s a h = h
  run-HasEvidence (o ∷ os) s a h = run-HasEvidence os (step o s) a.1 (step-HasEvidence o s a.0 h)

abbrev pub says_empty_or_forced : Message → Bool
says_empty_or_forced m = says_empty m || says_forced m

Permits-any : (os : List Op) → All (Permits says_empty_or_forced) os
Permits-any [] = tt
Permits-any (do_force_drained r ∷ os) = (λ n. refl, Permits-any os)
Permits-any (_ ∷ os) = (tt, Permits-any os)

-- A sequence that was PENDING and came past the drain (DRAINED, RESTARTING, VERIFYING or COMPLETED) has a log line that says
-- the cluster was empty, or the line of a forced drain.
pub drained_has_evidence :
    (os : List Op) (s : Sequence)
    → s.state ≡ pending
    → past_drain (run os s).state ≡ true
    → has_line says_empty_or_forced (run os s).history ≡ true
drained_has_evidence os s new =
    run-HasEvidence says_empty_or_forced (λ c. refl) (λ c. refl) os s (Permits-any os) (λ q. cc)

abbrev pub unforced : Op → Bool
unforced (do_force_drained r) = false
unforced _ = true

Permits-unforced : (os : List Op) → all unforced os ≡ true → All (Permits says_empty) os
Permits-unforced [] h = tt
Permits-unforced (do_force_drained r ∷ os) h = cc
Permits-unforced (_ ∷ os) h = (tt, Permits-unforced os h)

-- Without a forced drain among the operations, a sequence that was PENDING and came past the drain has logged that the
-- cluster was empty.
pub unforced_drain_was_empty :
    (os : List Op) (s : Sequence)
    → s.state ≡ pending
    → all unforced os ≡ true
    → past_drain (run os s).state ≡ true
    → has_line says_empty (run os s).history ≡ true
unforced_drain_was_empty os s new all_unforced =
    run-HasEvidence says_empty (λ c. refl) (λ c. refl) os s (Permits-unforced os all_unforced)
      (λ q. cc)
