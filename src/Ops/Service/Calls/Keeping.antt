-- ===== src/Ops/Service/Calls/Keeping.antt =====
-- tms/ops/service.py: the repository after a call that saves at most once.
use trino_management_service.Prelude.{
  ℕ, ◌≡◌, refl, sym, subst, ◌∙◌, ◌⊎◌, inl, inr, String, Bool, true, false, Option, none, some, ok,
  err, arith, Option-cases, Result-cases,
}
use trino_management_service.Exec.{after}
use trino_management_service.Health.States.{HealthState}
use trino_management_service.Api.Permissions.{Principal}
use trino_management_service.Core.Audit.{action}
use trino_management_service.Ops.Sequence.{
  State, terminal, state_in, Sequence, force_drained, confirm_drained, mark_restarting,
  mark_restarted, confirm_healthy, complete, observe, observe_config_store, require, Blocked,
  SequenceError, blocked, reason_required, cannot_from, override_reason_required, already_finished,
}
use trino_management_service.Ops.Repository.{Repository, Stored, load, save}
use trino_management_service.Ops.Repository.Laws.{id-load, state_of}
use trino_management_service.Ops.Repository.Wellformed.{WellFormed, save-WellFormed}
use trino_management_service.Ops.Service.{
  require_admin, audited, observed, observe_cluster, check_config_store, running_of, health_of,
  load_or_404, save_stored, get,
}
use trino_management_service.Ops.Service.Types.{World, Environment}
use trino_management_service.Ops.Service.Calls.{
  force_drain, restart, mark_restarted_call, complete_call, started_log,
}
use trino_management_service.Ops.Service.Calls.Aborting.{restoring}

pub state_of-load :
    (id : ℕ) (repo : Repository) {st : Stored}
    → load id repo ≡ some st
    → state_of st.id repo ≡ some st.sequence.state
state_of-load id repo {st} h = rw (id-load id repo h, h) refl

cannot_be :
    (id : ℕ) (repo : Repository) (s : State) (t : Sequence) {st : Stored}
    → load id repo ≡ some st
    → state_of st.id repo ≡ some s
    → state_in st.sequence.state terminal ≡ false
    → state_in s terminal ≡ true
    → state_in t.state terminal ≡ true
cannot_be id repo s t {st} h found unfinished finished = ground (arith, state_of-load id repo h)

-- Saving over a sequence that was loaded and is not finished keeps the repository well formed.
pub save_over :
    (id : ℕ) (repo : Repository) {st : Stored} (t : Sequence) (f : Option String)
    → load id repo ≡ some st
    → state_in st.sequence.state terminal ≡ false
    → WellFormed repo
    → WellFormed (save (record st { sequence = t }) f repo)
save_over id repo {st} t f h unfinished well =
    save-WellFormed (record st { sequence = t }) f repo
      (λ s found finished. cannot_be id repo s t h found unfinished finished) well

force_drained_active :
    (r : String) (s : Sequence) {t : Sequence}
    → force_drained r s ≡ ok t
    → state_in s.state terminal ≡ false
unfolding force_drained require
force_drained_active r s h = ground arith

abbrev pub is_finished : Sequence → Bool
is_finished s = state_in s.state terminal

is_finished-observe_cluster :
    (n : Option ℕ) (h : Option HealthState) (s : Sequence)
    → is_finished (observe_cluster n h s) ≡ is_finished s
unfolding observe_cluster observe
is_finished-observe_cluster (some n) h s = ground arith
is_finished-observe_cluster none h s = ground arith

is_finished-check_config_store :
    (e : Environment) (s : Sequence) → is_finished (check_config_store e s) ≡ is_finished s
unfolding check_config_store observe_config_store
is_finished-check_config_store e s = ground arith

pub is_finished-observed :
    (e : Environment) (s : Sequence) → is_finished (observed e s) ≡ is_finished s
unfolding observed
is_finished-observed e s =
    is_finished-check_config_store e (
      observe_cluster (running_of (e.query_snapshot s.cluster))
        (health_of (e.health_snapshot s.cluster)) s)
    ∙ is_finished-observe_cluster (running_of (e.query_snapshot s.cluster))
        (health_of (e.health_snapshot s.cluster)) s

-- The repository after a call: as it was, or with one save over the sequence that was loaded, which
-- was not finished.
pub SavesOver : ℕ → Repository → Repository → Type 0
SavesOver id before after =
    (after ≡ before)
    ⊎ ((st : Stored) × (t : Sequence) × (f : Option String) × (load id before ≡ some st)
        × (state_in st.sequence.state terminal ≡ false)
        × (after ≡ save (record st { sequence = t }) f before))

pub SavesOver-WellFormed :
    (id : ℕ) (before after : Repository)
    → SavesOver id before after
    → WellFormed before
    → WellFormed after
unfolding SavesOver
SavesOver-WellFormed id before after (inl same) well = subst WellFormed (sym same) well
SavesOver-WellFormed id before after (inr (st, t, f, h, unfinished, saved)) well =
    subst WellFormed (sym saved) (save_over id before t f h unfinished well)

saved_over :
    (id : ℕ) (before after : Repository) (st : Stored) (t : Sequence) (f : Option String)
    → load id before ≡ some st
    → is_finished st.sequence ≡ false
    → (after ≡ before) ⊎ (after ≡ save (record st { sequence = t }) f before)
    → SavesOver id before after
unfolding SavesOver
saved_over id before after st t f found unfinished (inl same) = inl same
saved_over id before after st t f found unfinished (inr saved) =
    inr (st, t, f, found, unfinished, saved)

pub force_drain-SavesOver :
    (e : Environment) (p : Principal) (id : ℕ) (override : String) (w : World)
    → SavesOver id w.repository (force_drain e p id override w).1.repository
unfolding force_drain require_admin load_or_404 save_stored get audited action SavesOver
force_drain-SavesOver e p id override w = elim (Option-cases (load id w.repository)) [
  | inl missing ↦ inl (ground arith)
  | inr (st, found) ↦ elim (Result-cases (force_drained override (observed e st.sequence))) [
    | inl (x, refused) ↦ inl (ground arith)
    | inr (t, forced) ↦
        saved_over id w.repository (force_drain e p id override w).1.repository st t (some override)
          found
          (sym (is_finished-observed e st.sequence)
            ∙ force_drained_active override (observed e st.sequence) forced)
          (ground arith)
  ]
]

confirm_drained_active :
    (s : Sequence) {t : Sequence} → confirm_drained s ≡ ok t → is_finished s ≡ false
unfolding confirm_drained require
confirm_drained_active s h = ground arith

mark_restarted_active :
    (s : Sequence) {t : Sequence} → mark_restarted s ≡ ok t → is_finished s ≡ false
unfolding mark_restarted require
mark_restarted_active s h = ground arith

pub mark_restarted_call-SavesOver :
    (e : Environment) (p : Principal) (id : ℕ) (w : World)
    → SavesOver id w.repository (mark_restarted_call e p id w).1.repository
unfolding mark_restarted_call require_admin load_or_404 save_stored get SavesOver
mark_restarted_call-SavesOver e p id w = elim (Option-cases (load id w.repository)) [
  | inl missing ↦ inl (ground arith)
  | inr (st, found) ↦ elim (Result-cases (mark_restarted st.sequence)) [
    | inl (x, refused) ↦ inl (ground arith)
    | inr (t, back) ↦
        saved_over id w.repository (mark_restarted_call e p id w).1.repository st (observed e t)
          none found (mark_restarted_active st.sequence back) (ground arith)
  ]
]

pub restart-SavesOver :
    (e : Environment) (p : Principal) (id : ℕ) (w : World)
    → SavesOver id w.repository (restart e p id w).1.repository
unfolding restart require_admin load_or_404 save_stored get audited action SavesOver
restart-SavesOver e p id w = elim (Option-cases (load id w.repository)) [
  | inl missing ↦ inl (ground arith)
  | inr (st, found) ↦ elim (Result-cases (confirm_drained (observed e st.sequence))) [
    | inl (x, refused) ↦ inl (ground arith)
    | inr (t, empty) ↦ elim (Result-cases (mark_restarting t)) [
      | inl (x, refused) ↦ inl (ground arith)
      | inr (down, marked) ↦
          saved_over id w.repository (restart e p id w).1.repository st
            (started_log (e.executor.start down.cluster id) down) none found
            (sym (is_finished-observed e st.sequence)
              ∙ confirm_drained_active (observed e st.sequence) empty)
            (ground arith)
    ]
  ]
]

confirm_healthy_active :
    (s : Sequence) {t : Sequence} → confirm_healthy s ≡ ok t → is_finished s ≡ false
unfolding confirm_healthy require
confirm_healthy_active s h = ground arith

confirm_healthy_blocked :
    (s : Sequence) {b : Blocked} → confirm_healthy s ≡ err (blocked b) → is_finished s ≡ false
unfolding confirm_healthy require
confirm_healthy_blocked s h = ground arith

complete_blocked :
    (e : Environment) (p : Principal) (id : ℕ) (w : World) (st : Stored) (x : SequenceError)
    → load id w.repository ≡ some st
    → confirm_healthy (observed e st.sequence) ≡ err x
    → SavesOver id w.repository (complete_call e p id w).1.repository
unfolding complete_call require_admin load_or_404 save_stored SavesOver
complete_blocked e p id w st (blocked b) found h =
    saved_over id w.repository (complete_call e p id w).1.repository st (observed e st.sequence)
      none found
      (sym (is_finished-observed e st.sequence)
        ∙ confirm_healthy_blocked (observed e st.sequence) h)
      (ground arith)
complete_blocked e p id w st reason_required found h = inl (ground arith)
complete_blocked e p id w st (cannot_from a b) found h = inl (ground arith)
complete_blocked e p id w st override_reason_required found h = inl (ground arith)
complete_blocked e p id w st already_finished found h = inl (ground arith)

pub complete_call-SavesOver :
    (e : Environment) (p : Principal) (id : ℕ) (w : World)
    → SavesOver id w.repository (complete_call e p id w).1.repository
unfolding complete_call require_admin load_or_404 save_stored get SavesOver
complete_call-SavesOver e p id w = elim (Option-cases (load id w.repository)) [
  | inl missing ↦ inl (ground arith)
  | inr (st, found) ↦ elim (Result-cases (confirm_healthy (observed e st.sequence))) [
    | inl (x, refused) ↦ complete_blocked e p id w st x found refused
    | inr (t, healthy) ↦ elim (Result-cases (complete t)) [
      | inl (x, refused) ↦ inl (ground (arith, (restoring e p t.cluster t.reason w).0))
      | inr (back, done) ↦
          saved_over id w.repository (complete_call e p id w).1.repository st back none found
            (sym (is_finished-observed e st.sequence)
              ∙ confirm_healthy_active (observed e st.sequence) healthy)
            (ground (arith, (restoring e p t.cluster t.reason w).0))
    ]
  ]
]
