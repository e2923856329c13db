-- ===== src/Ops/Service/Calls/Guards.antt =====
-- tms/ops/service.py: the calls of an operator as one operation, and their guards.
use trino_management_service.Prelude.{
  ℕ, suc, ◌≡◌, String, Bool, true, false, Option, none, some, Result, ok, err, arith, refl, ◌⊎◌,
  inl, inr,
}
use trino_management_service.Api.Permissions.{Principal, manage_health, can}
use trino_management_service.Core.Audit.{action}
use trino_management_service.Core.Audit.Reason.{normalise_reason}
use trino_management_service.Ops.Sequence.{Sequence, confirm_drained}
use trino_management_service.Ops.Repository.{Stored, load}
use trino_management_service.Ops.Service.{
  Service, require_admin, cluster_or_404, audited, observed, load_or_404, save_stored, get,
}
use trino_management_service.Ops.Service.Types.{
  World, Environment, ServiceError, forbidden, no_permission, audit_reason_required,
}
use trino_management_service.Ops.Service.Calls.{
  start, refresh, save_if_changed, force_drain, restart, mark_restarted_call, complete_call, abort,
}

-- The calls that change something. `refresh` only follows the cluster, and asks for no capability.
pub data Call : Type 0 where
  start_call : String → String → Call
  force_drain_call : ℕ → String → Call
  restart_call : ℕ → Call
  restarted_call : ℕ → Call
  complete_it : ℕ → Call
  abort_call : ℕ → String → Call
  refresh_call : ℕ → Call

abbrev pub is_refresh : Call → Bool
is_refresh (refresh_call id) = true
is_refresh _ = false

unfoldable pub perform : Environment → Principal → Call → Service Sequence
perform e p (start_call cluster reason) = start e p cluster reason
perform e p (force_drain_call id override) = force_drain e p id override
perform e p (restart_call id) = restart e p id
perform e p (restarted_call id) = mark_restarted_call e p id
perform e p (complete_it id) = complete_call e p id
perform e p (abort_call id note) = abort e p id note
perform e p (refresh_call id) = refresh e id

-- Whoever refreshes, and whatever comes of it: what changes, if anything, is the repository.
refresh_only_saves :
    (e : Environment) (id : ℕ) (w : World)
    → ((refresh e id w).1.effects ≡ w.effects) × ((refresh e id w).1.trail ≡ w.trail)
unfolding refresh load_or_404 save_if_changed save_stored
refresh_only_saves e id w = ground arith

-- A caller without the capability to manage health is told so and changes nothing, by any call but a
-- refresh: no row, no audit record, nothing outside. A refresh, which asks for no capability, may save
-- the row, but it leaves no audit record and changes nothing outside.
pub perform_needs_admin :
    (e : Environment) (p : Principal) (c : Call) (w : World)
    → can manage_health p ≡ false
    → ((is_refresh c ≡ false) × (perform e p c w ≡ (err (forbidden no_permission), w)))
      ⊎ ((is_refresh c ≡ true)
          × ((perform e p c w).1.effects ≡ w.effects)
          × ((perform e p c w).1.trail ≡ w.trail))
unfolding perform start force_drain restart mark_restarted_call complete_call abort require_admin
perform_needs_admin e p (start_call cluster reason) w h = inl (refl, rw h refl)
perform_needs_admin e p (force_drain_call id override) w h = inl (refl, rw h refl)
perform_needs_admin e p (restart_call id) w h = inl (refl, rw h refl)
perform_needs_admin e p (restarted_call id) w h = inl (refl, rw h refl)
perform_needs_admin e p (complete_it id) w h = inl (refl, rw h refl)
perform_needs_admin e p (abort_call id note) w h = inl (refl, rw h refl)
perform_needs_admin e p (refresh_call id) w h =
    (let (effects, trail) = refresh_only_saves e id w in inr (refl, effects, trail))

abbrev pub answers : Result ServiceError Sequence → Bool
answers (ok s) = true
answers (err x) = false

-- While queries are seen on the cluster, or the last count was not zero and there is none newer,
-- the restart is refused and the world stays as it is: also after a forced drain.
pub restart_refused_while_running :
    (e : Environment) (p : Principal) (id : ℕ) (w : World) {st : Stored} {n : ℕ}
    → load id w.repository ≡ some st
    → (observed e st.sequence).running_queries ≡ some (suc n)
    → (answers (restart e p id w).0 ≡ false) × ((restart e p id w).1 ≡ w)
unfolding restart load_or_404 confirm_drained require_admin
restart_refused_while_running e p id w {st} h q = ground arith

-- What a call answers when its audit record could not be written.
abbrev unwritable_error : Option String → ServiceError
unwritable_error none = audit_reason_required
unwritable_error (some clean) = ServiceError.audit_unavailable

audited_unwritable :
    {A : Type 0} (e : Environment) (p : Principal) (cluster reason : String) (body : Service A)
    (w : World)
    → e.audit_writable ≡ false
    → audited e p cluster reason body w
      ≡ (err (unwritable_error (normalise_reason (some reason))), w)
unfolding audited action
audited_unwritable e p cluster reason body w h = ground arith

-- With the audit store down, no call puts a backend in rotation or out of it, or starts a playbook.
pub effects_need_audit :
    (e : Environment) (p : Principal) (c : Call) (w : World)
    → e.audit_writable ≡ false
    → (perform e p c w).1.effects ≡ w.effects
unfolding perform start force_drain restart mark_restarted_call complete_call abort require_admin
    cluster_or_404 load_or_404 save_stored get
effects_need_audit e p (start_call cluster reason) w h = grind (arith, audited_unwritable)
effects_need_audit e p (force_drain_call id override) w h = grind (arith, audited_unwritable)
effects_need_audit e p (restart_call id) w h = grind (arith, audited_unwritable)
effects_need_audit e p (restarted_call id) w h = grind (arith)
effects_need_audit e p (complete_it id) w h = grind (arith, audited_unwritable)
effects_need_audit e p (abort_call id note) w h = grind (arith, audited_unwritable)
effects_need_audit e p (refresh_call id) w h = (refresh_only_saves e id w).0
