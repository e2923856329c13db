-- ===== src/Ops/Service/Calls/Invariant.antt =====
-- tms/ops/service.py: the repository after every call, and after a history of calls.
use trino_management_service.Prelude.{
  ℕ, ◌≡◌, sym, subst, ◌∙◌, inl, inr, true, none, some, List, [], ◌∷◌, ok, arith, Option-cases,
  Result-cases, Bool-cases,
}
use trino_management_service.Api.Permissions.{Principal}
use trino_management_service.Ops.Sequence.{State, terminal, state_in, Sequence}
use trino_management_service.Ops.Repository.{Repository, Stored, load, save}
use trino_management_service.Ops.Repository.Laws.{state_of}
use trino_management_service.Ops.Repository.Wellformed.{WellFormed, save-WellFormed}
use trino_management_service.Ops.Service.{
  observed, observe_stored, poll_executor, load_or_404, save_stored,
}
use trino_management_service.Ops.Service.Types.{World, Environment}
use trino_management_service.Ops.Service.Calls.{
  refresh, save_if_changed, same_fingerprint, force_drain, restart, mark_restarted_call,
  complete_call,
}
use trino_management_service.Ops.Service.Calls.Guards.{
  Call, start_call, force_drain_call, restart_call, restarted_call, complete_it, abort_call,
  refresh_call, perform,
}
use trino_management_service.Ops.Service.Calls.Keeping.{
  is_finished, is_finished-observed, state_of-load, SavesOver-WellFormed, force_drain-SavesOver,
  mark_restarted_call-SavesOver, restart-SavesOver, complete_call-SavesOver,
}
use trino_management_service.Ops.Service.Calls.AbortKeeps.{abort-WellFormed}
use trino_management_service.Ops.Service.Calls.StartKeeps.{start-WellFormed}

poll_finished :
    (e : Environment) (st : Stored) {t : Sequence}
    → is_finished st.sequence ≡ true
    → poll_executor e st ≡ ok t
    → t ≡ st.sequence
unfolding poll_executor
poll_finished e st finished h = ground arith

polled_stays :
    (e : Environment) (id : ℕ) (repo : Repository) {st : Stored} {t : Sequence} (s : State)
    → load id repo ≡ some st
    → poll_executor e (observe_stored e st) ≡ ok t
    → state_of st.id repo ≡ some s
    → state_in s terminal ≡ true
    → is_finished t ≡ true
polled_stays e id repo {st} {t} s found polled here finished =
    let seen : is_finished (observed e st.sequence) ≡ true =
      is_finished-observed e st.sequence ∙ ground (arith, state_of-load id repo found) in
    ground (arith, poll_finished e (observe_stored e st) seen polled, seen)

refresh_kept :
    (e : Environment) (id : ℕ) (w : World)
    → (refresh e id w).1.repository ≡ w.repository
    → WellFormed w.repository
    → WellFormed (refresh e id w).1.repository
refresh_kept e id w same h = subst WellFormed (sym same) h

refresh-WellFormed :
    (e : Environment) (id : ℕ) (w : World)
    → WellFormed w.repository
    → WellFormed (refresh e id w).1.repository
unfolding refresh load_or_404 save_if_changed save_stored
refresh-WellFormed e id w h = elim (Option-cases (load id w.repository)) [
  | inl missing ↦ refresh_kept e id w (ground arith) h
  | inr (st, found) ↦ elim (Result-cases (poll_executor e (observe_stored e st))) [
    | inl (x, refused) ↦ refresh_kept e id w (ground arith) h
    | inr (t, polled) ↦ elim (Bool-cases (same_fingerprint t st.sequence)) [
      | inl same ↦ refresh_kept e id w (ground arith) h
      | inr changed ↦
          let saved : (refresh e id w).1.repository
              ≡ save (record st { sequence = t }) none w.repository =
            ground arith in
          subst WellFormed (sym saved) (
            save-WellFormed (record st { sequence = t }) none w.repository
              (λ s here finished. polled_stays e id w.repository s found polled here finished) h)
    ]
  ]
]

perform-WellFormed :
    (e : Environment) (p : Principal) (c : Call) (w : World)
    → WellFormed w.repository
    → WellFormed (perform e p c w).1.repository
unfolding perform
perform-WellFormed e p (start_call cluster reason) w h = start-WellFormed e p cluster reason w h
perform-WellFormed e p (force_drain_call id override) w h =
    SavesOver-WellFormed id w.repository (force_drain e p id override w).1.repository
      (force_drain-SavesOver e p id override w) h
perform-WellFormed e p (restart_call id) w h =
    SavesOver-WellFormed id w.repository (restart e p id w).1.repository
      (restart-SavesOver e p id w) h
perform-WellFormed e p (restarted_call id) w h =
    SavesOver-WellFormed id w.repository (mark_restarted_call e p id w).1.repository
      (mark_restarted_call-SavesOver e p id w) h
perform-WellFormed e p (complete_it id) w h =
    SavesOver-WellFormed id w.repository (complete_call e p id w).1.repository
      (complete_call-SavesOver e p id w) h
perform-WellFormed e p (abort_call id note) w h = abort-WellFormed e p id note w h
perform-WellFormed e p (refresh_call id) w h = refresh-WellFormed e id w h

-- What happens to the service: a call by somebody, in the environment of its moment.
pub data Moment : Type 0 where
  call : Environment → Principal → Call → Moment

unfoldable pub happen : Moment → World → World
happen (call e p c) w = (perform e p c w).1

unfoldable pub history : List Moment → World → World
history [] w = w
history (m ∷ ms) w = history ms (happen m w)

happen-WellFormed :
    (m : Moment) (w : World) → WellFormed w.repository → WellFormed (happen m w).repository
unfolding happen
happen-WellFormed (call e p c) w h = perform-WellFormed e p c w h

-- Whatever calls are made one after another, by whom, and whatever the outside answers, a well-formed
-- repository stays well formed: at no time does a cluster have two restarts that are not finished.
pub history-WellFormed :
    (ms : List Moment) (w : World) → WellFormed w.repository → WellFormed (history ms w).repository
unfolding history
history-WellFormed [] w h = h
history-WellFormed (m ∷ ms) w h = history-WellFormed ms (happen m w) (happen-WellFormed m w h)
