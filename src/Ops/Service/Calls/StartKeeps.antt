-- ===== src/Ops/Service/Calls/StartKeeps.antt =====
-- tms/ops/service.py, `start`: the repository after it.
use trino_management_service.Prelude.{
  ℕ, ◌≡◌, refl, sym, ap, subst, ◌∙◌, ◌⊎◌, inl, inr, String, Bool, false, none, some, List, Result,
  ok, err, arith, Option-cases, Result-cases,
}
use trino_management_service.Exec.{after}
use trino_management_service.Api.Permissions.{Principal}
use trino_management_service.Core.Audit.{action}
use trino_management_service.Ops.Sequence.{
  aborted, SequenceError, Sequence, new, begin, finish_abort, is_terminal, record_step,
  aborted_back, log, could_not_stop, error,
}
use trino_management_service.Ops.Repository.{Repository, Stored, save, create, mark_persisted}
use trino_management_service.Ops.Repository.Laws.{state_of}
use trino_management_service.Ops.Repository.Wellformed.{
  WellFormed, save-WellFormed, create-WellFormed, state_of-create,
}
use trino_management_service.Ops.Service.{
  require_admin, cluster_or_404, audited, observed, load_or_404, save_stored, get,
  set_gateway_active, find_backend,
}
use trino_management_service.Ops.Service.Types.{World, Environment, ServiceError}
use trino_management_service.Ops.Service.Calls.{
  start, error_text, or_close_out, close_out, stop_traffic, create_row,
}
use trino_management_service.Ops.Service.Calls.Aborting.{begun, begin_abort-eq, state-begun}
use trino_management_service.Ops.Service.Calls.AbortKeeps.{SavesMore}

gateway_kept :
    (e : Environment) (cluster : String) (active : Bool) (w : World)
    → (set_gateway_active e cluster active w).1.repository ≡ w.repository
unfolding set_gateway_active
gateway_kept e cluster active w = elim (Option-cases (find_backend cluster e.backends)) [
  | inl missing ↦ ground arith
  | inr (name, found) ↦ ground arith
]

-- Turning a backend on or off touches no row.
audited_gateway_kept :
    (e : Environment) (p : Principal) (cluster reason : String) (active : Bool) (w : World)
    → (audited e p cluster reason (set_gateway_active e cluster active) w).1.repository
      ≡ w.repository
unfolding audited action
audited_gateway_kept e p cluster reason active w = ground (arith, gateway_kept e cluster active w)

closed_or_kept :
    (st : Stored) (w : World) (r : Result ServiceError (Unit {0}) × World)
    → is_terminal st.sequence ≡ false
    → r.1.repository ≡ w.repository
    → SavesMore st w (or_close_out st r)
unfolding or_close_out close_out save_stored finish_abort record_step
closed_or_kept st w (ok u, w') active kept = inl (refl, kept)
closed_or_kept st w (err x, w') active kept =
    let told = log (could_not_stop (error_text st.sequence.cluster x)) error st.sequence in
    let t = begun "Nothing was changed." told in
    let still : is_terminal told ≡ false = unfold is_terminal log in active in
    let eq = begin_abort-eq "Nothing was changed." told still in
    let down = state-begun "Nothing was changed." told in
    inr (
      ground (arith, eq, down),
      (record_step aborted (aborted_back t.cluster) t, ground (arith, eq, down, kept)),
    )

stop-SavesMore :
    (e : Environment) (p : Principal) (st : Stored) (reason : String) (w : World)
    → is_terminal st.sequence ≡ false
    → SavesMore st w (stop_traffic e p st reason w)
unfolding stop_traffic
stop-SavesMore e p st reason w active =
    closed_or_kept st w
      (audited e p st.sequence.cluster reason (set_gateway_active e st.sequence.cluster false) w)
      active (audited_gateway_kept e p st.sequence.cluster reason false w)

-- What is left of a start: nothing, the new row, or the new row saved once more.
OneMore : Repository → Stored → Repository → Repository → Type 0
OneMore before st made after =
    (after ≡ before)
    ⊎ ((after ≡ made) ⊎ ((t : Sequence) × (after ≡ save (record st { sequence = t }) none made)))

one_more :
    (before : Repository) (st : Stored) (made after : Repository) (t : Sequence)
    → (after ≡ before) ⊎ ((after ≡ made) ⊎ (after ≡ save (record st { sequence = t }) none made))
    → OneMore before st made after
unfolding OneMore
one_more before st made after t (inl same) = inl same
one_more before st made after t (inr (inl same)) = inr (inl same)
one_more before st made after t (inr (inr saved)) = inr (inr (t, saved))

start-OneMore :
    (e : Environment) (p : Principal) (cluster reason : String) (w : World) (s : Sequence)
    (st : Stored) (made : Repository)
    → new cluster reason p.username 900 ≡ ok s
    → create s p.roles w.repository ≡ some (st, made)
    → is_terminal st.sequence ≡ false
    → OneMore w.repository st made (start e p cluster reason w).1.repository
unfolding start require_admin cluster_or_404 create_row load_or_404 save_stored get OneMore
start-OneMore e p cluster reason w s st made fresh created active =
    let w1 = record w { repository = made } in
    elim (stop-SavesMore e p st reason w1 active) [
      | inr (stuck, (t, saved)) ↦
          one_more w.repository st made (start e p cluster reason w).1.repository t
            (ground (arith, stuck, saved))
      | inl (done, kept) ↦ elim (Result-cases (begin st.sequence)) [
        | inl (x, refused) ↦
            one_more w.repository st made (start e p cluster reason w).1.repository st.sequence
              (ground (arith, done, kept))
        | inr (t, begun_now) ↦
            one_more w.repository st made (start e p cluster reason w).1.repository (observed e t)
              (ground (arith, done, kept))
      ]
    ]

new_active :
    (cluster reason actor : String) (timeout : ℕ) {s : Sequence}
    → new cluster reason actor timeout ≡ ok s
    → is_terminal s ≡ false
unfolding new is_terminal
new_active cluster reason actor timeout h = ground arith

sequence-create :
    (s : Sequence) (roles : List String) (repo : Repository) {st : Stored} {repo' : Repository}
    → create s roles repo ≡ some (st, repo')
    → st.sequence ≡ s
unfolding create mark_persisted
sequence-create s roles repo h = ground arith

OneMore-WellFormed :
    (before : Repository) (st : Stored) (made after : Repository)
    → state_of st.id made ≡ some st.sequence.state
    → is_terminal st.sequence ≡ false
    → OneMore before st made after
    → WellFormed before
    → WellFormed made
    → WellFormed after
unfolding OneMore is_terminal
OneMore-WellFormed before st made after row active (inl same) b m = subst WellFormed (sym same) b
OneMore-WellFormed before st made after row active (inr (inl same)) b m =
    subst WellFormed (sym same) m
OneMore-WellFormed before st made after row active (inr (inr (t, saved))) b m =
    subst WellFormed (sym saved)
      (save-WellFormed (record st { sequence = t }) none made (λ s found finished. ground arith) m)

start_unmade :
    (e : Environment) (p : Principal) (cluster reason : String) (w : World)
    → ((x : SequenceError) × (new cluster reason p.username 900 ≡ err x))
      ⊎ ((s : Sequence) × (new cluster reason p.username 900 ≡ ok s)
          × (create s p.roles w.repository ≡ none))
    → (start e p cluster reason w).1.repository ≡ w.repository
unfolding start require_admin cluster_or_404 create_row
start_unmade e p cluster reason w (inl (x, refused)) = ground arith
start_unmade e p cluster reason w (inr (s, fresh, busy)) = ground arith

pub start-WellFormed :
    (e : Environment) (p : Principal) (cluster reason : String) (w : World)
    → WellFormed w.repository
    → WellFormed (start e p cluster reason w).1.repository
start-WellFormed e p cluster reason w well =
    elim (Result-cases (new cluster reason p.username 900)) [
      | inl (x, refused) ↦
          subst WellFormed (sym (start_unmade e p cluster reason w (inl (x, refused)))) well
      | inr (s, fresh) ↦ elim (Option-cases (create s p.roles w.repository)) [
        | inl busy ↦
            subst WellFormed (sym (start_unmade e p cluster reason w (inr (s, fresh, busy)))) well
        | inr ((st, made), created) ↦
            let same = sequence-create s p.roles w.repository created in
            let active = ap is_terminal same ∙ new_active cluster reason p.username 900 fresh in
            let row =
              state_of-create s p.roles w.repository created well
              ∙ ap (λ (t : Sequence). some t.state) (sym same) in
            OneMore-WellFormed w.repository st made (start e p cluster reason w).1.repository row
              active (start-OneMore e p cluster reason w s st made fresh created active) well
              (create-WellFormed s p.roles w.repository created well)
      ]
    ]
