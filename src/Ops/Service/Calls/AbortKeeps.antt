-- ===== src/Ops/Service/Calls/AbortKeeps.antt =====
-- tms/ops/service.py, `abort`: the repository after it.
use trino_management_service.Prelude.{
  ℕ, ◌≡◌, refl, sym, ap, subst, ◌∙◌, ◌⊎◌, inl, inr, String, true, false, Option, none, some, Result,
  ok, err, arith, Option-cases, Bool-cases, or_else,
}
use trino_management_service.Api.Permissions.{Principal, can, manage_health}
use trino_management_service.Ops.Sequence.{
  aborting, aborted, Sequence, begin_abort, finish_abort, is_terminal, record_step, aborted_back,
  log, could_not_restore, error,
}
use trino_management_service.Ops.Repository.{Repository, Stored, load, save, mark_persisted}
use trino_management_service.Ops.Repository.Laws.{id-load, state_of}
use trino_management_service.Ops.Repository.Wellformed.{WellFormed, save-WellFormed}
use trino_management_service.Ops.Service.{
  require_admin, audited, load_or_404, save_stored, get, set_gateway_active,
}
use trino_management_service.Ops.Service.Types.{World, Environment, ServiceError}
use trino_management_service.Ops.Service.Calls.{
  abort, restore_traffic, or_stay_aborting, error_text,
}
use trino_management_service.Ops.Service.Calls.Aborting.{
  begun, begin_abort-eq, state_of-save_self, state-begun, returned, restoring,
}
use trino_management_service.Ops.Service.Calls.Keeping.{save_over}

-- A save over a row in ABORTING keeps the repository well formed, whatever is saved.
save_over_aborting :
    (repo : Repository) (st : Stored) (f : Option String)
    → state_of st.id repo ≡ some aborting
    → WellFormed repo
    → WellFormed (save st f repo)
save_over_aborting repo st f h well =
    save-WellFormed st f repo (λ s found finished. ground arith) well

abbrev pub SavesMore : Stored → World → Result ServiceError (Unit {0}) × World → Type 0
SavesMore st w r =
    ((returned r.0 ≡ true) × (r.1.repository ≡ w.repository))
    ⊎ ((returned r.0 ≡ false)
        × ((t : Sequence) × (r.1.repository ≡ save (record st { sequence = t }) none w.repository)))

stays_or_saves :
    (st : Stored) (w : World) (r : Result ServiceError (Unit {0}) × World)
    → r.1.repository ≡ w.repository
    → SavesMore st w (or_stay_aborting st r)
unfolding or_stay_aborting save_stored
stays_or_saves st w (ok u, w') kept = inl (refl, kept)
stays_or_saves st w (err x, w') kept =
    let told =
      log (could_not_restore (error_text st.sequence.cluster x) st.sequence.cluster) error
        st.sequence in
    inr (refl, (told, ap (save (record st { sequence = told }) none) kept))

restore-SavesMore :
    (e : Environment) (p : Principal) (st : Stored) (reason : String) (w : World)
    → SavesMore st w (restore_traffic e p st reason w)
unfolding restore_traffic
restore-SavesMore e p st reason w =
    stays_or_saves st w
      (audited e p st.sequence.cluster reason (set_gateway_active e st.sequence.cluster true) w)
      (restoring e p st.sequence.cluster reason w).0

-- An abort that goes on saves the sequence as ABORTING, and once more.
abort_saves :
    (e : Environment) (p : Principal) (id : ℕ) (note : String) (w : World) {st : Stored}
    → can manage_health p ≡ true
    → load id w.repository ≡ some st
    → is_terminal st.sequence ≡ false
    → (last : Stored) × (last.id ≡ st.id)
      × ((abort e p id note w).1.repository
          ≡ save last none
              (save (record st { sequence = begun note st.sequence }) none w.repository))
unfolding abort require_admin load_or_404 finish_abort save_stored get record_step mark_persisted
abort_saves e p id note w {st} admin found active =
    let t = begun note st.sequence in
    let st1 = record st { sequence = t } in
    let w1 = record w { repository = save st1 none w.repository } in
    let st2 = mark_persisted st1 in
    let st3 = record st2 { sequence = record_step aborted (aborted_back t.cluster) t } in
    elim (restore-SavesMore e p st2 (or_else note t.reason) w1) [
      | inl (done, kept) ↦ (
        st3,
        refl,
        ground (
          arith,
          begin_abort-eq note st.sequence active,
          state-begun note st.sequence,
          done,
          kept,
        ),
      )
      | inr (stuck, (told, saved)) ↦ (
        record st2 { sequence = told },
        refl,
        ground (arith, begin_abort-eq note st.sequence active, stuck, saved),
      )
    ]

abort_refused :
    (e : Environment) (p : Principal) (id : ℕ) (note : String) (w : World) {st : Stored}
    → load id w.repository ≡ some st
    → is_terminal st.sequence ≡ true
    → (abort e p id note w).1.repository ≡ w.repository
unfolding abort require_admin load_or_404 begin_abort
abort_refused e p id note w {st} found finished = ground arith

abort_going_on :
    (e : Environment) (p : Principal) (id : ℕ) (note : String) (w : World) {st : Stored}
    → can manage_health p ≡ true
    → load id w.repository ≡ some st
    → is_terminal st.sequence ≡ false
    → WellFormed w.repository
    → WellFormed (abort e p id note w).1.repository
abort_going_on e p id note w {st} admin found active well =
    let st1 = record st { sequence = begun note st.sequence } in
    let first =
      save_over id w.repository (begun note st.sequence) none found (unfold is_terminal in active)
        well in
    let (last, same, saved) = abort_saves e p id note w admin found active in
    let here = id-load id w.repository found in
    let row =
      state_of-save_self st1 none w id {x = st.sequence.state} (rw found refl) here
      ∙ ap some (state-begun note st.sequence) in
    subst WellFormed (sym saved) (
      save_over_aborting (save st1 none w.repository) last none
        (subst (λ (i : ℕ). state_of i (save st1 none w.repository) ≡ some aborting)
          (sym (same ∙ here)) row)
        first)

abort_forbidden :
    (e : Environment) (p : Principal) (id : ℕ) (note : String) (w : World)
    → can manage_health p ≡ false
    → (abort e p id note w).1.repository ≡ w.repository
unfolding abort require_admin
abort_forbidden e p id note w refused = ground arith

abort_missing :
    (e : Environment) (p : Principal) (id : ℕ) (note : String) (w : World)
    → load id w.repository ≡ none
    → (abort e p id note w).1.repository ≡ w.repository
unfolding abort require_admin load_or_404
abort_missing e p id note w missing = ground arith

pub abort-WellFormed :
    (e : Environment) (p : Principal) (id : ℕ) (note : String) (w : World)
    → WellFormed w.repository
    → WellFormed (abort e p id note w).1.repository
abort-WellFormed e p id note w well = elim (Bool-cases (can manage_health p)) [
  | inr refused ↦ subst WellFormed (sym (abort_forbidden e p id note w refused)) well
  | inl admin ↦ elim (Option-cases (load id w.repository)) [
    | inl missing ↦ subst WellFormed (sym (abort_missing e p id note w missing)) well
    | inr (st, found) ↦ elim (Bool-cases (is_terminal st.sequence)) [
      | inl finished ↦ subst WellFormed (sym (abort_refused e p id note w found finished)) well
      | inr active ↦ abort_going_on e p id note w admin found active well
    ]
  ]
]
