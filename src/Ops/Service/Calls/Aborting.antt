-- ===== src/Ops/Service/Calls/Aborting.antt =====
-- tms/ops/service.py, `abort`: the traffic and the row after it.
use trino_management_service.Prelude.{
  ℕ, ◌≡◌, refl, ◌⊎◌, inl, inr, String, Bool, true, false, Option, none, some, List, [], ◌∷◌, ◌++◌,
  Result, ok, err, arith, any, str_eq, eq_refl, ◌&&◌, Option-cases, or_else, ap, ◌∙◌,
}
use trino_management_service.Api.Permissions.{Principal, manage_health, can}
use trino_management_service.Core.Audit.{action}
use trino_management_service.Ops.Sequence.{
  State, aborting, aborted, Sequence, begin_abort, finish_abort, log, record_step, warn_last,
  abort_message, could_not_restore, error, aborted_back, is_terminal,
}
use trino_management_service.Ops.Repository.{Stored, load, save, mark_persisted}
use trino_management_service.Ops.Repository.Laws.{id-load, state_of, state_of-save}
use trino_management_service.Ops.Service.{
  require_admin, audited, load_or_404, save_stored, set_gateway_active, find_backend, get,
}
use trino_management_service.Ops.Service.Types.{
  Effect, gateway_call, Backend, World, Environment, ServiceError,
}
use trino_management_service.Ops.Service.Calls.{
  abort, restore_traffic, or_stay_aborting, error_text,
}
use trino_management_service.Ops.Service.Calls.Guards.{answers}

abbrev is_of : String → Option String → Bool
is_of cluster none = false
is_of cluster (some c) = str_eq c cluster

-- The Gateway lists a backend of this name as one of the cluster.
pub belongs : String → String → List Backend → Bool
belongs cluster name backends =
    any (λ (b : Backend). str_eq b.name name && is_of cluster b.cluster) backends

-- The backend that is found for a cluster is one of it.
find_backend-belongs :
    (cluster : String) (backends : List Backend) {name : String}
    → find_backend cluster backends ≡ some name
    → belongs cluster name backends ≡ true
unfolding find_backend belongs
find_backend-belongs cluster [] {name} found = cc
find_backend-belongs cluster (b ∷ rest) {name} found =
    ground (arith, found, eq_refl b.name, find_backend-belongs cluster rest {name = name})

-- A call of the Gateway that was answered, and put a backend of the cluster back in rotation.
abbrev restores : String → List Backend → Effect → Bool
restores cluster backends (gateway_call name true true) = belongs cluster name backends
restores cluster backends other = false

-- The last call that changed something outside put a backend of the cluster back in rotation, and was
-- answered.
pub ends_restored : String → List Backend → List Effect → Bool
ends_restored cluster backends [] = false
ends_restored cluster backends (x ∷ []) = restores cluster backends x
ends_restored cluster backends (x ∷ y ∷ rest) = ends_restored cluster backends (y ∷ rest)

ends_restored-snoc :
    (cluster : String) (backends : List Backend) (h : List Effect) (x : Effect)
    → ends_restored cluster backends (h ++ x ∷ []) ≡ restores cluster backends x
unfolding ends_restored
ends_restored-snoc cluster backends [] x = refl
ends_restored-snoc cluster backends (y ∷ []) x = refl
ends_restored-snoc cluster backends (y ∷ z ∷ h) x = ends_restored-snoc cluster backends (z ∷ h) x

abbrev pub returned : Result ServiceError (Unit {0}) → Bool
returned (ok u) = true
returned (err x) = false

-- Restoring traffic touches no row, and ends restored if it returns.
gateway_restores :
    (e : Environment) (cluster : String) (w : World)
    → let r = set_gateway_active e cluster true w in
      (r.1.repository ≡ w.repository)
      × (returned r.0 ≡ true → ends_restored cluster e.backends r.1.effects ≡ true)
unfolding set_gateway_active
gateway_restores e cluster w = elim (Option-cases (find_backend cluster e.backends)) [
  | inl missing ↦ ground arith
  | inr (name, found) ↦ ground (
    arith,
    ends_restored-snoc cluster e.backends w.effects (gateway_call name true true),
    find_backend-belongs cluster e.backends found,
  )
]

pub restoring :
    (e : Environment) (p : Principal) (cluster reason : String) (w : World)
    → let r = audited e p cluster reason (set_gateway_active e cluster true) w in
      (r.1.repository ≡ w.repository)
      × (returned r.0 ≡ true → ends_restored cluster e.backends r.1.effects ≡ true)
unfolding audited action
restoring e p cluster reason w = ground (arith, gateway_restores e cluster w)

-- Where the row of a sequence is, after a save of it.
pub state_of-save_self :
    (st : Stored) (f : Option String) (w : World) (id : ℕ) {x : State}
    → state_of id w.repository ≡ some x
    → st.id ≡ id
    → state_of id (save st f w.repository) ≡ some st.sequence.state
state_of-save_self st f w id h e = ground (arith, state_of-save st f w.repository id)

-- The sequence that `begin_abort` makes of one that is not terminal.
unfoldable pub begun : String → Sequence → Sequence
begun note s =
    let t = record_step aborting (abort_message note s.cluster) s in
    record t { history = warn_last t.history }

pub begin_abort-eq :
    (note : String) (s : Sequence) → is_terminal s ≡ false → begin_abort note s ≡ ok (begun note s)
unfolding begin_abort begun
begin_abort-eq note s h = ground arith

pub state-begun : (note : String) (s : Sequence) → (begun note s).state ≡ aborting
unfolding begun record_step
state-begun note s = refl

abbrev RestoredOrStays :
    String → List Backend → ℕ → World → Result ServiceError (Unit {0}) × World → Type 0
RestoredOrStays cluster backends id w r =
    ((returned r.0 ≡ true)
      × (r.1.repository ≡ w.repository)
      × (ends_restored cluster backends r.1.effects ≡ true))
    ⊎ ((returned r.0 ≡ false) × (state_of id r.1.repository ≡ some aborting))

or_stays :
    (cluster : String) (backends : List Backend) (st : Stored) (w : World) (id : ℕ)
    (r : Result ServiceError (Unit {0}) × World) {x : State}
    → state_of id w.repository ≡ some x
    → st.id ≡ id
    → st.sequence.state ≡ aborting
    → r.1.repository ≡ w.repository
    → (returned r.0 ≡ true → ends_restored cluster backends r.1.effects ≡ true)
    → RestoredOrStays cluster backends id w (or_stay_aborting st r)
unfolding or_stay_aborting save_stored log
or_stays cluster backends st w id (ok u, w') {x = x0} h same state kept restored =
    inl (refl, kept, restored refl)
or_stays cluster backends st w id (err x, w') {x = x0} h same state kept restored =
    let told =
      log (could_not_restore (error_text st.sequence.cluster x) st.sequence.cluster) error
        st.sequence in
    inr (
      refl,
      state_of-save_self (record st { sequence = told }) none w' id {x = x0} (rw kept h) same
          ∙ ap some state,
    )

-- Either traffic was restored, and no row touched, or the row stays in ABORTING.
restore_outcome :
    (e : Environment) (p : Principal) (st : Stored) (reason : String) (w : World) (id : ℕ)
    {x : State}
    → state_of id w.repository ≡ some x
    → st.id ≡ id
    → st.sequence.state ≡ aborting
    → RestoredOrStays st.sequence.cluster e.backends id w (restore_traffic e p st reason w)
unfolding restore_traffic
restore_outcome e p st reason w id h same state =
    let (kept, restored) = restoring e p st.sequence.cluster reason w in
    or_stays st.sequence.cluster e.backends st w id
      (audited e p st.sequence.cluster reason (set_gateway_active e st.sequence.cluster true) w) h
      same state kept restored

-- An abort, by a caller who may manage health, of a stored sequence that is not terminal either
-- answers, with the row ABORTED, and the last call that changed something outside is one that the
-- Gateway answered and that put a backend it lists for this cluster back in rotation; or it raises, with
-- the row left in ABORTING.
pub abort_outcome :
    (e : Environment) (p : Principal) (id : ℕ) (note : String) (w : World) {st : Stored}
    → can manage_health p ≡ true
    → load id w.repository ≡ some st
    → is_terminal st.sequence ≡ false
    → let r = abort e p id note w in
      ((answers r.0 ≡ true)
        × (state_of id r.1.repository ≡ some aborted)
        × (ends_restored st.sequence.cluster e.backends r.1.effects ≡ true))
      ⊎ ((answers r.0 ≡ false) × (state_of id r.1.repository ≡ some aborting))
unfolding abort require_admin load_or_404 finish_abort save_stored get record_step mark_persisted
abort_outcome e p id note w {st} admin h active =
    let t = begun note st.sequence in
    let st1 = record st { sequence = t } in
    let w1 = record w { repository = save st1 none w.repository } in
    let st2 = mark_persisted st1 in
    let here : st.id ≡ id = id-load id w.repository h in
    let row : state_of id w1.repository ≡ some aborting =
      state_of-save_self st1 none w id {x = st.sequence.state} (rw h refl) here
      ∙ ap some (state-begun note st.sequence) in
    let restored : RestoredOrStays st.sequence.cluster e.backends id w1
        (restore_traffic e p st2 (or_else note t.reason) w1) =
      unfold begun in
      restore_outcome e p st2 (or_else note t.reason) w1 id row (unfold mark_persisted in here)
        (unfold mark_persisted in state-begun note st.sequence) in
    let r = restore_traffic e p st2 (or_else note t.reason) w1 in
    let st3 = record st2 { sequence = record_step aborted (aborted_back t.cluster) t } in
    let saved = state_of-save_self st3 none r.1 id {x = aborting} in
    ground (
      arith,
      begin_abort-eq note st.sequence active,
      state-begun note st.sequence,
      row,
      restored,
      saved,
    )
