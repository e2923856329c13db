-- ===== src/Ops/Repository/Laws.antt =====
-- tms/ops/repository.py: what a load gives back after a save.
use mathlib.Core.Option
use trino_management_service.Prelude.{
  ℕ, ◌≡◌, refl, inl, inr, String, Option, none, some, List, [], ◌∷◌, ◌++◌, arith, length, ◌==◌,
  if◌then◌else◌, Bool-cases, Option-cases,
}
use trino_management_service.Ops.Sequence.{State, Event, Sequence}
use trino_management_service.Ops.Repository.{
  Row, Repository, Stored, drop_events, mark_persisted, rebuild, find_row, load, save_row,
  update_rows, save,
}

-- The state that a row has.
abbrev pub state_of : ℕ → Repository → Option State
state_of id repo = Option.map (λ (st : Stored). st.sequence.state) (load id repo)

find_row-update_rows :
    (st : Stored) (f : Option String) (id : ℕ) (rows : List Row)
    → find_row id (update_rows st f rows)
      ≡ (if st.id == id then Option.map (save_row st f) (find_row id rows) else find_row id rows)
unfolding find_row update_rows save_row
find_row-update_rows st f id [] = ground arith
find_row-update_rows st f id (row ∷ rest) = ground (arith, find_row-update_rows st f id rest)

-- A save changes the state of its own row, to that of the sequence, and of no other row.
pub state_of-save :
    (st : Stored) (f : Option String) (repo : Repository) (id : ℕ)
    → state_of id (save st f repo) ≡ (
        if st.id == id
        then Option.map (λ (s : State). st.sequence.state) (state_of id repo)
        else state_of id repo)
unfolding load save save_row
state_of-save st f repo id = ground (arith, find_row-update_rows st f id repo.rows)

id-find_row : (id : ℕ) (rows : List Row) {row : Row} → find_row id rows ≡ some row → row.id ≡ id
unfolding find_row
id-find_row id [] h = cc
id-find_row id (first ∷ rest) {row} h = elim (Bool-cases (first.id == id)) [
  | inl here ↦ ground arith
  | inr later ↦ id-find_row id rest (rw later at h)
]

drop_events-length : (h k : List Event) → drop_events (length h) (h ++ k) ≡ k
drop_events-length [] k = refl
drop_events-length (e ∷ h) k = drop_events-length h k

-- What comes back of a sequence: the last probe of the resource group store and the time limit of the
-- drain are no columns of a row, so the probe is forgotten and the limit is the default of 900 seconds
-- again.
abbrev pub as_rebuilt : Sequence → Sequence
as_rebuilt s = record s {
  config_store_ready = none;
  config_store_detail = "";
  drain_timeout_seconds = 900;
}

-- A loaded sequence that went on (its log extended, and its cluster, reason and actor the same) is
-- read back after a save as it was saved, but that the last probe of the resource group store is
-- forgotten and the time limit of the drain is 900 seconds again, whatever it was.
pub load-save :
    (repo : Repository) (id : ℕ) (f : Option String) {st : Stored} (t : Sequence)
    (more : List Event)
    → load id repo ≡ some st
    → t.history ≡ st.sequence.history ++ more
    → t.cluster ≡ st.sequence.cluster
    → t.reason ≡ st.sequence.reason
    → t.actor ≡ st.sequence.actor
    → load id (save (record st { sequence = t }) f repo)
      ≡ some (mark_persisted (record st { sequence = as_rebuilt t }))
unfolding load save save_row mark_persisted
load-save repo id f {st} t more h grown c r a = elim (Option-cases (find_row id repo.rows)) [
  | inl missing ↦ ground (arith)
  | inr (row, found) ↦ ground (
    arith,
    find_row-update_rows (record st { sequence = t }) f id repo.rows,
    id-find_row id repo.rows found,
    drop_events-length row.events more,
  )
]

-- A loaded sequence carries the number under which it was asked for.
pub id-load : (id : ℕ) (repo : Repository) {st : Stored} → load id repo ≡ some st → st.id ≡ id
unfolding load
id-load id repo {st} h = elim (Option-cases (find_row id repo.rows)) [
  | inl missing ↦ ground arith
  | inr (row, found) ↦ ground (arith, id-find_row id repo.rows found)
]

pub unprobed-load :
    (id : ℕ) (repo : Repository) {st : Stored}
    → load id repo ≡ some st
    → st.sequence.config_store_ready ≡ none
unfolding load rebuild
unprobed-load id repo {st} h = ground arith
