-- ===== src/Ops/Repository/Wellformed.antt =====
-- tms/ops/repository.py: the well-formedness of a repository, with one active sequence per cluster.
use trino_management_service.Prelude.{
  ℕ, suc, ◌+◌, ◌≤◌, ◌<◌, ◌≡◌, refl, subst, inl, inr, String, Bool, true, not, ◌&&◌, Option, none,
  some, List, [], ◌∷◌, ◌++◌, arith, count, ◌==◌, str_eq, eq_iff, if◌then◌else◌, Bool-cases,
  Option-cases,
}
use trino_management_service.Ops.Repository.Laws.{state_of, state_of-save}
use trino_management_service.Ops.Sequence.{State, terminal, state_in, Sequence}
use trino_management_service.Ops.Repository.{
  Row, Repository, Stored, mark_persisted, find_row, load, is_active, find_active, active_for,
  save_row, update_rows, save, new_row, create,
}

-- How many of the rows are of this cluster and not in a terminal state.
abbrev pub active_count : String → List Row → ℕ
active_count cluster = count (is_active cluster)

abbrev pub OneActive : Repository → Type 0
OneActive repo = (cluster : String) → active_count cluster repo.rows ≤ 1

count-append : (p : Row → Bool) (xs ys : List Row) → count p (xs ++ ys) ≡ count p xs + count p ys
count-append p [] ys = omega arith
count-append p (x ∷ xs) ys = ground (arith, count-append p xs ys)

active_count_of_none :
    (cluster : String) (rows : List Row)
    → find_active cluster rows ≡ none
    → active_count cluster rows ≡ 0
unfolding find_active
active_count_of_none cluster [] h = refl
active_count_of_none cluster (row ∷ rest) h = elim (Bool-cases (is_active cluster row)) [
  | inl active ↦ cc (rw active at h)
  | inr other ↦ rw other (active_count_of_none cluster rest (rw other at h))
]

fewer_active :
    (same before after : Bool) (n : ℕ)
    → (before ≡ true → after ≡ true)
    → (if same && not after then suc n else n) ≤ (if same && not before then suc n else n)
fewer_active same before after n h = ground arith

more_equal : (b : Bool) {m n : ℕ} → m ≤ n → (if b then suc m else m) ≤ (if b then suc n else n)
more_equal b h = ground arith

-- Storing a sequence over a row counts no more active rows, if a finished row stays finished.
active_count-update_rows :
    (st : Stored) (f : Option String) (cluster : String) (rows : List Row)
    → ((row : Row)
        → find_row st.id rows ≡ some row
        → state_in row.state terminal ≡ true
        → state_in st.sequence.state terminal ≡ true)
    → active_count cluster (update_rows st f rows) ≤ active_count cluster rows
unfolding update_rows find_row save_row
active_count-update_rows st f cluster [] keeps = omega arith
active_count-update_rows st f cluster (row ∷ rest) keeps = elim (Bool-cases (row.id == st.id)) [
  | inl here ↦ rw here (
      fewer_active (str_eq row.cluster cluster) (state_in row.state terminal)
        (state_in st.sequence.state terminal) (active_count cluster rest) (keeps row (rw here)))
  | inr later ↦
      let ih =
        active_count-update_rows st f cluster rest (λ other found. keeps other (rw later found)) in
      rw later (more_equal (is_active cluster row) ih)
]

-- A save keeps it that no cluster has two active sequences, if a finished row stays finished.
save-OneActive :
    (st : Stored) (f : Option String) (repo : Repository)
    → ((s : State)
        → state_of st.id repo ≡ some s
        → state_in s terminal ≡ true
        → state_in st.sequence.state terminal ≡ true)
    → OneActive repo
    → OneActive (save st f repo)
unfolding save load
save-OneActive st f repo keeps one cluster =
    let fewer =
      active_count-update_rows st f cluster repo.rows
        (λ row found t. keeps row.state (rw found) t) in
    omega (arith, fewer, one cluster)

abbrev pub IdsBelow : ℕ → List Row → Type 0
IdsBelow n [] = Unit {0}
IdsBelow n (row ∷ rest) = (row.id < n) × IdsBelow n rest

-- What holds of every repository that the service builds.
pub record WellFormed (repo : Repository) : Type 0 where
  pub one_active : OneActive repo
  pub fresh : IdsBelow repo.next_id repo.rows

IdsBelow_mono : (m n : ℕ) (rows : List Row) → m ≤ n → IdsBelow m rows → IdsBelow n rows
IdsBelow_mono m n [] le h = tt
IdsBelow_mono m n (row ∷ rest) le h = (omega arith, IdsBelow_mono m n rest le h.1)

IdsBelow-append :
    (n : ℕ) (rows : List Row) (row : Row)
    → IdsBelow n rows
    → row.id < n
    → IdsBelow n (rows ++ row ∷ [])
IdsBelow-append n [] row h lt = (lt, tt)
IdsBelow-append n (first ∷ rest) row h lt = (h.0, IdsBelow-append n rest row h.1 lt)

IdsBelow-update_rows :
    (n : ℕ) (st : Stored) (f : Option String) (rows : List Row)
    → IdsBelow n rows
    → IdsBelow n (update_rows st f rows)
unfolding update_rows save_row
IdsBelow-update_rows n st f [] h = tt
IdsBelow-update_rows n st f (row ∷ rest) h = elim (Bool-cases (row.id == st.id)) [
  | inl here ↦ rw here (h.0, h.1)
  | inr later ↦ rw later (h.0, IdsBelow-update_rows n st f rest h.1)
]

-- The row that `create` appends is the one with the new number.
find_row-append_new :
    (n : ℕ) (rows : List Row) (new : Row)
    → IdsBelow n rows
    → new.id ≡ n
    → find_row n (rows ++ new ∷ []) ≡ some new
unfolding find_row
find_row-append_new n [] new h e = ground arith
find_row-append_new n (row ∷ rest) new h e = ground (arith, find_row-append_new n rest new h.1 e)

active_count-append :
    (cluster : String) (rows : List Row) (new : Row)
    → active_count cluster rows ≤ 1
    → (new.cluster ≡ cluster → active_count cluster rows ≡ 0)
    → active_count cluster (rows ++ new ∷ []) ≤ 1
active_count-append cluster rows new one none_before =
    ground (arith, count-append (is_active cluster) rows (new ∷ []), eq_iff new.cluster cluster)

-- A save keeps a repository well formed, if a finished row stays finished.
pub save-WellFormed :
    (st : Stored) (f : Option String) (repo : Repository)
    → ((s : State)
        → state_of st.id repo ≡ some s
        → state_in s terminal ≡ true
        → state_in st.sequence.state terminal ≡ true)
    → WellFormed repo
    → WellFormed (save st f repo)
unfolding save
save-WellFormed st f repo keeps well = record {
  one_active = save-OneActive st f repo keeps well.one_active;
  fresh = IdsBelow-update_rows repo.next_id st f repo.rows well.fresh;
}

find_active_of_active_for :
    (cluster : String) (repo : Repository)
    → active_for cluster repo ≡ none
    → find_active cluster repo.rows ≡ none
unfolding active_for
find_active_of_active_for cluster repo h = ground arith

-- The repository while `create` saves.
abbrev with_new : Sequence → List String → Repository → Repository
with_new s roles repo = record {
  rows = repo.rows ++ new_row repo.next_id s roles ∷ [];
  next_id = repo.next_id + 1;
}

with_new-WellFormed :
    (s : Sequence) (roles : List String) (repo : Repository)
    → active_for s.cluster repo ≡ none
    → WellFormed repo
    → WellFormed (with_new s roles repo)
unfolding new_row
with_new-WellFormed s roles repo free well = record {
  one_active = λ cluster.
      active_count-append cluster repo.rows (new_row repo.next_id s roles) (well.one_active cluster)
        (λ same.
          active_count_of_none cluster repo.rows
            (rw same at (find_active_of_active_for s.cluster repo free)));
  fresh =
      IdsBelow-append (repo.next_id + 1) repo.rows (new_row repo.next_id s roles)
        (IdsBelow_mono repo.next_id (repo.next_id + 1) repo.rows (omega arith) well.fresh)
        (omega arith);
}

-- The row under the new number has the state of the sequence.
new_row_kept :
    (s : Sequence) (roles : List String) (repo : Repository)
    → IdsBelow repo.next_id repo.rows
    → (x : State) → state_of repo.next_id (with_new s roles repo) ≡ some x
    → state_in x terminal ≡ true
    → state_in s.state terminal ≡ true
unfolding load new_row
new_row_kept s roles repo fresh x found h =
    let new = new_row repo.next_id s roles in
    let same : s.state ≡ x =
      cc (rw (find_row-append_new repo.next_id repo.rows new fresh refl) at found) in
    rw same h

-- Creating a sequence keeps a repository well formed: no cluster gets a second active sequence.
pub create-WellFormed :
    (s : Sequence) (roles : List String) (repo : Repository) {st : Stored} {repo' : Repository}
    → create s roles repo ≡ some (st, repo')
    → WellFormed repo
    → WellFormed repo'
unfolding create
create-WellFormed s roles repo {st} {repo'} made well =
    elim (Option-cases (active_for s.cluster repo)) [
      | inr (other, busy) ↦ cc (rw (busy, create) at made)
      | inl free ↦
          let fresh_row : Stored = record {
            id = repo.next_id;
            sequence = s;
            persisted_events = 0;
          } in
          let saved : save fresh_row none (with_new s roles repo) ≡ repo' =
            cc (rw (free, create) at made) in
          let keeps = new_row_kept s roles repo well.fresh in
          subst WellFormed saved (
            save-WellFormed fresh_row none (with_new s roles repo) keeps
              (with_new-WellFormed s roles repo free well))
    ]

-- The row of a sequence that was created is in its state.
pub state_of-create :
    (s : Sequence) (roles : List String) (repo : Repository) {st : Stored} {repo' : Repository}
    → create s roles repo ≡ some (st, repo')
    → WellFormed repo
    → state_of st.id repo' ≡ some s.state
unfolding create load mark_persisted new_row
state_of-create s roles repo {st} {repo'} made well =
    elim (Option-cases (active_for s.cluster repo)) [
      | inr (other, busy) ↦ cc (rw (busy, create) at made)
      | inl free ↦
          let fresh_row : Stored = record {
            id = repo.next_id;
            sequence = s;
            persisted_events = 0;
          } in
          let there =
            find_row-append_new repo.next_id repo.rows (new_row repo.next_id s roles) well.fresh
              refl in
          ground (arith, there, state_of-save fresh_row none (with_new s roles repo) repo.next_id)
    ]
