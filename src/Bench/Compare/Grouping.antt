-- ===== src/Bench/Compare/Grouping.antt =====
-- tms/bench/compare.py: what a query's entry holds.
use trino_management_service.Prelude.{
  ℕ, suc, ◌+◌, String, str_eq, eq_iff, eq_refl, Bool, true, false, not, ◌&&◌, Option, none, some,
  List, [], ◌∷◌, ◌++◌, count, if◌then◌else◌, ◌≡◌, refl, sym, inl, inr, arith, Bool-cases, ◌∙◌, ap,
}
use trino_management_service.Bench.Compare.{
  Execution, Entry, new_entry, add_execution, add_to, group_results, summarise_run, find_entry,
}

or_new : String → Option Entry → Entry
or_new name none = new_entry name
or_new name (some e) = e

-- One execution's round on the entry of a name, if it is of that name.
round : String → Execution → Option Entry → Option Entry
round name e found =
    if str_eq e.query_name name then some (add_execution e (or_new name found)) else found

rounds : String → List Execution → Option Entry → Option Entry
unfolding round
rounds name [] found = found
rounds name (e ∷ rest) found = rounds name rest (round name e found)

name_kept : (e : Execution) (entry : Entry) → (add_execution e entry).name ≡ entry.name
unfolding add_execution
name_kept e entry = ground arith

find-add_to :
    (name : String) (e : Execution) (entries : List Entry)
    → find_entry name (add_to e entries) ≡ round name e (find_entry name entries)
unfolding add_to round or_new add_execution
find-add_to name e [] = elim (Bool-cases (str_eq e.query_name name)) [
  | inl of ↦
      (let same : e.query_name ≡ name = ground (arith, of, eq_iff e.query_name name) in
        rw (name_kept e (new_entry e.query_name), same, eq_refl name) refl)
  | inr other ↦ rw (name_kept e (new_entry e.query_name), other) refl
]
find-add_to name e (entry ∷ entries) = elim (Bool-cases (str_eq entry.name e.query_name)) [
  | inl here ↦
      let same : entry.name ≡ e.query_name = ground (arith, here, eq_iff entry.name e.query_name) in
      elim (Bool-cases (str_eq e.query_name name)) [
        | inl of ↦ rw (here, name_kept e entry, same, of) refl
        | inr other ↦ rw (here, name_kept e entry, same, other) refl
      ]
  | inr there ↦ elim (Bool-cases (str_eq entry.name name)) [
    | inl it ↦
        let same : entry.name ≡ name = ground (arith, it, eq_iff entry.name name) in
        let other : str_eq e.query_name name ≡ false =
          ground (arith, there, same, eq_iff e.query_name name, eq_iff entry.name e.query_name) in
        rw (there, it, other) refl
    | inr not_it ↦ rw (there, not_it) (find-add_to name e entries)
  ]
]

group_results-rounds :
    (name : String) (results : List Execution) (entries : List Entry)
    → find_entry name (group_results results entries)
      ≡ rounds name results (find_entry name entries)
unfolding group_results rounds
group_results-rounds name [] entries = refl
group_results-rounds name (e ∷ rest) entries =
    group_results-rounds name rest (add_to e entries)
    ∙ ap (rounds name rest) (find-add_to name e entries)

abbrev pub is_of : String → Execution → Bool
is_of name e = str_eq e.query_name name

abbrev pub is_failure : String → Execution → Bool
is_failure name e = str_eq e.query_name name && e.failed

-- The times of the executions of a query that did not fail.
abbrev pub times_of : String → List Execution → List ℕ
times_of name [] = []
times_of name (e ∷ rest) =
    let later = times_of name rest in
    if is_of name e && not e.failed then e.elapsed_ms ∷ later else later

append_assoc : (xs ys zs : List ℕ) → (xs ++ ys) ++ zs ≡ xs ++ (ys ++ zs)
append_assoc [] ys zs = refl
append_assoc (x ∷ xs) ys zs = rw (append_assoc xs ys zs) refl

append_nil : (xs : List ℕ) → xs ++ [] ≡ xs
append_nil [] = refl
append_nil (x ∷ xs) = rw (append_nil xs) refl

added_failed :
    (e : Execution) (o : Entry)
    → e.failed ≡ true
    → ((add_execution e o).runs ≡ suc o.runs)
      × ((add_execution e o).failures ≡ suc o.failures)
      × ((add_execution e o).elapsed ≡ o.elapsed)
unfolding add_execution
added_failed e o h = ground (arith, h)

added_done :
    (e : Execution) (o : Entry)
    → e.failed ≡ false
    → ((add_execution e o).runs ≡ suc o.runs)
      × ((add_execution e o).failures ≡ o.failures)
      × ((add_execution e o).elapsed ≡ o.elapsed ++ e.elapsed_ms ∷ [])
unfolding add_execution
added_done e o h = ground (arith, h)

rounds-sums :
    (name : String) (results : List Execution) (old : Option Entry) {entry : Entry}
    → rounds name results old ≡ some entry
    → (entry.runs ≡ (or_new name old).runs + count (is_of name) results)
      × (entry.failures ≡ (or_new name old).failures + count (is_failure name) results)
      × (entry.elapsed ≡ (or_new name old).elapsed ++ times_of name results)
unfolding rounds round or_new
rounds-sums name [] old {entry} h = rw h (omega arith, omega arith, sym (append_nil entry.elapsed))
rounds-sums name (e ∷ rest) old {entry} h = elim (Bool-cases (str_eq e.query_name name)) [
  | inr other ↦ (let ih = rounds-sums name rest old {entry = entry} (rw other at h) in rw other ih)
  | inl of ↦
      let (runs, failures, elapsed) =
        rounds-sums name rest (some (add_execution e (or_new name old))) {entry = entry}
          (rw of at h) in
      elim (Bool-cases e.failed) [
        | inl bad ↦
            let (r, f, t) = added_failed e (or_new name old) bad in
            rw (of, bad)
              (
                omega (arith, runs, r),
                omega (arith, failures, f),
                elapsed ∙ ap (λ (ts : List ℕ). ts ++ times_of name rest) t,
              )
        | inr fine ↦
            let (r, f, t) = added_done e (or_new name old) fine in
            rw (of, fine)
              (
                omega (arith, runs, r),
                omega (arith, failures, f),
                (elapsed ∙ ap (λ (ts : List ℕ). ts ++ times_of name rest) t)
                    ∙ append_assoc (or_new name old).elapsed (e.elapsed_ms ∷ [])
                        (times_of name rest),
              )
      ]
]

-- The entry of a query counts its executions and, apart, those that failed; the times that its median
-- is of are those of the executions that did not fail, in their order.
pub summarise_run_entry :
    (name : String) (results : List Execution) {entry : Entry}
    → find_entry name (summarise_run results) ≡ some entry
    → (entry.runs ≡ count (is_of name) results)
      × (entry.failures ≡ count (is_failure name) results)
      × (entry.elapsed ≡ times_of name results)
unfolding summarise_run or_new
summarise_run_entry name results {entry} h =
    let (runs, failures, elapsed) =
      rounds-sums name results none {entry = entry}
        (sym (group_results-rounds name results []) ∙ h) in
    (omega (arith, runs), omega (arith, failures), elapsed)
