-- ===== src/Bench/Compare.antt =====
-- tms/bench/compare.py: two runs side by side. A time is a natural number and a median is given twice as
-- large, so that it is one too; percentages are compared without dividing. A result that did not fail
-- has its wall time. Texts of the warnings are left out.
pub mod Median
pub mod Grouping
use trino_management_service.Prelude.{
  ℕ, zero, suc, is_empty, ◌+◌, ◌-◌, ◌*◌, ◌/◌, ◌%◌, ◌==◌, ltb, leb, String, str_eq, Bool, true,
  false, not, ◌&&◌, ◌||◌, Option, none, some, List, [], ◌∷◌, ◌++◌, count, keep, map, length,
  mem_text, Result, ok, err, guard, ◌>>=◌, ◌>>◌, if◌then◌else◌, ◌≡◌, refl,
}
use trino_management_service.Ops.Catalogs.{insert_text}

abbrev pub insert_number : ℕ → List ℕ → List ℕ
insert_number n [] = n ∷ []
insert_number n (m ∷ rest) =
    let later = insert_number n rest in if ltb m n then m ∷ later else n ∷ m ∷ rest

-- `sorted(values)`
unfoldable pub sort_numbers : List ℕ → List ℕ
sort_numbers [] = []
sort_numbers (n ∷ rest) = insert_number n (sort_numbers rest)

-- `ordered[n]`; the index is always in range.
abbrev pub nth : ℕ → List ℕ → ℕ
nth n [] = 0
nth zero (x ∷ xs) = x
nth (suc n) (x ∷ xs) = nth n xs

-- Twice the median of a list that is sorted.
unfoldable pub middle_of : List ℕ → ℕ
middle_of ordered =
    let middle = length ordered / 2 in
    if length ordered % 2 == 0
    then nth (middle - 1) ordered + nth middle ordered
    else 2 * nth middle ordered

unfoldable pub median : List ℕ → Option ℕ
unfolding sort_numbers middle_of
median values = if length values == 0 then none else some (middle_of (sort_numbers values))

-- A result of a run.
pub record Execution : Type 0 where
  pub query_name : String
  pub failed : Bool
  pub elapsed_ms : ℕ
  pub trino_cpu_ms : Option ℕ
  pub processed_rows : Option ℕ

pub record Entry : Type 0 where
  pub name : String
  pub runs : ℕ
  pub failures : ℕ
  pub elapsed : List ℕ
  pub cpu : List ℕ
  pub rows : List ℕ

abbrev pub new_entry : String → Entry
new_entry name = record { name = name; runs = 0; failures = 0; elapsed = []; cpu = []; rows = [] }

abbrev pub add_known : List ℕ → Option ℕ → List ℕ
add_known xs none = xs
add_known xs (some x) = xs ++ x ∷ []

-- One round of the loop for the entry of the query. The rows that are not known are dropped at once.
unfoldable pub add_execution : Execution → Entry → Entry
add_execution e entry =
    if e.failed
    then record entry { runs = suc entry.runs; failures = suc entry.failures }
    else record entry {
      runs = suc entry.runs;
      elapsed = entry.elapsed ++ e.elapsed_ms ∷ [];
      cpu = add_known entry.cpu e.trino_cpu_ms;
      rows = add_known entry.rows e.processed_rows;
    }

-- `grouped.setdefault(name, ...)`, and the round on it.
unfoldable pub add_to : Execution → List Entry → List Entry
add_to e [] = add_execution e (new_entry e.query_name) ∷ []
add_to e (entry ∷ rest) =
    if str_eq entry.name e.query_name then add_execution e entry ∷ rest else entry ∷ add_to e rest

group_results : List Execution → List Entry → List Entry
unfolding add_to
group_results [] grouped = grouped
group_results (e ∷ rest) grouped = group_results rest (add_to e grouped)

-- `summarise_run`; the medians are those of the entry's lists.
unfoldable pub summarise_run : List Execution → List Entry
unfolding group_results
summarise_run results = group_results results []

abbrev pub find_entry : String → List Entry → Option Entry
find_entry name [] = none
find_entry name (e ∷ rest) = if str_eq e.name name then some e else find_entry name rest

pub data Verdict : Type 0 where
  faster slower same only_baseline only_candidate : Verdict

-- `abs(b - a) / a * 100 < 5`
abbrev is_noise : ℕ → ℕ → Bool
is_noise a b = ltb (100 * ((b - a) + (a - b))) (5 * a)

unfoldable pub verdict_of_medians : Option ℕ → Option ℕ → Verdict
verdict_of_medians a none = only_baseline
verdict_of_medians none (some b) = only_candidate
verdict_of_medians (some a) (some b) =
    if a == 0 then same else if is_noise a b then same else if ltb a b then slower else faster

-- The verdict of a row of `compare`.
unfoldable pub verdict : Option Entry → Option Entry → Verdict
unfolding verdict_of_medians
verdict none b = only_candidate
verdict (some a) none = only_baseline
verdict (some a) (some b) = verdict_of_medians (median a.elapsed) (median b.elapsed)

pub record Run : Type 0 where
  pub id : ℕ
  pub query_set : String
  pub results : List Execution
  -- the queries of the snapshot, each with its name and its SQL
  pub queries : List (String × String)
  pub guard_ok : Bool
  pub succeeded : Bool
  pub repetitions : ℕ

pub data NotComparable : Type 0 where
  different_sets same_run : NotComparable

pub record Row : Type 0 where
  pub name : String
  pub verdict : Verdict
  pub statement_changed : Bool

-- The statement of a name: of two queries with one name the later one is in the dictionary.
abbrev statement : String → List (String × String) → Option String
statement name [] = none
statement name ((n, sql) ∷ rest) = elim (statement name rest) [
  | some later ↦ some later
  | none ↦ if str_eq n name then some sql else none
]

differ : Option String → Option String → Bool
differ (some a) (some b) = not (str_eq a b)
differ (some a) none = false
differ none b = false

-- `name in _edited_between(baseline, candidate)`
unfoldable pub is_edited : Run → Run → String → Bool
unfolding differ
is_edited baseline candidate name =
    not (is_empty name)
    && differ (statement name baseline.queries) (statement name candidate.queries)

names_of : List Entry → List String
names_of [] = []
names_of (e ∷ rest) = insert_text e.name (names_of rest)

add_names : List Entry → List String → List String
add_names [] names = names
add_names (e ∷ rest) names = insert_text e.name (add_names rest names)

-- The rows of `compare`: the names of both runs, sorted.
unfoldable pub compare : Run → Run → Result NotComparable (List Row)
unfolding names_of add_names
compare baseline candidate = do
  guard (str_eq baseline.query_set candidate.query_set) different_sets
  guard (not (baseline.id == candidate.id)) same_run
  let left = summarise_run baseline.results
  let right = summarise_run candidate.results
  ok (
      map
        (λ name. record {
          name = name;
          verdict = verdict (find_entry name left) (find_entry name right);
          statement_changed = is_edited baseline candidate name;
        })
        (add_names left (names_of right)))

pub data Warning : Type 0 where
  different_conditions baseline_incomplete candidate_incomplete statements_changed
        different_repetitions :
      Warning

abbrev when : Bool → Warning → List Warning
when true w = w ∷ []
when false w = []

abbrev same_bool : Bool → Bool → Bool
same_bool a b = (a && b) || (not a && not b)

edited_names : Run → Run → List (String × String) → Bool
unfolding is_edited
edited_names baseline candidate [] = false
edited_names baseline candidate ((name, sql) ∷ rest) =
    is_edited baseline candidate name || edited_names baseline candidate rest

-- `_warnings`
unfoldable pub warnings : Run → Run → List Warning
unfolding edited_names
warnings baseline candidate =
    when (not (same_bool baseline.guard_ok candidate.guard_ok)) different_conditions
    ++ when (not baseline.succeeded) baseline_incomplete
    ++ when (not candidate.succeeded) candidate_incomplete
    ++ when (edited_names baseline candidate baseline.queries) statements_changed
    ++ when (not (baseline.repetitions == candidate.repetitions)) different_repetitions
