-- ===== src/Checks/Compare.antt =====
-- The comparison of two runs on concrete inputs.
use trino_management_service.Prelude.{
  ℕ, ◌+◌, ◌-◌, ◌/◌, ◌*◌, ◌≤◌, ◌<◌, ◌≡◌, ◌↔◌, refl, true, false, some, none, List, [], ◌∷◌, count,
}
use trino_management_service.Bench.Compare.{
  Execution, Entry, median, summarise_run, verdict_of_medians, slower, faster, add_to,
  add_execution,
}
use trino_management_service.Bench.Compare.Median.{HasRank, median-HasRank, verdict_iff}
use trino_management_service.Bench.Compare.Grouping.{
  is_of, is_failure, times_of, summarise_run_entry,
}

median-HasRank_example :
    (a : ℕ) × (b : ℕ) × (12 ≡ a + b)
    × HasRank ((4 - 1) / 2) (9 ∷ 3 ∷ 5 ∷ 7 ∷ []) a
    × HasRank (4 / 2) (9 ∷ 3 ∷ 5 ∷ 7 ∷ []) b
median-HasRank_example = median-HasRank (9 ∷ 3 ∷ 5 ∷ 7 ∷ []) {m = 12} (unfold median in refl)

verdict_iff_example :
    ((verdict_of_medians (some 100) (some 110) ≡ slower) ↔ (0 < 100) × (105 * 100 ≤ 100 * 110))
    × ((verdict_of_medians (some 100) (some 110) ≡ faster) ↔ (0 < 100) × (100 * 110 ≤ 95 * 100))
verdict_iff_example = verdict_iff 100 110

abbrev results : List Execution
results =
    record {
      query_name = "q1";
      failed = false;
      elapsed_ms = 7;
      trino_cpu_ms = none;
      processed_rows = some 2;
    }
    ∷ record {
      query_name = "q2";
      failed = false;
      elapsed_ms = 1;
      trino_cpu_ms = some 1;
      processed_rows = none;
    }
    ∷ record {
      query_name = "q1";
      failed = true;
      elapsed_ms = 0;
      trino_cpu_ms = none;
      processed_rows = none;
    }
    ∷ []

abbrev q1 : Entry
q1 = record { name = "q1"; runs = 2; failures = 1; elapsed = 7 ∷ []; cpu = []; rows = 2 ∷ [] }

summarise_run_entry_example :
    (2 ≡ count (is_of "q1") results)
    × (1 ≡ count (is_failure "q1") results)
    × (7 ∷ [] ≡ times_of "q1" results)
summarise_run_entry_example =
    summarise_run_entry "q1" results {entry = q1}
      (unfold summarise_run add_to add_execution in refl)
