-- ===== src/Bench/Schedules/Firing.antt =====
-- tms/bench/schedules.py: when a schedule fires next, and how often it is claimed.
use trino_management_service.Prelude.{
  ℕ, ◌+◌, ◌-◌, ◌*◌, ◌/◌, ◌≤◌, ◌<◌, ◌≡◌, refl, inl, inr, leb, String, is_empty, Bool, true, false,
  Option, List, [], ◌∷◌, all, keep, length, ok, if◌then◌else◌, arith, Bool-cases,
}
use native.Mathlib.Nat.{div-add-mod, mod-lt}
use trino_management_service.Core.Audit.Reason.{chars}
use trino_management_service.Bench.Schedules.{
  Fields, validate, seconds, advance, Schedule, Schedules, is_due, move_on, claim_rows, claim_due,
}

-- What `validate` accepts has an interval between 15 minutes and 90 days, 1 to 50 repetitions, a name of
-- 1 to 200 characters, a reason and a cluster.
pub validate-bounds :
    (name reason : Option String) (interval repetitions : Option ℕ) (clusters : List String)
    {f : Fields}
    → validate name interval repetitions clusters reason ≡ ok f
    → (15 ≤ f.interval_minutes)
      × (f.interval_minutes ≤ 129600)
      × (1 ≤ f.repetitions)
      × (f.repetitions ≤ 50)
      × (is_empty f.name ≡ false)
      × (chars f.name ≤ 200)
      × (is_empty f.reason ≡ false)
      × (0 < length f.clusters)
unfolding validate
validate-bounds name reason interval repetitions clusters {f} h = ground arith

-- The next multiple of `step` from `start`.
next_multiple : ℕ → ℕ → ℕ → ℕ
next_multiple start step now =
    if leb (start + step) now then start + step * ((now - start) / step + 1) else start + step

grows : (s q : ℕ) → s * (q + 1) ≡ s * q + s
grows s q = grind arith

next_multiple-bounds :
    (start step now : ℕ)
    → 0 < step
    → (now < next_multiple start step now)
      × (start < next_multiple start step now)
      × ((start ≤ now → next_multiple start step now ≤ now + step)
          × (now ≤ start → next_multiple start step now ≡ start + step))
unfolding next_multiple
next_multiple-bounds start step now some_step = ground (
  arith,
  div-add-mod (now - start) step,
  mod-lt (now - start) some_step,
  grows step ((now - start) / step),
)

next_multiple-grid :
    (start step now : ℕ) → (k : ℕ) × (next_multiple start step now ≡ start + step * k)
unfolding next_multiple
next_multiple-grid start step now = elim (Bool-cases (leb (start + step) now)) [
  | inl late ↦ ((now - start) / step + 1, rw late refl)
  | inr early ↦ (1, rw early (ground arith))
]

-- For an interval above zero, the next firing is after now and after the last one, stands a whole
-- number of intervals after it, and is the first such time: no interval fits between now, or the last
-- firing where that is later, and it.
pub advance-next :
    (next_run_at interval now : ℕ)
    → 1 ≤ interval
    → (now < advance next_run_at interval now)
      × (next_run_at < advance next_run_at interval now)
      × ((k : ℕ) × (advance next_run_at interval now ≡ next_run_at + seconds interval * k))
      × ((next_run_at ≤ now → advance next_run_at interval now ≤ now + seconds interval)
          × (now ≤ next_run_at → advance next_run_at interval now ≡ next_run_at + seconds interval))
unfolding advance next_multiple
advance-next next_run_at interval now one =
    let (after, later, bounds) =
      next_multiple-bounds next_run_at (seconds interval) now (omega arith) in
    (after, later, next_multiple-grid next_run_at (seconds interval) now, bounds)

abbrev pub has_interval : Schedule → Bool
has_interval row = leb 1 row.fields.interval_minutes

moved_not_due :
    (now : ℕ) (row : Schedule) → has_interval row ≡ true → is_due now (move_on now row) ≡ false
unfolding is_due move_on
moved_not_due now row h =
    let after = (advance-next row.next_run_at row.fields.interval_minutes now (ground arith)).0 in
    ground (arith, after)

claimed_nothing :
    (now : ℕ) (rows : List Schedule)
    → all has_interval rows ≡ true
    → claim_rows now (claim_rows now rows).1 ≡ ([], (claim_rows now rows).1)
unfolding claim_rows
claimed_nothing now [] h = refl
claimed_nothing now (row ∷ rest) h = elim (Bool-cases (is_due now row)) [
  | inl due ↦
      rw (due, moved_not_due now row (ground arith), claimed_nothing now rest (ground arith)) refl
  | inr later ↦ rw (later, later, claimed_nothing now rest (ground arith)) refl
]

-- What a claim takes is not due any more: a second claim at the same time takes nothing and changes
-- nothing, where every schedule has an interval above zero.
pub claim_due_once :
    (now : ℕ) (repository : Schedules)
    → all has_interval repository.rows ≡ true
    → claim_due now (claim_due now repository).1 ≡ ([], (claim_due now repository).1)
unfolding claim_due
claim_due_once now repository h = rw (claimed_nothing now repository.rows h) refl

claim_rows-length :
    (now : ℕ) (rows : List Schedule)
    → (length (claim_rows now rows).0 ≡ length (keep (is_due now) rows))
      × (length (claim_rows now rows).1 ≡ length rows)
unfolding claim_rows
claim_rows-length now [] = (refl, refl)
claim_rows-length now (row ∷ rest) = elim (Bool-cases (is_due now row)) [
  | inl due ↦ rw due (ground (arith, claim_rows-length now rest))
  | inr later ↦ rw later (ground (arith, claim_rows-length now rest))
]

-- A claim takes as many schedules as are enabled and due, and keeps every row.
pub claim_due-length :
    (now : ℕ) (repository : Schedules)
    → (length (claim_due now repository).0 ≡ length (keep (is_due now) repository.rows))
      × (length (claim_due now repository).1.rows ≡ length repository.rows)
unfolding claim_due
claim_due-length now repository = claim_rows-length now repository.rows
