-- ===== src/Work/Items.antt =====
-- tms/work/items.py: the statuses of a work item, the keys that the board mints, and its columns. Times
-- and labels are left out. `int` and the printing of a number are the record `Numbers`.
use trino_management_service.Prelude.{
  ℕ, suc, ◌+◌, ◌-◌, ◌≤◌, ◌≡◌, refl, sym, inl, inr, eq_iff, Bool-cases, ltb, String, str_eq,
  is_blank, Bool, true, false, not, Option, none, some, List, [], ◌∷◌, keep, count, map, mem_text,
  Result, guard, ◌>>◌, arith, if◌then◌else◌,
}
use trino_management_service.Core.Audit.Reason.{join}
use trino_management_service.Ops.Patterns.{after_literal, is_lower}

-- Board order.
abbrev pub status_order : List String
status_order = "needs_decision" ∷ "blocked" ∷ "in_progress" ∷ "planned" ∷ "done" ∷ "dropped" ∷ []

abbrev pub open_statuses : List String
open_statuses = "needs_decision" ∷ "blocked" ∷ "planned" ∷ "in_progress" ∷ []

abbrev pub kind_labels : List String
kind_labels = "decision" ∷ "requirement" ∷ "request" ∷ "task" ∷ []

pub data WorkItemError : Type 0 where
  bad_kind bad_status no_title no_key : WorkItemError

abbrev has_text : Option String → Bool
has_text none = true
has_text (some key) = not (is_blank key)

unfoldable pub validate : String → String → String → Option String → Result WorkItemError Unit
validate kind status title key = do
  guard (mem_text kind kind_labels) bad_kind
  guard (mem_text status status_order) bad_status
  guard (not (is_blank title)) no_title
  guard (has_text key) no_key

pub record Numbers : Type 0 where
  -- `int`, where it raises nothing; a number below 0 counts as 0
  pub int : String → Option ℕ
  pub format : ℕ → String

-- The letters whose capital is an ASCII letter that stands in "REQ-".
abbrev upper : ℕ → ℕ
upper c = if is_lower c then c - 32 else c

number_of : Numbers → Option String → ℕ
number_of lib none = 0
number_of lib (some digits) = elim (lib.int digits) [ none ↦ 0 | some n ↦ n ]

-- The number of a key that the board minted; 0 for every other.
unfoldable pub request_number : Numbers → String → ℕ
unfolding number_of after_literal
request_number lib key = number_of lib (after_literal upper "REQ-" key)

unfoldable pub highest : Numbers → List String → ℕ
highest lib [] = 0
highest lib (key ∷ rest) =
    let others = highest lib rest in
    if ltb others (request_number lib key) then request_number lib key else others

abbrev pub request_key : Numbers → ℕ → String
request_key lib n = join "REQ-" (lib.format n)

unfoldable pub next_request_key : Numbers → List String → String
unfolding highest
next_request_key lib keys = request_key lib (suc (highest lib keys))

-- One column of the board: its status and its cards, given by the statuses of the items.
pub record Column {ℓ} (A : Type ℓ) : Type ℓ where
  pub status : String
  pub cards : List A

-- `group_by_status`
unfoldable pub group_by_status {ℓ} : {A : Type ℓ} → (A → String) → List A → List (Column A)
group_by_status status_of items =
    map
      (λ status. record {
        status = status;
        cards = keep (λ item. str_eq (status_of item) status) items;
      })
      status_order

-- The counts of `summarise`, one for each status; `open` is `open_count`.
unfoldable pub count_of {ℓ} : {A : Type ℓ} → (A → String) → List A → String → ℕ
count_of status_of items status = count (λ item. str_eq (status_of item) status) items

sum_counts : (String → ℕ) → List String → ℕ
sum_counts counts [] = 0
sum_counts counts (s ∷ rest) = counts s + sum_counts counts rest

unfoldable pub open_count {ℓ} : {A : Type ℓ} → (A → String) → List A → ℕ
unfolding sum_counts count_of
open_count status_of items = sum_counts (count_of status_of items) open_statuses

highest_bounds :
    (lib : Numbers) (keys : List String) (key : String)
    → mem_text key keys ≡ true
    → request_number lib key ≤ highest lib keys
unfolding highest
highest_bounds lib [] key h = ground (arith, h)
highest_bounds lib (k ∷ keys) key h = elim (Bool-cases (str_eq k key)) [
  | inl same ↦ (let e : k ≡ key = ground (arith, same, eq_iff k key) in rw (sym e) (ground arith))
  | inr differs ↦ ground (arith, differs, h, highest_bounds lib keys key)
]

request_number-key :
    (lib : Numbers) (n : ℕ)
    → lib.int (lib.format n) ≡ some n
    → request_number lib (request_key lib n) ≡ n
unfolding request_number number_of after_literal
request_number-key lib n h = rw h refl

-- The key that the board mints is on none of its items, if `int` reads the number that was printed.
pub next_request_key-fresh :
    (lib : Numbers) (keys : List String)
    → ((n : ℕ) → lib.int (lib.format n) ≡ some n)
    → mem_text (next_request_key lib keys) keys ≡ false
unfolding next_request_key
next_request_key-fresh lib keys lawful =
    elim (Bool-cases (mem_text (next_request_key lib keys) keys)) [
      | inr fresh ↦ fresh
      | inl there ↦
          let n = suc (highest lib keys) in
          let bound = highest_bounds lib keys (request_key lib n) there in
          let number = request_number-key lib n (lawful n) in absurd (omega (arith, bound, number))
    ]
