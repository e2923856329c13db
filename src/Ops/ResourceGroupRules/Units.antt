-- ===== src/Ops/ResourceGroupRules/Units.antt =====
-- tms/ops/resource_group_rules.py: the regular expressions of sizes, shares and durations, written out.
-- `\s` is a character that `strip` takes off, and `\d` what a predicate says is a decimal digit. What
-- may follow a run of digits or of spaces is never one of the run, so no shorter run needs a try.
use Prim.Native.Char.{code}
use trino_management_service.Prelude.{
  ℕ, ◌==◌, String, is_space, is_empty, Bool, true, false, ◌&&◌, Option, none, some, List, [], ◌∷◌,
  any, if◌then◌else◌, ◌≡◌, refl,
}
use trino_management_service.Ops.Patterns.{after_literal, fold, is_digit}

-- `\s*`
skip_spaces : String → String
unfolding is_space
skip_spaces String.[] = String.[]
skip_spaces (String.◌∷◌ c s) = if is_space (code c) then skip_spaces s else String.◌∷◌ c s

-- `\s*$`
closes : Option String → Bool
unfolding skip_spaces
closes none = false
closes (some s) = is_empty (skip_spaces s)

-- `(...)\s*$`, for these alternatives
ends_in : (ℕ → ℕ) → List String → Option String → Bool
unfolding after_literal closes
ends_in f units none = false
ends_in f units (some s) = any (λ u. closes (after_literal f u s)) units

-- `text.rstrip("%")`
unfoldable pub strip_percent : String → String
strip_percent String.[] = String.[]
strip_percent (String.◌∷◌ c s) =
    let rest = strip_percent s in
    if code c == 37 && is_empty rest then String.[] else String.◌∷◌ c rest

module _ (is_decimal : ℕ → Bool) where
  -- `\d*`
  skip_digits : String → String
  skip_digits String.[] = String.[]
  skip_digits (String.◌∷◌ c s) = if is_decimal (code c) then skip_digits s else String.◌∷◌ c s

  -- `\d+`
  after_digits : String → Option String
  unfolding skip_digits
  after_digits String.[] = none
  after_digits (String.◌∷◌ c s) = if is_decimal (code c) then some (skip_digits s) else none

  -- `(\.\d+)?`
  after_fraction : String → String
  unfolding after_digits
  after_fraction String.[] = String.[]
  after_fraction (String.◌∷◌ c s) =
      if code c == 46
      then elim (after_digits s) [ none ↦ String.◌∷◌ c s | some rest ↦ rest ]
      else String.◌∷◌ c s

  -- `^\s*\d+(\.\d+)?\s*`
  after_number : String → Option String
  unfolding skip_spaces after_digits after_fraction
  after_number s = elim (after_digits (skip_spaces s)) [
    | none ↦ none
    | some rest ↦ some (skip_spaces (after_fraction rest))
  ]

  -- `_DATA_SIZE`, which ignores the case
  unfoldable pub is_data_size : String → Bool
  unfolding after_number ends_in
  is_data_size s = ends_in fold ("b" ∷ "kb" ∷ "mb" ∷ "gb" ∷ "tb" ∷ "pb" ∷ []) (after_number s)

  -- `_PERCENTAGE`
  unfoldable pub is_percentage : String → Bool
  unfolding after_number ends_in
  is_percentage s = ends_in (λ c. c) ("%" ∷ []) (after_number s)

  -- `_DURATION`
  unfoldable pub is_duration : String → Bool
  unfolding after_number ends_in
  is_duration s =
      ends_in (λ c. c) ("ns" ∷ "us" ∷ "ms" ∷ "s" ∷ "m" ∷ "h" ∷ "d" ∷ []) (after_number s)

some_sizes :
    (is_data_size is_digit " 1.5 gB " ≡ true)
    × (is_data_size is_digit "1. GB" ≡ false)
    × (is_duration is_digit "10ms" ≡ true)
    × (is_duration is_digit "10MS" ≡ false)
    × (is_percentage is_digit "80 %" ≡ true)
    × (is_percentage is_digit "%" ≡ false)
unfolding is_data_size is_duration is_percentage
some_sizes = (refl, refl, refl, refl, refl, refl)
