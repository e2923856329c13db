-- ===== src/Ops/ResourceGroupRules/Clean.antt =====
-- tms/ops/resource_group_rules.py: lists of findings that refuse nothing, and those of one group.
use trino_management_service.Prelude.{
  ℕ, ltb, leb, String, is_empty, strip, Bool, true, false, not, ◌&&◌, ◌||◌, Option, none, some,
  List, [], ◌∷◌, ◌++◌, all, mem_text, ◌≡◌, refl, arith,
}
use trino_management_service.Core.Audit.Reason.{chars}
use trino_management_service.Ops.ResourceGroupRules.Units.{is_duration}
use trino_management_service.Ops.ResourceGroupRules.{
  Code, v1, w3, Finding, error, warning, Formats, Group, max_name, scheduling_policies, found,
  is_set, is_positive, is_size,
}
use trino_management_service.Ops.ResourceGroupRules.Groups.{
  required, check_name, check_scan, check_group, check_groups,
}

-- No finding refuses the save.
unfoldable pub clean : List Finding → Bool
clean [] = true
clean (f ∷ fs) = not f.blocking && clean fs

pub clean-append : (xs ys : List Finding) → clean (xs ++ ys) ≡ (clean xs && clean ys)
unfolding clean
clean-append [] ys = refl
clean-append (x ∷ xs) ys = ground (arith, clean-append xs ys)

pub clean-found : (b : Bool) (f : Finding) → clean (found b f) ≡ (not b || not f.blocking)
unfolding clean
clean-found true f = ground arith
clean-found false f = refl

pub error-clean : (b : Bool) (c : Code) (target : String) → clean (found b (error c target)) ≡ not b
error-clean b c target = ground (arith, clean-found b (error c target))

pub warning-clean :
    (b : Bool) (c : Code) (target : String) → clean (found b (warning c target)) ≡ true
warning-clean b c target = ground (arith, clean-found b (warning c target))

pub not_and : (a b : Bool) → not (a && b) ≡ (not a || not b)
not_and a b = ground arith

pub not-not : (a : Bool) → not (not a) ≡ a
not-not a = ground arith

pub and_assoc : (a b c : Bool) → ((a && b) && c) ≡ (a && (b && c))
and_assoc a b c = ground arith

pub and_true : (a : Bool) → (a && true) ≡ a
and_true a = ground arith

pub or_false : (a : Bool) → (a || false) ≡ a
or_false a = ground arith

-- What is clean, and the normal form of tests.
pub ruleset tidy =
    (clean-append, error-clean, warning-clean, not_and, not-not, and_assoc, and_true, or_false)

-- A text that is a size, a duration and so on, if it is there.
abbrev pub missing_or : (String → Bool) → String → Bool
missing_or p s = is_empty s || p s

module _ (formats : Formats) where
  abbrev pub is_sound_group : Group → Bool
  is_sound_group g =
      not (is_empty (strip g.name))
      && leb (chars (strip g.name)) max_name
      && is_positive g.max_queued
      && is_positive g.hard_concurrency_limit
      && missing_or (is_size formats) g.soft_memory_limit
      && missing_or (is_duration formats.is_decimal) g.soft_cpu_limit
      && missing_or (is_duration formats.is_decimal) g.hard_cpu_limit
      && (is_empty g.soft_cpu_limit || not (is_empty g.hard_cpu_limit))
      && missing_or (λ s. mem_text s scheduling_policies) g.scheduling_policy
      && missing_or (is_size formats) g.hard_physical_data_scan_limit

  required-clean :
      (limit : Option ℕ) (target : String) → clean (required limit target) ≡ is_positive limit
  unfolding clean required
  required-clean none target = refl
  required-clean (some n) target = ground arith

  name-clean :
      (name target : String)
      → clean (check_name name target) ≡ (not (is_empty name) && leb (chars name) max_name)
  unfolding clean check_name
  name-clean name target = ground (arith, clean-found (ltb max_name (chars name)) (error v1 target))

  scan-clean :
      (scan target : String)
      → clean (check_scan formats scan target) ≡ missing_or (is_size formats) scan
  unfolding clean check_scan
  scan-clean scan target = ground (arith, clean-found (is_set scan) (warning w3 target))

  check_group-clean : (g : Group) → clean (check_group formats g) ≡ is_sound_group g
  unfolding check_group
  check_group-clean g = simp (required-clean, name-clean, scan-clean, tidy)

  pub check_groups-clean :
      (gs : List Group) → clean (check_groups formats gs) ≡ all is_sound_group gs
  unfolding check_groups clean
  check_groups-clean [] = refl
  check_groups-clean (g ∷ gs) = simp (tidy, check_group-clean, check_groups-clean gs)
