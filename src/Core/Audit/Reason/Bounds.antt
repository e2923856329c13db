-- ===== src/Core/Audit/Reason/Bounds.antt =====
-- tms/core/audit.py: what a normalised reason is.
use trino_management_service.Prelude.{
  ℕ, zero, suc, ◌+◌, ◌-◌, ◌≤◌, ◌≡◌, refl, ◌↔◌, String, Bool, true, false, not, ◌&&◌, Option, none,
  some, List, [], ◌∷◌, arith, is_empty, is_blank, is_blank-eq, all_space,
}
use trino_management_service.Core.Audit.Reason.{
  chars, first_chars, join, cut, split, join_words, normalise_reason, max_reason_length,
}

chars-join : (s t : String) → chars (join s t) ≡ chars s + chars t
chars-join String.[] t = omega arith
chars-join (String.◌∷◌ c s) t = omega (arith, chars-join s t)

chars-first_chars-le : (n : ℕ) (s : String) → chars (first_chars n s) ≤ n
chars-first_chars-le zero s = omega arith
chars-first_chars-le (suc n) String.[] = omega arith
chars-first_chars-le (suc n) (String.◌∷◌ c s) = omega (arith, chars-first_chars-le n s)

-- A reason that the guard accepts has at most 512 characters.
pub normalise_reason-bounded :
    (reason : Option String) {clean : String}
    → normalise_reason reason ≡ some clean
    → chars clean ≤ max_reason_length
unfolding normalise_reason
normalise_reason-bounded none h = cc
normalise_reason-bounded (some reason) h =
    let flat = join_words (split reason) in
    let cut = first_chars (max_reason_length - 3) flat in
    ground (arith, chars-join cut "...", chars-first_chars-le (max_reason_length - 3) flat)

is_empty-join : (s t : String) → is_empty (join s t) ≡ (is_empty s && is_empty t)
is_empty-join String.[] t = refl
is_empty-join (String.◌∷◌ c s) t = refl

abbrev is_nil : List String → Bool
is_nil [] = true
is_nil (w ∷ ws) = false

is_empty-cut : (s : String) → (is_empty (cut s).0 && is_nil (cut s).1) ≡ all_space s
unfolding cut
is_empty-cut String.[] = refl
is_empty-cut (String.◌∷◌ c s) = ground (arith, is_empty-cut s)

-- The first word, if there is one, is not empty.
abbrev has_words : List String → Bool
has_words [] = true
has_words (w ∷ ws) = not (is_empty w)

has_words-cut : (s : String) → has_words (cut s).1 ≡ true
unfolding cut
has_words-cut String.[] = refl
has_words-cut (String.◌∷◌ c s) = ground (arith, has_words-cut s)

is_empty-join_words :
    (ws : List String) → has_words ws ≡ true → is_empty (join_words ws) ≡ is_nil ws
unfolding join_words
is_empty-join_words [] h = refl
is_empty-join_words (w ∷ []) h = ground arith
is_empty-join_words (w ∷ v ∷ ws) h = rw is_empty-join (ground arith)

is_empty-flattened : (s : String) → is_empty (join_words (split s)) ≡ all_space s
unfolding split
is_empty-flattened s =
    let w = (cut s).0 in
    let ws = (cut s).1 in
    ground
      (arith, is_empty-cut s, has_words-cut s, is_empty-join_words ws, is_empty-join_words (w ∷ ws))

-- The guard refuses a reason exactly when it is missing or strips to nothing: the test that the
-- callers make with `strip` and the one that the guard makes with `split` agree.
pub normalise_reason_iff_blank :
    (reason : String) → (normalise_reason (some reason) ≡ none) ↔ (is_blank reason ≡ true)
unfolding normalise_reason
normalise_reason_iff_blank reason = ground (arith, is_blank-eq reason, is_empty-flattened reason)
