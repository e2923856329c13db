-- ===== src/Core/Audit/Reason.antt =====
-- tms/core/audit.py, `normalise_reason`: white space collapsed, and the length capped.
pub mod Bounds
use Prim.Native.Char.{Char, code}
use trino_management_service.Prelude.{
  ℕ, zero, suc, ◌+◌, ◌-◌, ◌≤◌, ◌≡◌, refl, String, Bool, true, false, not, ◌&&◌, Option, none, some,
  List, [], ◌∷◌, arith, ltb, is_space, is_empty, if◌then◌else◌,
}

-- `len(s)`
abbrev pub chars : String → ℕ
chars String.[] = 0
chars (String.◌∷◌ c s) = suc (chars s)

-- `s[:n]`
abbrev pub first_chars : ℕ → String → String
first_chars zero s = String.[]
first_chars (suc n) String.[] = String.[]
first_chars (suc n) (String.◌∷◌ c s) = String.◌∷◌ c (first_chars n s)

abbrev pub join : String → String → String
join String.[] t = t
join (String.◌∷◌ c s) t = String.◌∷◌ c (join s t)

abbrev push : String → List String → List String
push w ws = if is_empty w then ws else w ∷ ws

-- The word that a text begins with (empty at white space or at the end), and the words behind it.
cut : String → String × List String
cut String.[] = (String.[], [])
cut (String.◌∷◌ c s) =
    let rest = cut s in
    if is_space (code c) then (String.[], push rest.0 rest.1) else (String.◌∷◌ c rest.0, rest.1)

-- `s.split()`
pub split : String → List String
unfolding cut is_space
split s = push (cut s).0 (cut s).1

-- `" ".join(words)`
pub join_words : List String → String
join_words [] = String.[]
join_words (w ∷ []) = w
join_words (w ∷ v ∷ ws) = join w (join " " (join_words (v ∷ ws)))

abbrev pub max_reason_length : ℕ
max_reason_length = 512

-- `none` is the exception `ReasonRequired`.
unfoldable pub normalise_reason : Option String → Option String
unfolding split join_words
normalise_reason none = none
normalise_reason (some reason) =
    let flattened = join_words (split reason) in
    if is_empty flattened
    then none
    else if ltb max_reason_length (chars flattened)
    then some (join (first_chars (max_reason_length - 3) flattened) "...")
    else some flattened

collapses : normalise_reason (some "  a \n b ") ≡ some "a b"
unfolding normalise_reason
collapses = refl
