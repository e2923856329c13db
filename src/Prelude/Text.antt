-- ===== src/Prelude/Text.antt =====
-- Python's text operations that the program uses: truth of a text, `str.strip`, `==`.
use Prim.Native.Nat.{ℕ}
use Prim.Native.Char.{code}
use Prim.Native.String.{String}
use mathlib.Core.Path.{◌≡◌, refl}
use mathlib.Core.Bool.{Bool, true, false, ◌&&◌, ◌||◌}
use native.Mathlib.Omega.{arith}
use text.Mathlib.Text.{◌==◌}
use trino_management_service.Prelude.Tests.{leb, if◌then◌else◌}

abbrev pub str_eq : String → String → Bool
str_eq s t = s == t

-- `not s`
abbrev pub is_empty : String → Bool
is_empty String.[] = true
is_empty (String.◌∷◌ c s) = false

abbrev in_range : ℕ → ℕ → ℕ → Bool
in_range lo hi c = leb lo c && leb c hi

-- `str.isspace` of one character: Unicode's white space, as CPython tabulates it.
unfoldable pub is_space : ℕ → Bool
is_space c =
    in_range 9 13 c
    || in_range 28 32 c
    || in_range 133 133 c
    || in_range 160 160 c
    || in_range 5760 5760 c
    || in_range 8192 8202 c
    || in_range 8232 8233 c
    || in_range 8239 8239 c
    || in_range 8287 8287 c
    || in_range 12288 12288 c

lstrip : String → String
lstrip String.[] = String.[]
lstrip (String.◌∷◌ c s) = if is_space (code c) then lstrip s else String.◌∷◌ c s

rstrip : String → String
rstrip String.[] = String.[]
rstrip (String.◌∷◌ c s) =
    let rest = rstrip s in
    if is_space (code c) && is_empty rest then String.[] else String.◌∷◌ c rest

-- `s.strip()`
unfoldable pub strip : String → String
unfolding is_space lstrip rstrip
strip s = rstrip (lstrip s)

-- `not s.strip()`
unfoldable pub is_blank : String → Bool
unfolding strip
is_blank s = is_empty (strip s)

-- `s or d`
abbrev pub or_else : String → String → String
or_else s d = if is_empty s then d else s

-- White space only.
abbrev pub all_space : String → Bool
all_space String.[] = true
all_space (String.◌∷◌ c s) = is_space (code c) && all_space s

is_empty-rstrip : (s : String) → is_empty (rstrip s) ≡ all_space s
unfolding rstrip
is_empty-rstrip String.[] = refl
is_empty-rstrip (String.◌∷◌ c s) = ground (arith, is_empty-rstrip s)

pub is_blank-eq : (s : String) → is_blank s ≡ all_space s
unfolding is_blank lstrip rstrip
is_blank-eq String.[] = refl
is_blank-eq (String.◌∷◌ c s) = ground (arith, is_blank-eq s)

strip_both_ends : strip "  a b " ≡ "a b"
unfolding strip
strip_both_ends = refl

blank_spaces : is_blank "   " ≡ true
unfolding is_blank
blank_spaces = refl
