-- ===== src/Core/Sessions/Padding.antt =====
-- tms/core/sessions.py, `_b64encode` and `_b64decode`: the "=" that is taken off and put back.
use Prim.Native.Char.{code}
use trino_management_service.Prelude.{
  ℕ, zero, suc, ◌+◌, ◌-◌, ◌%◌, ◌≤◌, ◌≡◌, refl, ◌==◌, String, is_empty, Bool, false, ◌&&◌, ◌||◌,
  arith, if◌then◌else◌,
}
use trino_management_service.Core.Audit.Reason.{join, chars}
use trino_management_service.Core.Sessions.Split.{has_dot}

-- "="
abbrev pub is_equals : ℕ → Bool
is_equals c = c == 61

abbrev pub has_equals : String → Bool
has_equals String.[] = false
has_equals (String.◌∷◌ c s) = is_equals (code c) || has_equals s

-- `text.rstrip("=")`
unfoldable pub strip_equals : String → String
strip_equals String.[] = String.[]
strip_equals (String.◌∷◌ c s) =
    let rest = strip_equals s in
    if is_equals (code c) && is_empty rest then String.[] else String.◌∷◌ c rest

-- `"=" * n`
abbrev pub equals : ℕ → String
equals zero = String.[]
equals (suc n) = join "=" (equals n)

-- `-len(text) % 4`
abbrev pub missing : String → ℕ
missing text = (4 - chars text % 4) % 4

strip_equals-all : (k : ℕ) → strip_equals (equals k) ≡ String.[]
unfolding strip_equals
strip_equals-all zero = refl
strip_equals-all (suc k) = rw (strip_equals-all k) refl

pub strip_equals-join :
    (body : String) (k : ℕ) → has_equals body ≡ false → strip_equals (join body (equals k)) ≡ body
unfolding strip_equals
strip_equals-join String.[] k h = strip_equals-all k
strip_equals-join (String.◌∷◌ c s) k h =
    let plain : is_equals (code c) ≡ false = ground (arith, h) in
    rw (plain, strip_equals-join s k (ground (arith, h))) refl

chars-join : (a b : String) → chars (join a b) ≡ chars a + chars b
chars-join String.[] b = omega arith
chars-join (String.◌∷◌ c a) b = ground (arith, chars-join a b)

chars-equals : (k : ℕ) → chars (equals k) ≡ k
chars-equals zero = refl
chars-equals (suc k) = ground (arith, chars-equals k)

-- What was taken off is what is put back, where the whole fills groups of four.
pub missing-body :
    (body : String) (k : ℕ) → chars (join body (equals k)) % 4 ≡ 0 → k ≤ 2 → missing body ≡ k
missing-body body k h le =
    let whole : chars (join body (equals k)) ≡ chars body + k =
      ground (arith, chars-join body (equals k), chars-equals k) in
    omega (arith, whole, h, le)

pub has_dot-join : (a b : String) → has_dot (join a b) ≡ false → has_dot a ≡ false
has_dot-join String.[] b h = refl
has_dot-join (String.◌∷◌ c a) b h = ground (arith, h, has_dot-join a b)
