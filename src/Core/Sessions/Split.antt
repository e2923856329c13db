-- ===== src/Core/Sessions/Split.antt =====
-- tms/core/sessions.py: `token.rsplit(".", 1)`, where the token has a dot.
use Prim.Native.Char.{code}
use trino_management_service.Prelude.{
  ℕ, ◌≡◌, refl, ◌==◌, String, Bool, false, ◌||◌, Option, none, some, arith, if◌then◌else◌,
}
use trino_management_service.Core.Audit.Reason.{join}

-- "."
abbrev pub is_dot : ℕ → Bool
is_dot c = c == 46

abbrev pub has_dot : String → Bool
has_dot String.[] = false
has_dot (String.◌∷◌ c s) = is_dot (code c) || has_dot s

unfoldable pub split_last : String → Option (String × String)
split_last String.[] = none
split_last (String.◌∷◌ c s) =
    let rest = split_last s in
    elim rest [
      | some (a, b) ↦ some (String.◌∷◌ c a, b)
      | none ↦ if is_dot (code c) then some (String.[], s) else none
    ]

split_last-none : (s : String) → has_dot s ≡ false → split_last s ≡ none
unfolding split_last
split_last-none String.[] h = refl
split_last-none (String.◌∷◌ c s) h = ground (arith, split_last-none s)

-- A text is split at the dot that was put between two others, where the second has none.
pub split_last-join :
    (a b : String) → has_dot b ≡ false → split_last (join a (join "." b)) ≡ some (a, b)
unfolding split_last
split_last-join String.[] b h = rw (split_last-none b h) refl
split_last-join (String.◌∷◌ c a) b h = rw (split_last-join a b h) refl
