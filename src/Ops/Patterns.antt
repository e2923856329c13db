-- ===== src/Ops/Patterns.antt =====
-- The regular expressions of tms/ops/catalogs.py, written out. `$` before a final line feed is not a
-- case: what is matched was stripped.
use Prim.Native.Char.{code}
use trino_management_service.Prelude.{
  ℕ, ◌+◌, ◌==◌, leb, String, Bool, true, false, ◌&&◌, ◌||◌, Option, none, some, List, [], ◌∷◌, any,
  is_empty, if◌then◌else◌, ◌≡◌, refl,
}

abbrev pub in_range : ℕ → ℕ → ℕ → Bool
in_range lo hi c = leb lo c && leb c hi

abbrev pub is_lower : ℕ → Bool
is_lower c = in_range 97 122 c

abbrev pub is_upper : ℕ → Bool
is_upper c = in_range 65 90 c

abbrev pub is_digit : ℕ → Bool
is_digit c = in_range 48 57 c

-- A character as `re.IGNORECASE` compares it with a small ASCII letter: the capital letters, and the
-- four letters beyond ASCII that it takes for i, s and k.
abbrev pub fold : ℕ → ℕ
fold c =
    if is_upper c
    then c + 32
    else if c == 304 || c == 305
    then 105
    else if c == 383
    then 115
    else if c == 8490
    then 107
    else c

-- What is behind a literal at the beginning of a text.
unfoldable pub after_literal : (ℕ → ℕ) → String → String → Option String
after_literal f String.[] s = some s
after_literal f (String.◌∷◌ c p) String.[] = none
after_literal f (String.◌∷◌ c p) (String.◌∷◌ d s) = elim (f (code d) == code c) [
  | true ↦ after_literal f p s
  | false ↦ none
]

abbrev pub is_some : Option String → Bool
is_some none = false
is_some (some s) = true

abbrev is_at_end : Option String → Bool
is_at_end none = false
is_at_end (some s) = is_empty s

-- The alternatives of `SECRET_KEY`; the one that ends with `$` is apart.
abbrev secret_words : List String
secret_words =
    "password" ∷ "secret" ∷ "credential" ∷ "accesskey" ∷ "access-key" ∷ "access_key" ∷ "access.key"
    ∷ "privatekey" ∷ "private-key" ∷ "private_key" ∷ "private.key" ∷ "keystore" ∷ "truststore" ∷ []

secret_here : String → Bool
unfolding after_literal
secret_here s =
    any (λ w. is_some (after_literal fold w s)) secret_words
    || is_at_end (after_literal fold ".key" s)

-- `SECRET_KEY.search(key)`
unfoldable pub is_secret_key : String → Bool
unfolding secret_here
is_secret_key String.[] = false
is_secret_key (String.◌∷◌ c s) = secret_here (String.◌∷◌ c s) || is_secret_key s

abbrev name_rest : String → Bool
name_rest String.[] = true
name_rest (String.◌∷◌ c s) = (is_lower (code c) || is_digit (code c) || code c == 95) && name_rest s

-- `NAME.match(name)`
unfoldable pub is_name : String → Bool
is_name String.[] = false
is_name (String.◌∷◌ c s) = is_lower (code c) && name_rest s

abbrev is_word_start : ℕ → Bool
is_word_start c = is_lower c || is_upper c || c == 95

-- `[A-Za-z0-9_]*\}`: the characters before the brace, and what is behind it.
variable_rest : String → Option (String × String)
variable_rest String.[] = none
variable_rest (String.◌∷◌ c s) =
    let rest = variable_rest s in
    if code c == 125
    then some (String.[], s)
    else if is_word_start (code c) || is_digit (code c)
    then elim rest [ none ↦ none | some (v, behind) ↦ some (String.◌∷◌ c v, behind) ]
    else none

-- `[A-Za-z_][A-Za-z0-9_]*\}`
variable : Option String → Option (String × String)
unfolding variable_rest
variable none = none
variable (some String.[]) = none
variable (some (String.◌∷◌ c s)) =
    if is_word_start (code c) then variable_rest (String.◌∷◌ c s) else none

-- `\$\{ENV:([A-Za-z_][A-Za-z0-9_]*)\}` at the beginning of a text: the variable and what is behind.
unfoldable pub reference_here : String → Option (String × String)
unfolding variable after_literal
reference_here s = variable (after_literal (λ c. c) "${ENV:" s)

-- `ENV_REFERENCE.match(value)`
unfoldable pub is_env_reference : String → Bool
unfolding reference_here
is_env_reference s = elim (reference_here s) [ none ↦ false | some (v, behind) ↦ is_empty behind ]

abbrev push_variable : Option (String × String) → List String → List String
push_variable none found = found
push_variable (some (v, behind)) found = v ∷ found

-- `re.finditer`: no two references overlap, since each begins with the only dollar that it has.
unfoldable pub references : String → List String
unfolding reference_here
references String.[] = []
references (String.◌∷◌ c s) = push_variable (reference_here (String.◌∷◌ c s)) (references s)

secret_keys : is_secret_key "connection-PassWord" ≡ true
unfolding is_secret_key
secret_keys = refl

key_at_end : (is_secret_key "s3.key" ≡ true) × (is_secret_key "s3.keys" ≡ false)
unfolding is_secret_key
key_at_end = (refl, refl)

a_reference :
    (is_env_reference "${ENV:DB_1}" ≡ true)
    × (references "a${ENV:X}b${ENV:1}${ENV:Y}" ≡ "X" ∷ "Y" ∷ [])
unfolding is_env_reference references
a_reference = (refl, refl)
