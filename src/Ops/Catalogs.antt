-- ===== src/Ops/Catalogs.antt =====
-- tms/ops/catalogs.py: drafts of catalogs, and the two rules that say whether one may be deployed. A
-- dictionary of properties is a list of its entries, in their order; the first 16 digits of SHA-256 are
-- the argument `digest`.
pub mod Secrets
use Prim.Native.Char.{code}
use trino_management_service.Prelude.{
  ℕ, ◌==◌, ltb, leb, String, str_eq, is_empty, strip, Bool, true, false, not, ◌&&◌, ◌||◌, Option,
  none, some, List, [], ◌∷◌, ◌++◌, map, length, mem_text, Result, ok, err, guard, ◌>>=◌, ◌>>◌,
  if◌then◌else◌,
}
use trino_management_service.Core.Audit.Reason.{chars, join}
use trino_management_service.Ops.Patterns.{is_name, is_secret_key, is_env_reference, references}

abbrev pub Properties : Type 0
Properties = List (String × String)

abbrev pub max_properties : ℕ
max_properties = 100

abbrev pub max_value_chars : ℕ
max_value_chars = 2000

pub data CatalogError : Type 0 where
  bad_name no_connector bad_connector reserved_property too_many_properties : CatalogError
  value_too_long literal_credential : String → CatalogError

-- What `validate` gives back.
pub record Fields : Type 0 where
  pub name : String
  pub connector : String
  pub properties : Properties

-- `table[key] = value`: a key that is there keeps its place.
unfoldable pub set_item : String → String → Properties → Properties
set_item key value [] = (key, value) ∷ []
set_item key value ((k, v) ∷ rest) =
    if str_eq k key then (k, value) ∷ rest else (k, v) ∷ set_item key value rest

-- `"" if value is None else str(value)`
abbrev text_of : Option String → String
text_of none = ""
text_of (some s) = s

-- `SECRET_KEY.search(key) and not ENV_REFERENCE.match(value.strip())`
abbrev pub is_literal_credential : String → String → Bool
is_literal_credential key value = is_secret_key key && not (is_env_reference (strip value))

-- The loop's body for a key that is stripped.
add_stripped : String → String → Properties → Result CatalogError Properties
unfolding set_item
add_stripped key value cleaned = if is_empty key then ok cleaned else do
  guard (not (str_eq key "connector.name")) reserved_property
  guard (not (ltb max_value_chars (chars value))) (value_too_long key)
  guard (not (is_literal_credential key value)) (literal_credential key)
  ok (set_item key value cleaned)

unfoldable pub clean_properties :
    Properties → List (String × Option String) → Result CatalogError Properties
unfolding add_stripped
clean_properties cleaned [] = ok cleaned
clean_properties cleaned ((key, value) ∷ rest) = do
  next ← add_stripped (strip key) (text_of value) cleaned
  clean_properties next rest

unfoldable pub validate :
    String → String → List (String × Option String) → Result CatalogError Fields
unfolding clean_properties
validate name connector properties = do
  guard (is_name (strip name)) bad_name
  guard (not (is_empty (strip connector))) no_connector
  guard (is_name (strip connector)) bad_connector
  cleaned ← clean_properties [] properties
  guard (not (ltb max_properties (length cleaned))) too_many_properties
  ok (record { name = strip name; connector = strip connector; properties = cleaned })

-- The order of texts: by their characters' numbers.
abbrev pub text_lt : String → String → Bool
text_lt String.[] String.[] = false
text_lt String.[] (String.◌∷◌ d t) = true
text_lt (String.◌∷◌ c s) String.[] = false
text_lt (String.◌∷◌ c s) (String.◌∷◌ d t) =
    ltb (code c) (code d) || (code c == code d && text_lt s t)

-- `sorted(...)` of a set of texts, by insertion.
abbrev pub insert_text : String → List String → List String
insert_text s [] = s ∷ []
insert_text s (t ∷ rest) =
    let later = insert_text s rest in
    if str_eq s t then t ∷ rest else if text_lt s t then s ∷ t ∷ rest else t ∷ later

add_references : List String → List String → List String
add_references [] found = found
add_references (v ∷ rest) found = insert_text v (add_references rest found)

unfoldable pub environment_references : Properties → List String
unfolding add_references references
environment_references [] = []
environment_references ((key, value) ∷ rest) =
    add_references (references value) (environment_references rest)

abbrev insert_item : String × String → Properties → Properties
insert_item item [] = item ∷ []
insert_item item (other ∷ rest) =
    let later = insert_item item rest in
    if text_lt other.0 item.0 then other ∷ later else item ∷ other ∷ rest

-- The entries by their keys.
unfoldable pub sort_items : Properties → Properties
sort_items [] = []
sort_items (item ∷ rest) = insert_item item (sort_items rest)

abbrev render_lines : Properties → String
render_lines [] = ""
render_lines ((key, value) ∷ rest) =
    join key (join "=" (join value (join "\n" (render_lines rest))))

unfoldable pub render : String → Properties → String
unfolding sort_items
render connector properties =
    join "connector.name=" (join connector (join "\n" (render_lines (sort_items properties))))

pub data DeployRefusal : Type 0 where
  nowhere_to_prove not_proved : DeployRefusal
  proved_elsewhere : String → DeployRefusal

refuse_unproved : List String → Option String → Option DeployRefusal
refuse_unproved development none = some not_proved
refuse_unproved development (some verified) =
    if is_empty verified
    then some not_proved
    else if mem_text verified development
    then none
    else some (proved_elsewhere verified)

-- `refuse_deploy` of a draft with this `verified_on`.
unfoldable pub refuse_deploy : Option String → String → List String → Option DeployRefusal
unfolding refuse_unproved
refuse_deploy verified_on cluster development =
    if mem_text cluster development
    then none
    else if length development == 0
    then some nowhere_to_prove
    else refuse_unproved development verified_on

unfoldable pub fingerprint : (String → String) → String → Properties → String
unfolding render
fingerprint digest connector properties = digest (render connector properties)

pub record Target : Type 0 where
  pub cluster : String
  pub development : Bool
  pub refusal : Option DeployRefusal

unfoldable pub deployable : Option String → List String → List String → List Target
unfolding refuse_deploy
deployable verified_on clusters development =
    map
      (λ cluster. record {
        cluster = cluster;
        development = mem_text cluster development;
        refusal = refuse_deploy verified_on cluster development;
      })
      clusters
