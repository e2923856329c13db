-- ===== src/Ops/ConfigEdit.antt =====
-- tms/ops/configedit.py: changes of `config.properties`, and when one may be deployed. `str.lower` is
-- written out for the letters that become an ASCII one, as its result is only compared with ASCII words.
pub mod Accepted
pub mod Gate
use Prim.Native.Char.{Char, char, code}
use trino_management_service.Prelude.{
  ℕ, ◌+◌, ◌==◌, ltb, String, str_eq, is_empty, strip, Bool, true, false, not, ◌&&◌, ◌||◌, Option,
  none, some, List, [], ◌∷◌, ◌++◌, any, keep, length, mem_text, Result, ok, err, guard, ◌>>=◌, ◌>>◌,
  if◌then◌else◌, ◌≡◌, refl,
}
use trino_management_service.Core.Audit.Reason.{chars, join}
use trino_management_service.Ops.Patterns.{
  is_lower, is_upper, is_digit, is_secret_key, is_env_reference,
}
use trino_management_service.Ops.Catalogs.{text_lt, insert_text}

abbrev pub max_entries : ℕ
max_entries = 50

abbrev pub max_value_chars : ℕ
max_value_chars = 2000

pub data ConfigEditError : Type 0 where
  no_title bad_role no_entries too_many_entries : ConfigEditError
  bad_name twice bad_action no_value value_too_long many_lines literal_credential :
      String → ConfigEditError

-- An entry as it is sent.
pub record Entry : Type 0 where
  pub key : Option String
  pub action : Option String
  pub value : Option String

-- A cleaned entry: the value is `none` where the property is removed.
pub record Edit : Type 0 where
  pub key : String
  pub value : Option String

pub data Role : Type 0 where
  all_nodes coordinator worker : Role

pub record Change : Type 0 where
  pub title : String
  pub target_role : Role
  pub entries : List Edit

abbrev name_rest : String → Bool
name_rest String.[] = true
name_rest (String.◌∷◌ c s) =
    (is_lower (code c)
      || is_upper (code c)
      || is_digit (code c)
      || code c == 95
      || code c == 46
      || code c == 45)
    && name_rest s

-- `NAME.match(key)`
unfoldable pub is_property_name : String → Bool
is_property_name String.[] = false
is_property_name (String.◌∷◌ c s) = (is_lower (code c) || is_upper (code c)) && name_rest s

abbrev lower_code : ℕ → ℕ
lower_code c = if is_upper c then c + 32 else if c == 8490 then 107 else c

-- `text.lower() == word`, for an ASCII word in small letters
unfoldable pub is_word : String → String → Bool
is_word String.[] String.[] = true
is_word String.[] (String.◌∷◌ d t) = false
is_word (String.◌∷◌ c s) String.[] = false
is_word (String.◌∷◌ c s) (String.◌∷◌ d t) = lower_code (code c) == code d && is_word s t

role_of : String → Option Role
unfolding is_word
role_of s =
    if is_word s "all"
    then some all_nodes
    else if is_word s "coordinator"
    then some coordinator
    else if is_word s "worker"
    then some worker
    else none

parse_role : Option Role → Result ConfigEditError Role
parse_role none = err bad_role
parse_role (some r) = ok r

-- `x or default`
abbrev or_text : Option String → String → String
or_text none d = d
or_text (some s) d = if is_empty s then d else s

-- `"" if value is None else str(value)`
abbrev value_text : Option String → String
value_text none = ""
value_text (some s) = s

-- "\n" in value or "\r" in value
abbrev pub has_line_end : String → Bool
has_line_end String.[] = false
has_line_end (String.◌∷◌ c s) = code c == 10 || code c == 13 || has_line_end s

check_value : String → String → Result ConfigEditError Edit
check_value key value = do
  guard (not (is_empty value)) (no_value key)
  guard (not (ltb max_value_chars (chars value))) (value_too_long key)
  guard (not (has_line_end value)) (many_lines key)
  guard (not (is_secret_key key && not (is_env_reference value))) (literal_credential key)
  ok (record { key = key; value = some value })

-- One round of the loop, for a stripped key, action and value.
unfoldable pub check_entry : List String → String → String → String → Result ConfigEditError Edit
unfolding check_value is_word
check_entry seen key action value = do
  guard (is_property_name key) (bad_name key)
  guard (not (mem_text key seen)) (twice key)
  guard (is_word action "set" || is_word action "unset") (bad_action key)
  if is_word action "unset" then ok (record { key = key; value = none }) else check_value key value

unfoldable pub clean_entries : List String → List Entry → Result ConfigEditError (List Edit)
unfolding check_entry
clean_entries seen [] = ok []
clean_entries seen (e ∷ rest) = do
  edit ←
      check_entry seen (strip (or_text e.key "")) (strip (or_text e.action "set"))
        (strip (value_text e.value))
  edits ← clean_entries (edit.key ∷ seen) rest
  ok (edit ∷ edits)

-- `sorted(..., key=...)`, by insertion behind the entries whose key is not larger.
abbrev insert_edit : Edit → List Edit → List Edit
insert_edit e [] = e ∷ []
insert_edit e (d ∷ rest) =
    let later = insert_edit e rest in if text_lt d.key e.key then d ∷ later else e ∷ d ∷ rest

unfoldable pub sort_edits : List Edit → List Edit
sort_edits [] = []
sort_edits (e ∷ rest) = insert_edit e (sort_edits rest)

unfoldable pub validate : String → String → List Entry → Result ConfigEditError Change
unfolding clean_entries sort_edits role_of parse_role
validate title target_role entries = do
  guard (not (is_empty (strip title))) no_title
  role ← parse_role (role_of (strip target_role))
  guard (ltb 0 (length entries)) no_entries
  guard (not (ltb max_entries (length entries))) too_many_entries
  cleaned ← clean_entries [] entries
  ok (record { title = strip title; target_role = role; entries = sort_edits cleaned })

abbrev pub is_set : Edit → Bool
is_set e = elim e.value [ none ↦ false | some v ↦ true ]

unfoldable pub unknown_names : List Edit → List String → List String
unknown_names [] valid_names = []
unknown_names (e ∷ rest) valid_names =
    let others = unknown_names rest valid_names in
    if is_set e && not (mem_text e.key valid_names) then insert_text e.key others else others

pub data Refusal : Type 0 where
  not_scanned no_names nowhere_to_prove not_proved : Refusal
  names_unknown : List String → Refusal
  proved_elsewhere : String → Refusal

refuse_unproved : Option String → List String → Option Refusal
refuse_unproved none development = some not_proved
refuse_unproved (some verified) development =
    if is_empty verified
    then some not_proved
    else if mem_text verified development
    then none
    else some (proved_elsewhere verified)

-- `refuse_deploy` of a change with these entries and this `verified_on`.
unfoldable pub refuse_deploy :
    List Edit → Option String → String → List String → List String → Bool → Option Refusal
unfolding unknown_names refuse_unproved
refuse_deploy entries verified_on cluster development valid_names scanned =
    let unknown = unknown_names entries valid_names in
    if not scanned
    then some not_scanned
    else if length valid_names == 0
    then some no_names
    else if ltb 0 (length unknown)
    then some (names_unknown unknown)
    else if mem_text cluster development
    then none
    else if length development == 0
    then some nowhere_to_prove
    else refuse_unproved verified_on development

-- A node as the scan reports it, with the keys of its properties.
pub record ScannedNode : Type 0 where
  pub role : Option Role
  pub reachable : Bool
  pub failed : Bool
  pub properties : List String

abbrev same_role : Role → Option Role → Bool
same_role r none = false
same_role all_nodes (some q) = elim q [ all_nodes ↦ true | _ ↦ false ]
same_role coordinator (some q) = elim q [ coordinator ↦ true | _ ↦ false ]
same_role worker (some q) = elim q [ worker ↦ true | _ ↦ false ]

unfoldable pub nodes_of : Role → List ScannedNode → List ScannedNode
nodes_of r nodes =
    keep (λ (n : ScannedNode). n.reachable && not n.failed && same_role r n.role) nodes

abbrev pub is_on : String → List ScannedNode → Bool
is_on key nodes = any (λ (n : ScannedNode). mem_text key n.properties) nodes

-- The keys that the advice names; each sentence also has the number of the workers.
advised : List Edit → List ScannedNode → List ScannedNode → List String
advised [] workers coordinators = []
advised (e ∷ rest) workers coordinators =
    let later = advised rest workers coordinators in
    if is_set e && is_on e.key coordinators && not (is_on e.key workers)
    then e.key ∷ later
    else later

unfoldable pub role_advice : List Edit → Role → List ScannedNode → List String
unfolding advised nodes_of
role_advice entries target nodes =
    let workers = nodes_of worker nodes in
    let coordinators = nodes_of coordinator nodes in
    if same_role target (some coordinator)
    then []
    else if length workers == 0 || length coordinators == 0
    then []
    else advised entries workers coordinators

-- `separator.join(texts)`
abbrev pub join_with : String → List String → String
join_with separator [] = ""
join_with separator (s ∷ []) = s
join_with separator (s ∷ t ∷ rest) = join s (join separator (join_with separator (t ∷ rest)))

part : String → List String → List String
part verb [] = []
part verb (k ∷ rest) = join verb (join_with ", " (k ∷ rest)) ∷ []

keys_where : (Edit → Bool) → List Edit → List String
keys_where p [] = []
keys_where p (e ∷ rest) = let later = keys_where p rest in if p e then e.key ∷ later else later

unfoldable pub summarise : List Edit → String
unfolding part keys_where
summarise entries = join_with " · " (
    part "set " (keys_where is_set entries)
    ++ part "remove " (keys_where (λ e. not (is_set e)) entries))

one_line_each :
    summarise (
      record { key = "b"; value = some "1" }
      ∷ record { key = "a"; value = none }
      ∷ record { key = "c"; value = some "2" }
      ∷ [])
    ≡ "set b, c · remove a"
unfolding summarise
one_line_each = refl
