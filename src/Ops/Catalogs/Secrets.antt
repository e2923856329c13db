-- ===== src/Ops/Catalogs/Secrets.antt =====
-- tms/ops/catalogs.py: what `validate` lets through.
use trino_management_service.Prelude.{
  ◌≤◌, leb, String, str_eq, eq_iff, is_empty, strip, ◌||◌, Bool, true, not, ◌&&◌, Option, List, [],
  ◌∷◌, all, length, ok, ◌≡◌, refl, inl, inr, arith, Bool-cases, Result-cases,
}
use trino_management_service.Core.Audit.Reason.{chars}
use trino_management_service.Ops.Patterns.{is_name, is_secret_key, is_env_reference}
use trino_management_service.Ops.Catalogs.{
  Properties, max_properties, max_value_chars, Fields, set_item, text_of, add_stripped,
  clean_properties, validate,
}

-- A property that may be stored.
unfoldable pub is_storable : String × String → Bool
is_storable (key, value) =
    not (is_empty key)
    && not (str_eq key "connector.name")
    && leb (chars value) max_value_chars
    && (not (is_secret_key key) || is_env_reference (strip value))

set_item-storable :
    (key value : String) (table : Properties)
    → is_storable (key, value) ≡ true
    → all is_storable table ≡ true
    → all is_storable (set_item key value table) ≡ true
unfolding set_item
set_item-storable key value [] h rest = ground (arith, h)
set_item-storable key value ((k, v) ∷ table) h rest = elim (Bool-cases (str_eq k key)) [
  | inl e ↦
      (let same : k ≡ key = ground (arith, e, eq_iff k key) in
        rw (e, same) (ground (arith, h, rest)))
  | inr e ↦
      (let ih = set_item-storable key value table h (ground (arith, rest)) in
        rw e (ground (arith, ih, rest)))
]

add_stripped-storable :
    (key value : String) (cleaned : Properties) {next : Properties}
    → all is_storable cleaned ≡ true
    → add_stripped key value cleaned ≡ ok next
    → all is_storable next ≡ true
unfolding add_stripped is_storable
add_stripped-storable key value cleaned {next} before h =
    ground (arith, set_item-storable key value cleaned)

clean_properties-storable :
    (given : List (String × Option String)) (cleaned : Properties) {result : Properties}
    → all is_storable cleaned ≡ true
    → clean_properties cleaned given ≡ ok result
    → all is_storable result ≡ true
unfolding clean_properties
clean_properties-storable [] cleaned {result} before h = ground (arith, before, h)
clean_properties-storable ((key, value) ∷ rest) cleaned {result} before h =
    elim (Result-cases (add_stripped (strip key) (text_of value) cleaned)) [
      | inl (x, refused) ↦ ground (arith, rw refused at h)
      | inr (next, fine) ↦
          clean_properties-storable rest next
            (add_stripped-storable (strip key) (text_of value) cleaned before fine) (rw fine at h)
    ]

-- An accepted catalog has a name and a connector that are names, at most 100 properties, none of them
-- `connector.name`, none with more than 2000 characters, and none that looks like a credential and
-- holds anything but an environment reference.
pub validate-storable :
    (name connector : String) (given : List (String × Option String)) {fields : Fields}
    → validate name connector given ≡ ok fields
    → (is_name fields.name ≡ true)
      × (is_name fields.connector ≡ true)
      × (length fields.properties ≤ max_properties)
      × (all is_storable fields.properties ≡ true)
unfolding validate
validate-storable name connector given {fields} h =
    elim (Result-cases (clean_properties [] given)) [
      | inl (x, refused) ↦ ground (arith, refused, h)
      | inr (cleaned, fine) ↦
          let stored = clean_properties-storable given [] refl fine in
          ground (arith, fine, h, stored)
    ]
