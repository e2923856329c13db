-- ===== src/Checks/ConfigEdit.antt =====
-- Changes of the configuration on concrete inputs.
use trino_management_service.Prelude.{
  ◌≡◌, ◌≤◌, ◌<◌, ◌↔◌, ◌||◌, String, refl, true, strip, some, none, List, [], ◌∷◌, all, count,
  length, mem_text,
}
use trino_management_service.Ops.Patterns.{is_secret_key}
use trino_management_service.Ops.ConfigEdit.{
  Entry, Edit, Change, all_nodes, max_entries, is_property_name, is_word, validate, refuse_deploy,
  sort_edits,
}
use trino_management_service.Ops.ConfigEdit.Accepted.{has_key, is_sound, validate_sound}
use trino_management_service.Ops.ConfigEdit.Gate.{is_known, is_proved_on, refuse_deploy_iff}

abbrev edits : List Edit
edits = record { key = "a.b"; value = some "1" } ∷ record { key = "c"; value = none } ∷ []

abbrev names : List String
names = "a.b" ∷ []

abbrev change : Change
change = record { title = "t"; target_role = all_nodes; entries = edits }

abbrev sent : List Entry
sent =
    record { key = some "c"; action = some "UNSET"; value = none }
    ∷ record { key = some " a.b "; action = none; value = some "1 " }
    ∷ []

validate_sound_example :
    (1 ≤ length change.entries)
    × (length change.entries ≤ max_entries)
    × (count (has_key "c") change.entries ≤ 1)
    × (all is_sound change.entries ≡ true)
validate_sound_example =
    validate_sound " t" "All" sent "c" {change = change}
      (unfold validate is_property_name is_word is_secret_key strip sort_edits in refl)

refuse_deploy_iff_example :
    (refuse_deploy edits (some "dev") "prod" ("dev" ∷ []) names true ≡ none)
    ↔ (true ≡ true)
      × (0 < length names)
      × (all (is_known names) edits ≡ true)
      × ((mem_text "prod" ("dev" ∷ []) || is_proved_on ("dev" ∷ []) (some "dev")) ≡ true)
refuse_deploy_iff_example = refuse_deploy_iff edits (some "dev") "prod" ("dev" ∷ []) names true
