-- ===== src/Ops/ConfigEdit/Accepted.antt =====
-- tms/ops/configedit.py: what `validate` lets through.
use trino_management_service.Prelude.{
  suc, ◌≤◌, leb, String, str_eq, eq_iff, is_empty, strip, Bool, true, false, not, ◌&&◌, none, some,
  List, [], ◌∷◌, all, count, length, mem_text, ok, ◌≡◌, refl, inl, inr, arith, Bool-cases,
  Result-cases,
}
use trino_management_service.Core.Audit.Reason.{chars}
use trino_management_service.Ops.Patterns.{is_secret_key, is_env_reference}
use trino_management_service.Ops.ConfigEdit.{
  max_entries, max_value_chars, Entry, Edit, Change, is_property_name, has_line_end, check_entry,
  check_value, clean_entries, insert_edit, sort_edits, validate, or_text, value_text, role_of,
  parse_role,
}

-- One line of the file, that holds no literal credential.
abbrev pub is_line : String → String → Bool
is_line key value =
    not (is_empty value)
    && leb (chars value) max_value_chars
    && not (has_line_end value)
    && not (is_secret_key key && not (is_env_reference value))

abbrev pub is_sound : Edit → Bool
is_sound e = is_property_name e.key && elim e.value [ none ↦ true | some v ↦ is_line e.key v ]

abbrev pub has_key : String → Edit → Bool
has_key k e = str_eq e.key k

check_entry_sound :
    (seen : List String) (key action value : String) {e : Edit}
    → check_entry seen key action value ≡ ok e
    → (is_sound e ≡ true) × (e.key ≡ key) × (mem_text key seen ≡ false)
unfolding check_entry check_value
check_entry_sound seen key action value {e} h = ground (arith, h)

clean_entries_sound :
    (seen : List String) (given : List Entry) {es : List Edit}
    → clean_entries seen given ≡ ok es
    → (all is_sound es ≡ true) × (length es ≡ length given)
unfolding clean_entries
clean_entries_sound seen [] {es} h = ground (arith, h)
clean_entries_sound seen (g ∷ rest) {es} h =
    elim (Result-cases (
      check_entry seen (strip (or_text g.key "")) (strip (or_text g.action "set"))
        (strip (value_text g.value)))) [
          | inl (x, bad) ↦ ground (arith, rw bad at h)
          | inr (e, good) ↦ elim (Result-cases (clean_entries (e.key ∷ seen) rest)) [
            | inl (x, bad) ↦ ground (arith, rw (good, bad) at h)
            | inr (more, fine) ↦
                let (sound, _, _) =
                  check_entry_sound seen (strip (or_text g.key "")) (strip (or_text g.action "set"))
                    (strip (value_text g.value)) good in
                ground
                  (arith, rw (good, fine) at h, sound, clean_entries_sound (e.key ∷ seen) rest fine)
          ]
        ]

-- A key stands once at most, and not where it was seen before.
clean_entries_once :
    (k : String) (seen : List String) (given : List Entry) {es : List Edit}
    → clean_entries seen given ≡ ok es
    → (mem_text k seen ≡ true → count (has_key k) es ≡ 0) × (count (has_key k) es ≤ 1)
unfolding clean_entries
clean_entries_once k seen [] {es} h = ground (arith, h)
clean_entries_once k seen (g ∷ rest) {es} h =
    elim (Result-cases (
      check_entry seen (strip (or_text g.key "")) (strip (or_text g.action "set"))
        (strip (value_text g.value)))) [
          | inl (x, bad) ↦ ground (arith, rw bad at h)
          | inr (e, good) ↦ elim (Result-cases (clean_entries (e.key ∷ seen) rest)) [
            | inl (x, bad) ↦ ground (arith, rw (good, bad) at h)
            | inr (more, fine) ↦
                let (_, same, new) =
                  check_entry_sound seen (strip (or_text g.key "")) (strip (or_text g.action "set"))
                    (strip (value_text g.value)) good in
                let fresh : mem_text e.key seen ≡ false = rw same new in
                let (none_left, one_left) = clean_entries_once k (e.key ∷ seen) rest fine in
                let es_is : ok (e ∷ more) ≡ ok es = rw (good, fine) at h in
                elim (Bool-cases (str_eq e.key k)) [
                  | inl here ↦
                      (let key_is : e.key ≡ k = ground (arith, here, eq_iff e.key k) in
                        let unseen : mem_text k seen ≡ false = rw key_is at fresh in
                        ground (arith, es_is, here, none_left, one_left, unseen))
                  | inr there ↦ ground (arith, es_is, there, none_left, one_left)
                ]
          ]
        ]

insert_edit-count :
    (p : Edit → Bool) (e : Edit) (es : List Edit) → count p (insert_edit e es) ≡ count p (e ∷ es)
insert_edit-count p e [] = refl
insert_edit-count p e (d ∷ es) = ground (arith, insert_edit-count p e es)

sort_edits-count : (p : Edit → Bool) (es : List Edit) → count p (sort_edits es) ≡ count p es
unfolding sort_edits
sort_edits-count p [] = refl
sort_edits-count p (e ∷ es) =
    ground (arith, sort_edits-count p es, insert_edit-count p e (sort_edits es))

insert_edit-all :
    (p : Edit → Bool) (e : Edit) (es : List Edit) → all p (insert_edit e es) ≡ all p (e ∷ es)
insert_edit-all p e [] = refl
insert_edit-all p e (d ∷ es) = ground (arith, insert_edit-all p e es)

sort_edits-all : (p : Edit → Bool) (es : List Edit) → all p (sort_edits es) ≡ all p es
unfolding sort_edits
sort_edits-all p [] = refl
sort_edits-all p (e ∷ es) = ground (arith, sort_edits-all p es, insert_edit-all p e (sort_edits es))

insert_edit-length : (e : Edit) (es : List Edit) → length (insert_edit e es) ≡ suc (length es)
insert_edit-length e [] = refl
insert_edit-length e (d ∷ es) = ground (arith, insert_edit-length e es)

sort_edits-length : (es : List Edit) → length (sort_edits es) ≡ length es
unfolding sort_edits
sort_edits-length [] = refl
sort_edits-length (e ∷ es) =
    ground (arith, sort_edits-length es, insert_edit-length e (sort_edits es))

-- An accepted change has between 1 and 50 entries, no key twice; each key is a property name, and each
-- value that is set is one line of at most 2000 characters, not empty, and an environment reference
-- where the key looks like a credential.
pub validate_sound :
    (title target_role : String) (given : List Entry) (key : String) {change : Change}
    → validate title target_role given ≡ ok change
    → (1 ≤ length change.entries)
      × (length change.entries ≤ max_entries)
      × (count (has_key key) change.entries ≤ 1)
      × (all is_sound change.entries ≡ true)
unfolding validate
validate_sound title target_role given key {change} h =
    elim (Result-cases (clean_entries [] given)) [
      | inl (x, bad) ↦ ground (arith, parse_role (role_of (strip target_role)), rw bad at h)
      | inr (cleaned, fine) ↦
          let (sound, long) = clean_entries_sound [] given fine in
          let (_, once) = clean_entries_once key [] given fine in
          ground (
            arith,
            rw fine at h,
            sound,
            long,
            once,
            sort_edits-count (has_key key) cleaned,
            sort_edits-all is_sound cleaned,
            sort_edits-length cleaned,
          )
    ]
