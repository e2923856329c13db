-- ===== src/Work/Board/Trail.antt =====
-- tms/work/store.py and service.py: the status events of an item against its status.
use trino_management_service.Prelude.{
  ℕ, ◌==◌, ltb, String, str_eq, eq_iff, eq_refl, Bool, true, false, not, ◌&&◌, some, List, [], ◌∷◌,
  ◌++◌, any, all, all-append, any-append, all-weaken, ◌≡◌, refl, inl, inr, arith, Bool-cases,
}
use trino_management_service.Work.Board.{
  Item, StatusEvent, Board, with_item, find_item, Fields, changed, update_first, update_found,
}

-- The events lead from one status to the other, each from where the one before it ended, to another.
abbrev pub is_trail : String → List StatusEvent → String → Bool
is_trail start [] now = str_eq start now
is_trail start (e ∷ rest) now =
    str_eq e.from_status start
    && not (str_eq e.to_status e.from_status)
    && is_trail e.to_status rest now

is_trail-append :
    (start now : String) (events : List StatusEvent) (e : StatusEvent)
    → is_trail start events now ≡ true
    → e.from_status ≡ now
    → str_eq e.to_status now ≡ false
    → is_trail start (events ++ e ∷ []) e.to_status ≡ true
is_trail-append start now [] e h from differs =
    (let same : start ≡ now = ground (arith, h, eq_iff start now) in
      rw (from, same, eq_refl now, differs, eq_refl e.to_status) refl)
is_trail-append start now (d ∷ events) e h from differs =
    (let ih = is_trail-append d.to_status now events e (ground (arith, h)) from differs in
      ground (arith, h, ih))

-- The items have ids below a bound, no two the same.
abbrev pub has_id : ℕ → Item → Bool
has_id n i = i.id == n

abbrev pub distinct : List Item → Bool
distinct [] = true
distinct (i ∷ rest) = not (any (has_id i.id) rest) && distinct rest

abbrev pub item_kept : Board → Item → Bool
item_kept b i = ltb i.id b.next_id && is_trail "planned" (b.events i.id) i.status

-- What holds of a board: the ids are in use once, and each item's events lead to its status.
unfoldable pub is_kept : Board → Bool
is_kept b = distinct b.items && all (item_kept b) b.items

found_has_id :
    (key : String) (items : List Item) {i : Item}
    → find_item key items ≡ some i
    → any (has_id i.id) items ≡ true
found_has_id key [] {i} h = ground (arith, h)
found_has_id key (j ∷ items) {i} h = ground (arith, h, found_has_id key items {i = i})

any-changed :
    (key : String) (fields : Fields) (n : ℕ) (items : List Item)
    → any (has_id n) (update_first key (changed fields) items) ≡ any (has_id n) items
unfolding changed
any-changed key fields n [] = refl
any-changed key fields n (i ∷ items) = ground (arith, any-changed key fields n items)

changed-distinct :
    (key : String) (fields : Fields) (items : List Item)
    → distinct (update_first key (changed fields) items) ≡ distinct items
unfolding changed
changed-distinct key fields [] = refl
changed-distinct key fields (i ∷ items) =
    ground (arith, changed-distinct key fields items, any-changed key fields i.id items)

module _ (b c : Board) (i : Item)
    (others : (j : Item)
      → (j.id == i.id) ≡ false
      → item_kept b j ≡ true
      → item_kept c j ≡ true) where
  all-others :
      (items : List Item)
      → any (has_id i.id) items ≡ false
      → all (item_kept b) items ≡ true
      → all (item_kept c) items ≡ true
  all-others [] h k = refl
  all-others (j ∷ items) h k = ground (arith, h, k, others j, all-others items)

  update_first-kept :
      (key : String) (f : Item → Item) (items : List Item)
      → distinct items ≡ true
      → find_item key items ≡ some i
      → item_kept c (f i) ≡ true
      → all (item_kept b) items ≡ true
      → all (item_kept c) (update_first key f items) ≡ true
  update_first-kept key f [] d h new k = ground (arith, h)
  update_first-kept key f (j ∷ items) d h new k = elim (Bool-cases (str_eq j.key key)) [
    | inl here ↦
        let same : j ≡ i = (let found = rw here at h in ground (arith, found)) in
        let apart : any (has_id j.id) items ≡ false = ground (arith, d) in
        let rest = all-others items (rw same at apart) (ground (arith, k)) in
        rw (here, same, new) rest
    | inr there ↦
        let found : find_item key items ≡ some i = rw there at h in
        let ih = update_first-kept key f items (ground (arith, d)) found new (ground (arith, k)) in
        let apart : (j.id == i.id) ≡ false = ground (arith, d, found_has_id key items found) in
        rw (there, others j apart (ground (arith, k))) ih
  ]

fresh_id :
    (b : Board) (items : List Item)
    → all (item_kept b) items ≡ true
    → any (has_id b.next_id) items ≡ false
fresh_id b [] h = refl
fresh_id b (i ∷ items) h = ground (arith, h, fresh_id b items)

same_id : (n : ℕ) → (n == n) ≡ true
same_id n = ground arith

distinct-append :
    (items : List Item) (x : Item)
    → distinct items ≡ true
    → any (has_id x.id) items ≡ false
    → distinct (items ++ x ∷ []) ≡ true
distinct-append [] x h k = refl
distinct-append (i ∷ items) x h k =
    ground (arith, h, k, distinct-append items x, any-append (has_id i.id) items (x ∷ []))

pub with_item-is_kept :
    (b : Board) (x : Item)
    → x.id ≡ b.next_id
    → x.status ≡ "planned"
    → is_kept b ≡ true
    → is_kept (with_item x b) ≡ true
unfolding is_kept
with_item-is_kept b x xid planned h =
    let c = with_item x b in
    let old : all (item_kept b) b.items ≡ true = ground (arith, h) in
    let fresh = fresh_id b b.items old in
    let apart : distinct (b.items ++ x ∷ []) ≡ true =
      distinct-append b.items x (ground (arith, h)) (rw xid fresh) in
    let keeps : (j : Item) → item_kept b j ≡ true → item_kept c j ≡ true = λ j k.
      (let other : (j.id == b.next_id) ≡ false = ground (arith, k) in
        rw other (ground (arith, k))) in
    let olds = all-weaken (item_kept b) (item_kept c) b.items keeps old in
    let new : item_kept c x ≡ true = rw (xid, planned, same_id b.next_id) (ground arith) in
    rw (apart, all-append (item_kept c) b.items (x ∷ []), olds, new) refl

changed_id : (fields : Fields) (i : Item) → (changed fields i).id ≡ i.id
unfolding changed
changed_id fields i = refl

-- The item that an update found, with its events afterwards.
changed-kept :
    (key actor : String) (fields : Fields) (i : Item) (b : Board)
    → item_kept b i ≡ true
    → item_kept (update_found key actor fields i b) (changed fields i) ≡ true
unfolding update_found
changed-kept key actor fields i b h =
    elim (Bool-cases (str_eq (changed fields i).status i.status)) [
      | inl same ↦
          (let e : (changed fields i).status ≡ i.status =
              ground (arith, same, eq_iff (changed fields i).status i.status) in
            rw (same, changed_id fields i, e) h)
      | inr differs ↦
          let event : StatusEvent = record {
            actor = actor;
            from_status = i.status;
            to_status = (changed fields i).status;
          } in
          let longer =
            is_trail-append "planned" i.status (b.events i.id) event (ground (arith, h)) refl
              differs in
          rw (differs, changed_id fields i, same_id i.id, longer) (ground (arith, h))
    ]

others-kept :
    (key actor : String) (fields : Fields) (i : Item) (b : Board) (j : Item)
    → (j.id == i.id) ≡ false
    → item_kept b j ≡ true
    → item_kept (update_found key actor fields i b) j ≡ true
unfolding update_found
others-kept key actor fields i b j apart h =
    elim (Bool-cases (str_eq (changed fields i).status i.status)) [
      | inl same ↦ rw same h
      | inr differs ↦ rw (differs, apart) h
    ]

found-kept :
    (key : String) (b : Board) (items : List Item) {i : Item}
    → find_item key items ≡ some i
    → all (item_kept b) items ≡ true
    → item_kept b i ≡ true
found-kept key b [] {i} h k = ground (arith, h)
found-kept key b (j ∷ items) {i} h k = ground (arith, h, k, found-kept key b items {i = i})

pub update_found-is_kept :
    (key actor : String) (fields : Fields) (i : Item) (b : Board)
    → find_item key b.items ≡ some i
    → is_kept b ≡ true
    → is_kept (update_found key actor fields i b) ≡ true
unfolding is_kept
update_found-is_kept key actor fields i b found h =
    let old : all (item_kept b) b.items ≡ true = ground (arith, h) in
    let apart : distinct b.items ≡ true = ground (arith, h) in
    let c = update_found key actor fields i b in
    let new = changed-kept key actor fields i b (found-kept key b b.items found old) in
    let kept =
      update_first-kept b c i (others-kept key actor fields i b) key (changed fields) b.items apart
        found new old in
    let still = changed-distinct key fields b.items in
    unfold update_found in rw (still, apart, kept) refl
