-- ===== src/Work/Board/History.antt =====
-- tms/work/service.py: the calls one after another.
use trino_management_service.Prelude.{
  ℕ, String, str_eq, is_blank, strip, Bool, true, false, none, some, List, [], ◌∷◌, any, map,
  mem_text, Result, ok, err, ◌≡◌, refl, inl, inr, arith, Bool-cases, Option-cases, Result-cases,
}
use trino_management_service.Api.Permissions.{Principal, can, manage_health}
use trino_management_service.Work.Items.{
  Numbers, validate, status_order, next_request_key, next_request_key-fresh,
}
use trino_management_service.Work.Board.{
  Item, Board, BoardError, new_board, new_item, find_item, create, Fields, update_item, update,
  comment_on, add_comment, next_key, require_admin, created, raise_request, commented, comment,
  updated, only_status, set_status, edit,
}
use trino_management_service.Work.Board.Trail.{is_kept, with_item-is_kept, update_found-is_kept}

pub data Step : Type 0 where
  -- with the title and the body
  raise_step : Principal → String → String → Step
  -- with the key
  comment_step : Principal → String → String → Step
  status_step : Principal → String → String → Step
  edit_step : Principal → String → Fields → Step

module _ (lib : Numbers) where
  unfoldable pub apply : Step → Board → Board
  apply (raise_step p title body) b = (raise_request lib p title body b).1
  apply (comment_step p key body) b = (comment p key body b).1
  apply (status_step p key status) b = (set_status p key status b).1
  apply (edit_step p key fields) b = (edit p key fields b).1

  unfoldable pub run : List Step → Board → Board
  run [] b = b
  run (step ∷ rest) b = run rest (apply step b)

  raise_request-is_kept :
      (p : Principal) (title body : String) (b : Board)
      → is_kept b ≡ true
      → is_kept (raise_request lib p title body b).1 ≡ true
  unfolding raise_request require_admin created create
  raise_request-is_kept p title body b h = elim (Bool-cases (can manage_health p)) [
    | inr no_right ↦ rw no_right h
    | inl may ↦ elim (Result-cases (validate "request" "planned" title none)) [
      | inl (x, bad) ↦ rw (may, bad) h
      | inr (u, good) ↦
          elim (Bool-cases (any (λ (i : Item). str_eq i.key (next_key lib b)) b.items)) [
            | inl taken ↦ rw (may, good, taken) h
            | inr free ↦
                rw (may, good, free)
                  (with_item-is_kept b
                    (new_item b.next_id (next_key lib b) "request" (strip title) "planned"
                      p.username body)
                    refl refl h)
          ]
    ]
  ]

  update-is_kept :
      (key actor : String) (fields : Fields) (b : Board)
      → is_kept b ≡ true
      → is_kept (updated key (update key actor fields b) b).1 ≡ true
  unfolding update update_item updated
  update-is_kept key actor fields b h = elim (Option-cases (find_item key b.items)) [
    | inl missing ↦ rw missing h
    | inr (i, found) ↦ rw found (update_found-is_kept key actor fields i b found h)
  ]

  comment-is_kept :
      (p : Principal) (key body : String) (b : Board)
      → is_kept b ≡ true
      → is_kept (comment p key body b).1 ≡ true
  unfolding comment require_admin commented add_comment comment_on is_kept
  comment-is_kept p key body b h = elim (Option-cases (find_item key b.items)) [
    | inl missing ↦ ground (arith, h, missing)
    | inr (i, found) ↦ elim (Bool-cases (can manage_health p)) [
      | inr no_right ↦ rw no_right h
      | inl may ↦ elim (Bool-cases (is_blank body)) [
        | inl blank ↦ rw (may, blank) h
        | inr said ↦ rw (may, said, found) h
      ]
    ]
  ]

  set_status-is_kept :
      (p : Principal) (key status : String) (b : Board)
      → is_kept b ≡ true
      → is_kept (set_status p key status b).1 ≡ true
  unfolding set_status require_admin
  set_status-is_kept p key status b h = elim (Bool-cases (can manage_health p)) [
    | inr no_right ↦ rw no_right h
    | inl may ↦ elim (Bool-cases (mem_text status status_order)) [
      | inr bad ↦ rw (may, bad) h
      | inl good ↦ rw (may, good) (update-is_kept key p.username (only_status status) b h)
    ]
  ]

  edit-is_kept :
      (p : Principal) (key : String) (fields : Fields) (b : Board)
      → is_kept b ≡ true
      → is_kept (edit p key fields b).1 ≡ true
  unfolding edit require_admin
  edit-is_kept p key fields b h = elim (Bool-cases (can manage_health p)) [
    | inr no_right ↦ rw no_right h
    | inl may ↦ rw may (update-is_kept key p.username fields b h)
  ]

  apply-is_kept : (step : Step) (b : Board) → is_kept b ≡ true → is_kept (apply step b) ≡ true
  unfolding apply
  apply-is_kept (raise_step p title body) b h = raise_request-is_kept p title body b h
  apply-is_kept (comment_step p key body) b h = comment-is_kept p key body b h
  apply-is_kept (status_step p key status) b h = set_status-is_kept p key status b h
  apply-is_kept (edit_step p key fields) b h = edit-is_kept p key fields b h

  run-is_kept_from :
      (steps : List Step) (b : Board) → is_kept b ≡ true → is_kept (run steps b) ≡ true
  unfolding run
  run-is_kept_from [] b h = h
  run-is_kept_from (step ∷ rest) b h = run-is_kept_from rest (apply step b) (apply-is_kept step b h)

  -- Whatever is called on a new board, the status of every item is where its status events lead, from
  -- `planned` on, each event from where the one before it ended, to another status; and no two items
  -- have one id.
  pub run-is_kept : (steps : List Step) → is_kept (run steps new_board) ≡ true
  unfolding is_kept
  run-is_kept steps = run-is_kept_from steps new_board (unfold is_kept in refl)

abbrev pub is_ok : {A : Type 0} → Result BoardError A → Bool
is_ok (ok a) = true
is_ok (err x) = false

keys_mem :
    (key : String) (items : List Item)
    → any (λ (i : Item). str_eq i.key key) items ≡ mem_text key (map (λ (i : Item). i.key) items)
keys_mem key [] = refl
keys_mem key (i ∷ items) = rw (keys_mem key items) refl

-- A request of an administrator that has a title is never refused for its key: the key that the board
-- mints is free, if `int` reads the number that was printed.
pub raise_request-ok :
    (lib : Numbers) (p : Principal) (title body : String) (b : Board)
    → ((n : ℕ) → lib.int (lib.format n) ≡ some n)
    → can manage_health p ≡ true
    → is_blank title ≡ false
    → is_ok (raise_request lib p title body b).0 ≡ true
unfolding raise_request require_admin created create next_key validate
raise_request-ok lib p title body b lawful may titled =
    let keys = map (λ (i : Item). i.key) b.items in
    let fresh = next_request_key-fresh lib keys lawful in
    rw (may, titled, keys_mem (next_request_key lib keys) b.items, fresh) refl
