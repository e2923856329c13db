-- ===== src/Work/Board.antt =====
-- tms/work/store.py and service.py: the in-memory board and the calls that change it. Times are left
-- out, and the storage can be reached.
pub mod Trail
pub mod History
use trino_management_service.Prelude.{
  ℕ, suc, ◌==◌, String, str_eq, is_empty, is_blank, strip, Bool, true, false, not, Option, none,
  some, List, [], ◌∷◌, ◌++◌, any, map, mem_text, Result, ok, err, if◌then◌else◌,
}
use trino_management_service.Exec.{Exec, check, lift, after, ◌>>=◌, ◌>>◌}
use trino_management_service.Api.Permissions.{Principal, can, manage_health}
use trino_management_service.Work.Items.{
  Numbers, WorkItemError, validate, status_order, next_request_key,
}

pub record Item : Type 0 where
  pub id : ℕ
  pub key : String
  pub kind : String
  pub title : String
  pub status : String
  pub release : Option String
  pub blocked_by : Option String
  pub source_doc : Option String
  pub body : String
  pub created_by : String

pub record Comment : Type 0 where
  pub author : String
  pub body : String

pub record StatusEvent : Type 0 where
  pub actor : String
  pub from_status : String
  pub to_status : String

-- `InMemoryBoardRepository`: the comments and the events are dictionaries by the id of an item.
pub record Board : Type 0 where
  pub items : List Item
  pub comments : ℕ → List Comment
  pub events : ℕ → List StatusEvent
  pub next_id : ℕ

abbrev pub new_board : Board
new_board = record { items = []; comments = λ i. []; events = λ i. []; next_id = 1 }

abbrev pub put {ℓ} : {V : Type ℓ} → ℕ → V → (ℕ → V) → ℕ → V
put k v table q = if q == k then v else table q

-- `get`, without the copies of the comments and the events.
abbrev pub find_item : String → List Item → Option Item
find_item key [] = none
find_item key (i ∷ rest) = if str_eq i.key key then some i else find_item key rest

abbrev pub new_item : ℕ → String → String → String → String → String → String → Item
new_item id key kind title status created_by body = record {
  id = id;
  key = key;
  kind = kind;
  title = title;
  status = status;
  release = none;
  blocked_by = none;
  source_doc = none;
  body = body;
  created_by = created_by;
}

-- The board with an item more, with no comments and no events.
abbrev pub with_item : Item → Board → Board
with_item item b = record b {
  items = b.items ++ item ∷ [];
  comments = put b.next_id [] b.comments;
  events = put b.next_id [] b.events;
  next_id = suc b.next_id;
}

-- `none` is `DuplicateKey`.
unfoldable pub create :
    String → String → String → String → String → String → Board → Option (Item × Board)
create key kind title status created_by body b =
    let item = new_item b.next_id key kind title status created_by body in
    if any (λ (i : Item). str_eq i.key key) b.items then none else some (item, with_item item b)

-- The fields that `update` is called with.
pub record Fields : Type 0 where
  pub title : Option String
  pub status : Option String
  pub release : Option String
  pub blocked_by : Option String
  pub body : Option String

or_kept : Option String → String → String
or_kept none old = old
or_kept (some new) old = new

or_kept_option : Option String → Option String → Option String
or_kept_option none old = old
or_kept_option (some new) old = some new

unfoldable pub changed : Fields → Item → Item
unfolding or_kept or_kept_option
changed fields i = record i {
  title = or_kept fields.title i.title;
  status = or_kept fields.status i.status;
  release = or_kept_option fields.release i.release;
  blocked_by = or_kept_option fields.blocked_by i.blocked_by;
  body = or_kept fields.body i.body;
}

abbrev pub update_first : String → (Item → Item) → List Item → List Item
update_first key change [] = []
update_first key change (i ∷ rest) =
    if str_eq i.key key then change i ∷ rest else i ∷ update_first key change rest

-- The change of the item that was found; an event is written where its status is another.
unfoldable pub update_found : String → String → Fields → Item → Board → Board
update_found key actor fields i b =
    let after = changed fields i in
    let event : StatusEvent = record {
      actor = actor;
      from_status = i.status;
      to_status = after.status;
    } in
    record b {
      items = update_first key (changed fields) b.items;
      events =
          if str_eq after.status i.status
          then b.events
          else put i.id (b.events i.id ++ event ∷ []) b.events;
    }

update_item : String → String → Fields → Option Item → Board → Option (Item × Board)
update_item key actor fields none b = none
update_item key actor fields (some i) b = some (changed fields i, update_found key actor fields i b)

unfoldable pub update : String → String → Fields → Board → Option (Item × Board)
unfolding update_item
update key actor fields b = update_item key actor fields (find_item key b.items) b

comment_on : Comment → Option Item → Board → Option Board
comment_on comment none b = none
comment_on comment (some i) b =
    some (record b { comments = put i.id (b.comments i.id ++ comment ∷ []) b.comments })

unfoldable pub add_comment : String → String → String → Board → Option Board
unfolding comment_on
add_comment key author body b =
    comment_on (record { author = author; body = body }) (find_item key b.items) b

unfoldable pub next_key : Numbers → Board → String
next_key lib b = next_request_key lib (map (λ (i : Item). i.key) b.items)

pub data BoardError : Type 0 where
  forbidden bad_status empty_comment : BoardError
  invalid : WorkItemError → BoardError
  duplicate_key no_item : String → BoardError

abbrev pub Call : Type 0 → Type 0
Call A = Exec Board BoardError A

unfoldable pub require_admin : Principal → Call Unit
require_admin p = check (can manage_health p) forbidden

created : String → Option (Item × Board) → Call Item
created key none b = (err (duplicate_key key), b)
created key (some (item, next)) b = (ok item, next)

-- `BoardService.raise_request`
unfoldable pub raise_request : Numbers → Principal → String → String → Call Item
unfolding created
raise_request lib p title body = do
  require_admin p
  lift invalid (validate "request" "planned" title none)
  (λ b.
      created (next_key lib b)
        (create (next_key lib b) "request" (strip title) "planned" p.username body b) b)

commented : String → Option Board → Call Unit
commented key none b = (err (no_item key), b)
commented key (some next) b = (ok tt, next)

-- `BoardService.comment`
unfoldable pub comment : Principal → String → String → Call Unit
unfolding commented
comment p key body = do
  require_admin p
  check (not (is_blank body)) empty_comment
  (λ b. commented key (add_comment key p.username (strip body) b) b)

updated : String → Option (Item × Board) → Call Item
updated key none b = (err (no_item key), b)
updated key (some (item, next)) b = (ok item, next)

abbrev pub only_status : String → Fields
only_status status = record {
  title = none;
  status = some status;
  release = none;
  blocked_by = none;
  body = none;
}

-- `BoardService.set_status`
unfoldable pub set_status : Principal → String → String → Call Item
unfolding updated
set_status p key status = do
  require_admin p
  check (mem_text status status_order) bad_status
  (λ b. updated key (update key p.username (only_status status) b) b)

-- `BoardService.edit`
unfoldable pub edit : Principal → String → Fields → Call Item
unfolding updated
edit p key fields = do require_admin p; (λ b. updated key (update key p.username fields b) b)
