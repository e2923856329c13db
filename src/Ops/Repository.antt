-- ===== src/Ops/Repository.antt =====
-- tms/ops/repository.py: where restart sequences are kept. This is the in-memory repository; the
-- times at which a row starts and finishes are left out, but for whether it has finished.
pub mod Laws
pub mod Wellformed
use trino_management_service.Prelude.{
  ℕ, zero, suc, ◌+◌, String, Bool, true, false, not, ◌&&◌, ◌||◌, Option, none, some, List, [], ◌∷◌,
  ◌++◌, Result, ok, err, length, ◌==◌, str_eq, is_empty, if◌then◌else◌,
}
use mathlib.Core.Option
use trino_management_service.Health.States.{HealthState}
use trino_management_service.Ops.Sequence.{State, terminal, state_in, Event, Sequence}

-- `_rows[id]` and `_events[id]` together.
pub record Row : Type 0 where
  pub id : ℕ
  pub cluster : String
  pub state : State
  pub reason : String
  pub actor : String
  pub running_queries : Option ℕ
  pub health_state : Option HealthState
  pub actor_roles : List String
  pub force_reason : Option String
  pub finished : Bool
  pub events : List Event

pub record Repository : Type 0 where
  pub rows : List Row
  pub next_id : ℕ

-- `StoredSequence`
pub record Stored : Type 0 where
  pub id : ℕ
  pub sequence : Sequence
  pub persisted_events : ℕ

-- `history[n:]`
abbrev pub drop_events : ℕ → List Event → List Event
drop_events zero h = h
drop_events (suc n) [] = []
drop_events (suc n) (e ∷ h) = drop_events n h

unfoldable pub pending_events : Stored → List Event
pending_events stored = drop_events stored.persisted_events stored.sequence.history

unfoldable pub mark_persisted : Stored → Stored
mark_persisted stored = record stored { persisted_events = length stored.sequence.history }

-- `_rebuild`: the constructor's defaults, but for what the row and the events hold. The reason was
-- stripped when it was first stored.
unfoldable pub rebuild : Row → Sequence
rebuild row = record {
  cluster = row.cluster;
  reason = row.reason;
  actor = row.actor;
  state = row.state;
  history = row.events;
  drain_timeout_seconds = 900;
  running_queries = row.running_queries;
  health_state = row.health_state;
  config_store_ready = none;
  config_store_detail = "";
}

find_row : ℕ → List Row → Option Row
find_row id [] = none
find_row id (row ∷ rest) = if row.id == id then some row else find_row id rest

stored_of : Row → Stored
unfolding rebuild
stored_of row = record { id = row.id; sequence = rebuild row; persisted_events = length row.events }

unfoldable pub load : ℕ → Repository → Option Stored
unfolding find_row stored_of
load id repo = Option.map stored_of (find_row id repo.rows)

abbrev pub is_active : String → Row → Bool
is_active cluster row = str_eq row.cluster cluster && not (state_in row.state terminal)

find_active : String → List Row → Option Row
find_active cluster [] = none
find_active cluster (row ∷ rest) =
    if is_active cluster row then some row else find_active cluster rest

unfoldable pub active_for : String → Repository → Option Stored
unfolding find_active stored_of
active_for cluster repo = Option.map stored_of (find_active cluster repo.rows)

-- `force_reason` is written when it is given and not empty.
abbrev or_before : Option String → Option String → Option String
or_before none before = before
or_before (some r) before = if is_empty r then before else some r

save_row : Stored → Option String → Row → Row
unfolding pending_events
save_row stored force_reason row = record row {
  force_reason = or_before force_reason row.force_reason;
  state = stored.sequence.state;
  running_queries = stored.sequence.running_queries;
  health_state = stored.sequence.health_state;
  finished = state_in stored.sequence.state terminal || row.finished;
  events = row.events ++ pending_events stored;
}

update_rows : Stored → Option String → List Row → List Row
unfolding save_row
update_rows stored force_reason [] = []
update_rows stored force_reason (row ∷ rest) =
    if row.id == stored.id
    then save_row stored force_reason row ∷ rest
    else row ∷ update_rows stored force_reason rest

unfoldable pub save : Stored → Option String → Repository → Repository
unfolding update_rows
save stored force_reason repo = record repo { rows = update_rows stored force_reason repo.rows }

new_row : ℕ → Sequence → List String → Row
new_row id s roles = record {
  id = id;
  cluster = s.cluster;
  state = s.state;
  reason = s.reason;
  actor = s.actor;
  running_queries = s.running_queries;
  health_state = s.health_state;
  actor_roles = roles;
  force_reason = none;
  finished = false;
  events = [];
}

-- `create`: `none` is `ActiveSequenceExists`. The row goes in without events, and `save` adds them.
unfoldable pub create : Sequence → List String → Repository → Option (Stored × Repository)
unfolding active_for new_row save mark_persisted
create s roles repo = elim (active_for s.cluster repo) [
  | some other ↦ none
  | none ↦
      let stored : Stored = record { id = repo.next_id; sequence = s; persisted_events = 0 } in
      some (
        mark_persisted stored,
        save stored none (record {
          rows = repo.rows ++ new_row repo.next_id s roles ∷ [];
          next_id = repo.next_id + 1;
        }),
      )
]
