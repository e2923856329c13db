-- ===== src/Checks/Service.antt =====
-- The restart service and its repository on concrete inputs.
use trino_management_service.Prelude.{
  ◌≡◌, ◌⊎◌, refl, arith, true, false, none, some, List, [], ◌∷◌, ◌++◌, err,
}
use trino_management_service.Api.Permissions.{
  Principal, manage_health, can, principal, capabilities,
}
use trino_management_service.Core.Audit.Reason.{normalise_reason}
use trino_management_service.Ops.Sequence.{
  State, drained, restarting, aborting, aborted, terminal, state_in, Sequence, Event, info,
  is_terminal, all_finished,
}
use trino_management_service.Ops.Repository.{
  Row, Repository, Stored, load, save, create, mark_persisted, active_for, rebuild,
}
use trino_management_service.Ops.Repository.Laws.{state_of, as_rebuilt, load-save}
use trino_management_service.Ops.Repository.Wellformed.{WellFormed, create-WellFormed}
use trino_management_service.Ops.Service.Types.{
  World, QuerySnapshot, executor_running, Executor, Environment, executor_start, forbidden,
  no_permission,
}
use trino_management_service.Ops.Service.Calls.{restart, abort}
use trino_management_service.Ops.Service.Calls.Guards.{
  abort_call, start_call, restart_call, refresh_call, is_refresh, perform, answers,
  perform_needs_admin, effects_need_audit,
}
use trino_management_service.Ops.Service.Calls.Invariant.{Moment, call, history, history-WellFormed}
use trino_management_service.Ops.Service.Calls.Outcomes.{
  restart_refused_on_queries, restart_on_old_count,
}
use trino_management_service.Ops.Service.Calls.Aborting.{ends_restored, abort_outcome}

abbrev admin : Principal
admin = principal "root" ("admin" ∷ []) none

abbrev viewer : Principal
viewer = principal "ann" ("viewer" ∷ []) none

abbrev row : Row
row = record {
  id = 1;
  cluster = "prod-a";
  state = drained;
  reason = "upgrade";
  actor = "root";
  running_queries = some 0;
  health_state = none;
  actor_roles = "admin" ∷ [];
  force_reason = none;
  finished = false;
  events = [];
}

abbrev repository : Repository
repository = record { rows = row ∷ []; next_id = 2 }

abbrev world : World
world = record { repository = repository; effects = []; trail = [] }

abbrev executor : Executor
executor = record {
  automated = true;
  preflight = λ c. none;
  start_fails = λ c i. none;
  start = λ c i. executor_running;
  status = λ c i. executor_running;
  lines_since = none;
  result_error = λ i. "";
}

-- No query snapshot has been taken.
abbrev unseen : Environment
unseen = record {
  query_snapshot = λ c. none;
  health_snapshot = λ c. none;
  backends = record { name = "prod-a-1"; cluster = some "prod-a" } ∷ [];
  gateway = some (λ b a. none);
  clusters = λ c. some "prod";
  config_store = none;
  executor = executor;
  audit_writable = true;
  audit_write_ok = true;
}

abbrev snapshot : QuerySnapshot
snapshot = record { trustworthy = true; running = 2; queued = 1 }

abbrev busy : Environment
busy = record unseen { query_snapshot = λ c. some snapshot }

abbrev no_audit : Environment
no_audit = record unseen { audit_writable = false }

abbrev stored : Stored
stored = record { id = 1; sequence = rebuild row; persisted_events = 0 }

loaded : load 1 repository ≡ some stored
unfolding load
loaded = refl

is_admin : can manage_health admin ≡ true
unfolding can principal capabilities
is_admin = refl

is_viewer : can manage_health viewer ≡ false
unfolding can principal capabilities
is_viewer = refl

stored_drained : stored.sequence.state ≡ drained
unfolding rebuild
stored_drained = refl

is_active : is_terminal stored.sequence ≡ false
unfolding is_terminal rebuild
is_active = refl

clean_reason : normalise_reason (some stored.sequence.reason) ≡ some "upgrade"
unfolding normalise_reason rebuild
clean_reason = refl

perform_needs_admin_example :
    let c = restart_call 1 in
    ((is_refresh c ≡ false)
      × (perform unseen viewer c world ≡ (err (forbidden no_permission), world)))
    ⊎ ((is_refresh c ≡ true)
        × ((perform unseen viewer c world).1.effects ≡ world.effects)
        × ((perform unseen viewer c world).1.trail ≡ world.trail))
perform_needs_admin_example = perform_needs_admin unseen viewer (restart_call 1) world is_viewer

effects_need_audit_example :
    (perform no_audit admin (restart_call 1) world).1.effects ≡ world.effects
effects_need_audit_example = effects_need_audit no_audit admin (restart_call 1) world refl

restart_refused_on_queries_example :
    (answers (restart busy admin 1 world).0 ≡ false) × ((restart busy admin 1 world).1 ≡ world)
restart_refused_on_queries_example =
    restart_refused_on_queries busy admin 1 world {st = stored} {q = snapshot} {n = 2} loaded refl
      refl refl

restart_on_old_count_example :
    (restart unseen admin 1 world).1.effects
    ≡ world.effects ++ executor_start stored.sequence.cluster 1 ∷ []
restart_on_old_count_example =
    restart_on_old_count unseen admin 1 world {st = stored} {clean = "upgrade"} is_admin loaded
      stored_drained (unfold rebuild in refl) refl (unfold rebuild in refl) refl clean_reason refl

abort_outcome_example :
    let r = abort unseen admin 1 "" world in
    ((answers r.0 ≡ true)
      × (state_of 1 r.1.repository ≡ some aborted)
      × (ends_restored stored.sequence.cluster unseen.backends r.1.effects ≡ true))
    ⊎ ((answers r.0 ≡ false) × (state_of 1 r.1.repository ≡ some aborting))
abort_outcome_example =
    abort_outcome unseen admin 1 "" world {st = stored} is_admin loaded is_active

abbrev line : Event
line = record { state = drained; level = info; message = all_finished "prod-a" }

abbrev further : Sequence
further = record stored.sequence {
  state = restarting;
  history = stored.sequence.history ++ line ∷ [];
}

load-save_example :
    load 1 (save (record stored { sequence = further }) none repository)
    ≡ some (mark_persisted (record stored { sequence = as_rebuilt further }))
load-save_example =
    load-save repository 1 none {st = stored} further (line ∷ []) loaded refl refl refl refl

repository-WellFormed : WellFormed repository
repository-WellFormed = record { one_active = λ cluster. ground arith; fresh = (omega arith, tt) }

finished_stays :
    (s : State)
    → state_of stored.id repository ≡ some s
    → state_in s terminal ≡ true
    → state_in stored.sequence.state terminal ≡ true
unfolding load rebuild
finished_stays s found t = ground arith

abbrev other : Sequence
other = record stored.sequence { cluster = "prod-b" }

created :
    create other [] repository
    ≡ some (
      mark_persisted (record { id = 2; sequence = other; persisted_events = 0 }),
      save
          (record { id = 2; sequence = other; persisted_events = 0 })
          none
          (record {
            rows = row ∷ record row { id = 2; cluster = "prod-b"; actor_roles = [] } ∷ [];
            next_id = 3;
          }),
    )
unfolding create active_for rebuild
created = refl

create-WellFormed_example : WellFormed (
    save
      (record { id = 2; sequence = other; persisted_events = 0 })
      none
      (record {
        rows = row ∷ record row { id = 2; cluster = "prod-b"; actor_roles = [] } ∷ [];
        next_id = 3;
      }))
create-WellFormed_example = create-WellFormed other [] repository created repository-WellFormed

-- A viewer and an administrator call, and a viewer follows.
abbrev moments : List Moment
moments =
    call busy viewer (restart_call 1)
    ∷ call unseen admin (start_call "prod-a" "again")
    ∷ call busy viewer (refresh_call 1)
    ∷ call unseen admin (abort_call 1 "")
    ∷ []

history-WellFormed_example : WellFormed (history moments world).repository
history-WellFormed_example = history-WellFormed moments world repository-WellFormed
