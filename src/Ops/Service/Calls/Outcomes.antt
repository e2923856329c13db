-- ===== src/Ops/Service/Calls/Outcomes.antt =====
-- tms/ops/service.py: where each call leaves the traffic, the row and the executor.
use trino_management_service.Prelude.{
  ℕ, suc, ◌+◌, ◌≡◌, String, true, false, none, some, [], ◌∷◌, ◌++◌, arith, ap, ◌∙◌,
}
use trino_management_service.Api.Permissions.{Principal, manage_health, can}
use trino_management_service.Core.Audit.{action}
use trino_management_service.Core.Audit.Reason.{normalise_reason}
use trino_management_service.Ops.Sequence.{
  drained, Sequence, confirm_drained, mark_restarting, observe, observe_config_store,
}
use trino_management_service.Ops.Repository.{Stored, load}
use trino_management_service.Ops.Repository.Laws.{unprobed-load}
use trino_management_service.Ops.Service.{
  require_admin, audited, observed, load_or_404, save_stored, get, running_of, probe_of,
}
use trino_management_service.Ops.Service.Types.{executor_start, World, Environment, QuerySnapshot}
use trino_management_service.Ops.Service.Calls.{restart}
use trino_management_service.Ops.Service.Calls.Guards.{answers, restart_refused_while_running}

-- A trusted query snapshot sets the count that the steps go by: running and queued together.
pub observed_count :
    (e : Environment) (s : Sequence) {q : QuerySnapshot}
    → e.query_snapshot s.cluster ≡ some q
    → q.trustworthy ≡ true
    → (observed e s).running_queries ≡ some (q.running + q.queued)
unfolding observed observe observe_config_store
observed_count e s h t = ground arith

-- Without one the count stays what it was.
pub observed_old_count :
    (e : Environment) (s : Sequence)
    → running_of (e.query_snapshot s.cluster) ≡ none
    → (observed e s).running_queries ≡ s.running_queries
unfolding observed observe observe_config_store
observed_old_count e s h = ground arith

-- A restart of a cluster on which a trusted snapshot shows queries, running or queued, is refused and
-- changes nothing, even where the drain was forced past them.
pub restart_refused_on_queries :
    (e : Environment) (p : Principal) (id : ℕ) (w : World) {st : Stored} {q : QuerySnapshot} {n : ℕ}
    → load id w.repository ≡ some st
    → e.query_snapshot st.sequence.cluster ≡ some q
    → q.trustworthy ≡ true
    → q.running + q.queued ≡ suc n
    → (answers (restart e p id w).0 ≡ false) × ((restart e p id w).1 ≡ w)
restart_refused_on_queries e p id w {st} h snapshot t queries =
    restart_refused_while_running e p id w h
      (observed_count e st.sequence snapshot t ∙ ap some queries)

-- With no new count and no probe, a DRAINED sequence is observed as it was.
observed_unseen :
    (e : Environment) (s : Sequence)
    → s.state ≡ drained
    → running_of (e.query_snapshot s.cluster) ≡ none
    → probe_of e.config_store (e.clusters s.cluster) ≡ none
    → ((observed e s).state ≡ drained)
      × ((observed e s).running_queries ≡ s.running_queries)
      × ((observed e s).config_store_ready ≡ s.config_store_ready)
      × ((observed e s).cluster ≡ s.cluster)
      × ((observed e s).reason ≡ s.reason)
unfolding observed observe observe_config_store
observed_unseen e s d unseen unprobed = ground arith

-- With no query snapshot, or none that can be trusted, and no probe of a resource group store, a
-- DRAINED sequence whose stored count is 0 is restarted on the count of an earlier call: where the
-- caller may manage health, the audit store is writable, the reason is not blank and the executor
-- can start, the executor is started.
pub restart_on_old_count :
    (e : Environment) (p : Principal) (id : ℕ) (w : World) {st : Stored} {clean : String}
    → can manage_health p ≡ true
    → load id w.repository ≡ some st
    → st.sequence.state ≡ drained
    → st.sequence.running_queries ≡ some 0
    → running_of (e.query_snapshot st.sequence.cluster) ≡ none
    → probe_of e.config_store (e.clusters st.sequence.cluster) ≡ none
    → e.audit_writable ≡ true
    → normalise_reason (some st.sequence.reason) ≡ some clean
    → e.executor.start_fails st.sequence.cluster id ≡ none
    → (restart e p id w).1.effects ≡ w.effects ++ executor_start st.sequence.cluster id ∷ []
unfolding restart load_or_404 confirm_drained mark_restarting require_admin audited action
    save_stored get
restart_on_old_count e p id w {st} admin h drained_now zero_seen unseen unprobed writable reason
      starts =
    ground (
      arith,
      observed_unseen e st.sequence drained_now unseen unprobed,
      unprobed-load id w.repository h,
    )
