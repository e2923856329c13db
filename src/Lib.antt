-- ===== src/Lib.antt =====
-- The Trino management service (Python package src/tms): a verification of its core logic.
--
-- The service watches Trino clusters, judges their health and drives the operations that change
-- them. Every operation asks first whether the caller may, then for a reason, and leaves an audit
-- record; only then does it touch a cluster.
--
-- Parts, and the files that model them (paths from the root of the repository):
--
--   Api.Permissions       src/tms/api/permissions.py: roles, capabilities, `Principal.can`.
--   Core.Audit            src/tms/core/audit.py: `AuditGuard.action` and the end of its block
--                         (`finish`), `normalise_reason` (Core.Audit.Reason).
--   Core.Sessions         src/tms/core/sessions.py: `SessionCodec`; the text functions of the libraries
--                         are the record `Primitives`, and their documented laws `IsLawful`; the
--                         padding of base64 is written out (Core.Sessions.Padding).
--   Core.LocalAuth        src/tms/core/localauth.py: `LocalAuthenticator` with its lockout, and
--                         `build_users` (Core.LocalAuth.Accounts).
--   Ops.Patterns          src/tms/ops/catalogs.py: the regular expressions.
--   Ops.Catalogs          src/tms/ops/catalogs.py: validation, rendering and the gate of a deployment.
--   Ops.CatalogStore      src/tms/ops/catalogstore.py: the in-memory repository.
--   Ops.CatalogService    src/tms/ops/catalogservice.py: the calls that change something; a deployment is
--                         the call and, later, the end of its thread (`deploy_now`).
--   Ops.ConfigEdit        src/tms/ops/configedit.py: changes of the configuration and their gate.
--   Ops.ResourceGroupRules src/tms/ops/resource_group_rules.py: the rules for saving resource groups, with
--                         the expressions of sizes and durations (Ops.ResourceGroupRules.Units).
--   Collector.ResourceGroups src/tms/collector/resourcegroups.py: collection, diagnosis, comparison.
--   Work.Items, Work.Board src/tms/work/items.py, store.py and service.py: the work board; the store is
--                         the in-memory one.
--   Bench.Compare         src/tms/bench/compare.py: two runs side by side; a median is given twice as
--                         large, so that it is a natural number.
--   Health.States         src/tms/health/states.py: the states and `worst`.
--   Health.Context        src/tms/health/tests.py: `HealthContext` and what a test answers.
--   Health.Tests          src/tms/health/tests.py: the catalogue H-01 to H-09, one function each.
--   Health.Engine         src/tms/health/engine.py: `HealthEngine`; `confirm_one` is one round of the
--                         loop of `confirm_transitions`, and `put` an assignment to its tables.
--   Clients.Circuit       src/tms/clients/circuit.py: `CircuitBreaker`, with the clock as an argument.
--   Clients.Errors        src/tms/clients/errors.py: `classify_status`.
--   Bench.Schedules       src/tms/bench/schedules.py: validation, `advance` and the in-memory
--                         repository with `claim_due`.
--   Bench.Guard           src/tms/bench/guard.py: `check` and `GuardResult`.
--   Ops.Sequence          src/tms/ops/sequence.py: `RestartSequence`, a record with one function
--                         per method. A method that raises is an `err`; it leaves the object as it
--                         was. Ops.Sequence.Trace runs the methods as operations one after another.
--   Ops.Repository        src/tms/ops/repository.py: the in-memory repository.
--   Ops.Service           src/tms/ops/service.py: `RestartService`. Its calls are functions of the
--                         monad `Service` on `World`, which holds the repository, the audit trail
--                         and the calls that changed something outside (a backend in or out of
--                         rotation, a playbook started). A change made before an exception is
--                         kept in the world, as in the code.
--   Prelude, Exec         names shared by all: tests on numbers and texts, lists, results, and the
--                         monad of calls that change a state and may fail.
--   Checks                the theorems at concrete inputs.
--
-- How they interact: the service loads a stored sequence, brings it up to date from the snapshots,
-- applies one method to it, makes its outside call under the audit guard and saves it. The answers of
-- what lies outside (snapshots, Gateway client, resource group store, executor, audit store) are the
-- record `Environment`, an argument of every call.
--
-- How the other services are put together: a catalog goes from Ops.Catalogs (`validate`) through the
-- audit guard into Ops.CatalogStore, and Ops.CatalogService lets its deployment start only past
-- `refuse_deploy`; Ops.ConfigEdit uses the same patterns, with a gate of its own. The groups that
-- Collector.ResourceGroups reads are those that Ops.ResourceGroupRules lets an operator configure. The
-- board's calls (Work.Board) ask for the capability alone, as board writes touch no cluster.
--
-- No definition runs on fuel: all recursion is structural. Numbers are the natural numbers of the
-- language, as Python's integers have no width, and none of the modelled counts is negative; the
-- floats of the health tests are exact fractions.
--
-- Not modelled: the times of a restart sequence, request ids and the label texts of the screens; the
-- Postgres stores, which are SQL; the HTTP clients, the pollers and the web application, which are
-- input and output; the hashing of passwords, JSON, base64 and HMAC, which are parameters; the nesting
-- of resource groups for the screen, and what else only renders.
mod Prelude
mod Exec
pub mod Api
pub mod Bench
pub mod Clients
pub mod Collector
pub mod Core
pub mod Health
pub mod Ops
pub mod Work
mod Checks
