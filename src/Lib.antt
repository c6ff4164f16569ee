-- ===== src/Lib.antt =====
-- The stateful core of the stock content service: the queue of content tasks, the operator task
-- runs, the effects of a task and its pipeline with checkpoints, the outbox of signals, the
-- verification jobs, the publication runs, the content snapshots, the histories of claims, the
-- conflicts between claims, the lifecycle of knowledge and the retention of artifacts.
--
-- Prelude and its modules hold what the parts share: tests on numbers and texts, results that may
-- raise (`Outcome`), and `Table`, the operations of a database session that the repositories use,
-- with the laws that they rely on. The database is no part of the program; an association list is
-- shown to meet the laws, and the tests use it. A query with SKIP LOCKED may return any of the rows
-- that pass its filter.
--
-- * Queue models src/stock_content/adapters/postgres/repositories/content_task_repository.py and
--   ContentTask of domain/models.py: `create`, `claim_pending`, the fenced writes (`Write`) and
--   the writes without a lease (`Unleased`). Redaction of texts is a parameter.
-- * TaskRun models src/stock_content/domain/task_run.py, one function per method, and
--   TaskRun/Repository models adapters/postgres/repositories/task_run_repository.py, with the
--   requests that application/task_lease_service.py forwards to it.
-- * Outbox models signal_outbox_repository.py of the same directory: `enqueue`, `claim_due`,
--   `mark_published` and `mark_retry`.
-- * Verification models verification_job_repository.py: `enqueue`, leases, retries, manual
--   review, requeue and `complete_result` with `persist_verification_result`. A JSON payload is
--   compared as the record it stands for.
-- * Publication models src/stock_content/domain/publication_run.py and the writes of
--   publication_repository.py; Publication/UnitOfWork models
--   application/publication_unit_of_work.py over them.
-- * Claims models src/stock_content/domain/claim_state_event.py and claim_event_repository.py.
-- * Retention models domain/retention.py, application/retention_service.py (`plan`, `execute`)
--   and adapters/retention/sql_retention.py. The adapter that deletes bytes is a parameter.
-- * Effects models application/fenced_effects.py, the effects of a task under its fence, and
--   Effects/Dispatch models application/knowledge_projection_dispatcher.py, which delivers them. A
--   callback acts on a state of its own; whether the units load and the index answers is an input.
-- * Pipeline models domain/checkpoint.py, application/stage_runner.py and
--   application/pipeline.py: checkpoints, their check before a resume, `StageRunner.execute` and
--   `ContentPipeline.process`. What a stage does, the registry of artifacts and the identity of a
--   checkpoint are parameters.
-- * Lifecycle models domain/lifecycle_event.py, domain/lifecycle_policy.py,
--   domain/knowledge_lifecycle.py and the append of lifecycle_repository.py.
-- * Conflict models domain/conflict.py and Conflict/Service the writes of
--   application/conflict_service.py; confidences are a type with the tests that the code makes.
-- * Snapshot models adapters/postgres/repositories/snapshot_repository.py: Snapshot/Closure the
--   validation of the artifacts behind a snapshot, Snapshot/Identity and Snapshot/Save the checks
--   and the append of a snapshot, Snapshot/Heads the head of a source, also that of
--   application/verification/closure.py, and Snapshot/Provenance the release provenance, with
--   domain/lineage.py. What is read of an artifact payload is one test, a parameter.
-- * Examples holds concrete inputs at which the theorems apply.
--
-- A publication writes the sealed signals and the outbox rows through its writers, which are
-- parameters; otherwise each part stands by itself, over its own tables. An operation is a function
-- from a state to the state that its committed transaction leaves; one that raises rolls back. The
-- execution of a retention is several transactions, and where it raises the model does not say what
-- it had committed. Row locks make the transactions on one row a sequence, and a run is a list of
-- calls in any order by any workers.
--
-- Instants are UTC seconds or microseconds in ℕ, so the time-zone checks have nothing to do.
-- SHA-256 identities are parameters, functions of what is hashed. The loop of
-- `validate_event_chain` takes one round for each event, which is enough since a round takes one
-- event away; both schedules of delays have five entries.
--
-- Not modelled: the stages, which call external programs and models, the HTTP interface, the schema
-- and its migrations, the extraction of knowledge from text, and the reads that only list rows,
-- such as the point-in-time reads of verification jobs.
pub mod Prelude
pub mod Queue
pub mod Effects
pub mod Pipeline
pub mod TaskRun
pub mod Outbox
pub mod Verification
pub mod Publication
pub mod Snapshot
pub mod Claims
pub mod Conflict
pub mod Lifecycle
pub mod Retention
pub mod Examples
