-- ===== src/Lib.antt =====
-- Verification of the RAG assistant's backend: its workspaces, its local accounts,
-- its background jobs, its access control and its cache of answers.
--
-- The program answers questions over a library of documents. The web layer stores a job in a
-- table and hands its identifier to Redis; a worker picks it up, runs a child process or the answer
-- pipeline, and writes what became of it back to the table and to the document or message that the
-- job is for. The table is the one source of truth that the processes share. The workspaces, which are
-- rows with an owner, stand in the same database, and every call on them is made within the scope of a
-- request. Before any of this a request passes the login or another identity provider and the access
-- policies.
--
-- The parts:
--   * Failure: exceptions as values, and actions that pass an explicit state. `cancelled_error` is
--     asyncio.CancelledError, which `except Exception` does not catch.
--   * Job: the jobs table of persistence.py (Persistence.create_job, update_job, get_job,
--     get_job_payload, job_dict, request_cancel). Job/Row has the data, Job/Steps the lifecycle: a
--     step relation of the writes that the code makes, by any process in any order. Job/Invariant has
--     the invariants, by induction on that relation.
--   * Registry: the updates of documents and messages as an interface that the workers take.
--   * World: all that the jobs act on, the table among it. World/Follows says which actions take only
--     steps of the lifecycle.
--   * Queue: JobQueue of jobs.py (submit, wait, can_access, cancel, close) and
--     _mark_payload_cancelled. The arq client of Redis is a parameter.
--   * Worker: ingest_document_job and delete_document_job of ingestion_worker.py (Worker/Ingestion,
--     Worker/Deletion) and generate_answer_job of generation_worker.py (Worker/Generation).
--     Worker/Task has what they share, Worker/Behaviour what a run may meet, Worker/Writes what single
--     statements do to the table and Worker/Ending how a run ends.
--   * Access: evaluate_condition and PolicyProvider.decide of policy.py, the order of
--     Persistence.active_policies and authorize of security.py. Access/Grants has the persisted roles
--     and permissions: Persistence.bootstrap_superadmin, grant_role and enrich_principal. Access/Upsert
--     has upsert_policy, Access/Audit record_audit and purge_audit.
--   * Workspace: db_store.py. Workspace/Row and Workspace/Table have the tables and what the SQL asks
--     of them, Workspace/Scope has request_scope, Workspace/Payload _update_values. Project, Chat,
--     Message, Document, Upload and Settings in that folder have the operations of the same names,
--     Conversation has get_project_conversation, Sources document_sources, Chain _version_group and
--     _rebuild_document_version_chain. Workspace/Step is the specification: the guarded writes, as a
--     step relation. Workspace/Request has the writing calls as one type; Workspace/Request/Refinement
--     shows that each is made of such steps.
--   * Account: local_auth.py. Account/Text has the checks of the fields, Account/Register register_user,
--     Account/Login authenticate_credentials, Account/Session create_session, authenticate_session,
--     revoke_session and the CSRF tokens. Account/Lockout has what guesses lead to.
--   * Cache: ResponseCache of response_cache.py, for a configured client.
--
-- The world is explicit: an action takes it and returns a result and the next world. Of the worker
-- tasks, what other processes do before the first write and between two polls is a function on the
-- world, an input of the run. A theorem that speaks of the lifecycle asks of these functions that they
-- take its steps. `submit` and `cancel` of jobs.py have no such input.
--
-- A worker task may be aborted at every await. The run says what becomes of each (World.Await): it
-- returns, or CancelledError is raised in it, and its statement was carried out or was not. `outside`
-- are the awaits before the `try`, `inside` those under it and `handling` those of its handlers;
-- `read` and `stopped` are what the first reads and the `finally` block raise. A statement of an
-- aborted await is taken to have ended before the next statement of the task.
--
-- Code that is not in the repository is a parameter: Redis, the file system (Disk), the child process
-- with its report, fnmatch.fnmatch, the text of a JSON number, Unicode normalization and case folding,
-- the last segment of a path, the password hasher, SHA-256, HMAC and the texts of JSON objects. The
-- identifiers, salts and tokens that are drawn are arguments. document_version_fields of
-- document_catalog.py, which reads a version from a file name, and run_ask of asgi_app.py, the pipeline
-- of an answer, are not modelled: the uploads and the generation take them as functions, and nothing is asked of them.
-- Times are natural numbers; the order of times that the code reads from a clock is not assumed.
--
-- Bounds: the loops over the child process are recursion on the list of the polls that happen. `wait`
-- runs on fuel from its deadline and interval, and Queue/Wait proves that it is enough. The loop of
-- `lookup_key` in document_sources has the length of the name as fuel; Workspace/Sources/Bare proves
-- that it comes to an end.
--
-- Not modelled: the connection, migrations and _backfill_document_versions of db_store.py, errors of
-- the database under the jobs table after a task's first reads, threads within one process (that of an
-- aborted asyncio.to_thread that outlives the abort among them), other processes between the
-- statements of one call of db_store.py, local_auth.py, JobQueue.submit or JobQueue.cancel, aborts of these two other than those that connect and the calls
-- of Redis raise, the text of log lines and metrics, retrieval and answer verification
-- (rag_agent.py, evidence_selection.py, grounding_verifier.py and what they call), the parsers, the
-- web layer.
pub mod Prelude
pub mod Failure
pub mod Job
pub mod Registry
pub mod World
pub mod Queue
pub mod Worker
pub mod Access
pub mod Workspace
pub mod Account
pub mod Cache
mod Examples
