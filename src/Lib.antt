-- ===== src/Lib.antt =====
-- LedgerMind Local: the path of a captured round through the Local service.
--
-- A client submits a round of a conversation. Local checks it and stores it in rounds.db together with
-- a command in a durable outbox, in one transaction. A background worker claims the command under a
-- lease, hands the round to the Core over a pipe, and reports the outcome; a round that the Core has
-- accepted is cleared from Local. A guarded loop runs the worker and publishes its health; a retention
-- worker clears old bodies; leases of the clients keep the service alive; and a budget refuses
-- requests to a model that are too long. The installer restores the files that it has changed. A restore
-- of the databases of both sides is a journaled saga. A second worker lets an executor run the Core's
-- model tasks, and the memories that the Core finds for a request are ranked and cut to a budget.
--
-- The files, with paths below src/ledgermind_local/:
--   Rounds                tables and records of rounds.db (persistence/raw_round_repository.py)
--   Rounds.Session        SQLiteUnitOfWork (persistence/sqlite_uow.py): `transaction` runs the body of a
--                         `with` block on a session, `exit` is `__exit__`
--   Rounds.RawRounds      insert, get, get_by_capture_identity, clear_raw_round_payload, purge_expired of
--                         SQLiteRawRoundRepository, and _ensure_memory_space of raw_rounds.py
--   Rounds.Commands       create_core_command, claim_core_command, finish_core_command; its children
--                         are about claims, reports and whole histories of the outbox
--   Rounds.Deliveries     the delivery rows of raw_round_core_deliveries
--   Ingest                RawRoundIngestHandler (raw_rounds.py)
--   Delivery              CoreCommandWorker (scheduler/core_command_worker.py): Sending is
--                         _deliver_raw_round and the handlers, Passing is _claim, _finish, process_once;
--                         Settled says what rows a report leaves
--   Framing               read_frame and write_frame (core_gateway/framing.py)
--   Workers               WorkerState (scheduler/worker_state.py); Workers.Loop is GuardedWorkerLoop
--                         (scheduler/guarded_loop.py)
--   Leases                LeaseStore (runtime/leases.py) and the idle shutdown (runtime/shutdown.py)
--   Budget                TokenBudgetEstimator (inference/token_budget.py)
--   Retention             RawRoundRetentionWorker (scheduler/retention_worker.py)
--   Backups               backup_file and restore_backups of InstallTransaction (installer/transaction.py)
--   Restore               CoordinatedRestoreService (maintenance/coordinated_restore.py): Steps are its
--                         helpers, Saga is apply_restore, recover and prepare_restore; Rules and Safe say
--                         what a run may end in, Compensated, Applied and Ended prove it stage by stage;
--                         Journal is the journal's JSON and its checks, with pathlib as a parameter
--   Tasks                 CoreExecutionTaskWorker (scheduler/core_execution_task_worker.py): Policy is the
--                         classification of errors, Worker the passes; Kept, Settled, Returned and
--                         Answered follow the reports to the Core
--   Executor              CoreTaskExecutor (inference/core_task_executor.py) and the token of
--                         inference/cancellation.py: the file itself is _run_bounded, Results the
--                         results and audits, Single execute, Batch execute_batch; Answers, Zipped and
--                         Batched say what comes back, Worked puts the executor under the worker of Tasks
--   Rerank                inference/retrieval_reranker.py: Scores is ApiReranker.score, Ranking is rank_items
--                         and pack_items, Process is QwenWorkerReranker
--   Supervisor            CoreSupervisor (core_gateway/supervisor.py): the Core's process and its stream
--   Migrations            load_migrations and apply_migrations (persistence/migrations.py)
--   Releases              commit, switch_current, rollback and __exit__ of InstallTransaction
--   Prelude               numbers, lists, texts, and tables with SELECT, UPDATE and INSERT
--   Tests                 runs on concrete data
--
-- How the program is read. A table is the list of its rows; an INSERT that breaks a key and a
-- statement that raises are an error value, after which `__exit__` restores the rows. Ids made by
-- uuid4 are numbers, an argument of the call that makes them; so are the clock's readings, in whole
-- seconds, as the code writes them. Settings in fractions of a second are whole ones (the lease and
-- the retry delay in seconds, the loop's waits and the leases' times in milliseconds). Columns that no
-- method reads back are left out. `len` of a text is its length in UTF-8. The protocol package's
-- digest and source key, `json`, SHA-256, the gateway to the Core and the regular expressions that
-- redact an error's text are parameters, with no assumption on them; so is pathlib, of which the
-- journal's round trip takes what its documentation says of absolute paths. The worker holds no transaction
-- while it talks to the Core, so what other connections do then is a parameter of the pass. A failure
-- of SQLite itself (a full disk, a locked file) is modelled in the migrations only. `read_loop` has
-- fuel for as many reads as bytes are asked for, and each read returns at least one byte unless the
-- stream has ended. In a restore, a migration, an installation, the supervisor and the worker of
-- tasks, each call that leaves the process takes the next entry of a list that the run is given: it
-- succeeds, it raises before or after its effect, the process dies, or it gives an answer; the
-- theorems hold for every such list. A database's content is a number there. The supervisor's process
-- is whether it runs, whether it owes an answer and whether it has shaken hands. The executor's work is
-- what it comes to, and the milliseconds after which it is done or cancelled; its wait has fuel for one
-- turn per millisecond of the bound, of which it takes at most one in ten. Its providers, the JSON of a
-- request (taken not to raise, as is its telemetry), the scorer and
-- the tokens of a rendered injection are parameters, and so are the type and the order of the floats.
-- An exception that is no Exception counts as one in the executor's wait, and an OSError in the startup of
-- the reranker's process is left out.
--
-- Not modelled: the HTTP API, the Core's sandbox, the providers of models, the rest of the installer,
-- the SQL of the migrations, the Core's own backups, and the command line, which are input and output
-- around these parts; threads and the start of the loop; the form that `_path` asks of a lease's id; the
-- conversion of a task from the wire, of which the outcome is given; the reading of a frame against a
-- deadline; the lengths that pydantic checks on an executor's results. A directory's removal is one
-- step, and so is each SQL statement.
pub mod Prelude
pub mod Rounds
pub mod Ingest
pub mod Delivery
pub mod Framing
pub mod Workers
pub mod Leases
pub mod Budget
pub mod Retention
pub mod Backups
pub mod Restore
pub mod Tasks
pub mod Executor
pub mod Rerank
pub mod Supervisor
pub mod Migrations
pub mod Releases
pub mod Tests
