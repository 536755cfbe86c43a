-- ===== src/Lib.antt =====
-- A verification library for the durable job scheduler of this repository, with the parts that it
-- stands on: the event log, the projections of jobs and crons, the ids and the backoff; for the
-- admission of a Run's steps against its budget; for the ingest of evidence, from bounded streams to
-- committed chunks; and for the gates of the gateway and of the server.
--
-- How the parts interact. Every durable fact is an event of one log. An append writes the event and
-- what the projections make of it in one transaction, so the projected tables are a function of the
-- log. The queue reads those tables, appends the facts of its operations, and keeps one table of
-- its own beside them, the leases that say which worker has claimed which job. The worker pool
-- claims from the queue, runs the handler of a job's kind, and reports to the queue; the chunk stage
-- of ingest is such a handler, which reads an item's text and segment index through bounded streams
-- and appends the facts of its chunks to the log in batches. The gateway's policy stands before every
-- model dispatch, the server's access control before every command, query and stream.
--
-- The files and the code they are about:
--   Common: strings as lists of UTF-8 bytes, Boolean tests, fixed-width arithmetic, Rust's Result,
--     and Common/Table: the SQL statements on a table with an integer key (`execute_write` in
--     crates/pos-log/src/apply/mod.rs).
--   Ids: crates/pos-foundation/src/lib.rs, ids and their hexadecimal text.
--   Job: the scheduler's enums and event bodies in crates/pos-domain/src/events.rs. Job/Spec:
--     crates/pos-sched/src/job.rs (`JobKind::new`, `JobSpec::validate`, `derive_job_id`).
--   Projections: `JobsProjection` and `CronsProjection` in crates/pos-domain/src/projections.rs and
--     the rows of crates/pos-domain/src/job_state.rs; Rows, Kept and Crons hold what events do to rows.
--   Log: crates/pos-log/src/lib.rs (`append`) and crates/pos-log/src/apply/replay.rs
--     (`rebuild_full`); Consistency holds its invariant, IsConsistent.
--   Backoff: crates/pos-sched/src/backoff.rs. Metrics: crates/pos-sched/src/metrics.rs.
--   Queue: crates/pos-sched/src/queue.rs, a function for each method of JobQueue, in the order of its
--     transactions. Steps: the operations as sequences of transactions; History: any calls in any
--     order; Enqueues, Claims (with Order, the row that is next), Failures (with Landing, the row that
--     an event rewrites), Supersedes, Reaper, Passes, Leases, LiveStates, Forever: what the
--     operations do.
--   Cron: crates/pos-sched/src/cron.rs, the search for the next firing (`next_fire_after`), the
--     preview, and the firing that a tick owes (`due_firing`).
--   Budget: crates/pos-agents/src/budget.rs and `saturating_usage_add` of
--     crates/pos-agents/src/harness.rs.
--   Pool: crates/pos-sched/src/pool.rs, the registries, the round robin, and a job's run (Registered,
--     Handled).
--   Ingest: the stages' vocabulary in crates/pos-domain/src/ingest.rs. Ingest/Stream:
--     crates/pos-ingest/src/budget.rs (`BoundedStream`), with Windows and Advances. Ingest/Segments:
--     crates/pos-ingest/src/segment.rs, with RoundTrip and Reading. Ingest/Identity:
--     crates/pos-ingest/src/identity.rs. Ingest/Chunks: crates/pos-ingest/src/chunk.rs; its Loop is
--     the loop of `chunk_evidence` over any way to emit a window, its Emit the emitter, with
--     `emit_chunks` of crates/pos-ingest/src/pipeline.rs; Windowing (with Rules), Spans,
--     Loop/Refines, Emit/Facts, Emit/Pieces, Emit/Whole and Refinement lead from the parts to the whole stage.
--     Ingest/Captions: the cues of crates/pos-ingest/src/captions.rs and the loop that writes them,
--     with Times and Laid.
--   Gateway/Policy: crates/pos-gateway/src/policy.rs, with Gate.
--   Server/Acl: bins/pos-server/src/acl.rs, the roles of control.rs beside it and the names of
--     crates/pos-api/src/lib.rs, with Placement and Roles.
--   Tests: an example of each result on concrete values.
--
-- State and operations. A store is the log, the tables, `applied_seq` and the leases; the scheduler
-- adds the jitter's counter and the metrics. An operation is a function of its arguments, one
-- reading of the clock and that state, and returns a result with the next state; an error keeps
-- what was committed before it. Several workers, and operations that a crash cut short between two
-- transactions, are the sequences of transactions in Queue/Steps. Times are milliseconds; SQLite's
-- integers end at 2^63 - 1 and the source clamps to that, as the model does.
--
-- Parameters. BLAKE3, the length of an event's CBOR encoding and the time-zone library's civil time
-- are arguments. So are the readers of blobs, of which Reads is what the documentation of Rust's
-- `Read` promises; the append of the log as ingest sees it (Commits) and the blob writer of the
-- store; the handlers of jobs; the membership query, the making of directories and the parsing of
-- JSON inputs of the server; and Rust's operations on Unicode text. That an event is within the log's
-- limit of 1048576 bytes is a hypothesis where a theorem says that an operation succeeds.
--
-- Bounds. The loops are structural recursion on lists, but for these on fuel. A u32 is written in
-- decimal with ten digits, which are enough for 4294967295. The loops of Cron keep the source's own
-- bounds on their steps, 1612 for a search, 512 for a catch-up and 32 for a preview, as fuel.
-- The loop that fills a stream has one more unit of fuel than the bytes that are wanted, the loops of
-- the chunk emitter have the bytes of the window or of the gap, and the loop over segments has more
-- than there are segments: each turn takes a byte, a record, or ends.
--
-- Not modelled: the parser of cron expressions and the tick over all schedules, the tasks and timers
-- of the worker pool, snapshots, batches and fault points of the log, failures of the disk in the
-- queue, floating-point quantiles; of ingest the reading of caption blocks and timestamps, failures
-- of the text's blob, the other normalizers, the embedder, transcription and the
-- passes of the pipeline; of the gateway its routing, ledger and providers; of the server its control
-- database, sessions and transport; and the rest of the program (the agent harness, the API's
-- runtime, the command line and the user interfaces).
pub mod Common
pub mod Backoff
pub mod Budget
pub mod Ids
pub mod Job
pub mod Projections
pub mod Log
pub mod Metrics
pub mod Cron
pub mod Queue
pub mod Ingest
pub mod Gateway
pub mod Server
pub mod Pool
pub mod Tests
