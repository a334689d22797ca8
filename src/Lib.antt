-- ===== src/Lib.antt =====
-- CarpeOS, a local store of what agents learn: the parts of it that decide, and what they
-- guarantee.
--
-- The agentic layer (packages/agentic). A captured event becomes durable work: a row of the table
-- `agentic_jobs`, identified by a digest of its stage. Workers lease jobs, and complete or fail
-- them; a sweep takes expired leases back. A gate decides which candidates are promoted, and caps
-- bound the spend of a day.
--   * Agentic.Types: packages/agentic/src/types.ts.
--   * Json: the stable JSON text of packages/agentic/src/digest.ts. Agentic.Digest: the digests
--     themselves (`computeStageInputDigest`, `makeAgenticJobId`).
--   * Agentic.Jobs: packages/agentic/src/jobs.ts. Store has the rows, `writeJob`, `assertJob` and
--     `enqueueAgenticJob`; Query the SELECT statements, `countAgenticJobs` and `listAgenticJobs`;
--     Lease, Finish and Reclaim the calls that move a job. Steps is the specification, the legal
--     moves of one job; Operations shows that each call makes legal moves only; Runs takes
--     sequences of calls.
--   * Agentic.Gate: packages/agentic/src/gate.ts (`evaluateAgenticGate`) and the kinds of
--     packages/agentic/src/claims.ts. Agentic.Spend: packages/agentic/src/spend.ts.
--
-- The draft lane (packages/v5), which writes nothing canonical.
--   * V5.Jcs: packages/v5/src/jcs.ts. V5.Sidecar: packages/v5/src/attempts.ts; V5.Sidecar.Runs
--     takes sequences of its calls, and what they send.
--   * V5.M8: packages/v5/src/integration.ts. V5.M8.Receipt and V5.M8.Seam:
--     packages/v5/src/m8-seam.ts, where a file on disk is missing, not JSON, or a JSON value;
--     V5.M8.Keys says what its search for body keys looks at.
--   * V5.Reducer: the scope counter, the spans and the identifiers of packages/v5/src/reducer.ts.
--     V5.Reducer.Draft: packages/v5/src/draft-reduce.ts.
--
-- What leaves the machine, and what is found.
--   * Capture.SyncAdmission: packages/capture/src/sync-admission.ts. Capture.RunLedger:
--     packages/capture/src/run-ledger.ts.
--   * Retrieval.Resolutions: packages/retrieval/src/resolutions.ts.
--   * Retrieval.EmbeddingJobs: packages/retrieval/src/embedding-jobs.ts, with the tables
--     `embedding_jobs` and `embedding_records`. Store has the rows, `writeJob` and
--     `ensureEmbeddingJob`; Lease `leaseEmbeddingJobs`; Finish what a worker answers; Rows and
--     Leases what single writes and calls do, Runs sequences of calls, Delays the times of retries.
--   * Product.OpenLoops: packages/product-projection/src/open-loops.ts.
--
-- From device to device (packages/schema, apps/carpeos-sync-worker, packages/local-store,
-- packages/sync-client). A device leases the rows of its outbox and pushes one record at a time; the
-- worker gives the records of a zone numbers, in the order of its commits, and serves them in pages;
-- a device imports the pages, and its cursor says how far it has come.
--   * Schema: the records of packages/schema/src/index.ts. Schema.Texts: their canonical JSON texts
--     (`stableCanonicalJson` of packages/capture/src/index.ts).
--   * SyncWorker: apps/carpeos-sync-worker/src/index.ts. Store has the tables and the replies,
--     Receipts the checks of a push (`authorize`, `validateSingleRecordPush`,
--     `validateProtectedReceipt`), Push `acceptEvent`, `acceptErasure`, `replayOrConflict` and
--     `handlePush`, Pull `handlePull`. Sequences says what a numbered zone is; Batches and Commits
--     show what a commit does to the zones; Runs takes sequences of pushes, in which a push may have
--     been checked before others have committed (`late`); Pages relates pulls to the log. Uploads has
--     the rows of protected values, Puts their PUT and Downloads their HEAD and GET, over a bucket;
--     Uploaded and Confirmed say what a PUT leaves for a push, and Readback for a read; Kept and
--     Bucket say what a PUT leaves alone and what its objects are; Told says what the worker has of
--     a request that it remembers.
--   * LocalStore: packages/local-store/src/store.ts. Inbox has `importPulledEvent`,
--     `importPulledErasure` and the cursor; Values `importPulledProtectedValue`; Outbox
--     `leaseOutbox`, `ackOutbox` and `retryOutbox`; Admission `resolveSyncAdmissionMeta`. Replays
--     and Landing say what imports leave; Outbox.Loop and Outbox.Admitted are about the lease, and
--     Outbox.Runs takes sequences of calls on the outbox, by the rows of Outbox.Rows.
--   * SyncClient: packages/sync-client/src/index.ts. Pull has `pullPage`, and the loop over pages of
--     apps/carpeos-cli/src/index.ts; Push has `pushOne` and `exportProtectedValueForSync`. Pulled
--     says what a page leaves, whatever the server is; Whole and Delivered put a device and the
--     worker together, with its pull, its PUT and its push as they are.
--
-- Common has what they share: lists, tables, texts and their order, and calls that may throw.
--
-- How the code is read. The SHA-256 of the platform and random lease identifiers are parameters. A
-- time is the instant that its ISO text denotes, in milliseconds, since the fixed width of
-- `toISOString` makes the order of the texts the order of the instants. A table is the list of its
-- rows; an upsert looks its primary key up, and a new row is checked against UNIQUE. Texts are
-- compared by code points, as SQLite does. A number that the code allows to be any number, such
-- as `max_attempts`, is a natural number. An exception is `threw`, and a transaction that
-- throws leaves the table as it was. Loops are recursions on lists. Decimal numerals are printed
-- with fuel, one more than the number, which has fewer digits than that. The scan of an outbox has
-- the greatest number of rows that it may scan as its fuel, max(50 limit, 200), and a round scans
-- at least one. The loop over pages has the code's bound of pages.
--
-- A column of JSON holds the record that the code writes there and reads back; columns that no
-- statement reads are left out. Rows stand in the order in which they were inserted, which is that
-- of a column with AUTOINCREMENT. A batch of D1 and a transaction of SQLite run as a whole. Schema
-- checks, hashes, and encryption are parameters, as is a server to a device where it is not the
-- worker. A call that reads a row and then writes it outside a transaction, as `completeAgenticJob`
-- and `addDaySpend` do, is one step.
--
-- A JSON value has natural numbers only. `jcs` throws on `undefined` and on numbers that are not
-- finite, and here it does not throw. The objects that `toStableJsonValue` builds have their keys in
-- order of code points; JSON.stringify would put keys like integers first, and `__proto__` is no key
-- of such an object. The amounts of a day's spend are doubles, of which the laws that the caps rely
-- on are assumed, and its calls are exact.
--
-- Not modelled: the calls of the network and of models, regular expressions (redaction and
-- sanitizing), encryption, file systems, and the command line but for its loop over pages; of the
-- worker, the embeddings; of the local store, the capture of hooks, knowledge units, dispositions
-- and projects.
pub mod Common
pub mod Json
pub mod Agentic
pub mod V5
pub mod Capture
pub mod Retrieval
pub mod Product
pub mod Schema
pub mod SyncWorker
pub mod LocalStore
pub mod SyncClient
