-- ===== src/Lib.antt =====
-- Verification of a land-record digitisation system: the audit trail (libs/audit), the domain logic of
-- the backend (services/backend), the confidence engine (services/modelwork) and the queue between them
-- (libs/queue with the backend's workers).
--
-- The audit trail is a hash chain in eight shards. `append` (chain.py) adds an entry that carries the
-- hash of the shard's last entry; `perform_roll` (rollup.py) hashes the heads of all shards into one
-- Merkle root (merkle.py), stores it and has it anchored by a witness (witness.py); `verify_against_anchor`
-- (verify.py) recomputes everything from the tables and compares the root with one from outside.
-- The backend's operations write to the database and to that trail: `route` (decision.py) decides
-- an extraction by its routing outcome and marks its page as processed (page_lifecycle.py).
--
-- The confidence engine's `process_extraction_for_decision` (decision_flow.py) turns an extraction's
-- payload into features, asks a novelty detector (novelty.py), calibrates the confidence
-- (calibrator.py), and decides the outcome by the model's state on the cold-start ramp
-- (cold_start.py); the message it publishes is what a worker (workers/runner.py) later hands to `route`.
--
-- Prelude passes on the library's names and holds tests on numbers, lists and texts.
-- Audit.World holds what the program takes from outside: SHA-256, the clock, the random identifiers and
-- the printing of times. Reading the clock or an identifier counts a tick of the log, so a run is a
-- function of the sequences of readings. Times are numbers of microseconds.
-- Audit.Chain is libs/audit/src/landaudit/chain.py, over the rows of models.py: `Log` holds the rows and
-- the tick, and a query that orders rows sorts them. Audit.Merkle is merkle.py, Audit.Verify is
-- verify.py, Audit.Rollup is rollup.py, witness.py and kms.py.
-- Backend.Entities is services/backend/src/backend/models/entities.py, one record for each table, with
-- the columns that the modelled code uses. Backend.Session is the SQLAlchemy session: the tables and a
-- monad of actions that may raise; rows written before a raise stay, as they do until the owner of the
-- session rolls back. Backend.Policy is domain/review_policy.py, Backend.PageLifecycle is
-- domain/page_lifecycle.py, Backend.Decision is domain/decision.py, and Backend.EditDistance and
-- Backend.Correction are domain/correction.py. Backend.ReviewSession is domain/review_session.py, and
-- Backend.ReviewWorkflow is domain/review_workflow.py and audit_sample_verdict.py. Backend.Completeness is
-- domain/completeness.py. Backend.Conflicts is domain/conflict_register.py and
-- domain/publication_gate.py, and Backend.Publication is domain/publication.py. Backend.Rows finds and updates rows by their ids.
-- Modelwork is services/modelwork/src/modelwork: Modelwork.ColdStart, Modelwork.Novelty, and
-- Modelwork.Calibration, Modelwork.Encoding, Modelwork.Logistic, Modelwork.Training and
-- Modelwork.Splits for calibrator.py and the guard of the learning loop; Modelwork.Routing,
-- Modelwork.Payloads, Modelwork.Features and Modelwork.Pipeline for decision_flow.py and
-- decision_publisher.py. Modelwork.Runtime holds what that code takes from Python: a float is a type
-- with the operations that the code calls, NaN included, and a dictionary is the list of its entries.
-- Delivery.Queue is libs/queue/src/landqueue/testing.py, the queue that the drivers are judged against;
-- Delivery.Outbox is libs/outbox/src/landoutbox; Delivery.Worker is services/backend/src/backend/workers/runner.py, whose handler is an
-- action on the backend's session. Storage.LocalFs is libs/storage/src/landstorage/port.py and
-- drivers/local_fs.py.
-- The child modules of each part hold its proofs and are named for what they prove; Tests hold
-- concrete runs.
--
-- Bounds: `merkle_root` loops with as many rounds as there are leaves, and each round halves them, which
-- Audit.Merkle.Levels shows to be enough. `run_loop` runs a given number
-- of cycles, and Delivery.Worker.Draining says how many are enough. Every other loop is a recursion on a
-- list or on the number of iterations that the caller asks for.
--
-- Not modelled: HTTP, the command line, drivers of queues, the S3 driver and streaming uploads, HMAC
-- keys, migrations, the drift analytics and the calibration error of the model work, and the services for extraction, OCR and validation. A
-- queue is used by one caller at a time, and waiting for a message is a pass that finds none. Locks and transactions are the database's:
-- an operation runs alone on its session. SHA-256 is an argument; where a digest's shape matters it has
-- 64 characters and does not begin with a bar.
pub mod Prelude
pub mod Audit
pub mod Backend
pub mod Modelwork
pub mod Delivery
pub mod Storage
