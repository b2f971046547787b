-- ===== src/Lib.antt =====
-- Safe duplicate finder: the core that groups duplicate files, chooses which one is kept, moves the
-- others into a quarantine, takes them back, and deletes them for good. This library models the
-- crate crates/dedupe-core and proves what makes its operations on files safe.
--
-- The program's parts and their modules, with paths from the root of the repository:
--
-- - crates/dedupe-core/src/model.rs is Model, its state machine Model/States: the entities, with
--   `can_transition_to` on the states of a transaction. A digest or a text is the list of its
--   bytes, a time a count of nanoseconds, a Uuid its number.
-- - crates/dedupe-core/src/error.rs is Error. An error's words are a `Reason`.
-- - crates/dedupe-core/src/ports.rs is Ports: a record of operations on an unknown environment, for
--   the file system, the journals, the clock, the control token and the hash libraries. Each call
--   leaves an event in a ghost trace, newest first. Ports/Monad is `?`, early returns and a
--   `&mut` argument; Ports/Hoare has the rules for the two ways an action ends; Ports/Calls says
--   what each call leaves in the trace.
-- - crates/dedupe-core/src/metadata.rs and full_hash.rs are Metadata and FullHash. A file
--   that is open is the list of what its reads return, which ends where the file does.
-- - crates/dedupe-core/src/transaction_journal.rs is TransactionJournal: `execute_verified_move` in
--   its three parts, the preflight, the move and the verification. Quarantine, Restore and Recovery
--   are quarantine.rs, restore.rs and recovery.rs, which run it or its verification.
-- - crates/dedupe-core/src/path_normalization.rs is PathNormalization, and project_manager.rs is
--   ProjectManager: the lexical normal form of a path, and the choice of the roots of a project.
-- - crates/dedupe-core/src/quick_hash.rs is QuickHash: the sample offsets and the sampled digest.
-- - crates/dedupe-core/src/scheduler.rs is Scheduler: the promise of `run_volume_jobs` that its callers
--   use, told of work that does not interleave. Scheduler/InTurn is one schedule of the pool on the
--   state of the ports, which keeps the promise. Scheduler/Pool is the pool with all its
--   threads, channels, checkpoints and permits, as a step relation, in which the token may be
--   paused, resumed and cancelled at any time.
-- - crates/dedupe-core/src/duplicate_detector.rs is DuplicateDetector: the three stages of hashes over
--   that promise. The order in which a `HashMap` is walked is a parameter.
-- - crates/dedupe-core/src/control.rs is Control: the token as a shared state, with one worker at its
--   checkpoint, and a step for each access of the worker or of a thread that calls `pause`,
--   `resume` or `cancel`.
-- - crates/dedupe-core/src/filters.rs is Filters, over the glob library, and progress.rs is Progress:
--   the counters, whose calls are atomic, and the newest-value channels of the observers.
-- - crates/dedupe-core/src/keep_policy.rs is KeepPolicy, and dry_run.rs is DryRun.
-- - crates/dedupe-core/src/permanent_delete.rs is DeletionModel for the data, and PermanentDelete for
--   the operations: PermanentDelete/Prepare the authorisation and the check of a loaded batch,
--   PermanentDelete/Execute the deletion with its two loops.
-- - Paths is `std::path`, as far as the core reads it; Base has what the modules share; Tests has a
--   small world in which each theorem with hypotheses is applied.
--
-- Numbers: a `u64` is a natural number, and where the source saturates or checks a sum, so does the
-- model, at 2^64. `usize` has 64 bits. Loops are recursion on the list that they walk, so there is no
-- fuel; `decimal` writes at most 20 digits, which all numbers below 2^64 fit in.
--
-- Parameters: the environment, the hash libraries (blake3, sha2), the texts and the bytes of a Uuid,
-- the sum of a time and a duration, the text that the platform gives a path, its current directory
-- and the Unicode tables. Of the hashers it is assumed that feeding two pieces is feeding them
-- joined, of the texts of Uuids that they differ.
--
-- Not modelled: the SQLite store (crates/dedupe-store), the system calls (crates/dedupe-platform), the
-- scanner and the logging of the core, reports, the command line, the
-- desktop application, the runtime installer and the benchmarks.
pub mod Base
pub mod Paths
pub mod PathNormalization
pub mod ProjectManager
pub mod Control
pub mod QuickHash
pub mod Scheduler
pub mod DuplicateDetector
pub mod Filters
pub mod Progress
pub mod Error
pub mod Model
pub mod DeletionModel
pub mod Ports
pub mod Metadata
pub mod FullHash
pub mod TransactionJournal
pub mod Quarantine
pub mod Restore
pub mod Recovery
pub mod KeepPolicy
pub mod DryRun
pub mod PermanentDelete
pub mod Tests
