-- ===== src/Lib.antt =====
-- PufferLab: a local tool that compares retrieval configurations on judged queries.
--
-- An evaluation run executes every query of a query set with a baseline configuration and with
-- candidates. The repository (backend/pufferlab/persistence) keeps runs and outcomes in SQLite; the
-- job manager (backend/pufferlab/jobs) executes the queries of a claimed run; the evaluation engine
-- (backend/pufferlab/evals) measures rankings, aggregates and pairs outcomes, and decides a gate.
-- The documents of a dataset reach a namespace by an ingestion in batches, with checkpoints to resume
-- from (backend/pufferlab/datasets). A search fuses ranked lists and filters by the attributes of the
-- namespace (backend/pufferlab/retrieval).
--
-- Prelude: native numbers, lists, errors as values, the stable sort, increasing lists, texts, chunks
--   of a list, and subsets of lists without repetition.
--
-- Persistence: persistence/*.py with the contracts that it stores.
--   Records: contracts/evals.py, contracts/errors.py, contracts/retrieval.py, persistence/types.py.
--   Codec: persistence/canonical.py. A stored text is a value of a type `T`; JSON and pydantic are
--     the record `Codecs`, and `IsFaithful` says that a written value is read back. A datetime is
--     an instant and whether it has an offset; canonical UTC texts have a fixed width, so the
--     instant stands for the text.
--   Rows: persistence/models.py and the decoders `_decode_*_row` of persistence/repository.py, which
--     compare the indexed columns of a row with its payload. `Db` is the tables.
--   Selects, Transition, Runs, Reads: the queries, `_transition_row`,
--     `_validate_completion_summaries` and the run methods of `PufferLabRepository`. A method is one
--     transaction: an error leaves the tables as they were. Runs/History is any sequence of calls.
--     Runs/Machine is the abstract machine of a run's status, `_ALLOWED_TRANSITIONS` as a step
--     relation, and Refinement relates the tables to it.
--
-- Jobs: jobs/manager.py and jobs/eval_runner.py.
--   Loop: the loop of `RunJobManager._run_claimed`, from one `await` to the next. What is awaited is
--     the environment's: the done tasks with their results, `on_progress`, cancellation, and the
--     repository calls that others make meanwhile. The list of wakes is the fuel of the loop; the
--     theorem loop-is_over says how many are enough.
--   Conclusion: what follows the loop: complete, cancel or fail the run. The wait for the cancelled
--     tasks may be cancelled too, and then the run is not marked as failed.
--   Manager: the state of `RunJobManager` and its methods. Manager/Entries is its table of jobs.
--   Runner: jobs/eval_runner.py with the payload models of contracts/evals.py. Execute is
--     `EvaluationOutcomeExecutor`, Finalize is `finalize_durable_outcomes`. The search, the clock and
--     the JSON of a payload are parameters; `IsFaithfulPayload` says that a valid payload is read back.
--     Completes composes finalization with what the repository asks of a run that completes.
--
-- Evals: evals/*.py.
--   Float: floats are an interface with no law: most theorems hold for any arithmetic. Pairing/Comparison
--     names the laws of comparison that Pairing/Order uses in the record IsOrdered.
--   Models, Metrics, Aggregation, Pairing, Gates: the modules of the same names. Report is
--     contracts/gates.py, the report of the gate and its validators.
--
-- Datasets: datasets/*.py.
--   Models, Schema: datasets/models.py with the validators of the manifest, datasets/schema.py.
--   Ingestion: datasets/ingestion.py. A wave of batches ends with one outcome for each batch; what the
--     embedder, the namespace and the observers do is the record `Surroundings`; each may fail, and an
--     observer that raises was handed what it refused. The polls for
--     readiness are as many as the service allows, and the waves are the chunks of the batches, so no
--     other fuel is needed.
--   Checkpoints: datasets/checkpoints.py over a directory of texts. JSON, pydantic and SHA-256 are
--     parameters. Resumption composes the store with the ingestion.
--
-- Retrieval: retrieval/rrf.py (Fusion); contracts/filters.py and retrieval/filter_validation.py
--   (Filters), over the attributes that Datasets/Schema compiles.
--
-- Examples: runs on concrete inputs, with metrics as numbers and floats as thousandths.
--
-- An identifier (UUID) is a number: its text has a fixed width, so the order of texts is the order
-- of numbers. Log messages and error texts are not modelled.
--
-- Not modelled: the catalog methods of the repository; the execution of searches, the providers, the
-- import of datasets, the database files, the services, the HTTP API and the command line, which are
-- mostly input and output around the parts that are; the forensics and the synthetic demo; the web
-- user interface.
pub mod Prelude
pub mod Persistence
pub mod Jobs
pub mod Datasets
pub mod Retrieval
pub mod Evals
mod Examples
