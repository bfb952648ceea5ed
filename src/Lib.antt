-- ===== src/Lib.antt =====
-- A platform that deploys machine-learning models and sells calls of them: a Django control
-- plane (billing, deployments, prediction_gateway, model_registry) and a runner that loads the
-- models. This library models the control plane's state and proves what its handlers and tasks
-- do to it.
--
-- Base (with Base/Tests, Base/Lists, Base/Int, Base/Dict) holds what all parts share: Boolean
-- tests, lists, integers over the native numbers, and tables keyed by numbers, which stand for
-- database tables and the cache.
--
-- Billing models billing/models.py, billing/views.py, billing/signals.py and the functions
-- `_debit_credits` and `_refund_credits` of prediction_gateway/views.py. Its state, `Books`,
-- holds the wallets and the ledger. An amount is an integer of half ten-thousandths of a
-- credit, so that the half of every stored price can be written. The columns of the database
-- are a parameter, of which the theorems assume that whole ten-thousandths are stored as they
-- are, if at all. Billing/Posting says what an entry of the ledger does to a wallet;
-- Billing/Entries refines the operations to entries; Billing/Audit is about runs of
-- operations, Billing/Total about the sum of the balances and Billing/Rounding about refunds.
--
-- Deployments models deployments/models.py: the state machine and the table with its
-- constraint of one active deployment per version. Deployments/Build is the task of
-- deployments/tasks.py and deployments/services.py, Deployments/Views the handlers of
-- deployments/views.py, and Deployments/Reaper the command reap_stale_builds. What other
-- processes do between two transactions is a function on the table or on the locks, so the
-- theorems hold for all of them. The readiness loop is a list of the polls that are made
-- before its deadline, and the wait for a single-flight lock likewise: each is finite in the
-- code because its deadline passes. Deployments/Unique, Deployments/Keeping,
-- Deployments/Transitions and Deployments/Stops hold the theorems.
--
-- Archive models core/archive.py: the normalisation of paths, the checks of an archive's
-- entries and the extraction with its byte caps. A text is the list of its code points. The
-- file system's answers (where a path resolves to, whether a file can be opened) are
-- parameters. Archive/Paths and Archive/Limits hold the theorems.
--
-- Runner models runners/worker.py. The warm runtimes and their manager start and stop child
-- processes, which are counted as running in between; Runner/Capacity, Runner/Leaks and
-- Runner/Runs hold the theorems. Runner/Pipes models the bounded reads and writes of a child's
-- pipes: a pipe is the list of what its reads find, and the fuel of `readline_from` is the
-- limit and two, enough because every read that goes on adds a byte. Runner/Commands models
-- `_run_bounded`, over the list of turns that its deadline leaves time for. Runner/Replies,
-- Runner/InitModel and Runner/PredictModel model the handlers of /init-model and /predict;
-- paths are texts, and the file system, the commands' results, the download and Python's
-- `lower` and `strip` are parameters. Runner/InitModel/Errors and Runner/InitModel/Retries put
-- `init_model` and the `classify` of Deployments/Build together. Runner/Access models
-- runners/auth.py. Runner/Downloads models `_download_s3_artifact` as steps of threads on one
-- directory; Runner/Downloads/Whole and Runner/Downloads/Returns are about one thread.
--
-- Registry models model_registry/models.py and views.py: Registry/Versions the upload and
-- deletion of a version, Registry/Models those of a model. Its state, `Registry`, holds the
-- rows of models, versions and deployments, and the keys of the objects in the store. How the
-- validation of a bundle ends (which Archive and Manifest are about), the new ids, and what a
-- failed deletion leaves are parameters. Registry/Numbers, Registry/Owners, Registry/Rows,
-- Registry/Removal and Registry/Orphans hold the theorems. Storage models the batched deletion
-- of core/storage.py, which the registry's deletions call, and Storage/Batches its theorem.
--
-- ApiKeys models api_keys/models.py and views.py with prediction_gateway/permissions.py and
-- authentication.py: the keys of one model, and the universal keys of a user. The digest is a
-- parameter, and nothing is assumed of it; that no two rows have one digest is the database's
-- constraint, a hypothesis where it is used. ApiKeys/Rights holds the theorems.
--
-- Manifest models `validate_prediction_instances` of model_registry/manifest.py, RunnerErrors
-- the codes and constructors of core/runner_errors.py.
--
-- Gateway models prediction_gateway/views.py: Gateway/Universal the paid endpoint
-- (`UniversalInferenceAPIView.post`), which uses Billing and Manifest, Gateway/Predict the
-- page endpoint (`PredictAPIView.post`), and Gateway/Flight the single-flight lock of
-- prediction_gateway/singleflight.py as one request sees it; Gateway/Flight/Threads lets the
-- requests that one gateway process serves take steps in any order (the locks are of one
-- process; gunicorn.conf.py starts several), and Gateway/Flight/Leaders is about their
-- schedules. The
-- runner's reply, the digest of the cache key and the request's serializer are parameters;
-- latencies and messages are left out. Gateway/Universal/Fees and Gateway/Predict/Logs hold
-- the theorems, as does Manifest/Rows for the rows of a request.
--
-- Registry/Reconcile models the command reconcile_orphans of
-- model_registry/management/commands on the registry's state; it deletes through Storage. How
-- the store cuts a listing into pages is a parameter. Registry/Reconcile/Orphaned holds the
-- theorems.
--
-- Monitoring models monitoring/views.py: calculate_percentile, `_compute_metrics` for a query
-- and for a list, and in Monitoring/Views and Monitoring/Dashboard the health checks and the
-- other views. The machine's arithmetic of floats and the database's averages are a parameter,
-- `Floats`, of which Monitoring/Totals states what it needs; a latency is a whole number of
-- picoseconds. Monitoring/Totals, Monitoring/Orders and Monitoring/Answers hold the theorems,
-- over the sorting lemmas of Monitoring/Sorting.
--
-- Restore models scripts/restore_helpers.py: the checks of a storage archive and its
-- extraction onto a disk, which is a function from paths to files and folders, and in
-- Restore/Manifests the manifest of a backup. What tarfile reads, the digest and where a path
-- resolves to are parameters. Restore/Checked, Restore/Writes, Restore/Extracted,
-- Restore/Manifests/Tampered and Restore/Manifests/RoundTrip hold the theorems.
--
-- Not modelled: the runner's readiness probes and /teardown, the marketplace's views, and the
-- parts that are configuration, glue to Django or S3, other scripts, sample models and the
-- frontend.
pub mod ApiKeys
pub mod Archive
pub mod Base
pub mod Billing
pub mod Deployments
pub mod Gateway
pub mod Manifest
pub mod Monitoring
pub mod Registry
pub mod Restore
pub mod Runner
pub mod RunnerErrors
pub mod Storage
pub mod Tests
