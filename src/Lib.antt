-- ===== src/Lib.antt =====
-- The verification library of the YouTube hate speech report service (the Python backend under app).
--
-- A user gives a YouTube video. A job of ten steps collects its metadata, comments and transcript,
-- classifies each comment and segment with a language model that is fed with retrieved documents, and
-- builds a comment network and a report. The parts work together through the database: workers take jobs
-- from it, and an attempt of a step owns the step's row only as long as the row still says that it runs
-- with the attempt's number; the writes of its progress, results and outcome test that first.
--
-- The files and the code:
--   Common           tests, lists, the == of the compared types, JSON values, DomainError
--                    (app/core/errors.py)
--   Core/Settings    Settings.validate_runtime of app/core/config.py
--   Db               app/db/models.py, one record for each table, and Db/Database for all of them
--   Jobs/Repository  AnalysisJobRepository of app/db/repositories.py
--   Jobs/Orchestrator  JobOrchestrator of app/jobs/orchestrator.py: run_job, run_step (_run_step),
--                    conclude (its except clauses and what follows), finalize (_finalize)
--   Jobs/Handlers    app/jobs/production_pipeline.py
--   Jobs/Worker      JobWorker.run_once of app/jobs/worker.py
--   Analysis/ResultStore  AnalysisResultStore of app/analysis/result_store.py
--   Analysis/Retry   RetryPolicy of app/analysis/retry.py
--   Analysis/Validator  validate_classification_output of app/analysis/prompt_validator.py
--   Analysis/Executor  the parallel loop of RagRuntime.run in app/analysis/executor.py
--   Analysis/Sequential  RuntimeMetrics and the sequential mode of RagRuntime.run
--   Analysis/Services  app/analysis/services.py
--   Analysis/Classification, Analysis/Classifier, Analysis/Reply  app/analysis/rag_classifier.py and
--                    _classify of app/analysis/executor.py
--   Analysis/Retriever  DualVectorRetriever of app/analysis/retriever.py
--   Auth/Sessions, Auth/ApiKeys  app/auth/services.py
--   Auth/Http        app/auth/http.py
--   Collectors/Youtube  durations and errors of app/external/youtube.py
--   Collectors/Comments  CommentCollector of app/collectors/comments.py
--   Collectors/Transcript, Collectors/Collect  TranscriptCollector of app/collectors/transcript.py
--   Api/Access       _authorize_job of app/api/jobs.py, _authorized_report and create_export's checks of
--                    app/api/reports.py, the download of app/api/exports.py
--   Api/Accounts     the session, logout and API key routes of app/api/auth.py
--   Api/Admin        app/api/admin.py
--   Api/Exports      create_export of app/api/reports.py, get_export of app/api/exports.py
--   Api/Pages        the lists of app/api/reports.py and app/api/me.py
--   Api/Progress     _job_payload of app/api/jobs.py
--   Reporting/Builder, Reporting/Report  ReportBuilder of app/reporting/builder.py
--   Reporting/Pipeline  app/reporting/pipeline.py
--   Reporting/Exports  ExportService of app/reporting/exports.py
--   Reporting/Network  CommentNetworkBuilder of app/reporting/network.py
-- The modules below these, and the Tests, hold lemmas, theorems and concrete inputs.
--
-- How the code is translated:
--   - A table is the list of its rows, in the order of insertion. A query filters and sorts that list;
--     an update maps the rows that meet its condition. A method takes the database and returns the new
--     one; a method that raises returns an error value, and its transaction leaves no trace.
--   - A UUID is a number, taken from the supply next_id; a time is a whole number of seconds, and now is
--     what utcnow returns during one call. The delays of the retry policy are whole microseconds, and
--     the offsets of a transcript whole milliseconds.
--   - The row locks of other transactions are the parameter locked; SKIP LOCKED passes over its rows.
--     Where a worker is superseded in the middle of a handler, the handler's run says what it committed
--     and what its session sees at the end.
--   - The objects of a session are modelled where they matter: run_job goes on with the steps that it
--     listed at the start, and reads one again only after a rollback has expired it.
--   - A task that is retried gives the outcome of each of its calls. Nothing needs fuel: the loops run
--     over lists or over the allowed attempts.
--   - The parallel executor gets the events from outside in order: for each round the readings of the
--     stop event and of the clock, and the futures that wait reports. A run whose rounds end before the
--     loop does is waiting. The metrics and the progress messages change no state of the loop, so only
--     the calls that can raise are kept.
--   - The token of a session, its SHA-256, the check of an API key at the provider and the encryption
--     are parameters, since other packages do them.
--   - A prompt is given by what is put into its text. The replies of the model, json.loads, the queries
--     of the vector database and the embedding are parameters. Distances are whole millionths.
--   - In a sequential analysis nothing but its own callbacks writes to the database.
--   - Decimal ratios are pairs of numbers.
--
-- Not modelled: the login routes with Google, the HTTP clients of YouTube, Google and the language
-- models, the vector stores, the metadata collector, the renderers of reports, and the reading of the
-- configuration. The frontend, the migrations and the experiments stand outside the backend's logic.
pub mod Common
pub mod Core
pub mod Db
pub mod Jobs
pub mod Analysis
pub mod Api
pub mod Auth
pub mod Collectors
pub mod Reporting
