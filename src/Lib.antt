-- ===== src/Lib.antt =====
-- The intrusion detection system: how flow observations are queued by its backend (backend/app),
-- processed by workers, staged with their predictions and alerts, and delivered to the live channel;
-- how a signature sensor, logins and the health of the models come in; and how a bundle of models is
-- put into production, and the corpus they are trained on is split (machine-learning).
--
-- A client sends a batch of observations to the ingestion queue (backend/app/ingestion/service.py). A
-- worker (ingestion/worker.py) claims a job by a lease, validates its payload
-- (features/canonical_schema.py), runs the two-stage cascade on the route of its schema (inference/),
-- stores observation, prediction and alert (service.py) and writes the events to publish into the
-- outbox, all in one transaction. A dispatcher (ingestion/outbox.py) claims these events and sends
-- them to the websockets (live.py). Beside this, an agent (ingestion/suricata_agent.py) follows the
-- log of a Suricata sensor and posts its records to the endpoint (api/suricata.py), which makes alerts
-- and outbox events of them. The monitoring service (monitoring/service.py) compares the stored
-- predictions of a cohort with the drift reference of its model bundle.
--
-- The files and the code, in backend/app where no other folder is named:
--   Common, Errors   lists, texts as code points, numbers; Python exceptions and results
--   Schema           FlowObservation and its validators (features/canonical_schema.py)
--   Store            the rows of database/models.py, record_transition, and the invariant `IsValid`:
--                    unique keys, columns that agree with the job's state, and an audit trail that is
--                    linked and ends in that state
--   Ingestion        enqueue_observations, claim_next_job, recover_expired_leases, heartbeat,
--                    evaluate_redrive, redrive_events, get_event and list_jobs
--                    (ingestion/service.py)
--   Serving          resolve_route (inference/model_registry.py), run_inference
--                    (inference/predictor.py), explain_features (inference/explanations.py),
--                    assess_severity and evaluate_device_profile (detection/)
--   Staging          stage_observation and persist_observations (service.py)
--   Worker           IngestionWorker.process_one, its two transactions (ingestion/worker.py)
--   Outbox           claim, completion and dispatch of an event (ingestion/outbox.py)
--   Live             LiveConnectionManager (live.py) and its endpoint (api/live.py)
--   Replay           row selection and controls of DatasetReplay (ingestion/dataset_replay.py)
--   HttpLimits       RequestBodyLimitMiddleware (http_limits.py)
--   Auth             login, LoginRateLimiter, access tokens and get_current_admin (api/auth.py)
--   Sensors          ingest_suricata, sensor_status and the sensor's token (api/suricata.py)
--   Agent            normalize, EveFollower and the loop of main (ingestion/suricata_agent.py)
--   Monitoring       ModelHealthService: evaluation, latest and component (monitoring/service.py), and
--                    the windows of detection/drift.py in Monitoring/Drift
--   Promotion        verify_bundle and promote_bundle (machine-learning/src/iot_ids_ml/promotion.py)
--   Corpus           validate_capture_manifest and assign_session_splits
--                    (machine-learning/src/iot_ids_ml/native_corpus.py)
--   Tests            concrete stores and requests
--
-- A session is state passing: a commit keeps the new store and a rollback the old one, and a call is
-- one step unless its file says otherwise. Instants are in microseconds and come from the caller, with
-- one reading of the clock in each call. Identifiers are numbers; a fresh one is the next draw from the
-- sequence of the environment. Floats are their binary64 patterns. The models, the hashes, the
-- formatting and parsing of values, PyJWT and Argon2, the arithmetic of floats and Unicode case folding
-- are parameters. Calls on the file system of a promotion end as a parameter says. Loops are over
-- lists; only `str` of a number runs on fuel, which is the number itself.
--
-- Not modelled: latencies, the status counts of the queue and the listing of its outbox, the HTTP
-- routes but those above, the quality and performance evidence of monitoring, the loading of model
-- artefacts, the label manifest of a corpus, flow extraction, model training and evaluation, the
-- migrations and the frontend. They are wall-clock measurements, queries and views without state of
-- their own, counts of rows that are checked one by one, or code around pandas, scikit-learn and
-- NFStream.
pub mod Common
pub mod Errors
pub mod Schema
pub mod Store
pub mod Ingestion
pub mod Serving
pub mod Staging
pub mod Worker
pub mod Outbox
pub mod Live
pub mod Replay
pub mod HttpLimits
pub mod Auth
pub mod Sensors
pub mod Agent
pub mod Promotion
pub mod Monitoring
pub mod Corpus
pub mod Tests
