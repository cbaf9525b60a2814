-- ===== src/Worker/Attempt.antt =====
-- The first transaction of `process_one` in backend/app/ingestion/worker.py: the job is validated,
-- routed, staged, and marked as succeeded.
--
-- `commit_error` is what the database raises when the transaction commits, if it does.
use intrusion_detect.Common.{
  ℕ, suc, Option, none, some, List, [], ◌∷◌, ◌++◌, Text, codes, if◌then◌else◌, length,
}
use intrusion_detect.Errors.{
  ExceptionClass, permanent_ingestion, value_error, Exception, Result, ok, err, ◌>>=◌, ◌>>◌,
}
use intrusion_detect.Schema.{
  FlowObservation, fingerprint_of, Checked, validate_observation, SchemaVersion,
}
use intrusion_detect.Store.{
  Store, IngestionJob, processing, succeeded, state_eq, LiveEvent, processing_succeeded,
  outbox_events, Change, move_job, job_of_id, Environment,
}
use intrusion_detect.Serving.Registry.{ModelRegistry, Formatting, resolve_route}
use intrusion_detect.Staging.{Services, stage_observation}

abbrev pub permanent_error : Text → Exception
permanent_error message = record {
  exception_class = permanent_ingestion;
  type_name = codes "PermanentIngestionError";
  message = message;
}

-- `except ModelRouteError`: a route that is missing is permanent, any other exception passes.
abbrev as_permanent : ExceptionClass → Exception → Exception
as_permanent value_error e = permanent_error e.message
as_permanent _ e = e

unfoldable pub validate_extractor_compatibility :
    Formatting → ModelRegistry → SchemaVersion → Option Text → Result (Unit {0})
validate_extractor_compatibility f registry version fingerprint =
    elim (resolve_route f registry version fingerprint) [
      | ok route ↦ ok tt
      | err e ↦ err (as_permanent e.exception_class e)
    ]

-- `FlowObservation.model_validate(job.payload)` with its handler.
unfoldable pub stored_observation : Services → FlowObservation → Result FlowObservation
stored_observation svc payload = elim (validate_observation svc.contract payload) [
  | Checked.valid o ↦ ok o
  | _ ↦ err (
      permanent_error (
        codes "stored observation no longer satisfies the canonical schema: "
        ++ svc.validation_text payload))
]

unfoldable pub add_outbox : Environment → ℕ → ℕ → List LiveEvent → Store → Store
add_outbox env now event_id [] db = db
add_outbox env now event_id (event ∷ events) db = add_outbox env now event_id events (record db {
  outbox =
      db.outbox
      ++ record {
        outbox_id = env.uuids db.draws;
        event_id = event_id;
        payload = event;
        created_at = now;
        published_at = none;
        publish_attempts = 0;
        last_error = none;
        claim_token = none;
        claim_expires_at = none;
        next_attempt_at = none;
      }
        ∷ [];
  draws = suc db.draws;
})

unfoldable pub succeed_row : ℕ → IngestionJob → IngestionJob
succeed_row now row = record row {
  state = succeeded;
  completed_at = some now;
  lease_expires_at = none;
  worker_id = none;
  last_error = none;
  error_code = none;
  retryable = none;
}

abbrev pub succeeded_change : Text → ℕ → Change
succeeded_change worker_id events = record {
  from_state = some processing;
  to_state = succeeded;
  reason_code = processing_succeeded;
  error_code = none;
  retryable = none;
  worker_id = some worker_id;
  operator = none;
  reason = none;
  details = outbox_events events;
}

-- The body of the `try`, for a row in processing.
unfoldable pub process_job :
    Services → ℕ → Text → Option Exception → IngestionJob → Store → Result Store
unfolding stored_observation validate_extractor_compatibility add_outbox succeed_row
process_job svc now worker_id commit_error job db = do
  o ← stored_observation svc job.payload
  validate_extractor_compatibility svc.formatting svc.registry o.schema_version
      (fingerprint_of o.network_context)
  (staged, db') ← stage_observation svc now job.ingestion_channel o db
  elim commit_error [
    | some e ↦ err e
    | none ↦ ok (
        move_job svc.environment now job (succeeded_change worker_id (length staged.events))
          (succeed_row now) (add_outbox svc.environment now o.event_id staged.events db'))
  ]

-- How the first transaction ends.
pub data Attempt : Type 0 where
  skipped : Attempt
  committed : Store → Attempt
  failed : Exception → Attempt

unfoldable pub attempt_result : Result Store → Attempt
attempt_result (ok db) = committed db
attempt_result (err e) = failed e

unfoldable pub attempt_found :
    Services → ℕ → Text → Option Exception → Option IngestionJob → Store → Attempt
unfolding process_job attempt_result
attempt_found svc now worker_id commit_error none db = skipped
attempt_found svc now worker_id commit_error (some job) db =
    if state_eq job.state processing
    then attempt_result (process_job svc now worker_id commit_error job db)
    else skipped

unfoldable pub attempt_job : Services → ℕ → Text → Option Exception → ℕ → Store → Attempt
unfolding attempt_found
attempt_job svc now worker_id commit_error job_id db =
    attempt_found svc now worker_id commit_error (job_of_id job_id db.jobs) db
