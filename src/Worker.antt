-- ===== src/Worker.antt =====
-- `IngestionWorker.process_one` of backend/app/ingestion/worker.py, from its two transactions.
pub mod Attempt
pub mod Failure
pub mod Success
pub mod Retry
pub mod Total
pub mod Stale
use intrusion_detect.Common.{
  ℕ, zero, suc, ◌+◌, Bool, true, false, not, ◌&&◌, ◌||◌, Option, none, some, List, [], ◌∷◌, ◌++◌,
  map, Text, codes, contains, ltb, if◌then◌else◌, take, length,
}
use intrusion_detect.Errors.{
  ExceptionClass, permanent_ingestion, value_error, timeout_error, other_exception, Exception,
  Result, ok, err, ◌>>=◌, ◌>>◌,
}
use intrusion_detect.Schema.{
  FlowObservation, fingerprint_of, Checked, validate_observation, SchemaVersion,
}
use intrusion_detect.Store.{
  Store, IngestionJob, JobState, processing, succeeded, dead_letter, retrying, state_eq,
  OutboxEvent, LiveEvent, ErrorCode, extractor_incompatible, schema_invalid,
  permanent_ingestion_error, validation_error, inference_timeout, inference_error,
  processing_succeeded, permanent_failure, retries_exhausted, retry_scheduled, attempt,
  attempt_delay, outbox_events, Change, move_job, job_of_id, Environment,
}
use intrusion_detect.Serving.Registry.{ModelRoute, ModelRegistry, Formatting, resolve_route}
use intrusion_detect.Staging.{Services, StagedObservation, stage_observation}
use intrusion_detect.Ingestion.Lease.{seconds, heartbeat, claim_next_job}
use Attempt.{skipped, committed, failed, attempt_job}
use Failure.{handle_failure}

-- The store and the result of a call that returns; `none` for one that raises.
abbrev handled : Option Store → Option (Store × Bool)
handled none = none
handled (some db) = some (db, true)

process_claimed :
    (ℕ → Text)
    → Services
    → ℕ
    → Text
    → Option Exception
    → Store × Option IngestionJob
    → Option (Store × Bool)
unfolding attempt_job handle_failure
process_claimed fold svc now worker_id commit_error (db, none) = some (db, false)
process_claimed fold svc now worker_id commit_error (db, some job) =
    elim (attempt_job svc now worker_id commit_error job.job_id db) [
      | skipped ↦ some (db, false)
      | committed db' ↦ some (db', true)
      | failed e ↦ handled (handle_failure fold svc.environment now worker_id e job.job_id db)
    ]

-- A call that no other process interferes with, at one reading of the clock.
unfoldable pub process_one :
    (ℕ → Text) → Services → ℕ → Text → ℕ → Option Exception → Store → Option (Store × Bool)
unfolding process_claimed
process_one fold svc now worker_id lease_seconds commit_error db =
    process_claimed fold svc now worker_id commit_error
      (claim_next_job svc.environment now worker_id lease_seconds (heartbeat now worker_id db))
