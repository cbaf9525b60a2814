-- ===== src/Worker/Failure.antt =====
-- The second transaction of `process_one` in backend/app/ingestion/worker.py: a failed attempt is
-- classified, and retried or given up.
use intrusion_detect.Common.{
  ℕ, zero, suc, ◌+◌, Bool, true, false, not, ◌||◌, Option, none, some, [], ◌∷◌, ◌++◌, Text, codes,
  contains, ltb, if◌then◌else◌, take,
}
use intrusion_detect.Errors.{
  permanent_ingestion, value_error, timeout_error, other_exception, Exception,
}
use intrusion_detect.Store.{
  Store, IngestionJob, processing, dead_letter, retrying, ErrorCode, extractor_incompatible,
  schema_invalid, permanent_ingestion_error, validation_error, inference_timeout, inference_error,
  permanent_failure, retries_exhausted, retry_scheduled, attempt, attempt_delay, Change, move_job,
  job_of_id, Environment,
}
use intrusion_detect.Ingestion.Lease.{seconds}

-- `str.casefold` by its table of full case foldings, one code point at a time.
unfoldable pub casefold : (ℕ → Text) → Text → Text
casefold fold [] = []
casefold fold (c ∷ s) = fold c ++ casefold fold s

unfoldable pub classify_failure : (ℕ → Text) → Exception → ErrorCode × Bool
unfolding casefold
classify_failure fold e =
    let message = casefold fold e.message in
    elim e.exception_class [
      | permanent_ingestion ↦
          if contains (codes "extractor") message || contains (codes "fingerprint") message
          then (extractor_incompatible, false)
          else if contains (codes "canonical schema") message
          then (schema_invalid, false)
          else (permanent_ingestion_error, false)
      | value_error ↦ (validation_error, false)
      | timeout_error ↦ (inference_timeout, true)
      | other_exception ↦ (inference_error, true)
    ]

-- `RETRY_DELAYS_SECONDS[attempts - 1]`; index -1 is the last entry.
unfoldable pub retry_delay : ℕ → ℕ
retry_delay zero = 30
retry_delay (suc zero) = 1
retry_delay (suc (suc zero)) = 5
retry_delay (suc (suc (suc n))) = 30

-- `len(RETRY_DELAYS_SECONDS)`
abbrev pub retry_limit : ℕ
retry_limit = 3

-- `f"{type(exc).__name__}: {exc}"[:10_000]`
unfoldable pub error_text : Exception → Text
error_text e = take 10000 (e.type_name ++ (codes ": " ++ e.message))

unfoldable pub dead_row : ℕ → Exception → ErrorCode → Bool → IngestionJob → IngestionJob
dead_row now e error_code retryable row = record row {
  last_error = some (error_text e);
  error_code = some error_code;
  retryable = some retryable;
  lease_expires_at = none;
  worker_id = none;
  state = dead_letter;
  completed_at = some now;
}

unfoldable pub retry_row : ℕ → Exception → ErrorCode → IngestionJob → IngestionJob
retry_row now e error_code row = record row {
  last_error = some (error_text e);
  error_code = some error_code;
  retryable = some true;
  lease_expires_at = none;
  worker_id = none;
  state = retrying;
  available_at = now + seconds (retry_delay row.attempts);
}

abbrev pub dead_change : Text → Exception → ErrorCode → Bool → IngestionJob → Change
dead_change worker_id e error_code retryable job = record {
  from_state = some processing;
  to_state = dead_letter;
  reason_code = if retryable then retries_exhausted else permanent_failure;
  error_code = some error_code;
  retryable = some retryable;
  worker_id = some worker_id;
  operator = none;
  reason = some (error_text e);
  details = attempt job.attempts;
}

abbrev pub retry_change : Text → Exception → ErrorCode → IngestionJob → Change
retry_change worker_id e error_code job = record {
  from_state = some processing;
  to_state = retrying;
  reason_code = retry_scheduled;
  error_code = some error_code;
  retryable = some true;
  worker_id = some worker_id;
  operator = none;
  reason = some (error_text e);
  details = attempt_delay job.attempts (retry_delay job.attempts);
}

unfoldable pub fail_job :
    Environment → ℕ → Text → Exception → ErrorCode → Bool → IngestionJob → Store → Store
unfolding dead_row retry_row
fail_job env now worker_id e error_code retryable job db =
    if not retryable || ltb retry_limit job.attempts
    then move_job env now job (dead_change worker_id e error_code retryable job)
        (dead_row now e error_code retryable) db
    else move_job env now job (retry_change worker_id e error_code job) (retry_row now e error_code)
        db

-- The handler: `none` where it raises the exception again.
unfoldable pub handle_failure :
    (ℕ → Text) → Environment → ℕ → Text → Exception → ℕ → Store → Option Store
unfolding fail_job
handle_failure fold env now worker_id e job_id db = elim (job_of_id job_id db.jobs) [
  | none ↦ none
  | some job ↦
      some (
        fail_job env now worker_id e (classify_failure fold e).0 (classify_failure fold e).1 job db)
]
