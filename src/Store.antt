-- ===== src/Store.antt =====
-- The rows of backend/app/database/models.py that ingestion, staging and delivery read and write,
-- and the database as a value. SQLAlchemy and the SQL server are not code of the repository: a
-- session is state passing, a commit keeps the new value and a rollback the old one.
--
-- A primary key made by `uuid4` is a draw from `uuids` at the place that `draws` counts. Instants
-- are in microseconds.
mod Rows
pub mod Jobs
pub mod Invariant
pub mod Moves
unfoldable pub use Rows.*
use intrusion_detect.Common.{
  ℕ, suc, ◌+◌, Bool, true, false, Option, none, some, List, [], ◌∷◌, ◌++◌, Text, ◌==◌,
  if◌then◌else◌, find, keep, any, map, is_some, text_eq,
}
use intrusion_detect.Schema.{FlowObservation}

-- What the store's operations take from outside: the random identifiers and the SHA-256 of the
-- canonical JSON text (`payload_hash`).
pub record Environment : Type 0 where
  pub uuids : ℕ → ℕ
  pub payload_hash : FlowObservation → ℕ

pub record Store : Type 0 where
  pub jobs : List IngestionJob
  pub transitions : List JobTransition
  pub observations : List ObservationRow
  pub predictions : List PredictionRow
  pub alerts : List AlertRow
  pub outbox : List OutboxEvent
  pub workers : List WorkerState
  pub draws : ℕ

abbrev pub job_of_event : ℕ → List IngestionJob → Option IngestionJob
job_of_event event_id jobs = find (λ row. row.event_id == event_id) jobs

abbrev pub job_of_id : ℕ → List IngestionJob → Option IngestionJob
job_of_id job_id jobs = find (λ row. row.job_id == job_id) jobs

-- An UPDATE by primary key; `updated_at` has `onupdate=utcnow`.
unfoldable pub update_job :
    ℕ → (IngestionJob → IngestionJob) → ℕ → List IngestionJob → List IngestionJob
update_job job_id change now [] = []
update_job job_id change now (row ∷ rows) =
    (if row.job_id == job_id
      then (let row' = change row in record row' { updated_at = now })
      else row)
    ∷ update_job job_id change now rows

abbrev pub has_observation : ℕ → Store → Bool
has_observation event_id db = any (λ row. row.event_id == event_id) db.observations

abbrev pub has_prediction : ℕ → Store → Bool
has_prediction event_id db = any (λ row. row.event_id == event_id) db.predictions

-- The columns of a transition that its caller gives; those left out are NULL.
pub record Change : Type 0 where
  pub from_state : Option JobState
  pub to_state : JobState
  pub reason_code : ReasonCode
  pub error_code : Option ErrorCode
  pub retryable : Option Bool
  pub worker_id : Option Text
  pub operator : Option Text
  pub reason : Option Text
  pub details : Details

-- `record_transition`: the job's identifiers are read from the row.
unfoldable pub record_transition : Environment → ℕ → IngestionJob → Change → Store → Store
record_transition env now job change db = record db {
  transitions =
      db.transitions
      ++ record {
        transition_id = env.uuids db.draws;
        job_id = job.job_id;
        event_id = job.event_id;
        from_state = change.from_state;
        to_state = change.to_state;
        reason_code = change.reason_code;
        error_code = change.error_code;
        retryable = change.retryable;
        worker_id = change.worker_id;
        operator = change.operator;
        reason = change.reason;
        details = change.details;
        occurred_at = now;
      }
        ∷ [];
  draws = suc db.draws;
}

-- A recorded transition together with the mutation of the row, as a session flushes them.
unfoldable pub move_job :
    Environment → ℕ → IngestionJob → Change → (IngestionJob → IngestionJob) → Store → Store
unfolding record_transition update_job
move_job env now job change mutate db =
    let audited = record_transition env now job change db in
    record audited { jobs = update_job job.job_id mutate now audited.jobs }

-- The loops that move each row of a query's result.
unfoldable pub move_each :
    Environment
    → ℕ
    → (IngestionJob → Change)
    → (IngestionJob → IngestionJob)
    → List IngestionJob
    → Store
    → Store
unfolding move_job
move_each env now change mutate [] db = db
move_each env now change mutate (row ∷ rows) db =
    move_each env now change mutate rows (move_job env now row (change row) mutate db)
