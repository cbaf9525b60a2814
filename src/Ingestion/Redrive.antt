-- ===== src/Ingestion/Redrive.antt =====
-- `evaluate_redrive` and `redrive_events` of backend/app/ingestion/service.py.
--
-- A refusal is a value of `Refusal` in place of its English text. `check` is the optional callable
-- `compatibility_check`: it returns the text of the exception that it raises, or nothing.
pub mod Picked
pub mod Eligible
pub mod Requeue
use intrusion_detect.Common.{
  ℕ, ◌+◌, Bool, true, false, not, ◌&&◌, ◌||◌, Option, none, some, List, [], ◌∷◌, Text, strip,
  is_empty, ◌==◌, ltb, if◌then◌else◌, mem, is_none,
}
use intrusion_detect.Schema.{FlowObservation}
use intrusion_detect.Store.{
  Environment, Store, IngestionJob, JobState, queued, succeeded, dead_letter, ErrorCode,
  extractor_incompatible, manual_redrive, redrive, Change, move_each, job_of_event, has_observation,
  has_prediction,
}

abbrev pub CompatibilityCheck : Type 0
CompatibilityCheck = Option (FlowObservation → Option Text)

pub data Refusal : Type 0 where
  not_found already_succeeded active_lease payload_conflict prediction_exists observation_exists
        permanent_failure :
      Refusal
  not_dead_letter : JobState → Refusal
  still_incompatible : Text → Refusal

abbrev still_leased : ℕ → Option ℕ → Bool
still_leased now none = false
still_leased now (some expires) = ltb now expires

abbrev is_true : Option Bool → Bool
is_true (some true) = true
is_true _ = false

abbrev is_extractor_incompatible : Option ErrorCode → Bool
is_extractor_incompatible (some extractor_incompatible) = true
is_extractor_incompatible _ = false

abbrev incompatible : Option Text → Option Refusal
incompatible none = none
incompatible (some message) = some (still_incompatible message)

-- The last three returns: what the failure itself allows.
unfoldable pub failure_refusal : CompatibilityCheck → IngestionJob → Option Refusal
failure_refusal none row = if is_true row.retryable then none else some permanent_failure
failure_refusal (some check) row =
    if is_true row.retryable
    then none
    else if is_extractor_incompatible row.error_code
    then incompatible (check row.payload)
    else some permanent_failure

-- The returns that only a dead letter reaches.
unfoldable pub dead_letter_refusal :
    Environment → ℕ → CompatibilityCheck → ℕ → Store → IngestionJob → Option Refusal
unfolding failure_refusal
dead_letter_refusal env now check event_id db row =
    if still_leased now row.lease_expires_at
    then some active_lease
    else if not (env.payload_hash row.payload == row.payload_hash)
    then some payload_conflict
    else if has_prediction event_id db
    then some prediction_exists
    else if has_observation event_id db
    then some observation_exists
    else failure_refusal check row

unfoldable pub state_refusal :
    Environment → ℕ → CompatibilityCheck → ℕ → Store → IngestionJob → JobState → Option Refusal
unfolding dead_letter_refusal
state_refusal env now check event_id db row succeeded = some already_succeeded
state_refusal env now check event_id db row dead_letter =
    dead_letter_refusal env now check event_id db row
state_refusal env now check event_id db row state = some (not_dead_letter state)

unfoldable pub evaluate_found :
    Environment
    → ℕ
    → CompatibilityCheck
    → ℕ
    → Store
    → Option IngestionJob
    → Option IngestionJob × Option Refusal
unfolding state_refusal
evaluate_found env now check event_id db none = (none, some not_found)
evaluate_found env now check event_id db (some row) =
    (some row, state_refusal env now check event_id db row row.state)

unfoldable pub evaluate_redrive :
    Environment → ℕ → CompatibilityCheck → ℕ → Store → Option IngestionJob × Option Refusal
unfolding evaluate_found
evaluate_redrive env now check event_id db =
    evaluate_found env now check event_id db (job_of_event event_id db.jobs)

pub record RedriveResult : Type 0 where
  pub event_id : ℕ
  pub refusal : Option Refusal  -- `none` is "eligible"

abbrev pub is_eligible : RedriveResult → Bool
is_eligible result = is_none result.refusal

-- The first loop of `redrive_events`: the results, and the rows that may be redriven.
unfoldable pub evaluate_all :
    Environment → ℕ → CompatibilityCheck → Store → List ℕ → List RedriveResult
unfolding evaluate_redrive
evaluate_all env now check db [] = []
evaluate_all env now check db (event_id ∷ event_ids) =
    record { event_id = event_id; refusal = (evaluate_redrive env now check event_id db).1 }
    ∷ evaluate_all env now check db event_ids

abbrev add_eligible : Option IngestionJob × Option Refusal → List IngestionJob → List IngestionJob
add_eligible (some row, none) rows = row ∷ rows
add_eligible (some row, some refusal) rows = rows
add_eligible (none, refusal) rows = rows

unfoldable pub eligible_rows :
    Environment → ℕ → CompatibilityCheck → Store → List ℕ → List IngestionJob
unfolding evaluate_redrive
eligible_rows env now check db [] = []
eligible_rows env now check db (event_id ∷ event_ids) =
    add_eligible (evaluate_redrive env now check event_id db)
      (eligible_rows env now check db event_ids)

abbrev pub all_eligible : List RedriveResult → Bool
all_eligible [] = true
all_eligible (result ∷ results) = is_eligible result && all_eligible results

unfoldable pub requeue_row : ℕ → Text → Text → IngestionJob → IngestionJob
requeue_row now operator reason row = record row {
  state = queued;
  attempts = 0;
  available_at = now;
  completed_at = none;
  worker_id = none;
  lease_expires_at = none;
  last_error = none;
  error_code = none;
  retryable = none;
  redrive_count = row.redrive_count + 1;
  last_redriven_at = some now;
  last_redriven_by = some (strip operator);
  last_redrive_reason = some (strip reason);
}

abbrev pub redriven_change : Text → Text → IngestionJob → Change
redriven_change operator reason row = record {
  from_state = some dead_letter;
  to_state = queued;
  reason_code = manual_redrive;
  error_code = row.error_code;
  retryable = row.retryable;
  worker_id = none;
  operator = some (strip operator);
  reason = some (strip reason);
  details = redrive row.attempts row.last_error (row.redrive_count + 1);
}

unfoldable pub requeue_each : Environment → ℕ → Text → Text → List IngestionJob → Store → Store
unfolding move_each requeue_row
requeue_each env now operator reason =
    move_each env now (redriven_change operator reason) (requeue_row now operator reason)

pub data RequestError : Type 0 where
  operator_and_reason_required event_id_required event_ids_not_unique : RequestError

-- `len(set(event_ids)) != len(event_ids)`
abbrev pub has_duplicate : List ℕ → Bool
has_duplicate [] = false
has_duplicate (event_id ∷ event_ids) = mem event_id event_ids || has_duplicate event_ids

abbrev is_nil : List ℕ → Bool
is_nil [] = true
is_nil (event_id ∷ event_ids) = false

unfoldable pub request_error : Text → Text → List ℕ → Option RequestError
request_error operator reason event_ids =
    if is_empty (strip operator) || is_empty (strip reason)
    then some operator_and_reason_required
    else if is_nil event_ids
    then some event_id_required
    else if has_duplicate event_ids
    then some event_ids_not_unique
    else none

-- The store is given back by `answered` only: every other end is a rollback.
pub data RedriveOutcome : Type 0 where
  answered : List RedriveResult → Store → RedriveOutcome
  refused : List RedriveResult → RedriveOutcome
  invalid_request : RequestError → RedriveOutcome

unfoldable pub redrive_checked :
    Environment → ℕ → CompatibilityCheck → Text → Text → Bool → List ℕ → Store → RedriveOutcome
unfolding evaluate_all eligible_rows requeue_each
redrive_checked env now check operator reason dry_run event_ids db =
    let results = evaluate_all env now check db event_ids in
    if not (all_eligible results) && not dry_run
    then refused results
    else if dry_run
    then answered results db
    else answered results
        (requeue_each env now operator reason (eligible_rows env now check db event_ids) db)

unfoldable pub redrive_events :
    Environment → ℕ → CompatibilityCheck → Text → Text → Bool → List ℕ → Store → RedriveOutcome
unfolding request_error redrive_checked
redrive_events env now check operator reason dry_run event_ids db =
    elim (request_error operator reason event_ids) [
      | some error ↦ invalid_request error
      | none ↦ redrive_checked env now check operator reason dry_run event_ids db
    ]
