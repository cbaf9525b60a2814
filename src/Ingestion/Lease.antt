-- ===== src/Ingestion/Lease.antt =====
-- `recover_expired_leases`, `claim_next_job` and `heartbeat` of backend/app/ingestion/service.py.
pub mod Oldest
pub mod Claims
pub mod Recovery
use intrusion_detect.Common.{
  ℕ, ◌+◌, ◌*◌, Bool, true, false, ◌&&◌, Option, none, some, List, [], ◌∷◌, Text, text_eq, codes,
  ltb, leb, if◌then◌else◌, keep, length,
}
use intrusion_detect.Store.{
  Environment, Store, IngestionJob, WorkerState, JobState, queued, processing, retrying, state_eq,
  claimed, lease_recovered, lease_expired, attempt, no_details, Change, move_job, move_each,
}

-- `timedelta(seconds=…)`
abbrev pub seconds : ℕ → ℕ
seconds n = n * 1000000

-- `lease_expires_at < now`; NULL compares as false.
abbrev pub is_expired : ℕ → Option ℕ → Bool
is_expired now none = false
is_expired now (some expires) = ltb expires now

abbrev pub has_expired_lease : ℕ → IngestionJob → Bool
has_expired_lease now row = state_eq row.state processing && is_expired now row.lease_expires_at

unfoldable pub recover_row : ℕ → IngestionJob → IngestionJob
recover_row now row = record row {
  state = retrying;
  available_at = now;
  lease_expires_at = none;
  worker_id = none;
  last_error = some (codes "processing lease expired; recovered for retry");
  error_code = some lease_expired;
  retryable = some true;
}

-- The worker id is the one that the row held.
abbrev pub recovered_change : IngestionJob → Change
recovered_change row = record {
  from_state = some processing;
  to_state = retrying;
  reason_code = lease_recovered;
  error_code = some lease_expired;
  retryable = some true;
  worker_id = row.worker_id;
  operator = none;
  reason = none;
  details = no_details;
}

unfoldable pub recover_expired_leases : Environment → ℕ → Store → Store × ℕ
unfolding move_each recover_row
recover_expired_leases env now db =
    let rows = keep (has_expired_lease now) db.jobs in
    (move_each env now recovered_change (recover_row now) rows db, length rows)

abbrev pub is_waiting : JobState → Bool
is_waiting queued = true
is_waiting retrying = true
is_waiting _ = false

abbrev pub is_claimable : ℕ → IngestionJob → Bool
is_claimable now row = is_waiting row.state && leb row.available_at now

-- `ORDER BY created_at LIMIT 1`: among rows of one instant the first of the table is taken, which
-- SQL leaves open.
unfoldable pub oldest : Option IngestionJob → List IngestionJob → Option IngestionJob
oldest best [] = best
oldest none (row ∷ rows) = oldest (some row) rows
oldest (some best) (row ∷ rows) =
    oldest (some (if ltb row.created_at best.created_at then row else best)) rows

unfoldable pub next_claimable : ℕ → List IngestionJob → Option IngestionJob
unfolding oldest
next_claimable now jobs = oldest none (keep (is_claimable now) jobs)

unfoldable pub claim_row : ℕ → Text → ℕ → IngestionJob → IngestionJob
claim_row now worker_id lease_seconds row = record row {
  attempts = row.attempts + 1;
  worker_id = some worker_id;
  lease_expires_at = some (now + seconds lease_seconds);
  updated_at = now;
  state = processing;
}

abbrev pub claimed_change : Text → IngestionJob → Change
claimed_change worker_id row = record {
  from_state = some row.state;
  to_state = processing;
  reason_code = claimed;
  error_code = none;
  retryable = none;
  worker_id = some worker_id;
  operator = none;
  reason = none;
  details = attempt (row.attempts + 1);
}

claim_found : Environment → ℕ → Text → ℕ → Store → Option IngestionJob → Store × Option IngestionJob
unfolding move_job claim_row
claim_found env now worker_id lease_seconds db none = (db, none)
claim_found env now worker_id lease_seconds db (some row) = (
  move_job env now row (claimed_change worker_id row) (claim_row now worker_id lease_seconds) db,
  some (claim_row now worker_id lease_seconds row),
)

unfoldable pub claim_next_job : Environment → ℕ → Text → ℕ → Store → Store × Option IngestionJob
unfolding claim_found next_claimable
claim_next_job env now worker_id lease_seconds db =
    claim_found env now worker_id lease_seconds db (next_claimable now db.jobs)

unfoldable pub beat : ℕ → Text → List WorkerState → List WorkerState
beat now worker_id [] =
    record { worker_id = worker_id; last_heartbeat_at = now; started_at = now } ∷ []
beat now worker_id (row ∷ rows) =
    if text_eq row.worker_id worker_id
    then record row { last_heartbeat_at = now } ∷ rows
    else row ∷ beat now worker_id rows

unfoldable pub heartbeat : ℕ → Text → Store → Store
unfolding beat
heartbeat now worker_id db = record db { workers = beat now worker_id db.workers }
