-- ===== src/Worker/Total.antt =====
-- `process_one` of backend/app/ingestion/worker.py as a whole: it returns, keeps the store valid, and
-- leaves the job that it claimed in processing no longer.
use intrusion_detect.Common.{
  ℕ, ◌≡◌, refl, sym, ap, ◌∙◌, Bool, true, false, ◌⊎◌, inl, inr, Option, some, [], Text, arith, keep,
}
use intrusion_detect.Errors.{Exception, Result, ok, err}
use intrusion_detect.Store.{
  Environment, Store, IngestionJob, JobState, processing, retrying, succeeded, dead_letter,
  job_of_id,
}
use intrusion_detect.Store.Jobs.{IsStored, stamp}
use intrusion_detect.Store.Invariant.{IsValid, unchanged-IsValid}
use intrusion_detect.Ingestion.Lease.{claim_next_job, heartbeat, is_claimable}
use intrusion_detect.Ingestion.Lease.Claims.{Claimed, claim_next_job_lem, claim_next_job-IsValid}
use intrusion_detect.Staging.{Services}
use intrusion_detect.Worker.Attempt.{
  succeed_row, process_job, attempt_result, attempt_found, attempt_job, committed, failed, skipped,
}
use intrusion_detect.Worker.Failure.{handle_failure, classify_failure}
use intrusion_detect.Worker.Success.{process_job_lem}
use intrusion_detect.Worker.Retry.{Fate, handle_failure_lem}
use intrusion_detect.Worker.{process_one, process_claimed, handled}

heartbeat-IsValid :
    (env : Environment) (now : ℕ) (worker_id : Text) (db : Store)
    → IsValid env db
    → IsValid env (heartbeat now worker_id db)
unfolding heartbeat
heartbeat-IsValid env now worker_id db v =
    unchanged-IsValid env db (heartbeat now worker_id db) refl refl (omega arith) v

-- A job after an attempt: it succeeded, waits for another attempt, or is a dead letter.
abbrev pub Settled : JobState → Type 0
Settled s = (s ≡ succeeded) ⊎ (s ≡ retrying) ⊎ (s ≡ dead_letter)

Fate-Settled :
    (now : ℕ) (retryable : Bool) (before after : IngestionJob)
    → Fate now retryable before after
    → Settled after.state
Fate-Settled now true before after (inl h) = inr (inl h.1)
Fate-Settled now true before after (inr h) = inr (inr h.1)
Fate-Settled now false before after h = inr (inr h.0)

-- The end of the attempts at the job `job_id`.
record Ends (svc : Services) (job_id : ℕ) (result : Option (Store × Bool)) : Type 0 where
  store : Store
  returned : result ≡ some (store, true)
  valid : IsValid svc.environment store
  after : IngestionJob
  found : job_of_id job_id store.jobs ≡ some after
  settled : Settled after.state

module _ (fold : ℕ → Text) (svc : Services) (now : ℕ) (worker_id : Text)
    (commit_error : Option Exception) (job : IngestionJob) (db : Store)
    (v : IsValid svc.environment db) (found : IsStored db.jobs job)
    (running : job.state ≡ processing) where
  -- The two transactions, by how the body of the `try` ends.
  Ends-by :
      (r : Result Store)
      → process_job svc now worker_id commit_error job db ≡ r
      → Ends svc job.job_id (elim (attempt_result r) [
        | skipped ↦ some (db, false)
        | committed db' ↦ some (db', true)
        | failed e ↦ handled (handle_failure fold svc.environment now worker_id e job.job_id db)
      ])
  unfolding attempt_result succeed_row
  Ends-by (ok db') e =
      let s = process_job_lem svc now worker_id job db v found running commit_error db' e in
      record {
        store = db';
        returned = refl;
        valid = s.valid;
        after = stamp now (succeed_row now job);
        found = s.done;
        settled = inl refl;
      }
  Ends-by (err x) e =
      let (db', after, returned, valid, found', fate) =
        handle_failure_lem fold svc.environment now worker_id x job.job_id job db v found running in
      record {
        store = db';
        returned = rw returned;
        valid = valid;
        after = after;
        found = found';
        settled = Fate-Settled now (classify_failure fold x).1 job after fate;
      }

  attempt_running :
      attempt_job svc now worker_id commit_error job.job_id db
      ≡ attempt_result (process_job svc now worker_id commit_error job db)
  unfolding attempt_job attempt_found
  attempt_running = rw (found, attempt_found) (rw running)

  ends : Ends svc job.job_id (process_claimed fold svc now worker_id commit_error (db, some job))
  unfolding process_claimed
  ends =
      rw (attempt_running, process_claimed)
        (Ends-by (process_job svc now worker_id commit_error job db) refl)

-- What a call of `process_one` comes to: it found no job that waits and is due, and returned
-- `False`; or it claimed one, returned `True`, and left that job settled.
pub data Processed (svc : Services) (now : ℕ) (db db' : Store) : Bool → Type 0 where
  idle : keep (is_claimable now) db.jobs ≡ [] → db'.jobs ≡ db.jobs → Processed svc now db db' false
  busy :
      (row after : IngestionJob)
      → IsStored db.jobs row
      → is_claimable now row ≡ true
      → job_of_id row.job_id db'.jobs ≡ some after
      → Settled after.state
      → Processed svc now db db' true

-- What a call that returns leaves.
pub record Returns (svc : Services) (now : ℕ) (db : Store) (result : Option (Store × Bool))
    : Type 0 where
  pub store : Store
  pub busy_worker : Bool
  pub returned : result ≡ some (store, busy_worker)
  pub valid : IsValid svc.environment store
  pub processed : Processed svc now db store busy_worker

processed_claim :
    (fold : ℕ → Text) (svc : Services) (now : ℕ) (worker_id : Text) (lease_seconds : ℕ)
    (commit_error : Option Exception) (db : Store) (claimed : IngestionJob)
    → IsValid svc.environment db
    → (claim_next_job svc.environment now worker_id lease_seconds db).1 ≡ some claimed
    → Claimed svc.environment now worker_id lease_seconds db claimed
    → Returns svc now db (
        process_claimed fold svc now worker_id commit_error
          (claim_next_job svc.environment now worker_id lease_seconds db))
processed_claim fold svc now worker_id lease_seconds commit_error db claimed v e c =
    let db' = (claim_next_job svc.environment now worker_id lease_seconds db).0 in
    let found : IsStored db'.jobs (stamp now claimed) =
      ap (λ (j : ℕ). job_of_id j db'.jobs) c.same_job ∙ c.saved in
    let s =
      ends fold svc now worker_id commit_error (stamp now claimed) db'
        (claim_next_job-IsValid svc.environment now worker_id lease_seconds db v) found
        c.now_processing in
    record {
      store = s.store;
      busy_worker = true;
      returned = rw e (unfold process_claimed in s.returned);
      valid = s.valid;
      processed =
          busy c.row s.after c.stored (ground (arith, c.waited, c.was_due))
            (ap (λ (j : ℕ). job_of_id j s.store.jobs) (sym c.same_job) ∙ s.found) s.settled;
    }

-- On a valid store, when no other process interferes, a call of `process_one` returns, whatever
-- the services do and whether or not the commit of the attempt fails; the store is valid again;
-- and either no job waited and was due, `False` is returned and the jobs stay as they are, or such
-- a job was claimed and is left succeeded, retrying or a dead letter.
pub process_one-Returns :
    (fold : ℕ → Text) (svc : Services) (now : ℕ) (worker_id : Text) (lease_seconds : ℕ)
    (commit_error : Option Exception) (db : Store)
    → IsValid svc.environment db
    → Returns svc now db (process_one fold svc now worker_id lease_seconds commit_error db)
unfolding process_one heartbeat
process_one-Returns fold svc now worker_id lease_seconds commit_error db v =
    let beat = heartbeat now worker_id db in
    let valid = heartbeat-IsValid svc.environment now worker_id db v in
    elim (claim_next_job_lem svc.environment now worker_id lease_seconds beat valid) [
      | inl (claimed, e, c) ↦
          let r =
            processed_claim fold svc now worker_id lease_seconds commit_error beat claimed valid e
              c in
          record {
            store = r.store;
            busy_worker = r.busy_worker;
            returned = r.returned;
            valid = r.valid;
            processed = beaten r.processed;
          }
      | inr (none_due, e) ↦ record {
        store = beat;
        busy_worker = false;
        returned =
            ap (process_claimed fold svc now worker_id commit_error) e
            ∙ (unfold process_claimed in refl);
        valid = valid;
        processed = idle none_due refl;
      }
    ]
  where
    beaten :
        {db' : Store} {b : Bool}
        → Processed svc now (heartbeat now worker_id db) db' b
        → Processed svc now db db' b
    beaten (idle h k) = idle h k
    beaten (busy row after h k f s) = busy row after h k f s
