-- ===== src/Tests/Queue.antt =====
-- The theorems of the ingestion queue at concrete stores: one event that is enqueued, claimed, given
-- up and redriven.
use intrusion_detect.Common.{
  length, ◌≤◌, ◌≡◌, ◌≢◌, refl, ◌⊎◌, ◌↔◌, false, Option, none, some, List, [], ◌∷◌, codes, All, keep,
  arith,
}
use intrusion_detect.Errors.{Exception, permanent_ingestion}
use intrusion_detect.Schema.{FlowObservation}
use intrusion_detect.Store.{Store, IngestionJob, job_of_id, processing, extractor_incompatible}
use intrusion_detect.Store.Invariant.{IsValid}
use intrusion_detect.Ingestion.Enqueue.{
  BatchResponse, Outcome, committed, enqueue_observations, active_count, new_job, prepare,
}
use intrusion_detect.Ingestion.Enqueue.Outcomes.{accepted_count, enqueue_observations-IsValid}
use intrusion_detect.Ingestion.Enqueue.Idempotence.{
  Accepted, enqueue_observations_lem, enqueue_again,
}
use intrusion_detect.Ingestion.Lease.{claim_next_job, is_claimable, recover_expired_leases}
use intrusion_detect.Ingestion.Lease.Claims.{
  Claimed, claim_next_job_lem, claim_next_job-IsValid, claims_exclusive,
}
use intrusion_detect.Ingestion.Lease.Recovery.{
  Expired, Retries, recover_expired_leases-IsValid, recover_each_job,
}
use intrusion_detect.Ingestion.Listing.{JobFilter, list_jobs, is_behind, matches, list_jobs_lem}
use intrusion_detect.Ingestion.Redrive.{
  CompatibilityCheck, evaluate_redrive, redrive_events, RedriveOutcome, RedriveResult, answered,
}
use intrusion_detect.Ingestion.Redrive.Eligible.{IsEligible, evaluate_redrive_iff}
use intrusion_detect.Ingestion.Redrive.Requeue.{
  Redriven, redrive_events-IsValid, redrive_events_lem,
}
use intrusion_detect.Worker.Failure.{handle_failure, classify_failure, fail_job}
use intrusion_detect.Worker.Retry.{Fate, handle_failure_lem, fail_job-IsValid}
use intrusion_detect.Tests.{
  env, env-AreDistinct, empty_store, empty_store-IsValid, flow, worker, fold_code, enqueued,
  enqueued-committed, response_of, store_of, queued_store, queued_store-IsValid, running_store,
  running_store-IsValid,
}

enqueue_observations-IsValid_example : IsValid env queued_store
enqueue_observations-IsValid_example =
    enqueue_observations-IsValid env 30 10 (codes "api") [] (flow ∷ []) empty_store
      (response_of enqueued) queued_store env-AreDistinct empty_store-IsValid enqueued-committed

enqueue_observations_lem_example :
    Accepted env 10 (flow ∷ []) empty_store (response_of enqueued) queued_store
enqueue_observations_lem_example =
    enqueue_observations_lem env 30 10 (codes "api") [] (flow ∷ []) empty_store
      (response_of enqueued) queued_store enqueued-committed

one_active : active_count queued_store.jobs ≤ 10
unfolding enqueue_observations active_count
one_active = omega arith

enqueue_again_example :
    (again : BatchResponse) × (db'' : Store) × (enqueue_observations env 35 10
        (codes "replay")
        []
        (flow ∷ [])
        queued_store
      ≡ committed again db'')
    × (accepted_count again ≡ 0)
    × (db''.jobs ≡ queued_store.jobs)
    × (db''.transitions ≡ queued_store.transitions)
enqueue_again_example =
    enqueue_again env 30 35 10 10 (codes "api") (codes "replay") [] [] (flow ∷ []) empty_store
      (response_of enqueued) queued_store enqueued-committed one_active

claim_next_job-IsValid_example : IsValid env running_store
claim_next_job-IsValid_example =
    claim_next_job-IsValid env 40 worker 60 queued_store queued_store-IsValid

claim_next_job_lem_example :
    ((claimed : IngestionJob) × ((claim_next_job env 40 worker 60 queued_store).1 ≡ some claimed)
      × Claimed env 40 worker 60 queued_store claimed)
    ⊎ ((keep (is_claimable 40) queued_store.jobs ≡ [])
        × (claim_next_job env 40 worker 60 queued_store ≡ (queued_store, none)))
claim_next_job_lem_example = claim_next_job_lem env 40 worker 60 queued_store queued_store-IsValid

-- Two events, and the jobs that two claims get.
abbrev other_flow : FlowObservation
other_flow = record flow { event_id = 8 }

abbrev two_enqueued : Outcome
two_enqueued = enqueue_observations env 30 10 (codes "api") [] (flow ∷ other_flow ∷ []) empty_store

abbrev two_jobs : Store
two_jobs = store_of two_enqueued

two_enqueued-committed : two_enqueued ≡ committed (response_of two_enqueued) two_jobs
unfolding enqueue_observations active_count
two_enqueued-committed = refl

two_jobs-IsValid : IsValid env two_jobs
two_jobs-IsValid =
    enqueue_observations-IsValid env 30 10 (codes "api") [] (flow ∷ other_flow ∷ []) empty_store
      (response_of two_enqueued) two_jobs env-AreDistinct empty_store-IsValid two_enqueued-committed

abbrev base_job : IngestionJob
base_job = new_job 30 1001 1000 (codes "api") (prepare env flow)

abbrev job_or : Option IngestionJob → IngestionJob
job_or none = base_job
job_or (some job) = job

abbrev first_claimed : IngestionJob
first_claimed = job_or (claim_next_job env 40 worker 60 two_jobs).1

abbrev second_claimed : IngestionJob
second_claimed =
    job_or (claim_next_job env 50 (codes "other") 60 (claim_next_job env 40 worker 60 two_jobs).0).1

first_claim : (claim_next_job env 40 worker 60 two_jobs).1 ≡ some first_claimed
unfolding enqueue_observations active_count claim_next_job
first_claim = refl

second_claim :
    (claim_next_job env 50 (codes "other") 60 (claim_next_job env 40 worker 60 two_jobs).0).1
    ≡ some second_claimed
unfolding enqueue_observations active_count claim_next_job
second_claim = refl

claims_exclusive_example : first_claimed.job_id ≢ second_claimed.job_id
claims_exclusive_example =
    claims_exclusive env 40 50 worker (codes "other") 60 two_jobs first_claimed second_claimed
      two_jobs-IsValid first_claim second_claim

-- Long after the lease.
recover_expired_leases-IsValid_example :
    IsValid env (recover_expired_leases env 100000000 running_store).0
recover_expired_leases-IsValid_example =
    recover_expired_leases-IsValid env 100000000 running_store running_store-IsValid

abbrev running_job : IngestionJob
running_job = job_or (job_of_id 1001 running_store.jobs)

running_job-found : job_of_id 1001 running_store.jobs ≡ some running_job
unfolding enqueue_observations active_count claim_next_job
running_job-found = refl

recover_each_job_example :
    (stored : IngestionJob) × (job_of_id 1001
        (recover_expired_leases env 100000000 running_store).0.jobs
      ≡ some stored)
    × ((Expired 100000000 running_job × Retries 100000000 running_job stored)
        ⊎ ((¬ Expired 100000000 running_job) × (stored ≡ running_job)))
recover_each_job_example =
    recover_each_job env 100000000 1001 running_job running_store running_store-IsValid
      running_job-found

-- The extractor is refused, so the job becomes a dead letter; later the check lets it through.
abbrev refusal : Exception
refusal = record {
  exception_class = permanent_ingestion;
  type_name = codes "PermanentIngestionError";
  message = codes "extractor";
}

running_job-processing : running_job.state ≡ processing
unfolding enqueue_observations active_count claim_next_job
running_job-processing = refl

handle_failure_lem_example :
    (db' : Store) × (after : IngestionJob) × (handle_failure fold_code env 50 worker refusal 1001
        running_store
      ≡ some db')
    × IsValid env db'
    × (job_of_id 1001 db'.jobs ≡ some after)
    × Fate 50 (classify_failure fold_code refusal).1 running_job after
handle_failure_lem_example =
    handle_failure_lem fold_code env 50 worker refusal 1001 running_job running_store
      running_store-IsValid running_job-found running_job-processing

abbrev dead_store : Store
dead_store = fail_job env 50 worker refusal extractor_incompatible false running_job running_store

dead_store-IsValid : IsValid env dead_store
unfolding claim_next_job enqueue_observations active_count
dead_store-IsValid =
    fail_job-IsValid env 50 worker refusal extractor_incompatible false running_job running_store
      running_job-found running_store-IsValid running_job-processing

abbrev check : CompatibilityCheck
check = some (λ o. none)

abbrev dead_job : IngestionJob
dead_job = job_or (job_of_id 1001 dead_store.jobs)

evaluate_redrive_iff_example :
    (evaluate_redrive env 60 check 7 dead_store ≡ (some dead_job, none))
    ↔ IsEligible env 60 check 7 dead_store dead_job
evaluate_redrive_iff_example = evaluate_redrive_iff env 60 check 7 dead_store dead_job

abbrev results_of : RedriveOutcome → List RedriveResult
results_of (answered results db) = results
results_of _ = []

abbrev redriven_of : RedriveOutcome → Store
redriven_of (answered results db) = db
redriven_of _ = empty_store

abbrev redrive : RedriveOutcome
redrive = redrive_events env 60 check (codes "admin") (codes "fixed") false (7 ∷ []) dead_store

redrive-answered : redrive ≡ answered (results_of redrive) (redriven_of redrive)
unfolding enqueue_observations active_count claim_next_job fail_job redrive_events
redrive-answered = refl

redrive_events-IsValid_example : IsValid env (redriven_of redrive)
redrive_events-IsValid_example =
    redrive_events-IsValid env 60 check (codes "admin") (codes "fixed") false (7 ∷ []) dead_store
      (redriven_of redrive) (results_of redrive) dead_store-IsValid redrive-answered

redrive_events_lem_example :
    All
      (Redriven env 60 check (codes "admin") (codes "fixed") dead_store (redriven_of redrive))
      (7 ∷ [])
redrive_events_lem_example =
    redrive_events_lem env 60 check (codes "admin") (codes "fixed") (7 ∷ []) dead_store
      (redriven_of redrive) (results_of redrive) dead_store-IsValid redrive-answered

abbrev all_jobs : JobFilter
all_jobs = record {
  state = none;
  error_code = none;
  source = none;
  created_from = none;
  created_to = none;
}

list_jobs_lem_example :
    (length (list_jobs all_jobs none 1 two_jobs.jobs).items ≤ 1)
    × ((list_jobs all_jobs none 1 two_jobs.jobs).next_cursor ≡ none
        → length (list_jobs all_jobs none 1 two_jobs.jobs).items
          ≡ length (keep (is_behind none) (keep (matches all_jobs) two_jobs.jobs)))
list_jobs_lem_example = list_jobs_lem all_jobs none 1 two_jobs.jobs (omega arith)
