-- ===== src/Tests/Work.antt =====
-- The theorems of the worker and of staging at concrete stores.
use intrusion_detect.Common.{◌≡◌, ◌≢◌, refl, false, Option, none, some, [], codes}
use intrusion_detect.Errors.{Exception, Result, ok, err, timeout_error}
use intrusion_detect.Schema.{validate_observation}
use intrusion_detect.Serving.Registry.{resolve_route}
use intrusion_detect.Serving.Inference.{run_inference, detector_result}
use intrusion_detect.Serving.Severity.{assess_severity, evaluate_device_profile}
use intrusion_detect.Store.{Store, IngestionJob, job_of_id, processing, succeeded, attack}
use intrusion_detect.Store.Jobs.{IsStored, stamp}
use intrusion_detect.Store.Invariant.{IsValid, history}
use intrusion_detect.Ingestion.Enqueue.{enqueue_observations, active_count, new_job, prepare}
use intrusion_detect.Ingestion.Lease.{claim_next_job}
use intrusion_detect.Staging.{StagedObservation, stage_observation, prediction_row}
use intrusion_detect.Staging.Effects.{Staged, stage_observation_lem}
use intrusion_detect.Worker.{process_one}
use intrusion_detect.Worker.Attempt.{process_job, succeed_row}
use intrusion_detect.Worker.Failure.{handle_failure}
use intrusion_detect.Worker.Success.{Succeeded, process_job_lem}
use intrusion_detect.Worker.Stale.{stale_failure_lem}
use intrusion_detect.Worker.Total.{Returns, process_one-Returns}
use intrusion_detect.Tests.{
  env, svc, detector, classifier, empty_store, flow, worker, fold_code, queued_store,
  queued_store-IsValid, running_store, running_store-IsValid,
}

process_one-Returns_example :
    Returns svc 40 queued_store (process_one fold_code svc 40 worker 60 none queued_store)
process_one-Returns_example =
    process_one-Returns fold_code svc 40 worker 60 none queued_store queued_store-IsValid

abbrev base_job : IngestionJob
base_job = new_job 30 1001 1000 (codes "api") (prepare env flow)

abbrev job_or : Option IngestionJob → IngestionJob
job_or none = base_job
job_or (some job) = job

abbrev running_job : IngestionJob
running_job = job_or (job_of_id 1001 running_store.jobs)

running_job-IsStored : IsStored running_store.jobs running_job
unfolding enqueue_observations active_count claim_next_job
running_job-IsStored = refl

running_job-processing : running_job.state ≡ processing
unfolding enqueue_observations active_count claim_next_job
running_job-processing = refl

abbrev done_or : Result Store → Store
done_or (ok db) = db
done_or (err e) = empty_store

abbrev done_store : Store
done_store = done_or (process_job svc 50 worker none running_job running_store)

process_job-ok : process_job svc 50 worker none running_job running_store ≡ ok done_store
unfolding enqueue_observations active_count claim_next_job process_job stage_observation
    validate_observation resolve_route run_inference assess_severity evaluate_device_profile
process_job-ok = refl

process_job_lem_example : Succeeded svc 50 worker running_job running_store done_store
process_job_lem_example =
    process_job_lem svc 50 worker running_job running_store running_store-IsValid
      running_job-IsStored running_job-processing none done_store process_job-ok

abbrev staged_or : Result (StagedObservation × Store) → StagedObservation
staged_or (ok staged) = staged.0
staged_or (err e) = record {
  response = record {
    prediction =
        prediction_row 50 1 7
          (detector_result (record { detector = detector; classifier = classifier }) [] attack 0);
    detection_score_calibrated = false;
    attack_class_score_calibrated = none;
    raw_features = [];
    network_context = none;
    alert_id = none;
  };
  events = [];
}

abbrev stored_or : Result (StagedObservation × Store) → Store
stored_or (ok staged) = staged.1
stored_or (err e) = empty_store

abbrev staging : Result (StagedObservation × Store)
staging = stage_observation svc 50 (codes "api") flow running_store

stage_observation-ok : staging ≡ ok (staged_or staging, stored_or staging)
unfolding enqueue_observations active_count claim_next_job stage_observation resolve_route
    run_inference assess_severity evaluate_device_profile
stage_observation-ok = refl

stage_observation_lem_example :
    Staged svc 50 (codes "api") flow running_store (staged_or staging) (stored_or staging)
stage_observation_lem_example =
    stage_observation_lem svc 50 (codes "api") flow running_store (staged_or staging)
      (stored_or staging) stage_observation-ok

-- Another worker's attempt times out after the job was completed.
abbrev timeout : Exception
timeout = record { exception_class = timeout_error; type_name = codes "TimeoutError"; message = [] }

abbrev done_job : IngestionJob
done_job = stamp 50 (succeed_row 50 running_job)

done : Succeeded svc 50 worker running_job running_store done_store
done =
    process_job_lem svc 50 worker running_job running_store running_store-IsValid
      running_job-IsStored running_job-processing none done_store process_job-ok

done_job-succeeded : done_job.state ≡ succeeded
unfolding succeed_row
done_job-succeeded = refl

done_job-IsStored : IsStored done_store.jobs done_job
unfolding succeed_row
done_job-IsStored = done.done

stale_failure_lem_example :
    (db' : Store) × (after : IngestionJob) × (handle_failure fold_code env 60
        (codes "slow")
        timeout
        done_job.job_id
        done_store
      ≡ some db')
    × (job_of_id done_job.job_id db'.jobs ≡ some after)
    × (after.state ≢ succeeded)
    × (history done_job.job_id db' ≡ none)
    × (¬ IsValid env db')
stale_failure_lem_example =
    stale_failure_lem fold_code env 60 (codes "slow") timeout done_job done_store done.valid
      done_job-IsStored done_job-succeeded
