-- ===== src/Worker/Stale.antt =====
-- A slow worker of backend/app/ingestion/worker.py: its failure handler after another worker has
-- completed the job.
use intrusion_detect.Common.{
  ℕ, ◌≡◌, refl, ap, ◌∙◌, ◌≢◌, Bool, false, not, ◌||◌, inl, inr, Option, none, some, List, [], ◌∷◌,
  ◌++◌, Text, arith, Bool-cases, ltb,
}
use intrusion_detect.Errors.{Exception}
use intrusion_detect.Store.{
  ErrorCode, Environment, Store, IngestionJob, JobTransition, JobState, succeeded, job_of_id,
  move_job,
}
use intrusion_detect.Store.Jobs.{IsStored, stamp}
use intrusion_detect.Store.Invariant.{replay, history, state_option_eq, IsValid}
use intrusion_detect.Worker.Failure.{
  classify_failure, dead_row, retry_row, fail_job, handle_failure, retry_limit,
}
use intrusion_detect.Worker.Retry.{failed_row, fail_job_row}

replay-append_broken :
    (j : ℕ) (current state : Option JobState) (ts : List JobTransition) (t : JobTransition)
    → t.job_id ≡ j
    → replay j current ts ≡ some state
    → state_option_eq t.from_state state ≡ false
    → replay j current (ts ++ t ∷ []) ≡ none
replay-append_broken j current state [] t e h s = ground arith
replay-append_broken j current state (t' ∷ ts) t e h s = ground (
  arith,
  replay-append_broken j current state ts t e,
  replay-append_broken j (some t'.to_state) state ts t e,
)

failed_row-state :
    (now : ℕ) (e : Exception) (code : _) (retryable : Bool) (row : IngestionJob)
    → (stamp now (failed_row now e (code, retryable) row)).state ≢ succeeded
unfolding dead_row retry_row
failed_row-state now e code retryable row h = ground arith

module _ (env : Environment) (now : ℕ) (worker_id : Text) (e : Exception) (code : ErrorCode)
    (retryable : Bool) (job : IngestionJob) (db : Store) (v : IsValid env db)
    (found : IsStored db.jobs job) (done : job.state ≡ succeeded) where
  succeeded_history : replay job.job_id none db.transitions ≡ some (some succeeded)
  succeeded_history = v.audit job.job_id job found ∙ ap (λ s. some (some s)) done

  fail_job_breaks : history job.job_id (fail_job env now worker_id e code retryable job db) ≡ none
  unfolding fail_job move_job
  fail_job_breaks = elim (Bool-cases (not retryable || ltb retry_limit job.attempts)) [
    | inl over ↦ rw over (
        replay-append_broken job.job_id none (some succeeded) db.transitions _ refl
          succeeded_history refl)
    | inr again ↦ rw again (
        replay-append_broken job.job_id none (some succeeded) db.transitions _ refl
          succeeded_history refl)
  ]

-- The handler of a failed attempt does not look at the state of the job. If another worker has
-- completed the job meanwhile, in a valid store, the handler still returns, the job is no longer
-- succeeded, and its trail is broken: the new transition does not begin in the state where the one
-- before it ended, so the store is not valid.
pub stale_failure_lem :
    (fold : ℕ → Text) (env : Environment) (now : ℕ) (worker_id : Text) (e : Exception)
    (job : IngestionJob) (db : Store)
    → IsValid env db
    → IsStored db.jobs job
    → job.state ≡ succeeded
    → (db' : Store) × (after : IngestionJob) × (handle_failure fold env now worker_id e job.job_id
          db
        ≡ some db')
      × (job_of_id job.job_id db'.jobs ≡ some after)
      × (after.state ≢ succeeded)
      × (history job.job_id db' ≡ none)
      × (¬ IsValid env db')
unfolding handle_failure
stale_failure_lem fold env now worker_id e job db v found done =
    let (code, retryable) = classify_failure fold e in
    let db' = fail_job env now worker_id e code retryable job db in
    let row = fail_job_row env now worker_id e code retryable job db found in
    let broken = fail_job_breaks env now worker_id e code retryable job db v found done in
    (
      db',
      stamp now (failed_row now e (code, retryable) job),
      rw (found, handle_failure),
      row,
      failed_row-state now e code retryable job,
      broken,
      λ v'. cc (broken, v'.audit job.job_id _ row),
    )
