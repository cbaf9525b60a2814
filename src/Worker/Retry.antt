-- ===== src/Worker/Retry.antt =====
-- The second transaction of `process_one` (backend/app/ingestion/worker.py): when a failed attempt is
-- tried again, and when it is given up.
use intrusion_detect.Common.{
  ℕ, ◌+◌, ◌≤◌, ◌<◌, ◌≡◌, refl, sym, ap, ◌∙◌, Bool, true, false, not, ◌||◌, ◌⊎◌, inl, inr, some,
  Text, arith, Bool-cases, if◌then◌else◌, ltb,
}
use intrusion_detect.Errors.{Exception}
use intrusion_detect.Store.{
  Environment, Store, IngestionJob, processing, retrying, dead_letter, ErrorCode, job_of_id,
}
use intrusion_detect.Store.Jobs.{KeepsIdentity, IsStored, stamp, job_of_id_sound}
use intrusion_detect.Store.Invariant.{IsValid}
use intrusion_detect.Store.Moves.{move_job-IsValid, job_of_id-move_self}
use intrusion_detect.Ingestion.Lease.{seconds}
use intrusion_detect.Ingestion.Lease.Recovery.{processing_attempts}
use intrusion_detect.Worker.Failure.{
  classify_failure, dead_row, retry_row, dead_change, retry_change, fail_job, handle_failure,
  retry_delay, retry_limit,
}

dead-KeepsIdentity :
    (now : ℕ) (e : Exception) (error_code : ErrorCode) (retryable : Bool)
    → KeepsIdentity (dead_row now e error_code retryable)
unfolding dead_row
dead-KeepsIdentity now e error_code retryable = record { job = λ row. refl; event = λ row. refl }

retry-KeepsIdentity :
    (now : ℕ) (e : Exception) (error_code : ErrorCode) → KeepsIdentity (retry_row now e error_code)
unfolding retry_row
retry-KeepsIdentity now e error_code = record { job = λ row. refl; event = λ row. refl }

-- The row that a failure leaves.
abbrev pub failed_row : ℕ → Exception → ErrorCode × Bool → IngestionJob → IngestionJob
failed_row now e (error_code, retryable) row =
    if not retryable || ltb retry_limit row.attempts
    then dead_row now e error_code retryable row
    else retry_row now e error_code row

module _ (env : Environment) (now : ℕ) (worker_id : Text) (e : Exception) (error_code : ErrorCode)
    (retryable : Bool) (job : IngestionJob) (db : Store) (found : IsStored db.jobs job) where
  pub fail_job_row :
      job_of_id job.job_id (fail_job env now worker_id e error_code retryable job db).jobs
      ≡ some (stamp now (failed_row now e (error_code, retryable) job))
  unfolding fail_job
  fail_job_row = elim (Bool-cases (not retryable || ltb retry_limit job.attempts)) [
    | inl over ↦ rw over (
        job_of_id-move_self env now job (dead_change worker_id e error_code retryable job)
          (dead_row now e error_code retryable) (dead-KeepsIdentity now e error_code retryable) db
          found)
    | inr again ↦ rw again (
        job_of_id-move_self env now job (retry_change worker_id e error_code job)
          (retry_row now e error_code) (retry-KeepsIdentity now e error_code) db found)
  ]

  pub fail_job-IsValid :
      IsValid env db
      → job.state ≡ processing
      → IsValid env (fail_job env now worker_id e error_code retryable job db)
  unfolding fail_job dead_row retry_row
  fail_job-IsValid v running =
      let (tried, open_end) =
        processing_attempts job job.state (v.shapes job.job_id job found) running in
      elim (Bool-cases (not retryable || ltb retry_limit job.attempts)) [
        | inl over ↦ rw over (
            move_job-IsValid env now job (dead_change worker_id e error_code retryable job)
              (dead_row now e error_code retryable) (dead-KeepsIdentity now e error_code retryable)
              db v
              (record {
                found = found;
                from = ap some (sym running);
                to = refl;
                shape = (tried, refl, refl, λ h. cc, λ h. cc, λ h. cc, λ h. cc);
              }))
        | inr again ↦ rw again (
            move_job-IsValid env now job (retry_change worker_id e error_code job)
              (retry_row now e error_code) (retry-KeepsIdentity now e error_code) db v
              (record {
                found = found;
                from = ap some (sym running);
                to = refl;
                shape = (tried, refl, refl, open_end, λ h. cc, λ h. cc, refl);
              }))
      ]

-- What a failed attempt leads to: after at most three attempts a failure that may pass is tried
-- again, 1, 5 and then 30 seconds later; any other failure, and the fourth, is a dead letter.
abbrev pub Fate : ℕ → Bool → IngestionJob → IngestionJob → Type 0
Fate now true before after =
    ((before.attempts ≤ 3)
      × (after.state ≡ retrying)
      × (((before.attempts ≡ 1) × (after.available_at ≡ now + seconds 1))
          ⊎ ((before.attempts ≡ 2) × (after.available_at ≡ now + seconds 5))
          ⊎ ((before.attempts ≡ 3) × (after.available_at ≡ now + seconds 30))))
    ⊎ ((4 ≤ before.attempts)
        × (after.state ≡ dead_letter)
        × (after.completed_at ≡ some now)
        × (after.retryable ≡ some true))
Fate now false before after =
    (after.state ≡ dead_letter) × (after.completed_at ≡ some now) × (after.retryable ≡ some false)

attempts-cases : (n : ℕ) → 0 < n → (n ≡ 1) ⊎ (n ≡ 2) ⊎ (n ≡ 3) ⊎ (4 ≤ n)
attempts-cases n h = ground arith

-- The delay of each attempt that is tried again.
retry_delays : (retry_delay 1 ≡ 1) × (retry_delay 2 ≡ 5) × (retry_delay 3 ≡ 30)
unfolding retry_delay
retry_delays = (refl, refl, refl)

failed_row-Fate :
    (now : ℕ) (e : Exception) (error_code : ErrorCode) (retryable : Bool) (row : IngestionJob)
    → 0 < row.attempts
    → Fate now retryable row (stamp now (failed_row now e (error_code, retryable) row))
unfolding dead_row retry_row
failed_row-Fate now e error_code true row tried = elim (attempts-cases row.attempts tried) [
  | inl one ↦
      let d : retry_delay row.attempts ≡ 1 = ap retry_delay one ∙ retry_delays.0 in
      ground (arith, one, d)
  | inr (inl two) ↦
      let d : retry_delay row.attempts ≡ 5 = ap retry_delay two ∙ retry_delays.1 in
      ground (arith, two, d)
  | inr (inr (inl three)) ↦
      let d : retry_delay row.attempts ≡ 30 = ap retry_delay three ∙ retry_delays.2 in
      ground (arith, three, d)
  | inr (inr (inr over)) ↦ ground (arith, over)
]
failed_row-Fate now e error_code false row tried = (refl, refl, refl)

-- On a valid store, the handler of a failed attempt at a job in processing returns and leaves a
-- valid store. A failure that may pass is tried again 1, 5 and 30 seconds after the first three
-- attempts and is a dead letter after the fourth; any other failure is a dead letter at once.
pub handle_failure_lem :
    (fold : ℕ → Text) (env : Environment) (now : ℕ) (worker_id : Text) (e : Exception) (job_id : ℕ)
    (job : IngestionJob) (db : Store)
    → IsValid env db
    → job_of_id job_id db.jobs ≡ some job
    → job.state ≡ processing
    → (db' : Store) × (after : IngestionJob) × (handle_failure fold env now worker_id e job_id db
        ≡ some db')
      × IsValid env db'
      × (job_of_id job_id db'.jobs ≡ some after)
      × Fate now (classify_failure fold e).1 job after
unfolding handle_failure
handle_failure_lem fold env now worker_id e job_id job db v found running =
    let (error_code, retryable) = classify_failure fold e in
    let same : job.job_id ≡ job_id = job_of_id_sound job_id db.jobs job found in
    let found' : IsStored db.jobs job = ap (λ (j : ℕ). job_of_id j db.jobs) same ∙ found in
    let tried = (processing_attempts job job.state (v.shapes job_id job found) running).0 in
    let db' = fail_job env now worker_id e error_code retryable job db in
    (
      db',
      stamp now (failed_row now e (error_code, retryable) job),
      rw (found, handle_failure),
      fail_job-IsValid env now worker_id e error_code retryable job db found' v running,
      ap (λ (j : ℕ). job_of_id j db'.jobs) (sym same)
          ∙ fail_job_row env now worker_id e error_code retryable job db found',
      failed_row-Fate now e error_code retryable job tried,
    )
