-- ===== src/Ingestion/Lease/Recovery.antt =====
-- `recover_expired_leases` of backend/app/ingestion/service.py: every expired lease is taken back,
-- and nothing else changes.
use intrusion_detect.Common.{
  ℕ, ◌<◌, ◌≡◌, refl, sym, ap, ◌∙◌, inl, inr, true, none, some, arith, All-keep, Bool-cases, keep,
  ◌⊎◌, false, Option, ltb,
}
use intrusion_detect.Store.{
  Environment, Store, IngestionJob, JobState, queued, processing, retrying, succeeded, dead_letter,
  lease_expired, job_of_id,
}
use intrusion_detect.Store.Jobs.{
  KeepsIdentity, IsStored, All-IsStored, stamp, keep-UniqueIds, job_of_id_sound, All-job_of_id,
  job_of_id-keep-some, job_of_id-keep-none, none-ne,
}
use intrusion_detect.Store.Invariant.{Shape, IsValid}
use intrusion_detect.Store.Moves.{
  IsMovable, move_each-IsValid, job_of_id-move_each_self, job_of_id-move_each_ne,
}
use intrusion_detect.Ingestion.Lease.{
  is_expired, has_expired_lease, recover_row, recovered_change, recover_expired_leases,
}

recover-KeepsIdentity : (now : ℕ) → KeepsIdentity (recover_row now)
unfolding recover_row
recover-KeepsIdentity now = record { job = λ row. refl; event = λ row. refl }

pub processing_attempts :
    (row : IngestionJob) (s : JobState)
    → Shape row s
    → s ≡ processing
    → (0 < row.attempts) × (row.completed_at ≡ none)
processing_attempts row processing h e = (h.0, h.3)
processing_attempts row queued h e = cc
processing_attempts row retrying h e = cc
processing_attempts row succeeded h e = cc
processing_attempts row dead_letter h e = cc

expired-processing :
    (now : ℕ) (row : IngestionJob) → has_expired_lease now row ≡ true → row.state ≡ processing
expired-processing now row h = ground arith

recover-IsMovable :
    (env : Environment) (now : ℕ) (db : Store)
    → IsValid env db
    → (row : IngestionJob) → IsStored db.jobs row
    → has_expired_lease now row ≡ true
    → IsMovable env now recovered_change (recover_row now) (recover-KeepsIdentity now) db.jobs row
unfolding recover_row
recover-IsMovable env now db v row found expired =
    let e = expired-processing now row expired in
    let (tried, open_end) = processing_attempts row row.state (v.shapes row.job_id row found) e in
    record {
      found = found;
      from = ap some (sym e);
      to = refl;
      shape = (tried, refl, refl, open_end, λ e. cc, λ e. cc, refl);
    }

-- The recovery of expired leases in a valid store leaves a valid store.
pub recover_expired_leases-IsValid :
    (env : Environment) (now : ℕ) (db : Store)
    → IsValid env db
    → IsValid env (recover_expired_leases env now db).0
unfolding recover_expired_leases
recover_expired_leases-IsValid env now db v =
    move_each-IsValid env now recovered_change (recover_row now) (recover-KeepsIdentity now)
      (keep (has_expired_lease now) db.jobs) db v
      (keep-UniqueIds (has_expired_lease now) db.jobs v.ids)
      (All-keep (IsStored db.jobs) _ (has_expired_lease now) db.jobs
        (λ row found expired. recover-IsMovable env now db v row found expired)
        (All-IsStored db.jobs v.ids))

-- A job whose lease ran out before `now`.
pub record Expired (now : ℕ) (row : IngestionJob) : Type 0 where
  pub running : row.state ≡ processing
  pub until : ℕ
  pub lease : row.lease_expires_at ≡ some until
  pub past : until < now

-- The stored job waits for its next attempt from `now` on, with the attempts it has had, and with the
-- lost lease as its error.
pub record Retries (now : ℕ) (row stored : IngestionJob) : Type 0 where
  pub waits : stored.state ≡ retrying
  pub due : stored.available_at ≡ now
  pub tried : stored.attempts ≡ row.attempts
  pub unleased : (stored.lease_expires_at ≡ none) × (stored.worker_id ≡ none)
  pub blamed : (stored.error_code ≡ some lease_expired) × (stored.retryable ≡ some true)
  pub same_work : (stored.event_id ≡ row.event_id) × (stored.payload ≡ row.payload)

recover-Retries : (now : ℕ) (row : IngestionJob) → Retries now row (stamp now (recover_row now row))
unfolding recover_row
recover-Retries now row = record {
  waits = refl;
  due = refl;
  tried = refl;
  unleased = (refl, refl);
  blamed = (refl, refl);
  same_work = (refl, refl);
}

expired-lease :
    (now : ℕ) (lease : Option ℕ)
    → is_expired now lease ≡ true
    → (until : ℕ) × (lease ≡ some until) × (until < now)
expired-lease now none h = absurd cc
expired-lease now (some until) h = (until, refl, ground arith)

Expired-of : (now : ℕ) (row : IngestionJob) → has_expired_lease now row ≡ true → Expired now row
Expired-of now row h =
    let (until, lease, past) = expired-lease now row.lease_expires_at (ground arith) in
    record { running = expired-processing now row h; until = until; lease = lease; past = past }

not-Expired : (now : ℕ) (row : IngestionJob) → has_expired_lease now row ≡ false → ¬ Expired now row
not-Expired now row h x =
    let passed : ltb x.until now ≡ true = ground (arith, x.past) in
    let holds : has_expired_lease now row ≡ true = rw (x.running, x.lease, passed) refl in cc

-- On a valid store, after a recovery every job is stored: one whose lease has expired waits to be
-- tried again at once, with its attempts, without lease and worker, and any other one as it was.
pub recover_each_job :
    (env : Environment) (now j : ℕ) (row : IngestionJob) (db : Store)
    → IsValid env db
    → job_of_id j db.jobs ≡ some row
    → (stored : IngestionJob) × (job_of_id j (recover_expired_leases env now db).0.jobs
        ≡ some stored)
      × ((Expired now row × Retries now row stored) ⊎ ((¬ Expired now row) × (stored ≡ row)))
unfolding recover_expired_leases
recover_each_job env now j row db v h =
    let p = has_expired_lease now in
    let rows = keep p db.jobs in
    elim (Bool-cases (has_expired_lease now row)) [
      | inl expired ↦ (
        stamp now (recover_row now row),
        rw (← job_of_id_sound j db.jobs row h) (
            All-job_of_id _ j rows row
              (job_of_id-move_each_self env now recovered_change (recover_row now)
                (recover-KeepsIdentity now) rows db (keep-UniqueIds p db.jobs v.ids)
                (All-keep (IsStored db.jobs) (IsStored db.jobs) p db.jobs (λ r s _. s)
                  (All-IsStored db.jobs v.ids)))
              (job_of_id-keep-some p j db.jobs row h expired)),
        inl (Expired-of now row expired, recover-Retries now row),
      )
      | inr current ↦ (
        row,
        job_of_id-move_each_ne env now recovered_change (recover_row now)
              (recover-KeepsIdentity now) j rows db
              (none-ne j rows (job_of_id-keep-none p j db.jobs row v.ids h current))
            ∙ h,
        inr (not-Expired now row current, refl),
      )
    ]
