-- ===== src/Ingestion/Lease/Claims.antt =====
-- `claim_next_job` of backend/app/ingestion/service.py: which job is claimed, and that no two
-- claims get one job.
use mathlib.Core.Path.{subst}
use mathlib.Core.Option.{some-injective}
use intrusion_detect.Common.{
  ℕ, ◌+◌, ◌≤◌, ◌≡◌, refl, sym, ap, ◌∙◌, ◌≢◌, ◌⊎◌, inl, inr, true, Option, none, some, [], Text,
  arith, Option-cases, keep,
}
use intrusion_detect.Store.{
  Environment, Store, IngestionJob, JobState, queued, processing, retrying, succeeded, dead_letter,
  job_of_id,
}
use intrusion_detect.Store.Jobs.{KeepsIdentity, IsStored, stamp}
use intrusion_detect.Store.Invariant.{Shape, IsValid}
use intrusion_detect.Store.Moves.{IsLegal, move_job-IsValid, job_of_id-move_self}
use intrusion_detect.Ingestion.Lease.{
  is_claimable, is_waiting, next_claimable, claim_row, claimed_change, claim_next_job, claim_found,
  seconds,
}
use intrusion_detect.Ingestion.Lease.Oldest.{
  IsOldest, first-IsOldest, first-none, next_claimable-found,
}

claim-KeepsIdentity :
    (now : ℕ) (worker_id : Text) (lease_seconds : ℕ)
    → KeepsIdentity (claim_row now worker_id lease_seconds)
unfolding claim_row
claim-KeepsIdentity now worker_id lease_seconds = record { job = λ row. refl; event = λ row. refl }

waiting-completed :
    (row : IngestionJob) (s : JobState)
    → Shape row s
    → is_waiting s ≡ true
    → row.completed_at ≡ none
waiting-completed row queued h w = h.3
waiting-completed row retrying h w = h.3
waiting-completed row processing h w = cc
waiting-completed row succeeded h w = cc
waiting-completed row dead_letter h w = cc

claim-IsLegal :
    (env : Environment) (now : ℕ) (worker_id : Text) (lease_seconds : ℕ) (row : IngestionJob)
    (db : Store)
    → IsValid env db
    → IsStored db.jobs row
    → is_claimable now row ≡ true
    → IsLegal env now row
        (claimed_change worker_id row)
        (claim_row now worker_id lease_seconds)
        (claim-KeepsIdentity now worker_id lease_seconds)
        db
unfolding claim_row
claim-IsLegal env now worker_id lease_seconds row db v found due = record {
  found = found;
  from = refl;
  to = refl;
  shape = (
    omega arith,
    λ e. cc,
    λ e. cc,
    waiting-completed row row.state (v.shapes row.job_id row found) (ground (arith, due)),
  );
}

claim_found-IsValid :
    (env : Environment) (now : ℕ) (worker_id : Text) (lease_seconds : ℕ) (db : Store)
    (found : Option IngestionJob)
    → IsValid env db
    → ((row : IngestionJob)
        → found ≡ some row
        → IsStored db.jobs row × (is_claimable now row ≡ true))
    → IsValid env (claim_found env now worker_id lease_seconds db found).0
unfolding claim_found
claim_found-IsValid env now worker_id lease_seconds db none v h = v
claim_found-IsValid env now worker_id lease_seconds db (some row) v h =
    move_job-IsValid env now row (claimed_change worker_id row)
      (claim_row now worker_id lease_seconds) (claim-KeepsIdentity now worker_id lease_seconds) db v
      (claim-IsLegal env now worker_id lease_seconds row db v (h row refl).0 (h row refl).1)

-- A claim on a valid store leaves a valid store.
pub claim_next_job-IsValid :
    (env : Environment) (now : ℕ) (worker_id : Text) (lease_seconds : ℕ) (db : Store)
    → IsValid env db
    → IsValid env (claim_next_job env now worker_id lease_seconds db).0
unfolding claim_next_job
claim_next_job-IsValid env now worker_id lease_seconds db v =
    claim_found-IsValid env now worker_id lease_seconds db (next_claimable now db.jobs) v
      (λ row e. next_claimable-found now db.jobs row v.ids e)

-- What a call that claims did: it took a stored row that waits and is due, none that waits and is
-- due is older, and the stored row is now in processing, with one more attempt and a lease.
pub record Claimed (env : Environment) (now : ℕ) (worker_id : Text) (lease_seconds : ℕ) (db : Store)
    (claimed : IngestionJob) : Type 0 where
  pub row : IngestionJob
  pub stored : IsStored db.jobs row
  pub waited : is_waiting row.state ≡ true
  pub was_due : row.available_at ≤ now
  pub first : IsOldest row (keep (is_claimable now) db.jobs)
  pub same_job : claimed.job_id ≡ row.job_id
  pub now_processing : claimed.state ≡ processing
  pub one_more : claimed.attempts ≡ row.attempts + 1
  pub leased : claimed.lease_expires_at ≡ some (now + seconds lease_seconds)
  pub owned : claimed.worker_id ≡ some worker_id
  pub saved :
      job_of_id row.job_id (claim_next_job env now worker_id lease_seconds db).0.jobs
      ≡ some (stamp now claimed)

-- On a valid store a claim takes a stored job that waits and is due, than which no such job is
-- older, and its row is stored in processing with one more attempt, the lease and the worker; or
-- no job waits and is due, and the store stays as it is.
pub claim_next_job_lem :
    (env : Environment) (now : ℕ) (worker_id : Text) (lease_seconds : ℕ) (db : Store)
    → IsValid env db
    → ((claimed : IngestionJob) × ((claim_next_job env now worker_id lease_seconds db).1
          ≡ some claimed)
        × Claimed env now worker_id lease_seconds db claimed)
      ⊎ ((keep (is_claimable now) db.jobs ≡ [])
          × (claim_next_job env now worker_id lease_seconds db ≡ (db, none)))
unfolding claim_next_job claim_found
claim_next_job_lem env now worker_id lease_seconds db v =
    elim (Option-cases (next_claimable now db.jobs)) [
      | inl e ↦ inr (unfold next_claimable in first-none (keep (is_claimable now) db.jobs) e, rw e)
      | inr (row, e) ↦
          let (found, due) = next_claimable-found now db.jobs row v.ids e in
          inl (
            claim_row now worker_id lease_seconds row,
            rw e,
            record {
              row = row;
              stored = found;
              waited = ground (arith, due);
              was_due = ground (arith, due);
              first =
                  unfold next_claimable in first-IsOldest (keep (is_claimable now) db.jobs) row e;
              same_job = unfold claim_row in refl;
              now_processing = unfold claim_row in refl;
              one_more = unfold claim_row in refl;
              leased = unfold claim_row in refl;
              owned = unfold claim_row in refl;
              saved = rw e (
                  job_of_id-move_self env now row (claimed_change worker_id row)
                    (claim_row now worker_id lease_seconds)
                    (claim-KeepsIdentity now worker_id lease_seconds) db found);
            },
          )
    ]

Claimed-of :
    (env : Environment) (now : ℕ) (worker_id : Text) (lease_seconds : ℕ) (db : Store)
    (a : IngestionJob)
    → IsValid env db
    → (claim_next_job env now worker_id lease_seconds db).1 ≡ some a
    → Claimed env now worker_id lease_seconds db a
Claimed-of env now worker_id lease_seconds db a v e =
    elim (claim_next_job_lem env now worker_id lease_seconds db v) [
      | inl (claimed, e', c) ↦
          subst (Claimed env now worker_id lease_seconds db) (some-injective _ _ (sym e' ∙ e)) c
      | inr (_, e') ↦ cc (e, ap (λ (r : Store × Option IngestionJob). r.1) e')
    ]

processing-ne-waiting : (row : IngestionJob) → row.state ≡ processing → is_waiting row.state ≢ true
processing-ne-waiting row e w = ground arith

-- On a valid store, two claims in a row that both get a job, by any workers and at any times, get
-- different jobs.
pub claims_exclusive :
    (env : Environment) (now later : ℕ) (worker other : Text) (lease_seconds : ℕ) (db : Store)
    (a b : IngestionJob)
    → IsValid env db
    → (claim_next_job env now worker lease_seconds db).1 ≡ some a
    → (claim_next_job env later other lease_seconds
        (claim_next_job env now worker lease_seconds db).0).1
      ≡ some b
    → a.job_id ≢ b.job_id
claims_exclusive env now later worker other lease_seconds db a b v ea eb same =
    let db' = (claim_next_job env now worker lease_seconds db).0 in
    let ca = Claimed-of env now worker lease_seconds db a v ea in
    let cb =
      Claimed-of env later other lease_seconds db' b
        (claim_next_job-IsValid env now worker lease_seconds db v) eb in
    let e : ca.row.job_id ≡ cb.row.job_id = sym ca.same_job ∙ same ∙ cb.same_job in
    let row : stamp now a ≡ cb.row =
      some-injective _ _ (sym ca.saved ∙ ap (λ (j : ℕ). job_of_id j db'.jobs) e ∙ cb.stored) in
    processing-ne-waiting cb.row (subst (λ r. r.state ≡ processing) row ca.now_processing) cb.waited
