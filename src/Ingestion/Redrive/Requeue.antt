-- ===== src/Ingestion/Redrive/Requeue.antt =====
-- `redrive_events` of backend/app/ingestion/service.py: a redrive is all or nothing, keeps the
-- store valid, and puts every requested job back into the queue.
use mathlib.Core.Path.{subst}
use intrusion_detect.Common.{
  ℕ, ◌+◌, ◌≡◌, refl, sym, ap, ◌⊎◌, inl, inr, Bool, true, false, Option, none, some, List, [], ◌∷◌,
  Text, strip, arith, Option-cases, All, All-imp, is_none,
}
use intrusion_detect.Store.{Environment, Store, IngestionJob, queued, job_of_event, job_of_id}
use intrusion_detect.Store.Jobs.{KeepsIdentity, IsStored, stamp}
use intrusion_detect.Store.Invariant.{IsValid}
use intrusion_detect.Store.Moves.{move_each-IsValid, job_of_id-move_each_self}
use intrusion_detect.Ingestion.Redrive.{
  CompatibilityCheck, evaluate_redrive, evaluate_found, evaluate_all, eligible_rows, all_eligible,
  add_eligible, requeue_row, redriven_change, requeue_each, has_duplicate, request_error, answered,
  redrive_checked, redrive_events, RedriveResult,
}
use intrusion_detect.Ingestion.Redrive.Eligible.{IsEligible, evaluate_redrive_iff}
use intrusion_detect.Ingestion.Redrive.Picked.{
  Picked, eligible_rows-Picked, eligible_rows-UniqueIds,
}

requeue-KeepsIdentity :
    (now : ℕ) (operator reason : Text) → KeepsIdentity (requeue_row now operator reason)
unfolding requeue_row
requeue-KeepsIdentity now operator reason = record { job = λ row. refl; event = λ row. refl }

requeue_each-IsValid :
    (env : Environment) (now : ℕ) (check : CompatibilityCheck) (operator reason : Text)
    (event_ids : List ℕ) (db : Store)
    → IsValid env db
    → has_duplicate event_ids ≡ false
    → IsValid env
        (requeue_each env now operator reason (eligible_rows env now check db event_ids) db)
unfolding requeue_each
requeue_each-IsValid env now check operator reason event_ids db v d =
    move_each-IsValid env now (redriven_change operator reason) (requeue_row now operator reason)
      (requeue-KeepsIdentity now operator reason) (eligible_rows env now check db event_ids) db v
      (eligible_rows-UniqueIds env now check db v event_ids d)
      (All-imp (Picked env now check db v event_ids) _ (eligible_rows env now check db event_ids)
        (λ row p. record {
          found = p.stored;
          from = ap some (sym p.dead);
          to = unfold requeue_row in refl;
          shape = unfold requeue_row in (refl, refl, refl, refl, refl, refl, refl);
        })
        (eligible_rows-Picked env now check db v event_ids))

request_unique :
    (operator reason : Text) (event_ids : List ℕ)
    → request_error operator reason event_ids ≡ none
    → has_duplicate event_ids ≡ false
unfolding request_error
request_unique operator reason event_ids e = ground arith

-- An answer comes of a request without fault. A dry run leaves the store; any other answer means
-- that every event was eligible, and gives the store with the rows put back.
answered_inv :
    (env : Environment) (now : ℕ) (check : CompatibilityCheck) (operator reason : Text)
    (dry_run : Bool) (event_ids : List ℕ) (db db' : Store) (results : List RedriveResult)
    → redrive_events env now check operator reason dry_run event_ids db ≡ answered results db'
    → (has_duplicate event_ids ≡ false)
      × (((dry_run ≡ true) × (db' ≡ db))
          ⊎ ((all_eligible (evaluate_all env now check db event_ids) ≡ true)
              × (db'
                  ≡ requeue_each env now operator reason
                      (eligible_rows env now check db event_ids)
                      db)))
unfolding redrive_events redrive_checked
answered_inv env now check operator reason dry_run event_ids db db' results e =
    elim (Option-cases (request_error operator reason event_ids)) [
      | inl fine ↦ (request_unique operator reason event_ids fine, ground arith)
      | inr (error, bad) ↦ ground arith
    ]

-- A redrive of a valid store that is answered, a dry run or not, leaves a valid store.
pub redrive_events-IsValid :
    (env : Environment) (now : ℕ) (check : CompatibilityCheck) (operator reason : Text)
    (dry_run : Bool) (event_ids : List ℕ) (db db' : Store) (results : List RedriveResult)
    → IsValid env db
    → redrive_events env now check operator reason dry_run event_ids db ≡ answered results db'
    → IsValid env db'
redrive_events-IsValid env now check operator reason dry_run event_ids db db' results v e =
    let (d, ends) = answered_inv env now check operator reason dry_run event_ids db db' results e in
    elim ends [
      | inl (dry, same) ↦ subst (IsValid env) (sym same) v
      | inr (all, same) ↦
          subst (IsValid env) (sym same)
            (requeue_each-IsValid env now check operator reason event_ids db v d)
    ]

-- A stored job that waits in the queue from `now` on, like a new one, and says who put it back.
pub record IsQueued (now : ℕ) (operator reason : Text) (row stored : IngestionJob) : Type 0 where
  pub waits : stored.state ≡ queued
  pub due : stored.available_at ≡ now
  pub untried : stored.attempts ≡ 0
  pub unleased : (stored.lease_expires_at ≡ none) × (stored.worker_id ≡ none)
  pub unfinished : stored.completed_at ≡ none
  pub blameless :
      (stored.error_code ≡ none) × (stored.retryable ≡ none) × (stored.last_error ≡ none)
  pub same_work : (stored.event_id ≡ row.event_id) × (stored.payload ≡ row.payload)
  pub counted : stored.redrive_count ≡ row.redrive_count + 1
  pub at : stored.last_redriven_at ≡ some now
  pub by : stored.last_redriven_by ≡ some (strip operator)
  pub because : stored.last_redrive_reason ≡ some (strip reason)

-- A requested event whose job was eligible and is in the queue now.
pub record Redriven (env : Environment) (now : ℕ) (check : CompatibilityCheck)
    (operator reason : Text) (db db' : Store) (event_id : ℕ) : Type 0 where
  pub row : IngestionJob
  pub eligible : IsEligible env now check event_id db row
  pub stored : IngestionJob
  pub found : job_of_id row.job_id db'.jobs ≡ some stored
  pub requeued : IsQueued now operator reason row stored

requeue-IsQueued :
    (now : ℕ) (operator reason : Text) (row : IngestionJob)
    → IsQueued now operator reason row (stamp now (requeue_row now operator reason row))
unfolding requeue_row
requeue-IsQueued now operator reason row = record {
  waits = refl;
  due = refl;
  untried = refl;
  unleased = (refl, refl);
  unfinished = refl;
  blameless = (refl, refl, refl);
  same_work = (refl, refl);
  counted = refl;
  at = refl;
  by = refl;
  because = refl;
}

evaluated_found :
    (env : Environment) (now : ℕ) (check : CompatibilityCheck) (event_id : ℕ) (db : Store)
    (found : Option IngestionJob)
    → is_none (evaluate_found env now check event_id db found).1 ≡ true
    → (row : IngestionJob) × (evaluate_found env now check event_id db found ≡ (some row, none))
unfolding evaluate_found
evaluated_found env now check event_id db none e = cc
evaluated_found env now check event_id db (some row) e = (row, ground (arith, e))

evaluated :
    (env : Environment) (now : ℕ) (check : CompatibilityCheck) (event_id : ℕ) (db : Store)
    → is_none (evaluate_redrive env now check event_id db).1 ≡ true
    → (row : IngestionJob) × (evaluate_redrive env now check event_id db ≡ (some row, none))
unfolding evaluate_redrive
evaluated env now check event_id db =
    evaluated_found env now check event_id db (job_of_event event_id db.jobs)

-- The rows put back, read by the events that were asked for.
All-Redriven :
    (env : Environment) (now : ℕ) (check : CompatibilityCheck) (operator reason : Text)
    (db db' : Store) (event_ids : List ℕ)
    → all_eligible (evaluate_all env now check db event_ids) ≡ true
    → All
        (λ row.
          job_of_id row.job_id db'.jobs ≡ some (stamp now (requeue_row now operator reason row)))
        (eligible_rows env now check db event_ids)
    → All (Redriven env now check operator reason db db') event_ids
unfolding evaluate_all eligible_rows
All-Redriven env now check operator reason db db' [] e h = tt
All-Redriven env now check operator reason db db' (event_id ∷ event_ids) e h =
    let (row, evaluation) = evaluated env now check event_id db (ground (arith, e)) in
    let h' : All
        (λ r. job_of_id r.job_id db'.jobs ≡ some (stamp now (requeue_row now operator reason r)))
        (row ∷ eligible_rows env now check db event_ids) =
      subst
        (λ p.
          All
            (λ r.
              job_of_id r.job_id db'.jobs ≡ some (stamp now (requeue_row now operator reason r)))
            (add_eligible p (eligible_rows env now check db event_ids)))
        evaluation h in
    (
      record {
        row = row;
        eligible = (evaluate_redrive_iff env now check event_id db row).0 evaluation;
        stored = stamp now (requeue_row now operator reason row);
        found = h'.0;
        requeued = requeue-IsQueued now operator reason row;
      },
      All-Redriven env now check operator reason db db' event_ids (ground (arith, e)) h'.1,
    )

-- A redrive of a valid store that is no dry run and is answered has put the job of every requested
-- event back into the queue: each was eligible, and its stored row is queued and due at once, with no
-- attempts, no lease, no end and no error, the same payload, and one more redrive by this operator.
pub redrive_events_lem :
    (env : Environment) (now : ℕ) (check : CompatibilityCheck) (operator reason : Text)
    (event_ids : List ℕ) (db db' : Store) (results : List RedriveResult)
    → IsValid env db
    → redrive_events env now check operator reason false event_ids db ≡ answered results db'
    → All (Redriven env now check operator reason db db') event_ids
redrive_events_lem env now check operator reason event_ids db db' results v e =
    let (d, ends) = answered_inv env now check operator reason false event_ids db db' results e in
    elim ends [
      | inl (dry, same) ↦ cc
      | inr (all, same) ↦ All-Redriven env now check operator reason db db' event_ids all (
          subst
            (λ s.
              All
                (λ row.
                  job_of_id row.job_id s.jobs
                  ≡ some (stamp now (requeue_row now operator reason row)))
                (eligible_rows env now check db event_ids))
            (sym same)
            (unfold requeue_each in
              job_of_id-move_each_self env now (redriven_change operator reason)
                (requeue_row now operator reason) (requeue-KeepsIdentity now operator reason)
                (eligible_rows env now check db event_ids) db
                (eligible_rows-UniqueIds env now check db v event_ids d)
                (All-imp (Picked env now check db v event_ids) (IsStored db.jobs)
                  (eligible_rows env now check db event_ids) (λ row p. p.stored)
                  (eligible_rows-Picked env now check db v event_ids))))
    ]
