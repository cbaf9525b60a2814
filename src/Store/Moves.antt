-- ===== src/Store/Moves.antt =====
-- A recorded transition (`record_transition` of backend/app/ingestion/service.py with the mutation
-- of its row) keeps the invariant of the store.
use mathlib.Core.Path.{subst}
use mathlib.Core.Option.{some-injective}
use intrusion_detect.Common.{
  ℕ, ◌≡◌, refl, sym, ◌∙◌, ◌≢◌, true, inl, inr, none, some, List, [], ◌∷◌, arith, ◌==◌, Bool-cases,
  ==_iff, All, All-both, All-imp,
}
use intrusion_detect.Store.{
  Environment, Store, IngestionJob, JobState, queued, processing, retrying, succeeded, dead_letter,
  Change, job_of_id, move_job, move_each,
}
use intrusion_detect.Store.Jobs.{
  UniqueIds, KeepsIdentity, IsStored, stamp, none-ne, job_of_id-update_ne, job_of_id-update_self,
  job_of_id-update_none, update_job-UniqueIds, update_job-UniqueEvents,
}
use intrusion_detect.Store.Invariant.{
  Shape, HasShape, state_option_eq, history, IsValid, replay-append_other, replay-append_self,
  state_option_eq_self,
}

stamp-Shape : (now : ℕ) (row : IngestionJob) (s : JobState) → Shape row s → Shape (stamp now row) s
stamp-Shape now row queued h = h
stamp-Shape now row processing h = h
stamp-Shape now row retrying h = h
stamp-Shape now row succeeded h = h
stamp-Shape now row dead_letter h = h

module _ (env : Environment) (now : ℕ) (job : IngestionJob) (change : Change)
    (mutate : IngestionJob → IngestionJob) (keeps : KeepsIdentity mutate) (db : Store) where
  -- The row that a key finds afterwards.
  pub job_of_id-move_self :
      job_of_id job.job_id db.jobs ≡ some job
      → job_of_id job.job_id (move_job env now job change mutate db).jobs
        ≡ some (stamp now (mutate job))
  unfolding move_job
  job_of_id-move_self found = job_of_id-update_self job.job_id now mutate keeps db.jobs job found

  pub job_of_id-move_ne :
      (j : ℕ)
      → j ≢ job.job_id
      → job_of_id j (move_job env now job change mutate db).jobs ≡ job_of_id j db.jobs
  unfolding move_job
  job_of_id-move_ne j ne = job_of_id-update_ne job.job_id now mutate keeps j db.jobs ne

  history-move_ne :
      (j : ℕ) → j ≢ job.job_id → history j (move_job env now job change mutate db) ≡ history j db
  unfolding move_job
  history-move_ne j ne = replay-append_other j none db.transitions _ (λ e. ne (sym e))

  -- A transition from the state that the job is in, to the state that the mutation gives it.
  pub record IsLegal : Type 0 where
    pub found : job_of_id job.job_id db.jobs ≡ some job
    pub from : change.from_state ≡ some job.state
    pub to : (mutate job).state ≡ change.to_state
    pub shape : HasShape (mutate job)

  history-move_self :
      IsValid env db
      → IsLegal
      → history job.job_id (move_job env now job change mutate db) ≡ some (some change.to_state)
  unfolding move_job
  history-move_self v l =
      replay-append_self job.job_id none (some job.state) db.transitions _ refl
        (v.audit job.job_id job l.found)
        (subst (λ s. state_option_eq s (some job.state) ≡ true) (sym l.from)
          (state_option_eq_self job.state))

  moved_row :
      IsLegal
      → (j : ℕ) (row : IngestionJob) → j ≡ job.job_id
      → job_of_id j (move_job env now job change mutate db).jobs ≡ some row
      → stamp now (mutate job) ≡ row
  moved_row l j row e h = some-injective _ _ (
      sym (job_of_id-move_self l.found)
      ∙ subst (λ k. job_of_id k (move_job env now job change mutate db).jobs ≡ some row) e h)

  shape_moved :
      IsValid env db
      → IsLegal
      → (j : ℕ) (row : IngestionJob)
      → job_of_id j (move_job env now job change mutate db).jobs ≡ some row
      → HasShape row
  shape_moved v l j row h = elim (Bool-cases (j == job.job_id)) [
    | inl same ↦
        subst HasShape (moved_row l j row ((==_iff _ _).0 same) h)
          (stamp-Shape now (mutate job) (mutate job).state l.shape)
    | inr other ↦ v.shapes j row (sym (job_of_id-move_ne j (ground (arith, other))) ∙ h)
  ]

  audit_moved :
      IsValid env db
      → IsLegal
      → (j : ℕ) (row : IngestionJob)
      → job_of_id j (move_job env now job change mutate db).jobs ≡ some row
      → history j (move_job env now job change mutate db) ≡ some (some row.state)
  audit_moved v l j row h = elim (Bool-cases (j == job.job_id)) [
    | inl same ↦
        let e : j ≡ job.job_id = (==_iff _ _).0 same in
        let moved : stamp now (mutate job) ≡ row = moved_row l j row e h in
        subst (λ k. history k (move_job env now job change mutate db) ≡ some (some row.state))
          (sym e)
          (subst
            (λ r. history job.job_id (move_job env now job change mutate db) ≡ some (some r.state))
            moved (rw l.to (history-move_self v l)))
    | inr other ↦
        let ne : j ≢ job.job_id = ground (arith, other) in
        history-move_ne j ne ∙ v.audit j row (sym (job_of_id-move_ne j ne) ∙ h)
  ]

  pub move_job-IsValid :
      IsValid env db → IsLegal → IsValid env (move_job env now job change mutate db)
  unfolding move_job
  move_job-IsValid v l = record {
    ids = update_job-UniqueIds job.job_id now mutate keeps db.jobs v.ids;
    events = update_job-UniqueEvents job.job_id now mutate keeps db.jobs v.events;
    shapes = shape_moved v l;
    audit = audit_moved v l;
    unused = λ n h.
        job_of_id-update_none job.job_id now mutate keeps _ db.jobs (v.unused n (omega arith));
    unheard = λ n h.
        history-move_ne (env.uuids n) (λ e. cc (v.unused n (omega arith), l.found, e))
        ∙ v.unheard n (omega arith);
  }

-- The same for a loop over rows of the table.
module _ (env : Environment) (now : ℕ) (change : IngestionJob → Change)
    (mutate : IngestionJob → IngestionJob) (keeps : KeepsIdentity mutate) where
  -- What each row of the loop has to satisfy.
  pub record IsMovable (table : List IngestionJob) (row : IngestionJob) : Type 0 where
    pub found : IsStored table row
    pub from : (change row).from_state ≡ some row.state
    pub to : (mutate row).state ≡ (change row).to_state
    pub shape : HasShape (mutate row)

  abbrev after : IngestionJob → Store → Store
  after row db = move_job env now row (change row) mutate db

  still-IsMovable :
      (row : IngestionJob) (rows : List IngestionJob) (db : Store)
      → job_of_id row.job_id rows ≡ none
      → All (IsMovable db.jobs) rows
      → All (IsMovable (after row db).jobs) rows
  still-IsMovable row rows db new h =
      All-imp (λ r. IsMovable db.jobs r × (r.job_id ≢ row.job_id)) (IsMovable (after row db).jobs)
        rows
        (λ r (m, ne). record {
          found = job_of_id-move_ne env now row (change row) mutate keeps db r.job_id ne ∙ m.found;
          from = m.from;
          to = m.to;
          shape = m.shape;
        })
        (All-both (IsMovable db.jobs) (λ r. r.job_id ≢ row.job_id) rows h
          (none-ne row.job_id rows new))

  pub move_each-IsValid :
      (rows : List IngestionJob) (db : Store)
      → IsValid env db
      → UniqueIds rows
      → All (IsMovable db.jobs) rows
      → IsValid env (move_each env now change mutate rows db)
  unfolding move_each
  move_each-IsValid [] db v u h = v
  move_each-IsValid (row ∷ rows) db v u h =
      move_each-IsValid rows (after row db)
        (move_job-IsValid env now row (change row) mutate keeps db v
          (record { found = h.0.found; from = h.0.from; to = h.0.to; shape = h.0.shape }))
        u.1 (still-IsMovable row rows db u.0 h.1)

  -- The rows that a loop does not name stay as they are.
  pub job_of_id-move_each_ne :
      (j : ℕ) (rows : List IngestionJob) (db : Store)
      → All (λ row. row.job_id ≢ j) rows
      → job_of_id j (move_each env now change mutate rows db).jobs ≡ job_of_id j db.jobs
  unfolding move_each
  job_of_id-move_each_ne j [] db h = refl
  job_of_id-move_each_ne j (row ∷ rows) db h =
      job_of_id-move_each_ne j rows (after row db) h.1
      ∙ job_of_id-move_ne env now row (change row) mutate keeps db j (λ e. h.0 (sym e))

  -- Each row of the loop ends as the mutation of what it was.
  pub job_of_id-move_each_self :
      (rows : List IngestionJob) (db : Store)
      → UniqueIds rows
      → All (IsStored db.jobs) rows
      → All
          (λ row.
            job_of_id row.job_id (move_each env now change mutate rows db).jobs
            ≡ some (stamp now (mutate row)))
          rows
  unfolding move_each
  job_of_id-move_each_self [] db u h = tt
  job_of_id-move_each_self (row ∷ rows) db u h = (
    job_of_id-move_each_ne row.job_id rows (after row db) (none-ne row.job_id rows u.0)
        ∙ job_of_id-move_self env now row (change row) mutate keeps db h.0,
    job_of_id-move_each_self rows (after row db) u.1 (
        All-imp (λ r. IsStored db.jobs r × (r.job_id ≢ row.job_id)) (IsStored (after row db).jobs)
          rows
          (λ r (m, ne). job_of_id-move_ne env now row (change row) mutate keeps db r.job_id ne ∙ m)
          (All-both (IsStored db.jobs) (λ r. r.job_id ≢ row.job_id) rows h.1
            (none-ne row.job_id rows u.0))),
  )
