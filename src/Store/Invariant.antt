-- ===== src/Store/Invariant.antt =====
-- What holds of the job table and its audit trail between two transactions
-- (backend/app/database/models.py, backend/app/ingestion/service.py), and how one recorded
-- transition keeps it.
use intrusion_detect.Common.{
  ℕ, ◌≤◌, ◌<◌, ◌≡◌, refl, ◌≢◌, Bool, true, false, Option, none, some, List, [], ◌∷◌, ◌++◌, arith,
  ◌==◌, if◌then◌else◌,
}
use intrusion_detect.Store.{
  Environment, Store, IngestionJob, JobTransition, JobState, queued, processing, retrying,
  succeeded, dead_letter, state_eq, job_of_id,
}
use intrusion_detect.Store.Jobs.{UniqueIds, UniqueEvents}

-- A job by its state: exactly a job in processing has a lease and a worker.
abbrev pub Shape : IngestionJob → JobState → Type 0
Shape row queued =
    (row.attempts ≡ 0)
    × (row.lease_expires_at ≡ none)
    × (row.worker_id ≡ none)
    × (row.completed_at ≡ none)
    × (row.last_error ≡ none)
    × (row.error_code ≡ none)
    × (row.retryable ≡ none)
Shape row processing =
    (0 < row.attempts)
    × (row.lease_expires_at ≢ none)
    × (row.worker_id ≢ none)
    × (row.completed_at ≡ none)
Shape row retrying =
    (0 < row.attempts)
    × (row.lease_expires_at ≡ none)
    × (row.worker_id ≡ none)
    × (row.completed_at ≡ none)
    × (row.last_error ≢ none)
    × (row.error_code ≢ none)
    × (row.retryable ≡ some true)
Shape row succeeded =
    (0 < row.attempts)
    × (row.lease_expires_at ≡ none)
    × (row.worker_id ≡ none)
    × (row.completed_at ≢ none)
    × (row.last_error ≡ none)
    × (row.error_code ≡ none)
    × (row.retryable ≡ none)
Shape row dead_letter =
    (0 < row.attempts)
    × (row.lease_expires_at ≡ none)
    × (row.worker_id ≡ none)
    × (row.completed_at ≢ none)
    × (row.last_error ≢ none)
    × (row.error_code ≢ none)
    × (row.retryable ≢ none)

abbrev pub HasShape : IngestionJob → Type 0
HasShape row = Shape row row.state

abbrev pub state_option_eq : Option JobState → Option JobState → Bool
state_option_eq none none = true
state_option_eq (some s) (some t) = state_eq s t
state_option_eq _ _ = false

-- The state that a job's transitions lead to, from `current`, if each begins where the one before
-- it ended.
abbrev pub replay : ℕ → Option JobState → List JobTransition → Option (Option JobState)
replay job_id current [] = some current
replay job_id current (t ∷ ts) =
    let rest = replay job_id (some t.to_state) ts in
    let other = replay job_id current ts in
    if t.job_id == job_id
    then if state_option_eq t.from_state current then rest else none
    else other

abbrev pub history : ℕ → Store → Option (Option JobState)
history job_id db = replay job_id none db.transitions

pub record IsValid (env : Environment) (db : Store) : Type 0 where
  pub ids : UniqueIds db.jobs
  pub events : UniqueEvents db.jobs
  pub shapes : (j : ℕ) (row : IngestionJob) → job_of_id j db.jobs ≡ some row → HasShape row
  -- the trail of each job is linked and ends in its state
  pub audit :
      (j : ℕ) (row : IngestionJob)
      → job_of_id j db.jobs ≡ some row
      → history j db ≡ some (some row.state)
  -- a draw to come is not in use
  pub unused : (n : ℕ) → db.draws ≤ n → job_of_id (env.uuids n) db.jobs ≡ none
  pub unheard : (n : ℕ) → db.draws ≤ n → history (env.uuids n) db ≡ some none

-- The UUIDs are pairwise different.
abbrev pub AreDistinct : Environment → Type 0
AreDistinct env = (m n : ℕ) → env.uuids m ≡ env.uuids n → m ≡ n

pub replay-append_other :
    (j : ℕ) (current : Option JobState) (ts : List JobTransition) (t : JobTransition)
    → t.job_id ≢ j
    → replay j current (ts ++ t ∷ []) ≡ replay j current ts
replay-append_other j current [] t ne = ground arith
replay-append_other j current (t' ∷ ts) t ne =
    ground (
      arith,
      replay-append_other j current ts t ne,
      replay-append_other j (some t'.to_state) ts t ne,
    )

pub replay-append_self :
    (j : ℕ) (current state : Option JobState) (ts : List JobTransition) (t : JobTransition)
    → t.job_id ≡ j
    → replay j current ts ≡ some state
    → state_option_eq t.from_state state ≡ true
    → replay j current (ts ++ t ∷ []) ≡ some (some t.to_state)
replay-append_self j current state [] t e h s = ground arith
replay-append_self j current state (t' ∷ ts) t e h s = ground (
  arith,
  replay-append_self j current state ts t e,
  replay-append_self j (some t'.to_state) state ts t e,
)

pub state_option_eq_self : (s : JobState) → state_option_eq (some s) (some s) ≡ true
state_option_eq_self queued = refl
state_option_eq_self _ = refl

-- Tables other than the jobs and their trail do not matter, and more draws may have been made.
pub unchanged-IsValid :
    (env : Environment) (db db' : Store)
    → db'.jobs ≡ db.jobs
    → db'.transitions ≡ db.transitions
    → db.draws ≤ db'.draws
    → IsValid env db
    → IsValid env db'
unchanged-IsValid env db db' same_jobs same_trail more v = record {
  ids = rw same_jobs v.ids;
  events = rw same_jobs v.events;
  shapes = rw same_jobs v.shapes;
  audit = rw (same_jobs, same_trail) v.audit;
  unused = λ n h. rw same_jobs (v.unused n (omega arith));
  unheard = λ n h. rw same_trail (v.unheard n (omega arith));
}
