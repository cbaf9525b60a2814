-- ===== src/Ingestion/Redrive/Eligible.antt =====
-- `evaluate_redrive` of backend/app/ingestion/service.py: exactly which jobs may be redriven.
use mathlib.Core.Path.{subst}
use mathlib.Core.Option.{some-injective}
use intrusion_detect.Common.{
  Text, ap, ==_iff, ℕ, ◌≡◌, refl, ◌⊎◌, ◌↔◌, inl, inr, true, false, Option, none, some, arith,
}
use intrusion_detect.Schema.{FlowObservation}
use intrusion_detect.Store.{
  Environment, Store, IngestionJob, JobState, queued, processing, retrying, succeeded, dead_letter,
  extractor_incompatible, job_of_event, has_prediction, has_observation,
}
use intrusion_detect.Ingestion.Redrive.{
  CompatibilityCheck, still_leased, failure_refusal, dead_letter_refusal, state_refusal,
  evaluate_found, evaluate_redrive, Refusal, incompatible,
}

-- The check is there and does not raise.
abbrev pub Passes : CompatibilityCheck → FlowObservation → Type 0
Passes none payload = ⊥
Passes (some check) payload = check payload ≡ none

-- What the failure has to be like.
abbrev pub MayRetry : CompatibilityCheck → IngestionJob → Type 0
MayRetry check row =
    (row.retryable ≡ some true)
    ⊎ ((row.error_code ≡ some extractor_incompatible) × Passes check row.payload)

-- The conditions under which a job is taken out of the dead letters.
pub record IsEligible (env : Environment) (now : ℕ) (check : CompatibilityCheck) (event_id : ℕ)
    (db : Store) (row : IngestionJob) : Type 0 where
  pub found : job_of_event event_id db.jobs ≡ some row
  pub dead : row.state ≡ dead_letter
  pub free : still_leased now row.lease_expires_at ≡ false
  pub intact : env.payload_hash row.payload ≡ row.payload_hash
  pub unpredicted : has_prediction event_id db ≡ false
  pub unobserved : has_observation event_id db ≡ false
  pub may_retry : MayRetry check row

incompatible-none : (m : Option Text) → incompatible m ≡ none → m ≡ none
incompatible-none none e = refl
incompatible-none (some message) e = cc

failure_refusal-none :
    (check : CompatibilityCheck) (row : IngestionJob)
    → failure_refusal check row ≡ none
    → MayRetry check row
unfolding failure_refusal
failure_refusal-none none row e = inl (ground arith)
failure_refusal-none (some check) row e = ground (arith, incompatible-none (check row.payload))

failure_refusal_of :
    (check : CompatibilityCheck) (row : IngestionJob)
    → MayRetry check row
    → failure_refusal check row ≡ none
unfolding failure_refusal
failure_refusal_of none row (inl e) = ground arith
failure_refusal_of (some check) row (inl e) = ground arith
failure_refusal_of (some check) row (inr (e, passes)) = ground arith
failure_refusal_of none row (inr (e, passes)) = absurd passes

dead_letter_refusal-none :
    (env : Environment) (now : ℕ) (check : CompatibilityCheck) (event_id : ℕ) (db : Store)
    (row : IngestionJob)
    → dead_letter_refusal env now check event_id db row ≡ none
    → (still_leased now row.lease_expires_at ≡ false)
      × (env.payload_hash row.payload ≡ row.payload_hash)
      × (has_prediction event_id db ≡ false)
      × (has_observation event_id db ≡ false)
      × (failure_refusal check row ≡ none)
unfolding dead_letter_refusal
dead_letter_refusal-none env now check event_id db row e =
    (ground arith, ground arith, ground arith, ground arith, ground arith)

state_refusal-none :
    (env : Environment) (now : ℕ) (check : CompatibilityCheck) (event_id : ℕ) (db : Store)
    (row : IngestionJob) (s : JobState)
    → state_refusal env now check event_id db row s ≡ none
    → (s ≡ dead_letter) × (dead_letter_refusal env now check event_id db row ≡ none)
unfolding state_refusal
state_refusal-none env now check event_id db row dead_letter e = (refl, e)
state_refusal-none env now check event_id db row succeeded e = cc
state_refusal-none env now check event_id db row queued e = cc
state_refusal-none env now check event_id db row processing e = cc
state_refusal-none env now check event_id db row retrying e = cc

state_refusal_dead :
    (env : Environment) (now : ℕ) (check : CompatibilityCheck) (event_id : ℕ) (db : Store)
    (row : IngestionJob) (s : JobState)
    → s ≡ dead_letter
    → state_refusal env now check event_id db row s
      ≡ dead_letter_refusal env now check event_id db row
unfolding state_refusal
state_refusal_dead env now check event_id db row s e = rw e

evaluate_found-none :
    (env : Environment) (now : ℕ) (check : CompatibilityCheck) (event_id : ℕ) (db : Store)
    (found : Option IngestionJob) (row : IngestionJob)
    → evaluate_found env now check event_id db found ≡ (some row, none)
    → (found ≡ some row) × (state_refusal env now check event_id db row row.state ≡ none)
unfolding evaluate_found
evaluate_found-none env now check event_id db none row e =
    cc (ap (λ (r : Option IngestionJob × Option Refusal). r.0) e)
evaluate_found-none env now check event_id db (some found) row e =
    let same : some found ≡ some row = ap (λ (r : Option IngestionJob × Option Refusal). r.0) e in
    let refusal : state_refusal env now check event_id db found found.state ≡ none =
      ap (λ (r : Option IngestionJob × Option Refusal). r.1) e in
    (
      same,
      subst (λ r. state_refusal env now check event_id db r r.state ≡ none)
          (some-injective _ _ same) refusal,
    )

IsEligible-of :
    (env : Environment) (now : ℕ) (check : CompatibilityCheck) (event_id : ℕ) (db : Store)
    (row : IngestionJob)
    → evaluate_redrive env now check event_id db ≡ (some row, none)
    → IsEligible env now check event_id db row
unfolding evaluate_redrive
IsEligible-of env now check event_id db row e =
    let (found, refusal) =
      evaluate_found-none env now check event_id db (job_of_event event_id db.jobs) row e in
    let (dead, refusal') = state_refusal-none env now check event_id db row row.state refusal in
    let (free, intact, unpredicted, unobserved, last) =
      dead_letter_refusal-none env now check event_id db row refusal' in
    record {
      found = found;
      dead = dead;
      free = free;
      intact = intact;
      unpredicted = unpredicted;
      unobserved = unobserved;
      may_retry = failure_refusal-none check row last;
    }

of_eligible :
    (env : Environment) (now : ℕ) (check : CompatibilityCheck) (event_id : ℕ) (db : Store)
    (row : IngestionJob)
    → IsEligible env now check event_id db row
    → evaluate_redrive env now check event_id db ≡ (some row, none)
unfolding evaluate_redrive evaluate_found dead_letter_refusal
of_eligible env now check event_id db row h = rw h.found (
    rw (state_refusal_dead env now check event_id db row row.state h.dead) (
      rw (h.free, (==_iff _ _).1 h.intact, h.unpredicted, h.unobserved)
        (rw (failure_refusal_of check row h.may_retry) refl)))

-- An event is found eligible exactly if its job is a dead letter with no active lease, an intact
-- payload, no stored prediction or observation, and a failure that may be tried again: one that is
-- retryable, or an incompatible extractor that the check now lets through.
pub evaluate_redrive_iff :
    (env : Environment) (now : ℕ) (check : CompatibilityCheck) (event_id : ℕ) (db : Store)
    (row : IngestionJob)
    → (evaluate_redrive env now check event_id db ≡ (some row, none))
      ↔ IsEligible env now check event_id db row
evaluate_redrive_iff env now check event_id db row =
    (IsEligible-of env now check event_id db row, of_eligible env now check event_id db row)
