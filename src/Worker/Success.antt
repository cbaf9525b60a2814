-- ===== src/Worker/Success.antt =====
-- The first transaction of `process_one` (backend/app/ingestion/worker.py): what its commit holds.
use mathlib.Core.Path.{subst}
use intrusion_detect.Common.{
  ℕ, ◌≤◌, ◌<◌, ◌≡◌, refl, sym, ap, ◌∙◌, inl, inr, Option, some, List, [], ◌∷◌, ◌++◌, map, Text,
  arith, Option-cases, length,
}
use mathlib.Core.List.{append-nil, append_assoc, map-append}
use intrusion_detect.Errors.{Exception, ok, >>=-ok}
use intrusion_detect.Schema.{FlowObservation, fingerprint_of}
use intrusion_detect.Store.{
  Environment, Store, IngestionJob, JobState, queued, processing, retrying, succeeded, dead_letter,
  LiveEvent, OutboxEvent, job_of_id, move_job,
}
use intrusion_detect.Store.Jobs.{KeepsIdentity, IsStored, stamp}
use intrusion_detect.Store.Invariant.{Shape, IsValid, unchanged-IsValid}
use intrusion_detect.Store.Moves.{move_job-IsValid, job_of_id-move_self}
use intrusion_detect.Staging.{Services, StagedObservation, stage_observation}
use intrusion_detect.Staging.Effects.{ok-injective, Staged, stage_observation_lem}
use intrusion_detect.Worker.Attempt.{
  stored_observation, validate_extractor_compatibility, add_outbox, succeed_row, succeeded_change,
  process_job,
}

abbrev pub payloads : Store → List LiveEvent
payloads db = map (λ (e : OutboxEvent). e.payload) db.outbox

-- The tables that `add_outbox` leaves alone, and what it adds.
pub record Posted (events : List LiveEvent) (db db' : Store) : Type 0 where
  pub posted : payloads db' ≡ payloads db ++ events
  pub same_jobs : db'.jobs ≡ db.jobs
  pub same_trail : db'.transitions ≡ db.transitions
  pub same_observations : db'.observations ≡ db.observations
  pub same_predictions : db'.predictions ≡ db.predictions
  pub same_alerts : db'.alerts ≡ db.alerts
  pub drawn : db.draws ≤ db'.draws

add_outbox-Posted :
    (env : Environment) (now event_id : ℕ) (events : List LiveEvent) (db : Store)
    → Posted events db (add_outbox env now event_id events db)
unfolding add_outbox
add_outbox-Posted env now event_id [] db = record {
  posted = sym (append-nil (payloads db));
  same_jobs = refl;
  same_trail = refl;
  same_observations = refl;
  same_predictions = refl;
  same_alerts = refl;
  drawn = omega arith;
}
add_outbox-Posted env now event_id (event ∷ events) db =
    let p = add_outbox-Posted env now event_id events _ in
    record {
      posted = p.posted ∙ simp (map-append, append_assoc);
      same_jobs = p.same_jobs;
      same_trail = p.same_trail;
      same_observations = p.same_observations;
      same_predictions = p.same_predictions;
      same_alerts = p.same_alerts;
      drawn = omega (arith, p.drawn);
    }

pub succeed-KeepsIdentity : (now : ℕ) → KeepsIdentity (succeed_row now)
unfolding succeed_row
succeed-KeepsIdentity now = record { job = λ row. refl; event = λ row. refl }

pub processing-attempts :
    (row : IngestionJob) (s : JobState) → Shape row s → s ≡ processing → 0 < row.attempts
processing-attempts row processing h e = h.0
processing-attempts row queued h e = cc
processing-attempts row retrying h e = cc
processing-attempts row succeeded h e = cc
processing-attempts row dead_letter h e = cc

-- A commit of the first transaction: the observation is staged, its events are in the outbox, and
-- the job has succeeded, all in one.
pub record Succeeded (svc : Services) (now : ℕ) (worker_id : Text) (job : IngestionJob)
    (db db' : Store) : Type 0 where
  pub observation : FlowObservation
  pub read : stored_observation svc job.payload ≡ ok observation
  pub staged : StagedObservation
  pub between : Store
  pub effect : Staged svc now job.ingestion_channel observation db staged between
  pub observed : db'.observations ≡ between.observations
  pub predicted : db'.predictions ≡ between.predictions
  pub alerted : db'.alerts ≡ between.alerts
  pub posted : payloads db' ≡ payloads db ++ staged.events
  pub done : job_of_id job.job_id db'.jobs ≡ some (stamp now (succeed_row now job))
  pub valid : IsValid svc.environment db'

module _ (svc : Services) (now : ℕ) (worker_id : Text) (job : IngestionJob) (db : Store)
    (v : IsValid svc.environment db) (found : IsStored db.jobs job)
    (running : job.state ≡ processing) where
  Succeeded-of :
      (o : FlowObservation) (staged : StagedObservation) (between : Store)
      → stored_observation svc job.payload ≡ ok o
      → Staged svc now job.ingestion_channel o db staged between
      → Succeeded svc now worker_id job db (
          move_job svc.environment now job
            (succeeded_change worker_id (length staged.events))
            (succeed_row now)
            (add_outbox svc.environment now o.event_id staged.events between))
  unfolding succeed_row
  Succeeded-of o staged between read effect =
      let base = add_outbox svc.environment now o.event_id staged.events between in
      let p = add_outbox-Posted svc.environment now o.event_id staged.events between in
      let found' : IsStored base.jobs job =
        ap (job_of_id job.job_id) (p.same_jobs ∙ effect.same_jobs) ∙ found in
      let v' : IsValid svc.environment base =
        unchanged-IsValid svc.environment db base (p.same_jobs ∙ effect.same_jobs)
          (p.same_trail ∙ effect.same_trail) (omega (arith, p.drawn, effect.drawn)) v in
      record {
        observation = o;
        read = read;
        staged = staged;
        between = between;
        effect = effect;
        observed = unfold move_job in p.same_observations;
        predicted = unfold move_job in p.same_predictions;
        alerted = unfold move_job in p.same_alerts;
        posted =
            unfold move_job in
            (p.posted
              ∙ ap
                  (λ (es : List OutboxEvent).
                    map (λ (e : OutboxEvent). e.payload) es ++ staged.events)
                  effect.same_outbox);
        done =
            job_of_id-move_self svc.environment now job
              (succeeded_change worker_id (length staged.events)) (succeed_row now)
              (succeed-KeepsIdentity now) base found';
        valid =
            move_job-IsValid svc.environment now job
              (succeeded_change worker_id (length staged.events)) (succeed_row now)
              (succeed-KeepsIdentity now) base v'
              (record {
                found = found';
                from = ap some (sym running);
                to = refl;
                shape = (
                  processing-attempts job job.state (v.shapes job.job_id job found) running,
                  refl,
                  refl,
                  λ e. cc,
                  refl,
                  refl,
                  refl,
                );
              });
      }

  -- When the transaction of a stored job in processing, on a valid store, commits, then the
  -- payload was a valid observation; the store has its observation, its prediction and, exactly
  -- for an attack, an alert; the outbox has grown by the events of the staging; the job has
  -- succeeded; and the store is valid.
  pub process_job_lem :
      (commit_error : Option Exception) (db' : Store)
      → process_job svc now worker_id commit_error job db ≡ ok db'
      → Succeeded svc now worker_id job db db'
  unfolding process_job
  process_job_lem commit_error db' e =
      let (o, read, more) = >>=-ok (stored_observation svc job.payload) _ e in
      let (_, routed, rest) =
        >>=-ok
          (validate_extractor_compatibility svc.formatting svc.registry o.schema_version
            (fingerprint_of o.network_context))
          _ more in
      let (result, staging, last) =
        >>=-ok (stage_observation svc now job.ingestion_channel o db) _ rest in
      elim (Option-cases commit_error) [
        | inl fine ↦
            subst (Succeeded svc now worker_id job db) (ok-injective _ db' (rw fine at last)) (
              Succeeded-of o result.0 result.1 read (
                stage_observation_lem svc now job.ingestion_channel o db result.0 result.1 staging))
        | inr (error, bad) ↦ cc (rw bad at last)
      ]
