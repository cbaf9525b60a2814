-- ===== src/Ingestion/Enqueue.antt =====
-- `enqueue_observations` of backend/app/ingestion/service.py.
--
-- `concurrent` are the event ids that other transactions committed after this one had read the
-- table: the unique index turns an insertion of one of them into `IntegrityError`. Python's
-- dictionaries keep insertion order, and an assignment to a key that is there keeps its place.
pub mod Fresh
pub mod Digests
pub mod Insert
pub mod Outcomes
pub mod Idempotence
use intrusion_detect.Common.{
  ℕ, suc, ◌+◌, Bool, false, not, ◌&&◌, Option, none, some, List, [], ◌∷◌, ◌++◌, map, Text, ◌==◌,
  ltb, if◌then◌else◌, count_if, length, any, mem, is_some,
}
use intrusion_detect.Schema.{FlowObservation}
use intrusion_detect.Store.{
  Environment, Store, IngestionJob, JobState, queued, is_active, enqueued, no_details, job_of_event,
  record_transition, Change,
}

pub data EnqueueError : Type 0 where
  conflict_in_batch conflict_with_stored : ℕ → EnqueueError
  queue_full : (active_count queue_limit : ℕ) → EnqueueError
  concurrently_enqueued : EnqueueError

pub data Disposition : Type 0 where
  accepted duplicate : Disposition

pub record EnqueuedEvent : Type 0 where
  pub event_id : ℕ
  pub state : JobState
  pub disposition : Disposition

pub record BatchResponse : Type 0 where
  pub batch_id : ℕ
  pub events : List EnqueuedEvent

-- An entry of `prepared`.
pub record Prepared : Type 0 where
  pub event_id : ℕ
  pub payload : FlowObservation
  pub digest : ℕ

unfoldable pub prepare : Environment → FlowObservation → Prepared
prepare env item = record {
  event_id = item.event_id;
  payload = item;
  digest = env.payload_hash item;
}

abbrev pub digest_of : ℕ → List Prepared → Option ℕ
digest_of event_id [] = none
digest_of event_id (p ∷ ps) =
    let rest = digest_of event_id ps in if p.event_id == event_id then some p.digest else rest

-- `found is not None and found != digest`
abbrev pub disagrees : Option ℕ → ℕ → Bool
disagrees none digest = false
disagrees (some found) digest = not (found == digest)

abbrev pub stored_digest : ℕ → List IngestionJob → Option ℕ
stored_digest event_id [] = none
stored_digest event_id (row ∷ rows) =
    let rest = stored_digest event_id rows in
    if row.event_id == event_id then some row.payload_hash else rest

-- The loop that raises `IdempotencyConflictError`; `seen` holds the entries passed so far.
unfoldable pub find_conflict :
    List IngestionJob → List Prepared → List Prepared → Option EnqueueError
find_conflict jobs seen [] = none
find_conflict jobs seen (p ∷ ps) =
    let rest = find_conflict jobs (p ∷ seen) ps in
    if disagrees (digest_of p.event_id seen) p.digest
    then some (conflict_in_batch p.event_id)
    else if disagrees (stored_digest p.event_id jobs) p.digest
    then some (conflict_with_stored p.event_id)
    else rest

-- `d[event_id] = …`
unfoldable pub put : Prepared → List Prepared → List Prepared
put p [] = p ∷ []
put p (q ∷ qs) = if q.event_id == p.event_id then p ∷ qs else q ∷ put p qs

-- `new_by_id`
unfoldable pub new_by_id : List IngestionJob → List Prepared → List Prepared → List Prepared
unfolding put
new_by_id jobs acc [] = acc
new_by_id jobs acc (p ∷ ps) =
    new_by_id jobs (if is_some (job_of_event p.event_id jobs) then acc else put p acc) ps

unfoldable pub active_count : List IngestionJob → ℕ
active_count jobs = count_if (λ row. is_active row.state) jobs

-- A row as `IngestionJob(...)` makes it, with the column defaults.
unfoldable pub new_job : ℕ → ℕ → ℕ → Text → Prepared → IngestionJob
new_job now job_id batch_id ingestion_channel p = record {
  job_id = job_id;
  batch_id = batch_id;
  event_id = p.event_id;
  payload_hash = p.digest;
  payload = p.payload;
  ingestion_channel = ingestion_channel;
  state = queued;
  attempts = 0;
  available_at = now;
  lease_expires_at = none;
  worker_id = none;
  last_error = none;
  error_code = none;
  retryable = none;
  redrive_count = 0;
  last_redriven_at = none;
  last_redriven_by = none;
  last_redrive_reason = none;
  created_at = now;
  updated_at = now;
  completed_at = none;
}

abbrev pub enqueued_change : Change
enqueued_change = record {
  from_state = none;
  to_state = queued;
  reason_code = enqueued;
  error_code = none;
  retryable = none;
  worker_id = none;
  operator = none;
  reason = none;
  details = no_details;
}

unfoldable pub add_job : Environment → ℕ → ℕ → Text → Prepared → Store → Store
unfolding new_job record_transition
add_job env now batch_id ingestion_channel p db =
    let job = new_job now (env.uuids db.draws) batch_id ingestion_channel p in
    record_transition env now job enqueued_change
      (record db { jobs = db.jobs ++ job ∷ []; draws = suc db.draws })

unfoldable pub add_jobs : Environment → ℕ → ℕ → Text → List Prepared → Store → Store
unfolding add_job
add_jobs env now batch_id ingestion_channel [] db = db
add_jobs env now batch_id ingestion_channel (p ∷ ps) db =
    add_jobs env now batch_id ingestion_channel ps (add_job env now batch_id ingestion_channel p db)

abbrev pub stored_state : ℕ → List IngestionJob → JobState
stored_state event_id [] = queued
stored_state event_id (row ∷ rows) =
    let rest = stored_state event_id rows in if row.event_id == event_id then row.state else rest

-- The loop that builds the response.
unfoldable pub respond : List IngestionJob → List ℕ → List ℕ → List Prepared → List EnqueuedEvent
respond existing accepted_ids emitted [] = []
respond existing accepted_ids emitted (p ∷ ps) =
    (if mem p.event_id accepted_ids && not (mem p.event_id emitted)
      then record { event_id = p.event_id; state = queued; disposition = accepted }
      else record {
        event_id = p.event_id;
        state = stored_state p.event_id existing;
        disposition = duplicate;
      })
    ∷ respond existing accepted_ids (p.event_id ∷ emitted) ps

pub data Outcome : Type 0 where
  committed : BatchResponse → Store → Outcome
  raised : EnqueueError → Outcome

abbrev pub ids : List Prepared → List ℕ
ids = map (λ p. p.event_id)

abbrev pub any_mem : List ℕ → List ℕ → Bool
any_mem concurrent = any (λ event_id. mem event_id concurrent)

-- After the checks: insert, commit and answer.
unfoldable pub insert_new :
    Environment → ℕ → ℕ → Text → List ℕ → List Prepared → List Prepared → Store → Outcome
unfolding add_jobs respond
insert_new env now queue_limit ingestion_channel concurrent fresh prepared db =
    let batch_id = env.uuids db.draws in
    if ltb queue_limit (active_count db.jobs + length fresh)
    then raised (queue_full (active_count db.jobs) queue_limit)
    else if any_mem concurrent (ids fresh)
    then raised concurrently_enqueued
    else committed
        (record { batch_id = batch_id; events = respond db.jobs (ids fresh) [] prepared })
        (add_jobs env now batch_id ingestion_channel fresh (record db { draws = suc db.draws }))

unfoldable pub enqueue_prepared :
    Environment → ℕ → ℕ → Text → List ℕ → List Prepared → Store → Outcome
unfolding find_conflict new_by_id insert_new
enqueue_prepared env now queue_limit ingestion_channel concurrent prepared db =
    elim (find_conflict db.jobs [] prepared) [
      | some conflict ↦ raised conflict
      | none ↦
          insert_new env now queue_limit ingestion_channel concurrent
            (new_by_id db.jobs [] prepared) prepared db
    ]

-- `observations`, the session's store and the outcome of the call.
unfoldable pub enqueue_observations :
    Environment → ℕ → ℕ → Text → List ℕ → List FlowObservation → Store → Outcome
unfolding prepare enqueue_prepared
enqueue_observations env now queue_limit ingestion_channel concurrent observations db =
    enqueue_prepared env now queue_limit ingestion_channel concurrent
      (map (prepare env) observations) db
