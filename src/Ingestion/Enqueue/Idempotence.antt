-- ===== src/Ingestion/Enqueue/Idempotence.antt =====
-- `enqueue_observations` of backend/app/ingestion/service.py: the promise of a committed batch, and
-- that the same batch may be sent again.
use mathlib.Core.Path.{subst}
use intrusion_detect.Common.{
  ℕ, suc, ◌+◌, ◌≤◌, ◌≡◌, refl, sym, ap, ◌∙◌, inl, inr, true, false, not, none, some, List, [], ◌∷◌,
  map, Text, arith, Option-cases, All, All-both, All-imp, ==-self, mem, length, count_if, is_some,
}
use intrusion_detect.Schema.{FlowObservation}
use intrusion_detect.Store.{Environment, Store, IngestionJob, job_of_event, job_of_id}
use intrusion_detect.Ingestion.Enqueue.{
  Prepared, prepare, new_by_id, ids, stored_digest, find_conflict, respond, disagrees, active_count,
  add_jobs, insert_new, enqueue_prepared, enqueue_observations, committed, BatchResponse,
  EnqueuedEvent,
}
use intrusion_detect.Ingestion.Enqueue.Fresh.{mem-new_by_id}
use intrusion_detect.Ingestion.Enqueue.Digests.{
  Agrees, find_conflict-Agrees, find_conflict-stored, find_conflict-again, digest_of-new_by_id,
}
use intrusion_detect.Ingestion.Enqueue.Insert.{
  active_count-add_jobs, add_jobs-keeps, stored_digest-add_jobs,
}
use intrusion_detect.Ingestion.Enqueue.Outcomes.{
  Commit, Commit-of, count-respond, is_accepted, accepted_count,
}

-- The answer names the events of the batch in their order.
respond-events :
    (jobs : List IngestionJob) (accepted_ids emitted : List ℕ) (ps : List Prepared)
    → map (λ (event : EnqueuedEvent). event.event_id) (respond jobs accepted_ids emitted ps)
      ≡ ids ps
unfolding respond
respond-events jobs accepted_ids emitted [] = refl
respond-events jobs accepted_ids emitted (p ∷ ps) =
    ground (arith, respond-events jobs accepted_ids (p.event_id ∷ emitted) ps)

stored_job_digest :
    (j : ℕ) (jobs : List IngestionJob)
    → is_some (stored_digest j jobs) ≡ is_some (job_of_event j jobs)
stored_job_digest j [] = refl
stored_job_digest j (row ∷ rows) = ground (arith, stored_job_digest j rows)

-- What is known of an entry once the batch has been checked and inserted.
entry_stored :
    (env : Environment) (now : ℕ) (ingestion_channel : Text) (prepared : List Prepared) (db : Store)
    (p : Prepared)
    → All (Agrees p.event_id p.digest) prepared
    → mem p.event_id (ids prepared) ≡ true
    → disagrees (stored_digest p.event_id db.jobs) p.digest ≡ false
    → stored_digest p.event_id
        (add_jobs env now
          (env.uuids db.draws)
          ingestion_channel
          (new_by_id db.jobs [] prepared)
          (record db { draws = suc db.draws })).jobs
      ≡ some p.digest
entry_stored env now ingestion_channel prepared db p agree among fine =
    stored_digest-add_jobs env now (env.uuids db.draws) ingestion_channel p.event_id
      (new_by_id db.jobs [] prepared) (record db { draws = suc db.draws })
    ∙ elim (Option-cases (job_of_event p.event_id db.jobs)) [
      | inl new ↦ ground (
        arith,
        stored_job_digest p.event_id db.jobs,
        new,
        digest_of-new_by_id db.jobs p.event_id p.digest [] prepared new agree (inr among),
      )
      | inr (row, old) ↦ ground (arith, stored_job_digest p.event_id db.jobs, old, fine)
    ]

All-stored :
    (env : Environment) (now : ℕ) (ingestion_channel : Text) (all : List Prepared) (db : Store)
    (seen ps : List Prepared)
    → ((p : Prepared) → mem p.event_id (ids ps) ≡ true → mem p.event_id (ids all) ≡ true)
    → All (λ p. All (Agrees p.event_id p.digest) all) ps
    → All (λ p. disagrees (stored_digest p.event_id db.jobs) p.digest ≡ false) ps
    → All
        (λ p.
          stored_digest p.event_id
            (add_jobs env now
              (env.uuids db.draws)
              ingestion_channel
              (new_by_id db.jobs [] all)
              (record db { draws = suc db.draws })).jobs
          ≡ some p.digest)
        ps
All-stored env now ingestion_channel all db seen [] sub agree fine = tt
All-stored env now ingestion_channel all db seen (p ∷ ps) sub agree fine = (
  entry_stored env now ingestion_channel all db p agree.0 (sub p (ground arith)) fine.0,
  All-stored env now ingestion_channel all db seen ps (λ q h. sub q (ground (arith, h))) agree.1
      fine.1,
)

-- In a batch without conflict any two entries of one event agree.
entries-Agree :
    (jobs : List IngestionJob) (seen ps : List Prepared)
    → find_conflict jobs seen ps ≡ none
    → All (λ p. All (Agrees p.event_id p.digest) ps) ps
entries-Agree jobs seen [] e = tt
entries-Agree jobs seen (p ∷ ps) e =
    let rest : find_conflict jobs (p ∷ seen) ps ≡ none = unfold find_conflict in ground arith in
    let later : All (Agrees p.event_id p.digest) ps =
      find_conflict-Agrees jobs p.event_id p.digest (p ∷ seen) ps rest (rw (==-self p.event_id)) in
    (
      ((λ same. refl), later),
      All-imp (λ q. Agrees p.event_id p.digest q × All (Agrees q.event_id q.digest) ps)
          (λ q. All (Agrees q.event_id q.digest) (p ∷ ps)) ps
          (λ q (h, k). ((λ same. sym (h (sym same))), k))
          (All-both (Agrees p.event_id p.digest) (λ q. All (Agrees q.event_id q.digest) ps) ps later
            (entries-Agree jobs (p ∷ seen) ps rest)),
    )

Commit-stored :
    (env : Environment) (now queue_limit : ℕ) (ingestion_channel : Text) (prepared : List Prepared)
    (db : Store) (response : BatchResponse) (db' : Store)
    → Commit env now queue_limit ingestion_channel prepared db response db'
    → All (λ p. stored_digest p.event_id db'.jobs ≡ some p.digest) prepared
Commit-stored env now queue_limit ingestion_channel prepared db response db' c =
    subst (λ s. All (λ p. stored_digest p.event_id s.jobs ≡ some p.digest) prepared)
      (sym c.inserted)
      (All-stored env now ingestion_channel prepared db [] prepared (λ p h. h)
        (entries-Agree db.jobs [] prepared c.agree)
        (find_conflict-stored db.jobs [] prepared c.agree))

mem-accepted :
    (jobs : List IngestionJob) (all ps : List Prepared)
    → ((j : ℕ) → mem j (ids ps) ≡ true → mem j (ids all) ≡ true)
    → All
        (λ p.
          mem p.event_id (ids (new_by_id jobs [] all))
          ≡ not (is_some (job_of_event p.event_id jobs)))
        ps
mem-accepted jobs all [] sub = tt
mem-accepted jobs all (p ∷ ps) sub = (
  ground (arith, mem-new_by_id p.event_id jobs [] all, sub p.event_id),
  mem-accepted jobs all ps (λ j h. sub j (ground (arith, h))),
)

-- The promise of a batch that is committed.
pub record Accepted (env : Environment) (queue_limit : ℕ) (observations : List FlowObservation)
    (db : Store) (response : BatchResponse) (db' : Store) : Type 0 where
  -- the queue stays within its capacity, and grew by what the answer accepted
  pub bounded : active_count db'.jobs ≤ queue_limit
  pub grown : active_count db'.jobs ≡ active_count db.jobs + accepted_count response
  -- one answer for each observation, in order
  pub answered :
      map (λ (event : EnqueuedEvent). event.event_id) response.events
      ≡ ids (map (prepare env) observations)
  -- every observation's payload is the one stored for its event
  pub stored :
      All (λ p. stored_digest p.event_id db'.jobs ≡ some p.digest) (map (prepare env) observations)
  -- no job that was there has changed
  pub kept :
      (j : ℕ) (row : IngestionJob)
      → job_of_id j db.jobs ≡ some row
      → job_of_id j db'.jobs ≡ some row

-- A batch that is committed leaves no more active jobs than the limit of the queue; their number
-- grew by the number of accepted answers; there is one answer for each observation, in order; the
-- digest stored for each event is the one of its observation; and no job that was there has
-- changed.
pub enqueue_observations_lem :
    (env : Environment) (now queue_limit : ℕ) (ingestion_channel : Text) (concurrent : List ℕ)
    (observations : List FlowObservation) (db : Store) (response : BatchResponse) (db' : Store)
    → enqueue_observations env now queue_limit ingestion_channel concurrent observations db
      ≡ committed response db'
    → Accepted env queue_limit observations db response db'
unfolding enqueue_observations
enqueue_observations_lem env now queue_limit ingestion_channel concurrent observations db response
      db' e =
    let prepared = map (prepare env) observations in
    let fresh = new_by_id db.jobs [] prepared in
    let c = Commit-of env now queue_limit ingestion_channel concurrent prepared db response db' e in
    let after : active_count db'.jobs ≡ active_count db.jobs + length fresh =
      ap (λ (s : Store). active_count s.jobs) c.inserted
      ∙ active_count-add_jobs env now (env.uuids db.draws) ingestion_channel fresh
          (record db { draws = suc db.draws }) in
    let counted : accepted_count response + 0 ≡ length fresh =
      ap (λ (es : List EnqueuedEvent). count_if is_accepted es + 0) c.answer
      ∙ count-respond db.jobs (ids fresh) [] [] prepared (λ j h. h) (λ j h. refl)
          (mem-accepted db.jobs prepared prepared (λ j h. h)) in
    record {
      bounded = omega (arith, after, c.room);
      grown = omega (arith, after, counted);
      answered =
          ap (map (λ (event : EnqueuedEvent). event.event_id)) c.answer
          ∙ respond-events db.jobs (ids fresh) [] prepared;
      stored = Commit-stored env now queue_limit ingestion_channel prepared db response db' c;
      kept = λ j row h.
          ap (λ (s : Store). job_of_id j s.jobs) c.inserted
          ∙ add_jobs-keeps env now (env.uuids db.draws) ingestion_channel j row fresh
              (record db { draws = suc db.draws }) h;
    }

nothing_new :
    (jobs : List IngestionJob) (ps : List Prepared)
    → All (λ p. stored_digest p.event_id jobs ≡ some p.digest) ps
    → new_by_id jobs [] ps ≡ []
unfolding new_by_id
nothing_new jobs [] h = refl
nothing_new jobs (p ∷ ps) h =
    ground (arith, stored_job_digest p.event_id jobs, h.0, nothing_new jobs ps h.1)

all_duplicates :
    (jobs : List IngestionJob) (emitted : List ℕ) (ps : List Prepared)
    → count_if is_accepted (respond jobs [] emitted ps) ≡ 0
unfolding respond
all_duplicates jobs emitted [] = refl
all_duplicates jobs emitted (p ∷ ps) = ground (arith, all_duplicates jobs (p.event_id ∷ emitted) ps)

-- A batch that was committed may be sent again, at any time, while the queue is not over its
-- limit: it is committed, accepts nothing, and leaves the jobs and their trail as they were.
pub enqueue_again :
    (env : Environment) (now later queue_limit limit' : ℕ) (ingestion_channel channel' : Text)
    (concurrent concurrent' : List ℕ) (observations : List FlowObservation) (db : Store)
    (response : BatchResponse) (db' : Store)
    → enqueue_observations env now queue_limit ingestion_channel concurrent observations db
      ≡ committed response db'
    → active_count db'.jobs ≤ limit'
    → (again : BatchResponse) × (db'' : Store) × (enqueue_observations env later limit' channel'
          concurrent' observations db'
        ≡ committed again db'')
      × (accepted_count again ≡ 0)
      × (db''.jobs ≡ db'.jobs)
      × (db''.transitions ≡ db'.transitions)
unfolding enqueue_observations enqueue_prepared insert_new add_jobs
enqueue_again env now later queue_limit limit' ingestion_channel channel' concurrent concurrent'
      observations db response db' e room =
    let prepared = map (prepare env) observations in
    let c = Commit-of env now queue_limit ingestion_channel concurrent prepared db response db' e in
    let stored = Commit-stored env now queue_limit ingestion_channel prepared db response db' c in
    (
      record { batch_id = env.uuids db'.draws; events = respond db'.jobs [] [] prepared },
      record db' { draws = suc db'.draws },
      rw (find_conflict-again db.jobs db'.jobs [] prepared c.agree stored, enqueue_prepared)
          (rw (nothing_new db'.jobs prepared stored) (ground arith)),
      all_duplicates db'.jobs [] prepared,
      refl,
      refl,
    )
