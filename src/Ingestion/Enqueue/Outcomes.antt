-- ===== src/Ingestion/Enqueue/Outcomes.antt =====
-- `enqueue_observations` of backend/app/ingestion/service.py as a whole: what a batch that is
-- committed has done, and that it may be sent again.
use mathlib.Core.Path.{subst}
use intrusion_detect.Common.{
  ℕ, suc, ◌+◌, ◌≤◌, ◌≡◌, refl, sym, inl, inr, Bool, true, false, not, none, List, [], ◌∷◌, map,
  Text, arith, Option-cases, All, mem, if◌then◌else◌, length, count_if, is_some,
}
use intrusion_detect.Schema.{FlowObservation}
use intrusion_detect.Store.{Environment, Store, IngestionJob, job_of_event}
use intrusion_detect.Store.Invariant.{IsValid, AreDistinct, unchanged-IsValid}
use intrusion_detect.Ingestion.Enqueue.{
  Prepared, prepare, put, new_by_id, ids, find_conflict, respond, active_count, add_jobs,
  insert_new, enqueue_prepared, enqueue_observations, committed, BatchResponse, EnqueuedEvent,
  accepted, duplicate,
}
use intrusion_detect.Ingestion.Enqueue.Fresh.{new_by_id-IsNew, new_by_id-UniquePrepared, mem-put}
use intrusion_detect.Ingestion.Enqueue.Insert.{add_jobs-IsValid}

-- What is known of a commit: no conflict, room in the queue, and the insertions as they stand.
pub record Commit (env : Environment) (now queue_limit : ℕ) (ingestion_channel : Text)
    (prepared : List Prepared) (db : Store) (response : BatchResponse) (db' : Store) : Type 0 where
  pub agree : find_conflict db.jobs [] prepared ≡ none
  pub room : active_count db.jobs + length (new_by_id db.jobs [] prepared) ≤ queue_limit
  pub answer : response.events ≡ respond db.jobs (ids (new_by_id db.jobs [] prepared)) [] prepared
  pub inserted :
      db'
      ≡ add_jobs env now
          (env.uuids db.draws)
          ingestion_channel
          (new_by_id db.jobs [] prepared)
          (record db { draws = suc db.draws })

insert_new_inv :
    (env : Environment) (now queue_limit : ℕ) (ingestion_channel : Text) (concurrent : List ℕ)
    (fresh prepared : List Prepared) (db : Store) (response : BatchResponse) (db' : Store)
    → insert_new env now queue_limit ingestion_channel concurrent fresh prepared db
      ≡ committed response db'
    → (active_count db.jobs + length fresh ≤ queue_limit)
      × (response.events ≡ respond db.jobs (ids fresh) [] prepared)
      × (db'
          ≡ add_jobs env now
              (env.uuids db.draws)
              ingestion_channel
              fresh
              (record db { draws = suc db.draws }))
unfolding insert_new
insert_new_inv env now queue_limit ingestion_channel concurrent fresh prepared db response db' e =
    (ground arith, ground arith, ground arith)

pub Commit-of :
    (env : Environment) (now queue_limit : ℕ) (ingestion_channel : Text) (concurrent : List ℕ)
    (prepared : List Prepared) (db : Store) (response : BatchResponse) (db' : Store)
    → enqueue_prepared env now queue_limit ingestion_channel concurrent prepared db
      ≡ committed response db'
    → Commit env now queue_limit ingestion_channel prepared db response db'
unfolding enqueue_prepared
Commit-of env now queue_limit ingestion_channel concurrent prepared db response db' e =
    elim (Option-cases (find_conflict db.jobs [] prepared)) [
      | inl agree ↦
          let (room, answer, inserted) =
            insert_new_inv env now queue_limit ingestion_channel concurrent
              (new_by_id db.jobs [] prepared) prepared db response db'
              (rw (agree, enqueue_prepared) at e) in
          record { agree = agree; room = room; answer = answer; inserted = inserted }
      | inr (conflict, clash) ↦ ground arith
    ]

-- Where the fresh identifiers are pairwise different, a batch that is committed to a valid store
-- leaves a valid store: unique keys and events, rows that agree with their states, and an audit
-- trail for each job that is linked and ends in its state.
pub enqueue_observations-IsValid :
    (env : Environment) (now queue_limit : ℕ) (ingestion_channel : Text) (concurrent : List ℕ)
    (observations : List FlowObservation) (db : Store) (response : BatchResponse) (db' : Store)
    → AreDistinct env
    → IsValid env db
    → enqueue_observations env now queue_limit ingestion_channel concurrent observations db
      ≡ committed response db'
    → IsValid env db'
unfolding enqueue_observations
enqueue_observations-IsValid env now queue_limit ingestion_channel concurrent observations db
      response db' distinct v e =
    let prepared = map (prepare env) observations in
    let c = Commit-of env now queue_limit ingestion_channel concurrent prepared db response db' e in
    subst (IsValid env) (sym c.inserted) (
      add_jobs-IsValid env now (env.uuids db.draws) ingestion_channel distinct
        (new_by_id db.jobs [] prepared) (record db { draws = suc db.draws })
        (unchanged-IsValid env db (record db { draws = suc db.draws }) refl refl (omega arith) v)
        (new_by_id-UniquePrepared db.jobs [] prepared tt) (new_by_id-IsNew db.jobs [] prepared tt))

abbrev pub is_accepted : EnqueuedEvent → Bool
is_accepted event = elim event.disposition [ accepted ↦ true | duplicate ↦ false ]

-- How many events of a response were accepted.
abbrev pub accepted_count : BatchResponse → ℕ
accepted_count response = count_if is_accepted response.events

length-put :
    (p : Prepared) (ps : List Prepared)
    → length (put p ps) ≡ (if mem p.event_id (ids ps) then length ps else length ps + 1)
unfolding put
length-put p [] = refl
length-put p (q ∷ qs) = ground (arith, length-put p qs)

-- The loop of the response counts what `new_by_id` collects, from any point on.
pub count-respond :
    (jobs : List IngestionJob) (accepted_ids emitted : List ℕ) (acc ps : List Prepared)
    → ((j : ℕ) → mem j (ids acc) ≡ true → mem j emitted ≡ true)
    → ((j : ℕ) → job_of_event j jobs ≡ none → mem j emitted ≡ mem j (ids acc))
    → All (λ p. mem p.event_id accepted_ids ≡ not (is_some (job_of_event p.event_id jobs))) ps
    → count_if is_accepted (respond jobs accepted_ids emitted ps) + length acc
      ≡ length (new_by_id jobs acc ps)
unfolding respond new_by_id
count-respond jobs accepted_ids emitted acc [] sub same h = omega arith
count-respond jobs accepted_ids emitted acc (p ∷ ps) sub same h =
    elim (Option-cases (job_of_event p.event_id jobs)) [
      | inl new ↦ rw new (
          ground (
            arith,
            count-respond jobs accepted_ids (p.event_id ∷ emitted) (put p acc) ps
                (λ j e. ground (arith, sub j, mem-put j p acc, e))
                (λ j e. ground (arith, same j e, mem-put j p acc)) h.1,
            h.0,
            new,
            same p.event_id new,
            length-put p acc,
          ))
      | inr (row, old) ↦ rw old (
          ground (
            arith,
            count-respond jobs accepted_ids (p.event_id ∷ emitted) acc ps
                (λ j e. ground (arith, sub j e)) (λ j e. ground (arith, same j e, old, e)) h.1,
            h.0,
            old,
          ))
    ]
