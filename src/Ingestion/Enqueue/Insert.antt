-- ===== src/Ingestion/Enqueue/Insert.antt =====
-- The insertions of `enqueue_observations` (backend/app/ingestion/service.py): the store stays
-- valid, and the table has the old rows and the new ones.
use mathlib.Core.Path.{subst}
use mathlib.Core.Option.{some-injective}
use intrusion_detect.Common.{
  ℕ, suc, ◌+◌, ◌≤◌, ◌≡◌, refl, sym, ap, ◌∙◌, ◌≢◌, inl, inr, false, none, some, List, [], ◌∷◌, ◌++◌,
  Text, arith, Bool-cases, All, mem, ◌==◌, if◌then◌else◌, ==_iff, length, is_some, count_if-append,
}
use intrusion_detect.Store.{Environment, Store, IngestionJob, queued, job_of_id, is_active}
use intrusion_detect.Store.Jobs.{
  job_of_id-insert, insert-UniqueIds, job_of_event-insert, insert-UniqueEvents,
}
use intrusion_detect.Store.Invariant.{
  HasShape, history, IsValid, AreDistinct, replay-append_other, replay-append_self,
}
use intrusion_detect.Ingestion.Enqueue.{
  Prepared, ids, new_job, add_job, add_jobs, active_count, stored_digest, digest_of,
}
use intrusion_detect.Ingestion.Enqueue.Fresh.{UniquePrepared, IsNew}

job_of_id-append :
    (j : ℕ) (rows : List IngestionJob) (new row : IngestionJob)
    → job_of_id j rows ≡ some row
    → job_of_id j (rows ++ new ∷ []) ≡ some row
job_of_id-append j [] new row h = cc
job_of_id-append j (head ∷ rows) new row h = ground (arith, job_of_id-append j rows new row)

stored_digest-insert :
    (j : ℕ) (rows : List IngestionJob) (new : IngestionJob)
    → stored_digest j (rows ++ new ∷ []) ≡ (
        if is_some (stored_digest j rows)
        then stored_digest j rows
        else if new.event_id == j
        then some new.payload_hash
        else none)
stored_digest-insert j [] new = ground arith
stored_digest-insert j (head ∷ rows) new = ground (arith, stored_digest-insert j rows new)

module _ (env : Environment) (now batch_id : ℕ) (ingestion_channel : Text) where
  abbrev job_for : Prepared → Store → IngestionJob
  job_for p db = new_job now (env.uuids db.draws) batch_id ingestion_channel p

  abbrev with_job : Prepared → Store → Store
  with_job p db = add_job env now batch_id ingestion_channel p db

  module _ (p : Prepared) (db : Store) (v : IsValid env db) where
    unused_now : job_of_id (env.uuids db.draws) db.jobs ≡ none
    unused_now = v.unused db.draws (omega arith)

    found_after :
        (j : ℕ)
        → job_of_id j (with_job p db).jobs
          ≡ (if env.uuids db.draws == j then some (job_for p db) else job_of_id j db.jobs)
    unfolding add_job
    found_after j = job_of_id-insert j db.jobs (job_for p db) unused_now

    shapes_after :
        (j : ℕ) (row : IngestionJob) → job_of_id j (with_job p db).jobs ≡ some row → HasShape row
    unfolding new_job
    shapes_after j row h = elim (Bool-cases (env.uuids db.draws == j)) [
      | inl same ↦
          subst HasShape (some-injective (job_for p db) row (sym (found_after j ∙ rw same) ∙ h))
            (refl, refl, refl, refl, refl, refl, refl)
      | inr other ↦ v.shapes j row (sym (found_after j ∙ rw other) ∙ h)
    ]

    history_self : history (env.uuids db.draws) (with_job p db) ≡ some (some queued)
    unfolding add_job
    history_self =
        replay-append_self (env.uuids db.draws) none none db.transitions _ refl
          (v.unheard db.draws (omega arith)) refl

    history_other : (j : ℕ) → env.uuids db.draws ≢ j → history j (with_job p db) ≡ history j db
    unfolding add_job
    history_other j ne = replay-append_other j none db.transitions _ ne

    audit_after :
        (j : ℕ) (row : IngestionJob)
        → job_of_id j (with_job p db).jobs ≡ some row
        → history j (with_job p db) ≡ some (some row.state)
    unfolding new_job
    audit_after j row h = elim (Bool-cases (env.uuids db.draws == j)) [
      | inl same ↦
          let e : env.uuids db.draws ≡ j = (==_iff _ _).0 same in
          let row' : job_for p db ≡ row =
            some-injective (job_for p db) row (sym (found_after j ∙ rw same) ∙ h) in
          ap (λ k. history k (with_job p db)) (sym e)
          ∙ history_self
          ∙ ap (λ (r : IngestionJob). some (some r.state)) row'
      | inr other ↦
          history_other j (λ e. ground (arith, other, e))
          ∙ v.audit j row (sym (found_after j ∙ rw other) ∙ h)
    ]

    unused_after :
        AreDistinct env
        → (n : ℕ) → suc (suc db.draws) ≤ n
        → job_of_id (env.uuids n) (with_job p db).jobs ≡ none
    unused_after distinct n h = elim (Bool-cases (env.uuids db.draws == env.uuids n)) [
      | inl same ↦ absurd (omega (arith, distinct db.draws n ((==_iff _ _).0 same)))
      | inr other ↦ found_after (env.uuids n) ∙ rw other (v.unused n (omega arith))
    ]

    add_job-IsValid : AreDistinct env → IsNew db.jobs p → IsValid env (with_job p db)
    unfolding add_job
    add_job-IsValid distinct new = record {
      ids = insert-UniqueIds db.jobs (job_for p db) unused_now v.ids;
      events = insert-UniqueEvents db.jobs (job_for p db) (unfold new_job in new) v.events;
      shapes = shapes_after;
      audit = audit_after;
      unused = unused_after distinct;
      unheard = λ n h.
          history_other (env.uuids n) (λ e. absurd (omega (arith, distinct db.draws n e)))
          ∙ v.unheard n (omega arith);
    }

  -- What is not in the table stays new beside another entry's row.
  still-IsNew :
      (p : Prepared) (ps : List Prepared) (db : Store)
      → IsNew db.jobs p
      → mem p.event_id (ids ps) ≡ false
      → All (IsNew db.jobs) ps
      → All (IsNew (with_job p db).jobs) ps
  unfolding add_job new_job
  still-IsNew p [] db new u h = tt
  still-IsNew p (q ∷ qs) db new u h = (
    job_of_event-insert q.event_id db.jobs (job_for p db) new ∙ ground (arith, u, h.0),
    still-IsNew p qs db new (ground (arith, u)) h.1,
  )

  pub add_jobs-IsValid :
      AreDistinct env
      → (ps : List Prepared) (db : Store) → IsValid env db
      → UniquePrepared ps
      → All (IsNew db.jobs) ps
      → IsValid env (add_jobs env now batch_id ingestion_channel ps db)
  unfolding add_jobs
  add_jobs-IsValid distinct [] db v u h = v
  add_jobs-IsValid distinct (p ∷ ps) db v u h =
      add_jobs-IsValid distinct ps (with_job p db) (add_job-IsValid p db v distinct h.0) u.1
        (still-IsNew p ps db h.0 u.0 h.1)

  pub active_count-add_jobs :
      (ps : List Prepared) (db : Store)
      → active_count (add_jobs env now batch_id ingestion_channel ps db).jobs
        ≡ active_count db.jobs + length ps
  unfolding add_jobs active_count
  active_count-add_jobs [] db = omega arith
  active_count-add_jobs (p ∷ ps) db = omega (
    arith,
    active_count-add_jobs ps (with_job p db),
    count_if-append (λ row. is_active row.state) db.jobs (job_for p db ∷ []),
  )

  -- An old row is found where it was.
  pub add_jobs-keeps :
      (j : ℕ) (row : IngestionJob) (ps : List Prepared) (db : Store)
      → job_of_id j db.jobs ≡ some row
      → job_of_id j (add_jobs env now batch_id ingestion_channel ps db).jobs ≡ some row
  unfolding add_jobs
  add_jobs-keeps j row [] db h = h
  add_jobs-keeps j row (p ∷ ps) db h =
      add_jobs-keeps j row ps (with_job p db) (job_of_id-append j db.jobs (job_for p db) row h)

  -- The digest that is stored for an event: a new entry's, or the one that was there.
  pub stored_digest-add_jobs :
      (j : ℕ) (ps : List Prepared) (db : Store)
      → stored_digest j (add_jobs env now batch_id ingestion_channel ps db).jobs
        ≡ (if is_some (stored_digest j db.jobs) then stored_digest j db.jobs else digest_of j ps)
  unfolding add_jobs new_job
  stored_digest-add_jobs j [] db = ground arith
  stored_digest-add_jobs j (p ∷ ps) db = ground (
    arith,
    stored_digest-add_jobs j ps (with_job p db),
    stored_digest-insert j db.jobs (job_for p db),
  )
